-- ===== src/WsClient/Delivery.antt =====
-- Which results a request can be given, and that a request is given them.
use mathlib.Core.Path.{subst}
use web3_rpc_proxy.Prelude.{
  ℕ, String, ◌≡◌, sym, some, List, ◌==◌, nat_comparable, string_comparable, nat_beq_iff, eq_iff,
  arith, Option-cases, Bool-cases, inl, inr,
}
use web3_rpc_proxy.Prelude.Dict.{lookup, lookup-insert, lookup-remove}
use web3_rpc_proxy.Rpc.{Reply}
use web3_rpc_proxy.WsClient.{Ending, answered, closed, late, unsent}
use web3_rpc_proxy.WsClient.Sessions.{
  Phase, waiting, leaving, finished, Client, new_client, at, started, received, handed, ended, left,
  stopped, reconnected, Step, starts, receives, hands, sees_closed, times_out, fails, leaves,
  panics, breaks, reconnects, Reach, here, next,
}

module _ (key : ℕ → String) (result_key : List Reply → String) where
  abbrev pub EndingOwn : ℕ → Ending → Type 0
  EndingOwn i (answered rs) = result_key rs ≡ key i
  EndingOwn i _ = Unit

  abbrev pub PhaseOwn : ℕ → Phase → Type 0
  PhaseOwn i (leaving e) = EndingOwn i e
  PhaseOwn i (finished e) = EndingOwn i e
  PhaseOwn i _ = Unit

  pub record Own (s : Client) : Type 0 where
    pub sessions_own : (k : String) (c : ℕ) → lookup k s.sessions ≡ some c → key c ≡ k
    pub held_own : (c : ℕ) (rs : List Reply) → s.holding ≡ some (c, rs) → result_key rs ≡ key c
    pub given_own : (i : ℕ) → PhaseOwn i (s.phase i)

  at_own :
      (f : ℕ → Phase) (i j : ℕ) (p : Phase)
      → PhaseOwn i p
      → PhaseOwn j (f j)
      → PhaseOwn j (at i p f j)
  at_own f i j p h k = elim (Bool-cases (i == j)) [
    | inl e ↦ rw e (subst (λ n. PhaseOwn n p) ((nat_beq_iff i j).0 e) h)
    | inr e ↦ rw e k
  ]

  moved-Own :
      (i : ℕ) (p : Phase) (s : Client)
      → PhaseOwn i p
      → Own s
      → Own (record s { phase = at i p s.phase })
  moved-Own i p s h v = record {
    sessions_own = v.sessions_own;
    held_own = v.held_own;
    given_own = λ j. at_own s.phase i j p h (v.given_own j);
  }

  ended-Own :
      (i : ℕ) (e : Ending) (s : Client) → EndingOwn i e → Own s → Own (ended key result_key i e s)
  unfolding ended
  ended-Own i e s h v = moved-Own i (leaving e) s h v

  phase_at : (i : ℕ) (s : Client) {p : Phase} → s.phase i ≡ p → Own s → PhaseOwn i p
  phase_at i s h v = subst (PhaseOwn i) h (v.given_own i)

  left-Own :
      (i : ℕ) (e : Ending) (s : Client)
      → s.phase i ≡ leaving e
      → Own s
      → Own (left key result_key i e s)
  unfolding left
  left-Own i e s h v = elim (Option-cases (lookup (key i) s.sessions)) [
    | inl n ↦ rw (n, left) (moved-Own i (finished e) s (phase_at i s h v) v)
    | inr (c, n) ↦
        rw (n, left)
          (record {
            sessions_own =
                λ k d g. v.sessions_own k d (ground (arith, g, lookup-remove k (key i) s.sessions));
            held_own = v.held_own;
            given_own = λ j. at_own s.phase i j (finished e) (phase_at i s h v) (v.given_own j);
          })
  ]

  started-Own : (i : ℕ) (s : Client) → Own s → Own (started key result_key i s)
  unfolding started
  started-Own i s v = record {
    sessions_own = λ k c g.
        ground
          (arith, g, v.sessions_own k c, lookup-insert k (key i) i s.sessions, eq_iff (key i) k);
    held_own = v.held_own;
    given_own = λ j. at_own s.phase i j waiting tt (v.given_own j);
  }

  received-Own : (rs : List Reply) (s : Client) → Own s → Own (received key result_key rs s)
  unfolding received
  received-Own rs s v = elim (Option-cases (lookup (result_key rs) s.sessions)) [
    | inl n ↦ rw (n, received) v
    | inr (c, n) ↦
        rw (n, received)
          (record {
            sessions_own = v.sessions_own;
            held_own = λ d qs g. ground (arith, g, v.sessions_own (result_key rs) c n);
            given_own = v.given_own;
          })
  ]

  handed-Own :
      (i : ℕ) (rs : List Reply) (s : Client)
      → s.holding ≡ some (i, rs)
      → Own s
      → Own (handed key result_key i rs s)
  unfolding handed
  handed-Own i rs s h v = record {
    sessions_own = v.sessions_own;
    held_own = λ c qs g. absurd (cc g);
    given_own = λ j. at_own s.phase i j (leaving (answered rs)) (v.held_own i rs h) (v.given_own j);
  }

  stopped-Own : (s : Client) → Own s → Own (stopped key result_key s)
  unfolding stopped
  stopped-Own s v = record {
    sessions_own = v.sessions_own;
    held_own = λ c qs g. absurd (cc g);
    given_own = v.given_own;
  }

  reconnected-Own : (s : Client) → Own s → Own (reconnected key result_key s)
  unfolding reconnected
  reconnected-Own s v = record {
    sessions_own = v.sessions_own;
    held_own = λ c qs g. absurd (cc g);
    given_own = v.given_own;
  }

  Step-Own : {s t : Client} → Step key result_key s t → Own s → Own t
  Step-Own {s} (starts i h e) v = subst Own (sym e) (started-Own i s v)
  Step-Own {s} (receives rs a h e) v = subst Own (sym e) (received-Own rs s v)
  Step-Own {s} (hands i rs h w o e) v = subst Own (sym e) (handed-Own i rs s h v)
  Step-Own {s} (sees_closed i w o e) v = subst Own (sym e) (ended-Own i closed s tt v)
  Step-Own {s} (times_out i w e) v = subst Own (sym e) (ended-Own i late s tt v)
  Step-Own {s} (fails i text w e) v = subst Own (sym e) (ended-Own i (unsent text) s tt v)
  Step-Own {s} (leaves i x w e) v = subst Own (sym e) (left-Own i x s w v)
  Step-Own {s} (breaks a h e) v = subst Own (sym e) (stopped-Own s v)
  Step-Own {s} (reconnects h e) v = subst Own (sym e) (reconnected-Own s v)
  Step-Own {s} (panics i rs h o e) v = subst Own (sym e) (stopped-Own s v)

  pub new_client-Own : Own new_client
  new_client-Own = record {
    sessions_own = unfold lookup in λ k c g. absurd (cc g);
    held_own = λ c rs g. absurd (cc g);
    given_own = λ i. tt;
  }

  pub Reach-Own : {s t : Client} → Own s → Reach key result_key s t → Own t
  Reach-Own v here = v
  Reach-Own v (next r st) = Step-Own st (Reach-Own v r)

  -- However the requests, the messages, the timeouts and the failures of one connection interleave: the
  -- results that a request ends with have the key of the request.
  pub Reach-answered :
      (s : Client) (i : ℕ) (rs : List Reply)
      → Reach key result_key new_client s
      → s.phase i ≡ finished (answered rs)
      → result_key rs ≡ key i
  Reach-answered s i rs r h = phase_at i s h (Reach-Own new_client-Own r)
