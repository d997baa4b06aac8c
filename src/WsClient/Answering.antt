-- ===== src/WsClient/Answering.antt =====
-- Requests with keys of their own: none finds its channel closed, and each that waits can be answered.
use mathlib.Core.Path.{subst}
use web3_rpc_proxy.Prelude.{
  ℕ, String, ◌≡◌, ◌≢◌, refl, sym, ◌∙◌, Bool, true, false, none, some, List, nat_comparable,
  string_comparable, nat_beq_iff, eq_iff, arith, Option-cases, inl, inr,
}
use web3_rpc_proxy.Prelude.Dict.{lookup, lookup-insert, lookup-remove}
use web3_rpc_proxy.Rpc.{Reply}
use web3_rpc_proxy.WsClient.{Ending, answered, closed, late, unsent}
use web3_rpc_proxy.WsClient.Moves.{at_same, received-some, left_phase, left_reader}
use web3_rpc_proxy.WsClient.Sessions.{
  Phase, idle, waiting, leaving, finished, Client, new_client, at, started, received, handed, ended,
  left, stopped, reconnected, Step, starts, receives, hands, sees_closed, times_out, fails, leaves,
  panics, breaks, reconnects, Reach, here, next,
}

abbrev is_active : Phase → Bool
is_active waiting = true
is_active (leaving e) = true
is_active _ = false

abbrev is_finished : Phase → Bool
is_finished (finished e) = true
is_finished _ = false

abbrev is_closed_ending : Ending → Bool
is_closed_ending closed = true
is_closed_ending _ = false

abbrev finds_closed : Phase → Bool
finds_closed (leaving e) = is_closed_ending e
finds_closed (finished e) = is_closed_ending e
finds_closed _ = false

module _ (key : ℕ → String) (result_key : List Reply → String)
    (distinct : (i j : ℕ) → key i ≡ key j → i ≡ j) where
  pub record Served (s : Client) : Type 0 where
    pub found : (i : ℕ) → is_active (s.phase i) ≡ true → lookup (key i) s.sessions ≡ some i
    pub done : (i : ℕ) → s.is_closed i ≡ true → is_finished (s.phase i) ≡ true
    pub never : (i : ℕ) → finds_closed (s.phase i) ≡ false

  moved-Served :
      (i : ℕ) (p : Phase) (s : Client)
      → is_active (s.phase i) ≡ true
      → finds_closed p ≡ false
      → is_finished (s.phase i) ≡ false
      → Served s
      → Served (record s { phase = at i p s.phase })
  moved-Served i p s a c f v = record {
    found = λ j h. ground (arith, h, a, v.found j, v.found i, nat_beq_iff i j);
    done = λ j h. ground (arith, h, f, v.done j, v.done i, nat_beq_iff i j);
    never = λ j. ground (arith, c, v.never j);
  }

  started-Served :
      (i : ℕ) (s : Client) → s.phase i ≡ idle → Served s → Served (started key result_key i s)
  unfolding started
  started-Served i s h v = record {
    found = λ j g. ground (
      arith,
      g,
      h,
      v.found j,
      nat_beq_iff i j,
      eq_iff (key i) (key j),
      distinct i j,
      lookup-insert (key j) (key i) i s.sessions,
    );
    done = λ j g. ground (arith, g, h, v.done j, v.done i, nat_beq_iff i j);
    never = λ j. ground (arith, v.never j);
  }

  left-Served :
      (i : ℕ) (e : Ending) (s : Client)
      → s.phase i ≡ leaving e
      → Served s
      → Served (left key result_key i e s)
  unfolding left
  left-Served i e s h v =
      let n = v.found i (ground (arith, h)) in
      rw (n, left)
        (record {
          found = λ j g. ground (
            arith,
            g,
            h,
            v.found j,
            nat_beq_iff i j,
            eq_iff (key i) (key j),
            distinct i j,
            lookup-remove (key j) (key i) s.sessions,
          );
          done = λ j g. ground (arith, g, h, v.done j, nat_beq_iff i j);
          never = λ j. ground (arith, h, v.never i, v.never j);
        })

  received-Served :
      (rs : List Reply) (s : Client) → Served s → Served (received key result_key rs s)
  unfolding received
  received-Served rs s v = elim (Option-cases (lookup (result_key rs) s.sessions)) [
    | inl n ↦ rw (n, received) v
    | inr (c, n) ↦ rw (n, received) (record { found = v.found; done = v.done; never = v.never })
  ]

  ended-Served :
      (i : ℕ) (e : Ending) (s : Client)
      → s.phase i ≡ waiting
      → is_closed_ending e ≡ false
      → Served s
      → Served (ended key result_key i e s)
  unfolding ended
  ended-Served i e s h c v =
      moved-Served i (leaving e) s (ground (arith, h)) c (ground (arith, h)) v

  handed-Served :
      (i : ℕ) (rs : List Reply) (s : Client)
      → s.phase i ≡ waiting
      → Served s
      → Served (handed key result_key i rs s)
  unfolding handed
  handed-Served i rs s h v =
      let m =
        moved-Served i (leaving (answered rs)) s (ground (arith, h)) refl (ground (arith, h)) v in
      record { found = m.found; done = m.done; never = m.never }

  stopped-Served : (s : Client) → Served s → Served (stopped key result_key s)
  unfolding stopped
  stopped-Served s v = record { found = v.found; done = v.done; never = v.never }

  reconnected-Served : (s : Client) → Served s → Served (reconnected key result_key s)
  unfolding reconnected
  reconnected-Served s v = record { found = v.found; done = v.done; never = v.never }

  Step-Served : {s t : Client} → Step key result_key s t → Served s → Served t
  Step-Served {s} (starts i h e) v = subst Served (sym e) (started-Served i s h v)
  Step-Served {s} (receives rs a h e) v = subst Served (sym e) (received-Served rs s v)
  Step-Served {s} (hands i rs h w o e) v = subst Served (sym e) (handed-Served i rs s w v)
  Step-Served {s} (sees_closed i w o e) v = absurd (ground (arith, w, o, v.done i))
  Step-Served {s} (times_out i w e) v = subst Served (sym e) (ended-Served i late s w refl v)
  Step-Served {s} (fails i text w e) v =
      subst Served (sym e) (ended-Served i (unsent text) s w refl v)
  Step-Served {s} (leaves i x w e) v = subst Served (sym e) (left-Served i x s w v)
  Step-Served {s} (breaks a h e) v = subst Served (sym e) (stopped-Served s v)
  Step-Served {s} (reconnects h e) v = subst Served (sym e) (reconnected-Served s v)
  Step-Served {s} (panics i rs h o e) v = subst Served (sym e) (stopped-Served s v)

  new_client-Served : Served new_client
  new_client-Served = record {
    found = λ i h. absurd (cc h);
    done = λ i h. absurd (cc h);
    never = λ i. refl;
  }

  Reach-Served : {s t : Client} → Served s → Reach key result_key s t → Served t
  Reach-Served v here = v
  Reach-Served v (next r st) = Step-Served st (Reach-Served v r)

  -- Where no two requests have one key, no request of a connection ends with a closed channel, however
  -- the steps interleave.
  pub Reach-never_closed :
      (s : Client) (i : ℕ) → Reach key result_key new_client s → s.phase i ≢ finished closed
  Reach-never_closed s i r =
      λ h. absurd (ground (arith, h, (Reach-Served new_client-Served r).never i))

  -- Where no two requests have one key, a request that waits while the reader is free can be answered: a
  -- message of its key is received, handed over and returned, and the reader is free again.
  pub Reach-answers :
      (s : Client) (i : ℕ) (rs : List Reply)
      → Reach key result_key new_client s
      → s.phase i ≡ waiting
      → s.alive ≡ true
      → s.holding ≡ none
      → result_key rs ≡ key i
      → (t : Client) × Reach key result_key s t
        × (t.phase i ≡ finished (answered rs))
        × (t.alive ≡ true)
        × (t.holding ≡ none)
  unfolding handed
  Reach-answers s i rs r w a h k =
      let v = Reach-Served new_client-Served r in
      let s1 : Client = record s { holding = some (i, rs) } in
      let s2 = handed key result_key i rs s1 in
      let s3 = left key result_key i (answered rs) s2 in
      let got = received-some key result_key rs i s (rw k (v.found i (rw w refl))) in
      let open_i : s.is_closed i ≡ false = ground (arith, v.done i, w) in
      let q = left_reader key result_key i (answered rs) s2 in
      (
        s3,
        next (next (next here (receives rs a h got)) (hands i rs refl w open_i refl))
            (leaves i (answered rs) (at_same i (leaving (answered rs)) s.phase) refl),
        left_phase key result_key i (answered rs) s2,
        q.0 ∙ a,
        q.1,
      )
