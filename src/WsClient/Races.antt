-- ===== src/WsClient/Races.antt =====
-- What goes wrong between the requests and the reader of one connection.
use mathlib.Core.Path.{subst}
use web3_rpc_proxy.Prelude.{
  ℕ, String, ◌≡◌, ◌≢◌, refl, sym, ap, ◌∙◌, Bool, true, false, none, some, List, ◌==◌,
  nat_comparable, string_comparable, nat_beq_iff, eq_iff, arith, Bool-cases, inl, inr,
}
use web3_rpc_proxy.Prelude.Dict.{lookup, insert, lookup-insert}
use web3_rpc_proxy.Rpc.{Reply}
use web3_rpc_proxy.WsClient.{Ending, answered, closed, late, unsent}
use web3_rpc_proxy.WsClient.Moves.{
  received-some, received-none, left_phase, left_reader, left-other, left_session,
}
use web3_rpc_proxy.WsClient.Sessions.{
  Phase, waiting, leaving, finished, Client, at, started, received, ended, left, Step, starts,
  receives, hands, sees_closed, times_out, fails, leaves, panics, breaks, reconnects, Reach, here,
  next, is_reconnect, has_reconnect, stopped,
}

abbrev gets_answer : Phase → Bool
gets_answer (leaving (answered rs)) = true
gets_answer (finished (answered rs)) = true
gets_answer _ = false

module _ (key : ℕ → String) (result_key : List Reply → String) where
  -- Two requests of one key: the second takes the place of the first, and leaving ends the session of
  -- whichever holds it.
  shared_lookup :
      (i j : ℕ) (s : Client)
      → key i ≡ key j
      → lookup (key i) (started key result_key j (started key result_key i s)).sessions ≡ some j
  unfolding started
  shared_lookup i j s k = ground (
    arith,
    lookup-insert (key i) (key j) j (insert (key i) i s.sessions),
    eq_iff (key i) (key j),
    k,
  )

  -- Two requests of one key are started one after the other: the message of that key, whichever of the
  -- two it answers, is held for the second.
  pub received-same_key :
      (i j : ℕ) (rs : List Reply) (s : Client)
      → key i ≡ key j
      → result_key rs ≡ key i
      → (received key result_key rs (started key result_key j (started key result_key i s))).holding
        ≡ some (j, rs)
  received-same_key i j rs s k h = sym (
      ap (λ c. c.holding)
        (received-some key result_key rs j (started key result_key j (started key result_key i s))
          (rw h (shared_lookup i j s k))))

  -- Once the second of two requests of one key has left, no session of that key is there, though the
  -- first still waits: its message is dropped.
  pub left-same_key :
      (i j : ℕ) (e : Ending) (rs : List Reply) (s : Client)
      → (j == i) ≡ false
      → key i ≡ key j
      → result_key rs ≡ key i
      → ((left key result_key j e (started key result_key j (started key result_key i s))).phase i
          ≡ waiting)
        × (received key result_key rs
              (left key result_key j e (started key result_key j (started key result_key i s)))
            ≡ left key result_key j e (started key result_key j (started key result_key i s)))
  unfolding started
  left-same_key i j e rs s n k h =
      let t : Client = started key result_key j (started key result_key i s) in
      (
        left-other key result_key j i e t n ∙ ground (arith, n, nat_beq_iff i i),
        received-none key result_key rs (left key result_key j e t) (
            ap (λ x. lookup x (left key result_key j e t).sessions) (h ∙ k)
            ∙ left_session key result_key j e t),
      )

  -- The reader has ended, and the request has no results.
  record Dead (i : ℕ) (s : Client) : Type 0 where
    stopped_reader : s.alive ≡ false
    empty_hands : s.holding ≡ none
    no_answer : gets_answer (s.phase i) ≡ false

  moved-Dead :
      (i j : ℕ) (p : Phase) (s : Client)
      → ((i == j) ≡ true → gets_answer p ≡ false)
      → Dead i s
      → gets_answer (at j p s.phase i) ≡ false
  moved-Dead i j p s g v = ground (arith, g, v.no_answer, nat_beq_iff i j, nat_beq_iff j i)

  ended-Dead :
      {t : Client} (i j : ℕ) (e : Ending) (s : Client)
      → gets_answer (leaving e) ≡ false
      → Dead i s
      → t ≡ ended key result_key j e s
      → Dead i t
  unfolding ended
  ended-Dead i j e s g v q = subst (Dead i) (sym q) (record {
    stopped_reader = v.stopped_reader;
    empty_hands = v.empty_hands;
    no_answer = moved-Dead i j (leaving e) s (λ h. g) v;
  })

  left-Dead :
      (i j : ℕ) (e : Ending) (s : Client)
      → s.phase j ≡ leaving e
      → Dead i s
      → Dead i (left key result_key j e s)
  left-Dead i j e s w v =
      let q = left_reader key result_key j e s in
      record {
        stopped_reader = q.0 ∙ v.stopped_reader;
        empty_hands = q.1 ∙ v.empty_hands;
        no_answer = elim (Bool-cases (j == i)) [
          | inl n ↦
              ground (arith, n, w, v.no_answer, nat_beq_iff j i, left_phase key result_key j e s)
          | inr n ↦ ap gets_answer (left-other key result_key j i e s n) ∙ v.no_answer
        ];
      }

  Step-Dead :
      {s t : Client} (i : ℕ) (x : Step key result_key s t)
      → is_reconnect key result_key x ≡ false
      → Dead i s
      → Dead i t
  unfolding started ended left
  Step-Dead {s} i (starts j h e) q v = subst (Dead i) (sym e) (record {
    stopped_reader = v.stopped_reader;
    empty_hands = v.empty_hands;
    no_answer = moved-Dead i j waiting s (λ g. refl) v;
  })
  Step-Dead {s} i (receives rs b h e) q v = absurd (ground (arith, b, v.stopped_reader))
  Step-Dead {s} i (hands j rs h w o e) q v = absurd (ground (arith, h, v.empty_hands))
  Step-Dead {s} i (sees_closed j w o e) q v = ended-Dead i j closed s refl v e
  Step-Dead {s} i (times_out j w e) q v = ended-Dead i j late s refl v e
  Step-Dead {s} i (fails j text w e) q v = ended-Dead i j (unsent text) s refl v e
  Step-Dead {s} i (leaves j x w e) q v = subst (Dead i) (sym e) (left-Dead i j x s w v)
  Step-Dead {s} i (reconnects h e) q v = absurd (cc q)
  Step-Dead {s} i (breaks b h e) q v = absurd (ground (arith, b, v.stopped_reader))
  Step-Dead {s} i (panics j rs h o e) q v = absurd (ground (arith, h, v.empty_hands))

  Reach-Dead :
      {s t : Client} (i : ℕ) (r : Reach key result_key s t)
      → has_reconnect key result_key r ≡ false
      → Dead i s
      → Dead i t
  Reach-Dead i here q v = v
  Reach-Dead i (next r x) q v =
      Step-Dead i x (ground (arith, q)) (Reach-Dead i r (ground (arith, q)) v)

  -- The reader ends: its connection breaks, or it sends into a channel that was closed.
  abbrev pub ends_reader : {s t : Client} → Step key result_key s t → Bool
  ends_reader (breaks b h e) = true
  ends_reader (panics j rs h o e) = true
  ends_reader _ = false

  Dead-stopped :
      (i : ℕ) (s : Client) → gets_answer (s.phase i) ≡ false → Dead i (stopped key result_key s)
  unfolding stopped
  Dead-stopped i s g = record { stopped_reader = refl; empty_hands = refl; no_answer = g }

  Step-ended :
      {s t : Client} (i : ℕ) (x : Step key result_key s t)
      → ends_reader x ≡ true
      → gets_answer (s.phase i) ≡ false
      → Dead i t
  Step-ended {s} i (breaks b h e) q g = subst (Dead i) (sym e) (Dead-stopped i s g)
  Step-ended {s} i (panics j rs h o e) q g = subst (Dead i) (sym e) (Dead-stopped i s g)
  Step-ended i (starts j h e) q g = absurd (cc q)
  Step-ended i (receives rs b h e) q g = absurd (cc q)
  Step-ended i (hands j rs h w o e) q g = absurd (cc q)
  Step-ended i (sees_closed j w o e) q g = absurd (cc q)
  Step-ended i (times_out j w e) q g = absurd (cc q)
  Step-ended i (fails j text w e) q g = absurd (cc q)
  Step-ended i (leaves j y w e) q g = absurd (cc q)
  Step-ended i (reconnects h e) q g = absurd (cc q)

  -- From the step by which the reader of a connection ends, since it breaks or since the reader sends into
  -- the closed channel of a request that has left, and as long as there is no new connection: whatever
  -- happens, no request that had no results by then ends with results.
  pub Reach-unanswered :
      (i : ℕ) (rs : List Reply) (s u t : Client) (x : Step key result_key s u)
      (r : Reach key result_key u t)
      → ends_reader x ≡ true
      → has_reconnect key result_key r ≡ false
      → gets_answer (s.phase i) ≡ false
      → t.phase i ≢ finished (answered rs)
  Reach-unanswered i rs s u t x r n q g =
      let v = Reach-Dead i r q (Step-ended i x n g) in λ e. absurd (ground (arith, e, v.no_answer))
