-- ===== src/CoreClient/Retries.antt =====
-- How often the loop of `Request` calls, and how it ends.
use web3_rpc_proxy.Prelude.{
  none, Option-cases, leb, if◌then◌else◌, ℕ, zero, suc, ◌+◌, ◌≤◌, ◌<◌, ◌%◌, String, ◌≡◌, refl, ◌∙◌,
  ap, Bool, true, false, Option, some, List, [], ◌∷◌, ◌++◌, length, get_elem?, length-append, arith,
  Bool-cases, inl, inr, ◌||◌,
}
use web3_rpc_proxy.Prelude.Int.{ℤ, pos, pos_part}
use web3_rpc_proxy.Reqctx.{RetryStrategy, same, rotation}
use web3_rpc_proxy.Rpc.{Sealed, Reply}
use web3_rpc_proxy.Errors.{GoError}
use web3_rpc_proxy.Endpoint.Metrics.{ResponseProfile, new_profile}
use web3_rpc_proxy.CoreClient.{
  Net, Loop, Limits, Outcome, try, round, rounds, attempt, request, conclude, restrict, succeeded,
  timed_out, outcome, deadline, called,
}

pub get_elem?_below {ℓ} :
    {A : Type ℓ} (xs : List A) (i : ℕ) → i < length xs → (x : A) × (get_elem? xs i ≡ some x)
get_elem?_below [] i h = absurd (omega arith)
get_elem?_below (x ∷ xs) zero h = (x, refl)
get_elem?_below (x ∷ xs) (suc i) h = get_elem?_below xs i (omega arith)

length-snoc {ℓ} : {A : Type ℓ} (xs : List A) (x : A) → length (xs ++ x ∷ []) ≡ length xs + 1
length-snoc xs x = length-append xs (x ∷ [])

module _ (contains : String → String → Bool) {C E W : Type 0} (net : Net C E W)
    (sealed : List Sealed) (es : List E) (deadline : ℤ) where
  -- One more request and response, or none.
  record Grows (k : ℕ) (s t : Loop W) : Type 0 where
    requests_le : length t.requests ≤ length s.requests + k
    matched : length t.requests + length s.responses ≡ length t.responses + length s.requests

  -- No call of the client panics.
  abbrev pub Returns : C → Type 0
  Returns c =
      (limit : Option ℤ) (p : ResponseProfile) (w : W)
      → (out : Outcome) × (v : W) × (net.call c limit sealed p w ≡ some (out, v))

  module _ (e : E) (s : Loop W) where
    -- The world of a round after `GetClient`.
    abbrev pub connected : W
    connected = (net.connect e (net.fresh_id s.world).1).1

    pub round_skipped :
        (net.connect e (net.fresh_id s.world).1).0 ≡ none
        → round contains net sealed deadline es e s
          ≡ some (record s { world = connected }, leb (length es) 1)
    unfolding round
    round_skipped h = ground (arith, h)

    pub round-called :
        (c : C) (out : Outcome) (w : W)
        → (net.connect e (net.fresh_id s.world).1).0 ≡ some c
        → outcome contains net sealed deadline c e (net.fresh_id s.world).0 connected
          ≡ some (out, w)
        → round contains net sealed deadline es e s
          ≡ some (
              called contains net sealed deadline e
                (net.fresh_id s.world).0
                (record s { world = connected })
                out
                w)
    unfolding round try
    round-called c out w h g = ground (arith, h, g)

  round-Grows :
      ((c : C) → Returns c)
      → (e : E) (s : Loop W)
      → (t : Loop W) × (stop : Bool) × (round contains net sealed deadline es e s ≡ some (t, stop))
        × Grows 1 s t
  unfolding outcome
  round-Grows returns e s =
      let (id, w) = net.fresh_id s.world in
      let v = (net.connect e w).1 in
      elim (Option-cases (net.connect e w).0) [
        | inl h ↦ (
          record s { world = v },
          leb (length es) 1,
          round_skipped e s h,
          record { requests_le = omega arith; matched = omega arith },
        )
        | inr (c, h) ↦
            let (out, u, g) =
              returns c (if net.healthy e v then none else some deadline) (new_profile id) v in
            let (t, stop) =
              called contains net sealed deadline e id (record s { world = v }) out u in
            (
              t,
              stop,
              round-called e s c out u h g,
              record {
                requests_le = omega (arith, length-snoc {0});
                matched = omega (arith, length-snoc {0});
              },
            )
      ]

  Grows-trans : {j k : ℕ} {s t u : Loop W} → Grows j s t → Grows k t u → Grows (j + k) s u
  Grows-trans f g = omega arith

  module _ (n i : ℕ) (s : Loop W) (e : E) (at_i : get_elem? es (i % length es) ≡ some e) where
    pub rounds_stop :
        (t : Loop W)
        → round contains net sealed deadline es e s ≡ some (t, true)
        → rounds contains net sealed deadline es (suc n) i s ≡ some t
    unfolding rounds
    rounds_stop t q = ground (arith, at_i, q)

    pub rounds_next :
        (t : Loop W)
        → round contains net sealed deadline es e s ≡ some (t, false)
        → rounds contains net sealed deadline es (suc n) i s
          ≡ rounds contains net sealed deadline es n (suc i) t
    unfolding rounds
    rounds_next t q = ground (arith, at_i, q)

  -- The loop ends without a panic, after at most as many requests as it has rounds, with one
  -- response for each of them.
  rounds-Grows :
      ((c : C) → Returns c)
      → (n i : ℕ) (s : Loop W) → 0 < length es
      → (t : Loop W) × (rounds contains net sealed deadline es n i s ≡ some t) × Grows n s t
  unfolding rounds
  rounds-Grows returns zero i s h =
      (s, refl, record { requests_le = omega arith; matched = omega arith })
  rounds-Grows returns (suc n) i s h =
      let (e, at_i) = get_elem?_below es (i % length es) (omega arith) in
      let (s', stop, r, g) = round-Grows returns e s in
      elim (Bool-cases stop) [
        | inl q ↦ (s', rounds_stop n i s e at_i s' (r ∙ ap (λ b. some (s', b)) q), omega (arith, g))
        | inr q ↦
            let (t, p, k) = rounds-Grows returns n (suc i) s' h in
            (t, rounds_next n i s e at_i s' (r ∙ ap (λ b. some (s', b)) q) ∙ p, omega (arith, g, k))
      ]

length-restrict :
    {E : Type 0} (strategy : RetryStrategy) (es : List E)
    → 0 < length es
    → 0 < length (restrict strategy es)
length-restrict same (e ∷ es) h = omega arith
length-restrict rotation es h = h
length-restrict same [] h = h

module _ (contains : String → String → Bool) {C E W : Type 0} (net : Net C E W) (limits : Limits)
    (sealed : List Sealed) where
  pub request_of_picked :
      (es picked : List E) (s t : Loop W)
      → restrict limits.strategy es ≡ picked
      → 0 < length picked
      → attempt contains net limits picked sealed s ≡ some t
      → request contains net limits es sealed s ≡ some (conclude t.err t.results, t)
  unfolding request
  request_of_picked es [] s t h l g = absurd (omega arith)
  request_of_picked es (e ∷ rest) s t h l g = ground (arith, h, g)

  -- A request with an endpoint, of which no call panics, returns: it has an endpoint in every round, it
  -- sends no more requests than the attempts that are allowed, and it has a response for each request
  -- that it has sent.
  pub request_bounded :
      (es : List E) (s : Loop W)
      → 0 < length es
      → ((c : C) → Returns contains net sealed es (pos 0) c)
      → (out : Option GoError × List Reply) × (t : Loop W) × (request contains net limits es sealed
            s
          ≡ some (out, t))
        × (length t.requests ≤ length s.requests + pos_part limits.attempts)
        × (length t.requests + length s.responses ≡ length t.responses + length s.requests)
  unfolding attempt
  request_bounded es s h returns =
      let picked = restrict limits.strategy es in
      let some_left = length-restrict limits.strategy es h in
      let (t, e, g) =
        rounds-Grows contains net sealed picked (deadline contains net limits (length picked))
          returns (pos_part limits.attempts) 0 s some_left in
      (
        conclude t.err t.results,
        t,
        request_of_picked es picked s t refl some_left e,
        g.requests_le,
        g.matched,
      )

  module _ (e : E) (rest : List E) (s : Loop W) where
    -- What the first round gets, and the loop after its call.
    abbrev pub first_id : String × W
    first_id = net.fresh_id s.world

    abbrev pub first_client : Option C × W
    first_client = net.connect e first_id.1

    abbrev pub first_call : C → Option (Outcome × W)
    first_call c =
        outcome contains net sealed (deadline contains net limits (suc (length rest))) c e
          first_id.0 first_client.1

    abbrev pub after_first : Outcome → W → Loop W
    after_first out w =
        (called contains net sealed (deadline contains net limits (suc (length rest))) e first_id.0
          (record s { world = first_client.1 }) out w).0

    first_round :
        (c : C) (out : Outcome) (w : W)
        → first_client.0 ≡ some c
        → first_call c ≡ some (out, w)
        → (succeeded out.err out.results || timed_out contains out.err) ≡ true
        → round contains net sealed
            (deadline contains net limits (suc (length rest)))
            (e ∷ rest)
            e
            s
          ≡ some (after_first out w, true)
    first_round c out w h g q =
        round-called contains net sealed (e ∷ rest)
          (deadline contains net limits (suc (length rest))) e s c out w h g
        ∙ ap (λ b. some (after_first out w, b)) q

    -- With at least one attempt, if the first endpoint has a client, and its call succeeds or times
    -- out, then that call is the only one: the request returns what it gave, and one request is
    -- recorded.
    pub first_call_decides :
        (es : List E) (n : ℕ) (c : C) (out : Outcome) (w : W)
        → limits.attempts ≡ pos (suc n)
        → restrict limits.strategy es ≡ e ∷ rest
        → first_client.0 ≡ some c
        → first_call c ≡ some (out, w)
        → (succeeded out.err out.results || timed_out contains out.err) ≡ true
        → request contains net limits es sealed s
          ≡ some (conclude out.err out.results, after_first out w)
    unfolding attempt
    first_call_decides es n c out w a picked client gives h =
        let start : get_elem? (e ∷ rest) (0 % suc (length rest)) ≡ some e =
          let z : 0 % suc (length rest) ≡ 0 = omega arith in rw z in
        let stops =
          rounds_stop contains net sealed (e ∷ rest)
            (deadline contains net limits (suc (length rest))) n 0 s e start (after_first out w)
            (first_round c out w client gives h) in
        request_of_picked es (e ∷ rest) s (after_first out w) picked (omega arith) (rw a stops)
