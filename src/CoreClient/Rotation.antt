-- ===== src/CoreClient/Rotation.antt =====
-- Which endpoints the rounds go to.
use web3_rpc_proxy.Prelude.{
  is_some, false, Option-cases, ℕ, zero, suc, ◌%◌, ◌≤◌, ◌<◌, String, ◌≡◌, ◌∙◌, sym, Bool, true,
  Option, some, List, [], ◌∷◌, ◌++◌, map, length, get_elem?, arith, inl, inr,
}
use mathlib.Core.List.{append-nil, append_assoc, map-append}
use web3_rpc_proxy.Prelude.Int.{ℤ}
use web3_rpc_proxy.Rpc.{Sealed}
use web3_rpc_proxy.CoreClient.{Net, Loop, try, round, rounds, sent, outcome, called, RequestProfile}
use web3_rpc_proxy.CoreClient.Retries.{get_elem?_below, rounds_stop, rounds_next}

-- The URLs of the rounds i, i + 1, …: the endpoints in turn, over and over.
unfoldable pub cycle : {E : Type 0} → (E → String) → List E → ℕ → ℕ → List (Option String)
cycle url es i zero = []
cycle url es i (suc m) = get_elem? (map url es) (i % length es) ∷ cycle url es (suc i) m

abbrev pub asked : List RequestProfile → List (Option String)
asked = map (λ r. some r.url)

get_elem?-map {ℓ κ} :
    {A : Type ℓ} {B : Type κ} (f : A → B) (xs : List A) (i : ℕ) {x : A}
    → get_elem? xs i ≡ some x
    → get_elem? (map f xs) i ≡ some (f x)
get_elem?-map f [] i h = cc
get_elem?-map f (y ∷ ys) zero h = ground arith
get_elem?-map f (y ∷ ys) (suc i) h = get_elem?-map f ys i h

module _ (contains : String → String → Bool) {C E W : Type 0} (net : Net C E W)
    (sealed : List Sealed) (deadline : ℤ) (es : List E)
    (clients : (e : E) (w : W) → is_some (net.connect e w).0 ≡ true) where
  asked-round :
      (e : E) (s t : Loop W) (stop : Bool)
      → round contains net sealed deadline es e s ≡ some (t, stop)
      → asked t.requests ≡ asked s.requests ++ some (net.url e) ∷ []
  unfolding round try sent
  asked-round e s t stop h =
      let (id, w) = net.fresh_id s.world in
      let v = (net.connect e w).1 in
      elim (Option-cases (net.connect e w).0) [
        | inl n ↦ absurd (ground (arith, n, clients e w))
        | inr (c, n) ↦ elim (Option-cases (outcome contains net sealed deadline c e id v)) [
          | inl m ↦ absurd (ground (arith, n, m, h))
          | inr ((out, u), m) ↦
              let step = called contains net sealed deadline e id (record s { world = v }) out u in
              let same : some step ≡ some (t, stop) = ground (arith, n, m, h) in
              let requests : step.0.requests ≡ t.requests = cc same in
              rw (← requests) (map-append (λ r. some r.url) s.requests _)
        ]
      ]

  -- Where there is an endpoint and each has a client, the requests of a loop that ends go to the
  -- endpoints in turn, from the round that the loop begins with, one request for each round that is
  -- made.
  pub rounds-cycle :
      (n i : ℕ) (s t : Loop W)
      → 0 < length es
      → rounds contains net sealed deadline es n i s ≡ some t
      → (m : ℕ) × (m ≤ n) × (asked t.requests ≡ asked s.requests ++ cycle net.url es i m)
  unfolding rounds cycle
  rounds-cycle zero i s t h g = (0, omega arith, rw append-nil (ground arith))
  rounds-cycle (suc n) i s t h g =
      let (e, at_i) = get_elem?_below es (i % length es) (omega arith) in
      let first : get_elem? (map net.url es) (i % length es) ≡ some (net.url e) =
        get_elem?-map net.url es (i % length es) at_i in
      elim (Option-cases (round contains net sealed deadline es e s)) [
        | inl q ↦ absurd (ground (arith, at_i, q, g))
        | inr ((s', true), q) ↦
            let same : s' ≡ t =
              cc (rounds_stop contains net sealed es deadline n i s e at_i s' q, g) in
            (1, omega arith, rw (← same) (rw first (asked-round e s s' true q)))
        | inr ((s', false), q) ↦
            let (m, l, p) =
              rounds-cycle n (suc i) s' t h
                (sym (rounds_next contains net sealed es deadline n i s e at_i s' q) ∙ g) in
            (
              suc m,
              omega arith,
              p
                  ∙ (rw (asked-round e s s' false q, first)
                      (append_assoc (asked s.requests) (some (net.url e) ∷ [])
                        (cycle net.url es (suc i) m))),
            )
      ]
