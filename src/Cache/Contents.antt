-- ===== src/Cache/Contents.antt =====
-- The cache as a client sees it: a partial map from URLs to endpoints, and the endpoints of a chain.
use web3_rpc_proxy.Prelude.{
  ℕ, zero, suc, ltb, Bool-cases, length-map, ◌<◌, ◌≤◌, String, ◌≡◌, refl, true, false, Option, none,
  some, List, [], ◌∷◌, map, length, get_elem?, All, ◌==◌, nat_comparable, string_comparable,
  nat_beq_iff, eq_iff, arith, if◌then◌else◌, Option-cases, inl, inr,
}
use web3_rpc_proxy.Prelude.Dict.{lookup, lookup-insert, lookup-remove}
use mathlib.Core.Path.{fun_ext}
use web3_rpc_proxy.Cache.{Cache, new_cache, urls_of, put, remove_url, purge, get, get_all}
use web3_rpc_proxy.Cache.Consistency.{
  Consistent, times, listed, Op, put_op, remove_op, purge_op, step, run, run-Consistent,
  step-Consistent, lookup-delete_all,
}

module _ {E : Type 0} (url : E → String) (chain_id : E → ℕ) where
  -- What the cache promises: the first endpoint put under a URL stays until its URL is removed or its
  -- chain is purged.
  abbrev pub Spec : Type 0
  Spec = String → Option E

  abbrev first : Option E → Option E → Option E
  first none new = new
  first (some old) new = some old

  abbrev unless_chain : ℕ → Option E → Option E
  unless_chain id none = none
  unless_chain id (some e) = if chain_id e == id then none else some e

  abbrev pub spec_step : Spec → Op E → Spec
  spec_step m (put_op e) k = if url e == k then first (m k) (some e) else m k
  spec_step m (remove_op u) k = if u == k then none else m k
  spec_step m (purge_op id) k = unless_chain id (m k)

  unfoldable pub spec_run : Spec → List (Op E) → Spec
  spec_run m [] = m
  spec_run m (op ∷ ops) = spec_run (spec_step m op) ops

  get-step :
      (c : Cache E) (op : Op E) (k : String)
      → Consistent url chain_id c
      → get k (step url chain_id c op) ≡ spec_step (λ j. get j c) op k
  unfolding get step
  get-step c (put_op e) k h =
      unfold put in ground (arith, lookup-insert k (url e) e c.endpoints, eq_iff (url e) k)
  get-step c (remove_op u) k h =
      unfold remove_url in ground (arith, lookup-remove k u c.endpoints, eq_iff u k)
  get-step c (purge_op id) k h =
      unfold purge in
      elim (Option-cases (lookup id c.chains)) [
        | inl e ↦ ground (arith, e, h.at_url k id)
        | inr (us, e) ↦ ground (arith, e, h.at_url k id, lookup-delete_all k us c.endpoints)
      ]

  get-run :
      (c : Cache E) (ops : List (Op E)) (k : String)
      → Consistent url chain_id c
      → get k (run url chain_id c ops) ≡ spec_run (λ j. get j c) ops k
  unfolding run spec_run
  get-run c [] k h = refl
  get-run c (op ∷ ops) k h =
      let e : (λ j. get j (step url chain_id c op)) ≡ spec_step (λ j. get j c) op =
        fun_ext (λ j. get-step c op j h) in
      rw (get-run (step url chain_id c op) ops k (step-Consistent url chain_id c op h)) (rw e)

  get_new : (j : String) → get j (new_cache {E = E}) ≡ none
  unfolding get lookup
  get_new j = refl

  -- After any operations on a new cache, `Get` gives what a partial map gives in which the first
  -- endpoint put under a URL stays until its URL is removed or its chain is purged.
  pub get-refines :
      (ops : List (Op E)) (k : String)
      → get k (run url chain_id new_cache ops) ≡ spec_run (λ j. none) ops k
  unfolding run
  get-refines ops k =
      let e : (λ (j : String). get j (new_cache {E = E})) ≡ (λ j. none) = fun_ext get_new in
      rw (← e) (get-run new_cache ops k (run-Consistent url chain_id []))

  index_of : (k : String) (us : List String) → 0 < times k us → (i : ℕ) × (get_elem? us i ≡ some k)
  index_of k [] h = absurd (omega arith)
  index_of k (u ∷ us) h = elim (Bool-cases (u == k)) [
    | inl e ↦ (0, ground (arith, eq_iff u k))
    | inr e ↦ let (i, p) = index_of k us (ground (arith, e)) in (suc i, p)
  ]

  length-urls : (k : String) (us : List String) → times k us ≤ length us
  length-urls k [] = omega arith
  length-urls k (u ∷ us) = ground (arith, length-urls k us)

  slot_at :
      (c : Cache E) (k : String) (us : List String) (i : ℕ)
      → get_elem? us i ≡ some k
      → get_elem? (map (λ j. lookup j c.endpoints) us) i ≡ some (lookup k c.endpoints)
  slot_at c k [] i h = cc
  slot_at c k (u ∷ us) zero h = ground arith
  slot_at c k (u ∷ us) (suc i) h = slot_at c k us i h

  module _ (c : Cache E) (id : ℕ) (h : Consistent url chain_id c) where
    abbrev InChain : Option E → Type 0
    InChain none = ⊥
    InChain (some e) = chain_id e ≡ id

    slots :
        (us : List String)
        → ((k : String) → times k us ≤ listed url chain_id (lookup k c.endpoints) id)
        → All InChain (map (λ k. lookup k c.endpoints) us)
    slots [] g = tt
    slots (u ∷ us) g =
        (ground (arith, g u, eq_iff u u, h.at_url u id), slots us (λ k. ground (arith, g k)))

    get_all_slots : (get_all id c).0 ≡ map (λ k. lookup k c.endpoints) (urls_of id c)
    unfolding get_all
    get_all_slots = elim (Option-cases (lookup id c.chains)) [
      | inl e ↦ ground (arith, e)
      | inr (us, e) ↦ ground (arith, e)
    ]

    get_all_found : (get_all id c).1 ≡ ltb 0 (length (urls_of id c))
    unfolding get_all
    get_all_found = elim (Option-cases (lookup id c.chains)) [
      | inl e ↦ ground (arith, e)
      | inr (us, e) ↦ ground (arith, e)
    ]

    -- In a consistent cache `GetAll` has no nil slot, and gives endpoints of the chain alone.
    pub get_all_of_chain : All InChain (get_all id c).0
    get_all_of_chain = rw get_all_slots (slots (urls_of id c) (λ k. omega (arith, h.at_url k id)))

    -- In a consistent cache an endpoint that `Get` gives stands among those that `GetAll` gives for its
    -- chain, and `GetAll` reports success.
    pub get_all_complete :
        (k : String) (e : E)
        → get k c ≡ some e
        → chain_id e ≡ id
        → ((get_all id c).1 ≡ true) × ((i : ℕ) × (get_elem? (get_all id c).0 i ≡ some (some e)))
    unfolding get
    get_all_complete k e p q =
        let once : 0 < times k (urls_of id c) = ground (arith, h.at_url k id, p) in
        let (i, at_i) = index_of k (urls_of id c) once in
        (
          rw get_all_found (ground (arith, length-urls k (urls_of id c))),
          (i, rw get_all_slots (rw (slot_at c k (urls_of id c) i at_i) (rw p))),
        )

  -- A purge reports as many endpoints as `GetAll` had given, and leaves none of the chain.
  pub purge-get_all :
      (c : Cache E) (id : ℕ)
      → ((purge id c).1 ≡ length (get_all id c).0) × (get_all id (purge id c).0 ≡ ([], false))
  unfolding purge get_all
  purge-get_all c id = elim (Option-cases (lookup id c.chains)) [
    | inl e ↦ (ground (arith, e), ground (arith, e))
    | inr (us, e) ↦ (
      ground (arith, e, length-map (λ k. lookup k c.endpoints) us),
      ground (arith, e, lookup-remove id id c.chains, nat_beq_iff id id),
    )
  ]
