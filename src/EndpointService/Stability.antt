-- ===== src/EndpointService/Stability.antt =====
-- An invariant of the service over any calls: every cached place is in the heap, and the cache agrees
-- with the URLs and chains that the endpoints at those places have, also after they were refreshed.
use mathlib.Core.Path.{subst}
use web3_rpc_proxy.Prelude.{
  ℕ, zero, suc, ◌+◌, ◌≤◌, ◌<◌, String, ◌≡◌, refl, ap, Bool, Option, some, List, [], ◌∷◌, ◌++◌,
  length, get_elem?, length-append, All, arith, Option-cases, Bool-cases, inl, inr,
  string_comparable, nat_comparable,
}
use web3_rpc_proxy.Prelude.Dict.{lookup, lookup-insert}
use web3_rpc_proxy.Cache.{Cache, new_cache, urls_of, put, purge, chains, delete_all}
use web3_rpc_proxy.Cache as Cached
use web3_rpc_proxy.Cache.Puts.{put_all}
use web3_rpc_proxy.Cache.Consistency.{
  Consistent, put_op, purge_op, step, step-Consistent, lookup-delete_all,
}
use web3_rpc_proxy.Endpoint.{State, chain_id, endpoint_url}
use web3_rpc_proxy.EndpointService.Service.{
  Service, text_of, state_at, url_at, chain_at, places, get_all, purge_all,
}

-- The cache reads URLs and chains of cached handles alone.
Consistent-same :
    {E : Type 0} (url url' : E → String) (chain chain' : E → ℕ) (c : Cache E)
    → ((k : String) (e : E)
        → lookup k c.endpoints ≡ some e
        → (url' e ≡ url e) × (chain' e ≡ chain e))
    → Consistent url chain c
    → Consistent url' chain' c
Consistent-same url url' chain chain' c same h = record {
  at_url = λ k id. elim (Option-cases (lookup k c.endpoints)) [
    | inl n ↦ ground (arith, n, h.at_url k id)
    | inr (e, n) ↦ ground (arith, n, h.at_url k id, same k e n)
  ];
  own_url = λ k. elim (Option-cases (lookup k c.endpoints)) [
    | inl n ↦ ground (arith, n)
    | inr (e, n) ↦ ground (arith, n, h.own_url k, same k e n)
  ];
}

get_elem?-append {ℓ} :
    {A : Type ℓ} (xs ys : List A) (i : ℕ) → i < length xs → get_elem? (xs ++ ys) i ≡ get_elem? xs i
get_elem?-append [] ys i h = absurd (omega arith)
get_elem?-append (x ∷ xs) ys zero h = refl
get_elem?-append (x ∷ xs) ys (suc i) h = get_elem?-append xs ys i (omega arith)

abbrev pub Below : ℕ → Cache ℕ → Type 0
Below n c = (k : String) (r : ℕ) → lookup k c.endpoints ≡ some r → r < n

module _ {F : Type 0} where
  pub record Inv (s : Service F) : Type 0 where
    pub consistent : Consistent (url_at s.heap) (chain_at s.heap) s.cache
    pub below : Below (length s.heap) s.cache

  pub put_all-Inv :
      (heap : List (State F)) (rs : List ℕ) (c : Cache ℕ)
      → All (λ r. r < length heap) rs
      → Inv (record { cache = c; heap = heap })
      → Inv (record { cache = put_all (url_at heap) (chain_at heap) rs c; heap = heap })
  unfolding put_all
  put_all-Inv heap [] c b v = v
  put_all-Inv heap (r ∷ rs) c b v =
      put_all-Inv heap rs (put (url_at heap) (chain_at heap) r c) b.1 (record {
        consistent =
            unfold step in step-Consistent (url_at heap) (chain_at heap) c (put_op r) v.consistent;
        below = λ k j.
            unfold put in
            λ h. ground (arith, h, b.0, v.below k j, lookup-insert k (url_at heap r) r c.endpoints);
      })

  pub purge_all-Inv :
      (heap : List (State F)) (ids : List ℕ) (c : Cache ℕ)
      → Inv (record { cache = c; heap = heap })
      → Inv (record { cache = purge_all ids c; heap = heap })
  unfolding purge_all
  purge_all-Inv heap [] c v = v
  purge_all-Inv heap (id ∷ ids) c v = purge_all-Inv heap ids (purge id c).0 (record {
    consistent =
        unfold step in step-Consistent (url_at heap) (chain_at heap) c (purge_op id) v.consistent;
    below = λ k j.
        unfold purge in
        elim (Option-cases (lookup id c.chains)) [
          | inl n ↦ λ h. ground (arith, h, n, v.below k j)
          | inr (us, n) ↦ λ h. ground (arith, h, n, v.below k j, lookup-delete_all k us c.endpoints)
        ];
  })

  places-below :
      (i n : ℕ) (ss : List (State F)) → i + length ss ≤ n → All (λ r. r < n) (places i ss)
  places-below i n [] h = tt
  places-below i n (s ∷ ss) h = (omega arith, places-below (suc i) n ss (omega arith))

  state_at-append :
      (heap ss : List (State F)) (r : ℕ)
      → r < length heap
      → state_at (heap ++ ss) r ≡ state_at heap r
  state_at-append heap ss r h = ground (arith, get_elem?-append heap ss r h)

  -- Two heaps that give each cached place the same URL and chain are alike for the cache.
  pub Inv-same :
      (heap heap' : List (State F)) (c : Cache ℕ)
      → length heap ≤ length heap'
      → ((r : ℕ)
          → r < length heap
          → (url_at heap' r ≡ url_at heap r) × (chain_at heap' r ≡ chain_at heap r))
      → Inv (record { cache = c; heap = heap })
      → Inv (record { cache = c; heap = heap' })
  Inv-same heap heap' c l same v = record {
    consistent =
        Consistent-same (url_at heap) (url_at heap') (chain_at heap) (chain_at heap') c
          (λ k r h. same r (v.below k r h)) v.consistent;
    below = λ k r h. omega (arith, v.below k r h, l);
  }

  pub get_all-Inv :
      (chain : ℕ) (loaded : Option (List (State F))) (s t : Service F)
      (out : List (Option ℕ) × Bool)
      → get_all chain loaded s ≡ some (out, t)
      → Inv s
      → Inv t
  unfolding get_all
  get_all-Inv chain loaded s t out h v = elim (Bool-cases (Cached.get_all chain s.cache).1) [
    | inl e ↦ let same : s ≡ t = ground (arith, e, h) in subst Inv same v
    | inr e ↦ elim (Option-cases loaded) [
      | inl n ↦ absurd (ground (arith, e, n, h))
      | inr (ss, n) ↦
          let heap = s.heap ++ ss in
          let rs = places (length s.heap) ss in
          let same : record {
            cache = put_all (url_at heap) (chain_at heap) rs s.cache;
            heap = heap;
          }
              ≡ t =
            ground (arith, e, n, h) in
          subst Inv same (
            put_all-Inv heap rs s.cache
              (places-below (length s.heap) (length heap) ss
                (omega (arith, length-append s.heap ss)))
              (Inv-same s.heap heap s.cache (omega (arith, length-append s.heap ss))
                (λ r l. (
                  ap (λ x. text_of (endpoint_url x)) (state_at-append s.heap ss r l),
                  ap chain_id (state_at-append s.heap ss r l),
                ))
                v))
    ]
  ]
