-- ===== src/EndpointService/Purging.antt =====
-- `Purge` of endpoint_service.go leaves no chain in the cache.
use web3_rpc_proxy.Prelude.{
  ℕ, ◌≡◌, refl, false, none, List, [], ◌∷◌, map, arith, ◌==◌, nat_comparable, if◌then◌else◌,
  Bool-cases, Option-cases, inl, inr, contains, nat_beq_iff,
}
use web3_rpc_proxy.Prelude.Dict.{Dict, lookup, lookup-remove}
use web3_rpc_proxy.Cache.{Cache, purge, chains}
use web3_rpc_proxy.Cache as Cached
use web3_rpc_proxy.EndpointService.Service.{Service, purge_all, purge_service}

lookup-keys :
    {A : Type 0} (j : ℕ) (m : Dict ℕ A) → contains (map (λ e. e.0) m) j ≡ false → lookup j m ≡ none
unfolding lookup
lookup-keys j [] h = refl
lookup-keys j ((i, v) ∷ m) h = ground (arith, lookup-keys j m)

purge-chains :
    (i j : ℕ) (c : Cache ℕ)
    → lookup j (purge i c).0.chains ≡ (if i == j then none else lookup j c.chains)
unfolding purge
purge-chains i j c = elim (Option-cases (lookup i c.chains)) [
  | inl n ↦ elim (Bool-cases (i == j)) [
    | inl q ↦ ground (arith, n, nat_beq_iff i j)
    | inr q ↦ ground (arith, n)
  ]
  | inr (us, n) ↦ ground (arith, n, lookup-remove j i c.chains)
]

purge_all-chains :
    (is : List ℕ) (j : ℕ) (c : Cache ℕ)
    → lookup j (purge_all is c).chains ≡ (if contains is j then none else lookup j c.chains)
unfolding purge_all
purge_all-chains [] j c = refl
purge_all-chains (i ∷ is) j c =
    ground (arith, purge_all-chains is j (purge i c).0, purge-chains i j c)

-- After a purge no chain is cached.
pub purge_service-get_all :
    {F : Type 0} (s : Service F) (j : ℕ) → Cached.get_all j (purge_service s).cache ≡ ([], false)
unfolding purge_service Cached.get_all chains
purge_service-get_all s j =
    let all = purge_all-chains (chains s.cache) j s.cache in
    elim (Bool-cases (contains (chains s.cache) j)) [
      | inl q ↦ ground (arith, all, q)
      | inr q ↦ ground (arith, all, q, lookup-keys j s.cache.chains q)
    ]
