-- ===== src/EndpointService/Sharing.antt =====
-- What `GetAll` leaves in the service: the same answer again, and a cache that agrees with itself.
use web3_rpc_proxy.Prelude.{
  ℕ, suc, String, ◌≡◌, refl, sym, ap, ◌∙◌, true, false, Option, some, List, [], ◌∷◌, ◌++◌, map,
  length, All, arith, leb, string_comparable, nat_comparable, length-map,
}
use web3_rpc_proxy.Cache.{Cache, urls_of, put, purge, chains, delete_all}
use web3_rpc_proxy.Cache as Cached
use web3_rpc_proxy.Cache.Puts.{put_all, Distinct, Unknown, get_all-put_all, get_all-urls_of}
use web3_rpc_proxy.Endpoint.{State}
use web3_rpc_proxy.EndpointService.Service.{Service, url_at, chain_at, places, get_all}

no_urls_of : (us : List String) → leb 1 (length us) ≡ false → us ≡ []
no_urls_of [] h = refl
no_urls_of (u ∷ us) h = absurd (ground (arith, h))

no_urls : (chain : ℕ) (c : Cache ℕ) → (Cached.get_all chain c).1 ≡ false → urls_of chain c ≡ []
no_urls chain c h = no_urls_of (urls_of chain c) (sym (ap (λ r. r.1) (get_all-urls_of chain c)) ∙ h)

module _ {F : Type 0} where
  abbrev extended : Service F → List (State F) → List (State F)
  extended s states = s.heap ++ states

  -- The loaded endpoints are new to the service: of the chain, each URL once, and none cached before.
  pub record IsNew (chain : ℕ) (s : Service F) (states : List (State F)) : Type 0 where
    pub of_chain : All (λ r. chain_at (extended s states) r ≡ chain) (places (length s.heap) states)
    pub distinct : Distinct (map (url_at (extended s states)) (places (length s.heap) states))
    pub unknown : Unknown s.cache (map (url_at (extended s states)) (places (length s.heap) states))

  length-places : (i : ℕ) (ss : List (State F)) → length (places i ss) ≡ length ss
  length-places i [] = refl
  length-places i (s ∷ ss) = ap suc (length-places (suc i) ss)

  -- Where a chain is not cached and new endpoints are loaded for it, `GetAll` answers them, and asked
  -- again it gives the same answer from the cache, whatever would be loaded then, and changes nothing.
  pub get_all-get_all :
      (chain : ℕ) (s : Service F) (first : State F) (rest : List (State F))
      (later : Option (List (State F)))
      → (Cached.get_all chain s.cache).1 ≡ false
      → IsNew chain s (first ∷ rest)
      → (out : List (Option ℕ)) × (t : Service F) × (get_all chain (some (first ∷ rest)) s
          ≡ some ((out, true), t))
        × (length out ≡ length (first ∷ rest))
        × (get_all chain later t ≡ some ((out, true), t))
  unfolding get_all
  get_all-get_all chain s first rest later h n =
      let heap = s.heap ++ first ∷ rest in
      let rs = places (length s.heap) (first ∷ rest) in
      let cached =
        get_all-put_all (url_at heap) (chain_at heap) chain rs s.cache (no_urls chain s.cache h)
          n.of_chain n.distinct n.unknown in
      (
        map some rs,
        record { cache = put_all (url_at heap) (chain_at heap) rs s.cache; heap = heap },
        ground (arith, h),
        length-map some rs ∙ length-places (length s.heap) (first ∷ rest),
        ground (arith, cached),
      )
