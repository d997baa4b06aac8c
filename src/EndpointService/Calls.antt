-- ===== src/EndpointService/Calls.antt =====
-- Any calls of the service, in their order: `GetAll`, `Purge` and `refresh`.
use mathlib.Core.Path.{subst}
use web3_rpc_proxy.Prelude.{
  ℕ, String, ◌≡◌, refl, sym, ap, Bool, Option, none, some, List, [], ◌∷◌, arith, Option-cases, inl,
  inr, string_comparable, nat_comparable,
}
use web3_rpc_proxy.Prelude.Dict.{lookup}
use web3_rpc_proxy.Prelude.Int.{ℤ}
use web3_rpc_proxy.Cache.{chains}
use web3_rpc_proxy.Cache.Consistency.{run-Consistent, run}
use web3_rpc_proxy.Endpoint.{State, FloatOps, as_url, as_uint64, chain_id, endpoint_url}
use web3_rpc_proxy.EndpointService.Service.{
  Service, new_service, text_of, url_at, chain_at, get_all, purge_service,
}
use web3_rpc_proxy.EndpointService.Refresh.{Family, refresh, refresh_families}
use web3_rpc_proxy.EndpointService.Stability.{Inv, Inv-same, get_all-Inv, purge_all-Inv}
use web3_rpc_proxy.EndpointService.Refreshing.{refresh_families-Kept}

-- What is loaded for a chain, or gathered from the registry, comes with the call.
pub data ServiceCall (F : Type 0) : Type 0 where
  asks : ℕ → Option (List (State F)) → ServiceCall F
  purges : ServiceCall F
  refreshes : Option String × List (Family F) → ServiceCall F

module _ {F : Type 0} (fl : FloatOps F) (p95 : F) (is_nan : F → Bool) (prefixed : String → String)
    (now : ℤ) where
  abbrev state_of {ℓ} : {A : Type ℓ} → Option (A × Service F) → Option (Service F)
  state_of none = none
  state_of (some (out, s)) = some s

  unfoldable pub service_step : Service F → ServiceCall F → Option (Service F)
  service_step s (asks chain loaded) = state_of (get_all chain loaded s)
  service_step s purges = some (purge_service s)
  service_step s (refreshes gathered) = state_of (refresh fl p95 is_nan now prefixed gathered s)

  unfoldable pub service_run : Service F → List (ServiceCall F) → Option (Service F)
  service_run s [] = some s
  service_run s (c ∷ cs) = elim (service_step s c) [ none ↦ none | some t ↦ service_run t cs ]

  refresh-Inv :
      (gathered : Option String × List (Family F)) (s t : Service F)
      → state_of (refresh fl p95 is_nan now prefixed gathered s) ≡ some t
      → Inv s
      → Inv t
  unfolding refresh
  refresh-Inv (some e, fs) s t h v = subst Inv (ground (arith, h)) v
  refresh-Inv (none, fs) s t h v =
      elim (Option-cases (refresh_families fl p95 is_nan now prefixed fs s)) [
        | inl n ↦ absurd (ground (arith, n, h))
        | inr (u, n) ↦
            let same : u ≡ t = ground (arith, n, h) in
            let kept = refresh_families-Kept fl p95 is_nan now prefixed fs s u n v.below in
            let moved : Inv (record { cache = s.cache; heap = u.heap }) =
              Inv-same s.heap u.heap s.cache (omega (arith, kept.alike.same_length))
                (λ r l.
                  unfold endpoint_url chain_id in
                  (
                    ap (λ a. text_of (as_url a)) (kept.alike.same_read "url" r refl refl refl),
                    ap as_uint64 (kept.alike.same_read "chain_id" r refl refl refl),
                  ))
                v in
            subst Inv same
              (subst (λ c. Inv (record { cache = c; heap = u.heap })) (sym kept.same_cache) moved)
      ]

  purged-Inv : (s : Service F) → Inv s → Inv (purge_service s)
  unfolding purge_service
  purged-Inv s v = purge_all-Inv s.heap (chains s.cache) s.cache v

  service_step-Inv :
      (s t : Service F) (c : ServiceCall F) → service_step s c ≡ some t → Inv s → Inv t
  unfolding service_step
  service_step-Inv s t (asks chain loaded) h v = elim (Option-cases (get_all chain loaded s)) [
    | inl n ↦ absurd (ground (arith, n, h))
    | inr ((out, u), n) ↦ get_all-Inv chain loaded s t out (ground (arith, n, h)) v
  ]
  service_step-Inv s t purges h v =
      let same : purge_service s ≡ t = ground (arith, h) in subst Inv same (purged-Inv s v)
  service_step-Inv s t (refreshes gathered) h v = refresh-Inv gathered s t h v

  run-Inv :
      (s t : Service F) (cs : List (ServiceCall F)) → service_run s cs ≡ some t → Inv s → Inv t
  unfolding service_run
  run-Inv s t [] h v = subst Inv (ground (arith, h)) v
  run-Inv s t (c ∷ cs) h v = elim (Option-cases (service_step s c)) [
    | inl n ↦ absurd (ground (arith, n, h))
    | inr (u, n) ↦ run-Inv u t cs (ground (arith, n, h)) (service_step-Inv s u c n v)
  ]

  new_service-Inv : Inv (new_service {F = F})
  new_service-Inv = record {
    consistent = unfold run in run-Consistent (url_at {F = F} []) (chain_at {F = F} []) [];
    below = unfold lookup in λ k r h. absurd (cc h);
  }

  -- After any calls of a new service that do not panic, every chain lists exactly the URLs of the cached
  -- endpoints that say that they are of it, each once, every endpoint is kept under its own URL, and
  -- every cached place is in the heap; also after the endpoints' attributes were refreshed.
  pub service_run-Inv :
      (t : Service F) (cs : List (ServiceCall F)) → service_run new_service cs ≡ some t → Inv t
  service_run-Inv t cs h = run-Inv new_service t cs h new_service-Inv
