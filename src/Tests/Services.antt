-- ===== src/Tests/Services.antt =====
-- Examples of the endpoint service: a chain with one endpoint of each kind, and a registry with one summary.
use web3_rpc_proxy.Prelude.{
  ℕ, ◌+◌, String, ◌≡◌, refl, true, false, Option, none, some, List, [], ◌∷◌, length, nat_comparable,
  string_comparable,
}
use web3_rpc_proxy.Prelude.Dict.{lookup, insert, remove}
use web3_rpc_proxy.Prelude.Int.{ℤ, pos, wrap_signed, ◌+ℤ◌}
use web3_rpc_proxy.Endpoint.{Endpoint, State, integer, int, uint64, str, headers}
use web3_rpc_proxy.Endpoint as Endpoints
use web3_rpc_proxy.Cache as Cached
use web3_rpc_proxy.Cache.{put, purge, delete_all, chains}
use web3_rpc_proxy.Cache.Puts.{put_all}
use web3_rpc_proxy.Endpoint.Creation.{EndpointInfo, new_with_info}
use web3_rpc_proxy.EndpointService.Source.{
  EndpointServices, EndpointChain, load_services, map_to_states, load_from_config, merge_arrays,
}
use web3_rpc_proxy.EndpointService.Service.{Service, new_service, get_all, purge_all, purge_service}
use web3_rpc_proxy.EndpointService.Refresh.{
  Family, duration_summary, duration_ops, status_ops, update_at, refresh_one, refresh_all,
  refresh_family, refresh_families, refresh,
}
use web3_rpc_proxy.EndpointService.Loading.{lookup-merge_arrays, full_nodes-load_from_config}
use web3_rpc_proxy.EndpointService.Sharing.{IsNew, get_all-get_all}
use web3_rpc_proxy.EndpointService.Stability.{Inv, Below}
use web3_rpc_proxy.EndpointService.Refreshing.{Kept, refresh_families-Kept}
use web3_rpc_proxy.EndpointService.Calls.{
  ServiceCall, asks, purges, refreshes, service_step, service_run, service_run-Inv,
}
use web3_rpc_proxy.Selector.{full_nodes}
use web3_rpc_proxy.Tests.{floats, node}

abbrev longer : String × ℕ → String × ℕ → String × ℕ
longer (u, n) (v, m) = (u, n + m)

lookup-merge_arrays_example :
    lookup "a"
      (merge_arrays longer (λ x. x.0) [] ((("a", 1) ∷ ("b", 2) ∷ []) ∷ (("a", 3) ∷ []) ∷ []))
    ≡ some ("a", 4)
unfolding lookup
lookup-merge_arrays_example =
    lookup-merge_arrays longer (λ x. x.0) "a" [] ((("a", 1) ∷ ("b", 2) ∷ []) ∷ (("a", 3) ∷ []) ∷ [])

abbrev info : String → EndpointInfo
info u = record { url = u; headers = none; weight = none }

abbrev services : EndpointServices
services = record { activenode = info "a" ∷ []; fullnode = info "b" ∷ [] }

abbrev chain : EndpointChain
chain = record { chain_id = 1; chain_code = "eth"; endpoints = none; services = some services }

abbrev loaded : State ℤ
loaded = insert "type" (str "Activenode") (
    insert "chain_code" (str "eth") (
      insert "chain_id" (integer uint64 (pos 1)) (
        insert "weight" (integer int (pos 0))
          (insert "headers" (headers []) (Endpoints.new (pos 9) "a")))))

full_nodes-load_from_config_example : full_nodes (record { ref = 1; state = loaded } ∷ []) ≡ []
unfolding load_from_config load_services map_to_states new_with_info Endpoints.update
    Endpoints.apply_all Endpoints.apply Endpoints.observe Endpoints.count lookup Endpoints.health
    Endpoints.duration
full_nodes-load_from_config_example =
    full_nodes-load_from_config floats some (pos 9) chain services
      (record { ref = 1; state = loaded } ∷ []) refl refl

abbrev first : State ℤ
first = (node 1 "a" "default" true).state

first-IsNew : IsNew 1 new_service (first ∷ [])
unfolding Endpoints.chain_id lookup
first-IsNew = record { of_chain = (refl, tt); distinct = (tt, tt); unknown = (refl, tt) }

get_all-get_all_example :
    (out : List (Option ℕ)) × (t : Service ℤ) × (get_all 1 (some (first ∷ [])) new_service
      ≡ some ((out, true), t))
    × (length out ≡ length (first ∷ []))
    × (get_all 1 none t ≡ some ((out, true), t))
unfolding Cached.get_all lookup
get_all-get_all_example = get_all-get_all 1 new_service first [] none refl first-IsNew

abbrev families : List (Family ℤ)
families =
    record {
      name = duration_summary;
      metrics = record { code = ""; url = "a"; quantiles = (pos 95, pos 30) ∷ [] } ∷ [];
    }
    ∷ []

abbrev calls : List (ServiceCall ℤ)
calls =
    asks 1 (some (first ∷ []))
    ∷ refreshes (none, families)
    ∷ purges
    ∷ asks 1 (some (first ∷ []))
    ∷ []

abbrev after : List (ServiceCall ℤ) → Service ℤ
after cs = elim (service_run floats (pos 95) (λ x. false) (λ n. n) (pos 9) new_service cs) [
  | none ↦ new_service
  | some t ↦ t
]

service_run-Inv_example : Inv (after calls)
unfolding service_run service_step get_all Cached.get_all lookup refresh refresh_families
    refresh_family refresh_one Cached.get put_all put insert Endpoints.endpoint_url
    Endpoints.chain_code update_at duration_ops chains delete_all purge Endpoints.apply
    Endpoints.apply_all Endpoints.chain_id Endpoints.count Endpoints.duration Endpoints.health
    Endpoints.increase Endpoints.new_value Endpoints.observe Endpoints.read Endpoints.update
    Endpoints.wrap refresh_all status_ops purge_all purge_service remove wrap_signed ◌+ℤ◌
service_run-Inv_example =
    service_run-Inv floats (pos 95) (λ x. false) (λ n. n) (pos 9) (after calls) calls refl

abbrev asked : Service ℤ
asked = after (asks 1 (some (first ∷ [])) ∷ [])

abbrev refreshed : Service ℤ
refreshed = elim (refresh_families floats (pos 95) (λ x. false) (pos 9) (λ n. n) families asked) [
  | none ↦ asked
  | some t ↦ t
]

asked-Below : Below (length asked.heap) asked.cache
unfolding service_run service_step get_all Cached.get_all lookup
asked-Below =
    (service_run-Inv floats (pos 95) (λ x. false) (λ n. n) (pos 9) asked
      (asks 1 (some (first ∷ [])) ∷ []) refl).below

refresh_families-Kept_example : Kept asked refreshed
unfolding service_run service_step get_all Cached.get_all lookup refresh refresh_families
    refresh_family refresh_one Cached.get put_all put insert Endpoints.endpoint_url
    Endpoints.chain_code update_at duration_ops chains delete_all purge Endpoints.apply
    Endpoints.apply_all Endpoints.chain_id Endpoints.count Endpoints.duration Endpoints.health
    Endpoints.increase Endpoints.new_value Endpoints.observe Endpoints.read Endpoints.update
    Endpoints.wrap refresh_all status_ops purge_all purge_service remove wrap_signed ◌+ℤ◌
refresh_families-Kept_example =
    refresh_families-Kept floats (pos 95) (λ x. false) (pos 9) (λ n. n) families asked refreshed
      refl asked-Below
