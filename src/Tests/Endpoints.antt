-- ===== src/Tests/Endpoints.antt =====
-- Examples of the cache of endpoints, of their choice and of the updates of their attributes.
use mathlib.Core.List.{Perm}
use mathlib.Core.List.Perm
use web3_rpc_proxy.Prelude.{
  ℕ, String, ◌≡◌, refl, true, false, none, some, List, [], ◌∷◌, ◌==◌, string_comparable,
  nat_comparable, arith, if◌then◌else◌,
}
use web3_rpc_proxy.Prelude.Dict.{lookup}
use web3_rpc_proxy.Prelude.Int.{ℤ, pos}
use web3_rpc_proxy.Cache.{new_cache, get}
use web3_rpc_proxy.Cache.Consistency.{Consistent, Op, put_op, remove_op, run, run-Consistent}
use web3_rpc_proxy.Cache.Contents.{get-refines, spec_run}
use web3_rpc_proxy.Reqctx.{rotation}
use web3_rpc_proxy.Endpoint.{
  Endpoint, State, url, integer, int, int64, Observation, read, health, last_update_time, type,
  chain_id,
}
use web3_rpc_proxy.Endpoint.Metrics.{ResponseProfile, new_profile, update_metrics}
use web3_rpc_proxy.Endpoint.Updates.{update_metrics_result, metrics_state}
use web3_rpc_proxy.Selector.{Wishes, Outside, select}
use web3_rpc_proxy.Selector.Result.{select-Perm, chosen}
use web3_rpc_proxy.Tests.{floats, node}

-- A node by its number: the URL is one of two, the chain is 1.
abbrev url_of : ℕ → String
url_of n = if n == 1 then "a" else "b"

abbrev chain_of : ℕ → ℕ
chain_of n = 1

abbrev ops : List (Op ℕ)
ops = put_op 1 ∷ put_op 2 ∷ remove_op "a" ∷ []

get-refines_example :
    get "a" (run url_of chain_of new_cache ops) ≡ spec_run url_of chain_of (λ j. none) ops "a"
get-refines_example = get-refines url_of chain_of ops "a"

run-Consistent_example : Consistent url_of chain_of (run url_of chain_of new_cache ops)
run-Consistent_example = run-Consistent url_of chain_of ops

abbrev nodes : List (Endpoint ℤ)
nodes = node 1 "a" "default" true ∷ node 2 "b" "fullnode" false ∷ []

abbrev wishes : Wishes
wishes = record {
  types = "default" ∷ "fullnode" ∷ [];
  attempts = pos 3;
  strategy = rotation;
  timeout = pos 300000000000;
}

abbrev outside : Outside ℤ
outside = record {
  sort = λ less es. es;
  shuffle = λ es. es;
  random = 0;
  visit = λ es. es;
  tenth = pos 1;
}

select-Perm_example :
    (l : List (Endpoint ℤ)) × (select floats outside wishes [] nodes ≡ some (l, true))
    × Perm l (chosen wishes [] nodes)
select-Perm_example =
    select-Perm floats outside (λ less es. Perm.refl es) (λ es. Perm.refl es) wishes [] nodes

abbrev before : State ℤ
before = (node 1 "a" "default" true).state

abbrev response : ResponseProfile
response = record (new_profile "1") { duration = pos 12; status = 200 }

update_metrics_result_example :
    (t : State ℤ) × (obs : List (Observation ℤ)) × (update_metrics floats (pos 99) response before
      ≡ some (t, obs))
    × (read "count" t ≡ integer int (pos 4))
    × (health t ≡ true)
    × (last_update_time t ≡ pos 99)
    × (read "duration" t ≡ integer int64 (pos 12))
    × ((read "url" t ≡ url "a") × (type t ≡ type before) × (chain_id t ≡ chain_id before))
unfolding read lookup
update_metrics_result_example =
    update_metrics_result floats 3 (pos 99) response before "a" refl (omega arith) refl

abbrev after : State ℤ
after = metrics_state floats 3 (pos 99) response before
