-- ===== src/Tests/Agents.antt =====
-- Examples of one request and of batches, with a redis that is empty or holds one entry.
use web3_rpc_proxy.Prelude.{
  String, ◌≡◌, refl, true, false, none, some, List, [], ◌∷◌, length, replicate, string_comparable,
  arith, map,
}
use web3_rpc_proxy.Prelude.Dict.{lookup, insert}
use web3_rpc_proxy.Prelude.Int.{pos, ◌-ℤ◌, ◌*ℤ◌}
use web3_rpc_proxy.Json.{Value, null, str, num, obj, arr, from_list, field}
use web3_rpc_proxy.Rpc.{Request, SealedResult, method, reply_result, reply_error}
use web3_rpc_proxy.Agent.Store.{
  Config, read_entry, should_invalidate, can_cache, get_cache, set_cache, cache_key,
}
use web3_rpc_proxy.Agent.Upstream.{ok, call, collect, correct_id, store_result}
use web3_rpc_proxy.Agent.Batch.{answers, note, look_one, look_up, answer, empty_answer}
use web3_rpc_proxy.Agent.Service.{
  after_look_up, from_cache, with_cache, serve, serve_body, marshal_answer, invalid,
}
use web3_rpc_proxy.Agent.StoreLaws.{get_cache-set_cache}
use web3_rpc_proxy.Agent.UpstreamLaws.{collect_positions, printed_ids}
use web3_rpc_proxy.Agent.Misses.{batch_uncacheable_lost}
use web3_rpc_proxy.Agent.Answers.{batch_length}
use web3_rpc_proxy.Agent.Single.{single_from_cache, serve_body-Malformed}
use web3_rpc_proxy.Tests.{
  Redis, deps, config, two_seconds, block_number, gas_price, call_of, reply_of, sprint,
}

abbrev key : String
key = cache_key deps 1 block_number

abbrev warm : Redis
warm = insert key "entry" []

abbrev members : Value
members = arr (from_list (obj (answer (num "1") (str "0x10") null true) ∷ []))

batch_served : with_cache deps config 1 true (block_number ∷ []) warm ≡ (ok members, warm)
unfolding with_cache after_look_up look_up look_one note can_cache lookup method field get_cache
    read_entry from_cache answers cache_key should_invalidate insert ◌-ℤ◌ ◌*ℤ◌
batch_served = refl

batch_length_example : (items : List Value) × (members ≡ arr (from_list items)) × (length items ≡ 1)
batch_length_example = batch_length deps config 1 (block_number ∷ []) warm warm members batch_served

single_from_cache_example :
    serve deps config 1 false true (block_number ∷ []) warm
    ≡ (ok (obj (answer (num "1") (str "0x10") null true)), warm)
unfolding invalid can_cache lookup method field get_cache read_entry cache_key should_invalidate
    insert ◌-ℤ◌ ◌*ℤ◌
single_from_cache_example =
    single_from_cache deps config 1 block_number warm (str "0x10") refl refl refl refl

collect_positions_example :
    (map
        (λ r. r.result)
        (collect deps config 1 (block_number ∷ gas_price ∷ []) (reply_of "2" "0x20" ∷ []) []).0
      ≡ map reply_result (reply_of "2" "0x20" ∷ []))
    × (map
          (λ r. r.error)
          (collect deps config 1 (block_number ∷ gas_price ∷ []) (reply_of "2" "0x20" ∷ []) []).0
        ≡ map reply_error (reply_of "2" "0x20" ∷ []))
    × (map
          (λ r. sprint r.id)
          (collect deps config 1 (block_number ∷ gas_price ∷ []) (reply_of "2" "0x20" ∷ []) []).0
        ≡ printed_ids deps config 1 (block_number ∷ gas_price ∷ []) (reply_of "2" "0x20" ∷ []))
collect_positions_example =
    collect_positions deps config 1 (block_number ∷ gas_price ∷ []) (reply_of "2" "0x20" ∷ []) []

abbrev two_results : List SealedResult
two_results =
    (collect deps config 1 (gas_price ∷ gas_price ∷ [])
      (reply_of "1" "0x10" ∷ reply_of "2" "0x20" ∷ []) []).0

called : call deps config 1 (gas_price ∷ gas_price ∷ []) [] ≡ (ok two_results, [])
unfolding call collect correct_id store_result can_cache method field lookup
called = refl

-- With a time to live of 1 ns.
abbrev brief : Config
brief = record config { cache_methods = some (("eth_blockNumber", pos 1) ∷ []) }

batch_uncacheable_lost_example :
    with_cache deps config 1 true (gas_price ∷ gas_price ∷ []) []
    ≡ (ok (arr (from_list (replicate 2 null))), [])
unfolding can_cache lookup method field collect
batch_uncacheable_lost_example =
    batch_uncacheable_lost deps config 1 gas_price (gas_price ∷ []) [] [] two_results
      (refl, (refl, tt)) called (omega arith)

serve_body-Malformed_example :
    serve_body deps config 1 true "{" [] ≡ (marshal_answer deps (ok (obj empty_answer)), [])
serve_body-Malformed_example = serve_body-Malformed deps config 1 true "{" [] tt

abbrev bad : Request
bad = record { raw = call_of "1" "bad" }

get_cache-set_cache_example :
    ((set_cache deps config key (str "0x10") "eth_blockNumber" []).0 ≡ none)
    × ((get_cache deps config key "eth_blockNumber"
          (set_cache deps config key (str "0x10") "eth_blockNumber" []).1).0
        ≡ (str "0x10", none))
unfolding lookup insert cache_key method field ◌-ℤ◌ ◌*ℤ◌
get_cache-set_cache_example =
    get_cache-set_cache deps config key "eth_blockNumber" [] (str "0x10") "entry" two_seconds refl
      refl refl refl refl (omega arith)
