-- ===== src/Tests/Texts.antt =====
-- Examples of decoded bodies, of what is written for results, and of the options of a request.
use web3_rpc_proxy.Prelude.{
  String, ◌≡◌, refl, true, false, Option, none, some, [], ◌∷◌, map, ◌==◌, string_comparable,
  if◌then◌else◌,
}
use web3_rpc_proxy.Prelude.Int.{negsuc}
use web3_rpc_proxy.Json.{Value, null, str, num, arr, obj, from_list}
use web3_rpc_proxy.Rpc.{
  Reply, Sealed, SealedResult, seal, sealed_fields, marshal_result, unmarshal_requests,
}
use web3_rpc_proxy.Rpc.Sealing.{seal-unmarshal_requests}
use web3_rpc_proxy.Reqctx.{Parsers}
use web3_rpc_proxy.Tests.{sprint}

abbrev sealed : Sealed
sealed = record { params = []; id = "1"; version = "2.0"; method = "eth_blockNumber" }

abbrev parse_one : String → Option Value
parse_one b = some (arr (from_list (obj (sealed_fields sealed) ∷ [])))

seal-unmarshal_requests_example :
    (map (seal sprint) (unmarshal_requests parse_one "[…]").0 ≡ sealed ∷ [])
    × ((unmarshal_requests parse_one "[…]").1 ≡ true)
seal-unmarshal_requests_example =
    seal-unmarshal_requests sprint parse_one "[…]" (sealed ∷ []) refl ((λ h. cc, refl), tt)

abbrev failure : SealedResult
failure = record {
  id = num "1";
  result = null;
  error = str "reverted";
  version = "2.0";
  from_cache = false;
}

abbrev written : Reply
written = record { raw = marshal_result failure }

abbrev parsers : Parsers
parsers = record {
  atoi = λ s. if s == "-5" then some (negsuc 4) else none;
  parse_bool = λ s. none;
  parse_uint = λ s. none;
  split_comma = λ s. s ∷ [];
}
