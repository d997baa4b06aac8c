-- ===== src/Rpc/Encoding.antt =====
-- How requests and results are written and read by encoding/json (internal/core/rpc/jsonrpc.go).
use web3_rpc_proxy.Prelude.{String, Bool, true, false, Option, none, some, List, map}
use web3_rpc_proxy.Json.{Value, obj, arr, Fields, end, entry, from_list}
use web3_rpc_proxy.Rpc.{Request, SealedResult, seal, sealed_fields, marshal_result}

-- `jsonrpc.MarshalJSON`
unfoldable pub marshal_request : (Value → String) → Request → Fields
marshal_request sprint r = sealed_fields (seal sprint r)

-- The entries of a document are put into a map that is there, one after the other.
unfoldable pub merged_into : (String → Value → Fields → Fields) → Fields → Fields → Fields
merged_into set end raw = raw
merged_into set (entry k v rest) raw = merged_into set rest (set k v raw)

-- `UnmarshalJSON` of requests and of results, over the raw map if it is not nil: whether it fails, and
-- the map that the caller then has. The receiver is a copy, so a map that is made for it is lost.
unfoldable pub unmarshal_json :
    (String → Value → Fields → Fields) → Option Fields → Option Fields → Bool × Option Fields
unfolding merged_into
unmarshal_json set none raw = (false, raw)
unmarshal_json set (some parsed) none = (true, none)
unmarshal_json set (some parsed) (some raw) = (true, some (merged_into set parsed raw))

-- What `MarshalJSONRPCResults` is given.
pub data Results : Type 0 where
  several : List SealedResult → Results
  single : SealedResult → Results
  anything : Results

-- `MarshalJSONRPCResults`: the value that is written, or no bytes and no error.
unfoldable pub marshal_jsonrpc_results : Results → Option Value
marshal_jsonrpc_results (several rs) = some (arr (from_list (map (λ r. obj (marshal_result r)) rs)))
marshal_jsonrpc_results (single r) = some (obj (marshal_result r))
marshal_jsonrpc_results anything = none
