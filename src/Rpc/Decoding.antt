-- ===== src/Rpc/Decoding.antt =====
-- What the decoding of a body gives (`UnmarshalJSONRPCs`, `UnmarshalJSONRPCResults`).
use web3_rpc_proxy.Prelude.{
  String, ◌≡◌, true, false, Option, none, some, List, [], map, length, arith,
}
use web3_rpc_proxy.Json.{Value, arr, Fields, from_list, as_object, as_objects, as_array}
use web3_rpc_proxy.Json.Laws.{length-as_objects, to_list-from_list}
use web3_rpc_proxy.Rpc.{unmarshal_requests, unmarshal_replies}

-- A value that is neither an object nor an array of objects; a body that is no JSON has no value.
abbrev pub Malformed : Option Value → Type 0
Malformed none = Unit
Malformed (some v) = (as_array v ≡ none) × (as_object v ≡ none)

module _ (parse : String → Option Value) (b : String) where
  -- A body that is no JSON, or neither an object nor an array of objects, is decoded to no request,
  -- no batch and no error, both of requests and of results.
  pub unmarshal_requests-Malformed :
      Malformed (parse b)
      → (unmarshal_requests parse b ≡ ([], false, none))
        × (unmarshal_replies parse b ≡ ([], false, none))
  unfolding unmarshal_requests unmarshal_replies
  unmarshal_requests-Malformed h = (ground arith, ground arith)

  -- Whatever the body is, no error comes back.
  pub unmarshal_requests_no_error :
      ((unmarshal_requests parse b).2 ≡ none) × ((unmarshal_replies parse b).2 ≡ none)
  unfolding unmarshal_requests unmarshal_replies
  unmarshal_requests_no_error = (ground arith, ground arith)

  -- A body that is an array of objects is a batch of one request for each element, with the
  -- elements' maps in their order.
  pub unmarshal_requests_batch :
      (vs : List Value) (raws : List Fields)
      → parse b ≡ some (arr (from_list vs))
      → as_objects vs ≡ some raws
      → (unmarshal_requests parse b ≡ (map (λ raw. record { raw = raw }) raws, true, none))
        × (length raws ≡ length vs)
  unfolding unmarshal_requests
  unmarshal_requests_batch vs raws h k =
      (ground (arith, to_list-from_list vs), length-as_objects vs raws k)
