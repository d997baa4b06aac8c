-- ===== src/Rpc/Sealing.antt =====
-- The sealed forms of requests and results, read back.
use web3_rpc_proxy.Prelude.{
  String, ◌≡◌, ◌≢◌, ◌↔◌, refl, true, false, Option, some, List, [], ◌∷◌, map, arith,
  string_comparable, eq_iff, All,
}
use web3_rpc_proxy.Json.{Value, bool, str, arr, obj, from_list, field, is_null, as_objects}
use web3_rpc_proxy.Json.Laws.{to_list-from_list}
use web3_rpc_proxy.Rpc.Decoding.{unmarshal_requests_batch}
use web3_rpc_proxy.Rpc.{
  error, Request, Reply, Sealed, SealedResult, seal, sealed_fields, marshal_result, reply_result,
  reply_error, reply_type, unmarshal_requests,
}

module _ (sprint : Value → String) where
  -- Reading the object that is sent for a sealed request, and sealing it again, gives the sealed
  -- request back: its method, params, version and id. The version is not empty, and printing a
  -- text gives the text.
  pub seal-sealed_fields :
      (s : Sealed)
      → s.version ≢ ""
      → sprint (str s.id) ≡ s.id
      → seal sprint (record { raw = sealed_fields s }) ≡ s
  unfolding seal sealed_fields field
  seal-sealed_fields s h k = ground (arith, eq_iff s.version "", to_list-from_list s.params)

-- The answer written for a result is read back with its id, result, error and cache mark, whether it
-- carries an error or not.
pub marshal_result-read :
    (r : SealedResult)
    → let back : Reply = record { raw = marshal_result r } in
      (field "id" back.raw ≡ r.id)
      × (reply_result back ≡ r.result)
      × (reply_error back ≡ r.error)
      × (field "from_cache" back.raw ≡ bool r.from_cache)
unfolding marshal_result field
marshal_result-read r = (ground arith, ground arith, ground arith, ground arith)

-- An answer is an error answer exactly if its error is not null, also after it has been written and
-- read back.
pub reply_type-marshal_result :
    (r : SealedResult)
    → (reply_type (record { raw = marshal_result r }) ≡ error) ↔ (is_null r.error ≡ false)
unfolding reply_type marshal_result field
reply_type-marshal_result r = (λ h. ground arith, λ h. ground arith)

abbrev as_requests : List Sealed → List Request
as_requests = map (λ s. record { raw = sealed_fields s })

as_objects-sealed :
    (ss : List Sealed)
    → as_objects (map (λ s. obj (sealed_fields s)) ss) ≡ some (map sealed_fields ss)
unfolding as_objects
as_objects-sealed [] = refl
as_objects-sealed (s ∷ ss) = ground (arith, as_objects-sealed ss)

map-map-seal :
    (sprint : Value → String) (ss : List Sealed)
    → All (λ s. (s.version ≢ "") × (sprint (str s.id) ≡ s.id)) ss
    → map (seal sprint) (map (λ raw. record { raw = raw }) (map sealed_fields ss)) ≡ ss
map-map-seal sprint [] h = refl
map-map-seal sprint (s ∷ ss) h =
    cc (seal-sealed_fields sprint s h.0.0 h.0.1, map-map-seal sprint ss h.1)

-- The body that is sent for a batch of sealed requests is decoded as a batch whose requests seal to
-- the same list, if every version is written and printing a text gives the text.
pub seal-unmarshal_requests :
    (sprint : Value → String) (parse : String → Option Value) (b : String) (ss : List Sealed)
    → parse b ≡ some (arr (from_list (map (λ s. obj (sealed_fields s)) ss)))
    → All (λ s. (s.version ≢ "") × (sprint (str s.id) ≡ s.id)) ss
    → (map (seal sprint) (unmarshal_requests parse b).0 ≡ ss)
      × ((unmarshal_requests parse b).1 ≡ true)
seal-unmarshal_requests sprint parse b ss h k =
    let (e, _) = unmarshal_requests_batch parse b _ _ h (as_objects-sealed ss) in
    rw e (map-map-seal sprint ss k, refl)
