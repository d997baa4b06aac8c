-- ===== src/Rpc.antt =====
-- internal/core/rpc/jsonrpc.go: requests and results over their raw maps, the forms sent to
-- endpoints and to clients, and the decoding of bodies.
pub mod Decoding
pub mod Sealing
pub mod Encoding
pub mod Schema
use web3_rpc_proxy.Prelude.{
  String, Bool, true, false, ◌&&◌, Option, none, some, List, [], ◌∷◌, map, ◌==◌, string_comparable,
  if◌then◌else◌,
}
use web3_rpc_proxy.Json.{
  Value, null, bool, num, str, arr, obj, Fields, end, entry, Items, cons, to_list, from_list, field,
  is_null, as_object, as_array,
}

abbrev pub version_1 : String
version_1 = "1.0"

abbrev pub version_2 : String
version_2 = "2.0"

pub data RpcType : Type 0 where
  notify request response error : RpcType

-- `jsonrpc`: a request as it came in.
pub record Request : Type 0 where
  pub raw : Fields

-- `SealedJSONRPC`: a request as it is sent to an endpoint.
pub record Sealed : Type 0 where
  pub params : List Value
  pub id : String
  pub version : String
  pub method : String

-- `jsonrpc_result`: a result as an endpoint sent it.
pub record Reply : Type 0 where
  pub raw : Fields

-- `SealedJSONRPCResult`: a result as it is sent to a client.
pub record SealedResult : Type 0 where
  pub id : Value
  pub result : Value
  pub error : Value
  pub version : String
  pub from_cache : Bool

-- `v.(string)` with a default for every other type.
abbrev string_or : String → Value → String
string_or d (str s) = s
string_or d _ = d

unfoldable pub raw_version : Request → String
raw_version r = string_or "" (field "jsonrpc" r.raw)

unfoldable pub version : Request → String
version r = string_or version_1 (field "jsonrpc" r.raw)

unfoldable pub method : Request → String
method r = string_or "" (field "method" r.raw)

abbrev params_of : Value → List Value
params_of null = []
params_of (arr vs) = to_list vs
params_of v = v ∷ []

unfoldable pub params : Request → List Value
params r = params_of (field "params" r.raw)

unfoldable pub request_type : Request → RpcType
unfolding version
request_type r = if version r == version_2 && is_null (field "id" r.raw) then notify else request

unfoldable pub make_result : Request → Value → Value → SealedResult
unfolding raw_version
make_result r value err = record {
  id = field "id" r.raw;
  result = value;
  error = err;
  version = raw_version r;
  from_cache = false;
}

unfoldable pub reply_version : Reply → String
reply_version r = string_or version_1 (field "jsonrpc" r.raw)

abbrev pub reply_result : Reply → Value
reply_result r = field "result" r.raw

abbrev pub reply_error : Reply → Value
reply_error r = field "error" r.raw

unfoldable pub reply_type : Reply → RpcType
unfolding reply_version
reply_type r =
    if is_null (reply_error r)
    then (if reply_version r == version_2 && is_null (field "id" r.raw) then notify else response)
    else error

-- `fmt.Sprint` is the first argument of what prints an id.
module _ (sprint : Value → String) where
  unfoldable pub id : Request → String
  id r = let v = field "id" r.raw in if is_null v then "null" else sprint v

  unfoldable pub reply_id : Reply → String
  reply_id r = let v = field "id" r.raw in if is_null v then "null" else sprint v

  unfoldable pub seal : Request → Sealed
  unfolding id version method params
  seal r = record { params = params r; id = id r; version = version r; method = method r }

-- The object that json.Marshal writes for a `SealedJSONRPC`: an empty version is left out.
unfoldable pub sealed_fields : Sealed → Fields
sealed_fields s = entry "params" (arr (from_list s.params)) (
    entry "id" (str s.id) (
      if s.version == ""
      then entry "method" (str s.method) end
      else entry "jsonrpc" (str s.version) (entry "method" (str s.method) end)))

-- A member with `omitempty`, for `any` and for a text.
abbrev omit_null : String → Value → Fields → Fields
omit_null k v fs = if is_null v then fs else entry k v fs

abbrev omit_empty : String → String → Fields → Fields
omit_empty k s fs = if s == "" then fs else entry k (str s) fs

-- `SealedJSONRPCResult.MarshalJSON`: an error makes the result optional, else the result is written.
unfoldable pub marshal_result : SealedResult → Fields
marshal_result r =
    let tail = omit_empty "jsonrpc" r.version (entry "from_cache" (bool r.from_cache) end) in
    if is_null r.error
    then entry "id" r.id (entry "result" r.result tail)
    else entry "id" r.id (omit_null "result" r.result (entry "error" r.error tail))

-- `jsonrpc_result.MarshalJSON`
unfoldable pub marshal_reply : Reply → Fields
unfolding reply_version marshal_result
marshal_reply r = marshal_result (record {
  id = field "id" r.raw;
  result = reply_result r;
  error = reply_error r;
  version = reply_version r;
  from_cache = false;
})

abbrev pub Decoded : Type 0 → Type 0
Decoded A = List A × Bool × Option String

-- The two attempts, as an array and then as one object. Each `err` is local to its `if`, so the
-- last `return` gives the named result `err`, which is still nil.
abbrev decode_as {ℓ} : {A : Type ℓ} → (Fields → A) → Option Value → List A × Bool × Option String
decode_as new none = ([], false, none)
decode_as new (some v) = elim (as_array v) [
  | some raws ↦ (map new raws, true, none)
  | none ↦ elim (as_object v) [ some raw ↦ (new raw ∷ [], false, none) | none ↦ ([], false, none) ]
]

-- The JSON syntax of encoding/json is the parameter `parse`.
module _ (parse : String → Option Value) where
  unfoldable pub unmarshal_requests : String → Decoded Request
  unfolding as_array as_object
  unmarshal_requests b = decode_as (λ raw. record { raw = raw }) (parse b)

  unfoldable pub unmarshal_replies : String → Decoded Reply
  unfolding as_array as_object
  unmarshal_replies b = decode_as (λ raw. record { raw = raw }) (parse b)
