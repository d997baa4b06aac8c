-- ===== src/Rpc/Schema.antt =====
-- internal/core/rpc/jsonrpc_schema.go: the schemas of the methods, and the validation of requests and of
-- responses. gojsonschema is the parameter `compile`, which gives the validator of a schema; a schema has
-- no flaw to report of what is valid. `none` is a panic, or the end of the process.
pub mod Validation
pub mod Results
pub mod Loading
pub mod Revision
use Prim.Native.String.{◌++◌ as str_append}
use web3_rpc_proxy.Prelude.{
  ℕ, String, Bool, true, false, Option, none, some, List, [], ◌∷◌, ◌++◌, map, ◌==◌,
  string_comparable, if◌then◌else◌,
}
use web3_rpc_proxy.Prelude.Dict.{Dict, lookup, insert}
use web3_rpc_proxy.Json.{
  Value, null, bool, num, str, arr, obj, Fields, entry, end, from_list, field, set_field,
}

-- The parts of an OpenRPC document that are read.
pub record Param : Type 0 where
  pub schema : Value
  pub name : String

pub record Method : Type 0 where
  pub name : String
  pub params : List Param
  pub result : Value

-- `gojsonschema.ResultError`
pub record Flaw : Type 0 where
  pub kind : String
  pub field_name : String
  pub description : String

pub data Verdict : Type 0 where
  unreadable : String → Verdict
  judged : List Flaw → Verdict

abbrev pub Validator : Type 0
Validator = Fields → Verdict

-- The Go value of a property: a map with one type or with several, or a json.RawMessage.
pub data Shape : Type 0 where
  one : String → Shape
  several : List String → Shape
  raw : Shape

pub record JsonRpcSchema : Type 0 where
  pub requests : Dict String Validator
  pub responses : Dict String Validator
  pub properties : Dict String (Dict String Shape)

abbrev texts : List String → Value
texts xs = arr (from_list (map str xs))

abbrev of_type : String → Value
of_type t = obj (entry "type" (str t) end)

abbrev only : String → Value
only s = obj (entry "type" (str "string") (entry "enum" (texts (s ∷ [])) end))

abbrev pub param_value : Param → Value
param_value p = obj (entry "schema" p.schema (entry "name" (str p.name) end))

unfoldable pub request_schema : Method → Value
unfolding from_list
request_schema m = obj (
    entry "type" (str "object") (
      entry "properties"
        (obj (
          entry "jsonrpc" (only "2.0") (
            entry "method" (only m.name) (
              entry "params"
                (obj (
                  entry "type" (str "array")
                    (entry "items" (arr (from_list (map param_value m.params))) end)))
                (entry "id" (obj (entry "type" (texts ("integer" ∷ "string" ∷ [])) end)) end)))))
        (entry "required" (texts ("jsonrpc" ∷ "method" ∷ "params" ∷ "id" ∷ [])) end)))

abbrev error_schema : Value
error_schema = obj (
    entry "type" (str "object") (
      entry "properties"
        (obj (
          entry "code" (of_type "integer")
            (entry "message" (of_type "string") (entry "data" (of_type "object") end))))
        (entry "required" (texts ("code" ∷ "message" ∷ [])) end)))

unfoldable pub response_schema : Method → Value
unfolding from_list
response_schema m = obj (
    entry "type" (str "object") (
      entry "properties"
        (obj (
          entry "jsonrpc" (only "2.0") (
            entry "result" m.result (
              entry "error" error_schema (
                entry "id" (obj (entry "type" (texts ("integer" ∷ "string" ∷ "null" ∷ [])) end))
                  end)))))
        (entry "oneOf"
          (arr (
            from_list (
              obj (entry "required" (texts ("jsonrpc" ∷ "id" ∷ "result" ∷ [])) end)
              ∷ obj (entry "required" (texts ("error" ∷ [])) end)
              ∷ [])))
          end)))

-- The same properties, as Go values.
abbrev pub response_properties : Dict String Shape
response_properties =
    ("jsonrpc", one "string")
    ∷ ("result", raw)
    ∷ ("error", one "object")
    ∷ ("id", several ("integer" ∷ "string" ∷ "null" ∷ []))
    ∷ []

abbrev pub empty_schema : JsonRpcSchema
empty_schema = record { requests = []; responses = []; properties = [] }

abbrev insert_if : String → Option Validator → Dict String Validator → Dict String Validator
insert_if k none d = d
insert_if k (some v) d = insert k v d

unfoldable pub add_method : (Value → Option Validator) → Method → JsonRpcSchema → JsonRpcSchema
unfolding request_schema response_schema
add_method compile m s = record {
  requests = insert_if m.name (compile (request_schema m)) s.requests;
  responses = insert_if m.name (compile (response_schema m)) s.responses;
  properties = insert m.name response_properties s.properties;
}

unfoldable pub add_methods :
    (Value → Option Validator) → List Method → JsonRpcSchema → JsonRpcSchema
unfolding add_method
add_methods compile [] s = s
add_methods compile (m ∷ ms) s = add_methods compile ms (add_method compile m s)

-- `NewJSONRPCSchema`: of no bytes, no schema; `read` is json.Unmarshal of the document.
unfoldable pub new_jsonrpc_schema :
    (Value → Option Validator) → (String → Option (List Method)) → String → Option JsonRpcSchema
unfolding add_methods
new_jsonrpc_schema compile read bytes =
    if bytes == ""
    then some empty_schema
    else elim (read bytes) [ none ↦ none | some ms ↦ some (add_methods compile ms empty_schema) ]

-- A missing key of a map of maps reads as an empty one.
abbrev pub properties_of : Option (Dict String Shape) → Dict String Shape
properties_of none = []
properties_of (some ps) = ps
