-- ===== src/Rpc/Schema/Validation.antt =====
-- `ValidateRequest` and `ValidateResponse`, which may revise what it validates.
use Prim.Native.String.{◌++◌ as str_append}
use web3_rpc_proxy.Prelude.{
  String, Bool, true, false, Option, none, some, List, [], ◌∷◌, ◌++◌, map, ◌==◌, string_comparable,
  if◌then◌else◌,
}
use web3_rpc_proxy.Prelude.Dict.{Dict, lookup}
use web3_rpc_proxy.Json.{Value, null, num, str, Fields, field, set_field}
use web3_rpc_proxy.Rpc.Schema.{
  properties_of, Flaw, Verdict, Shape, JsonRpcSchema, unreadable, judged, one, several, raw,
}

-- `slice.Join`
unfoldable pub join : String → List String → String
join sep [] = ""
join sep (x ∷ []) = x
join sep (x ∷ y ∷ ys) = str_append x (str_append sep (join sep (y ∷ ys)))

abbrev describe : Flaw → String
describe f = str_append "'" (str_append f.field_name (str_append "' " f.description))

abbrev pub schema_hint : String
schema_hint =
    ". please read the schema document: https://playground.open-rpc.org/?schemaUrl=https://raw.githubusercontent.com/ethereum/execution-apis/assembled-spec/openrpc.json"

-- The error of a request.
unfoldable pub request_error : String → Verdict → Option String
unfolding join
request_error method (unreadable e) = some e
request_error method (judged []) = none
request_error method (judged (f ∷ fs)) = some (
    str_append method
      (str_append ": " (str_append (join "; " (map describe (f ∷ fs))) schema_hint)))

-- `ValidateRequest`
unfoldable pub validate_request : Option JsonRpcSchema → String → Fields → Option String
unfolding request_error
validate_request none method fs = none
validate_request (some s) method fs = elim (lookup method s.requests) [
  | none ↦ none
  | some validator ↦ request_error method (validator fs)
]

-- strconv.FormatFloat of a number, fmt.Sprint of a value, and strconv.Atoi with the number it gives.
pub record Formats : Type 0 where
  pub format_float : String → String
  pub sprint : Value → String
  pub atoi : String → Option String

module _ (f : Formats) where
  abbrev pub as_text : Value → String
  as_text (num n) = f.format_float n
  as_text v = f.sprint v

  abbrev pub Revised : Type 0
  Revised = Fields × List Flaw

  -- The switch over the type of a property: a flaw is mended, or kept.
  unfoldable pub mend : Shape → Flaw → Revised → Option Revised
  mend raw flaw (fs, errs) = none
  mend (several ts) flaw (fs, errs) = some (fs, errs ++ flaw ∷ [])
  mend (one t) flaw (fs, errs) =
      let v = field flaw.field_name fs in
      if t == "string"
      then some (set_field flaw.field_name (str (as_text v)) fs, errs)
      else if t == "integer"
      then elim (f.atoi (f.sprint v)) [
        | some n ↦ some (set_field flaw.field_name (num n) fs, errs)
        | none ↦ some (fs, errs ++ flaw ∷ [])
      ]
      else if t == "null"
      then some (set_field flaw.field_name null fs, errs)
      else some (fs, errs ++ flaw ∷ [])

  unfoldable pub revise_one : Dict String Shape → Flaw → Revised → Option Revised
  unfolding mend
  revise_one properties flaw (fs, errs) =
      if flaw.kind == "invalid_type"
      then elim (lookup flaw.field_name properties) [
        | none ↦ some (fs, errs ++ flaw ∷ [])
        | some shape ↦ mend shape flaw (fs, errs)
      ]
      else some (fs, errs ++ flaw ∷ [])

  unfoldable pub revise : Dict String Shape → List Flaw → Revised → Option Revised
  unfolding revise_one
  revise properties [] r = some r
  revise properties (flaw ∷ flaws) r = elim (revise_one properties flaw r) [
    | none ↦ none
    | some r' ↦ revise properties flaws r'
  ]

  abbrev pub result_error : String → List Flaw → Option String
  result_error method [] = none
  result_error method (x ∷ xs) = some (
      str_append method
        (str_append " result validate failed: " (join "; " (map describe (x ∷ xs)))))

  abbrev pub of_revised : String → Option Revised → Option (Option String × Fields)
  of_revised method none = none
  of_revised method (some (fs, errs)) = some (result_error method errs, fs)

  -- What is made of the verdict on a response.
  unfoldable pub judge :
      Dict String Shape → String → Bool → Fields → Verdict → Option (Option String × Fields)
  unfolding revise
  judge properties method revised fs (unreadable e) = some (some e, fs)
  judge properties method true fs (judged flaws) =
      of_revised method (revise properties flaws (fs, []))
  judge properties method false fs (judged flaws) = some (result_error method flaws, fs)

  -- `ValidateResponse`: the error, and the response, which it may change. A method with a schema of its
  -- requests alone is a panic.
  unfoldable pub validate_response :
      Option JsonRpcSchema → String → Bool → Fields → Option (Option String × Fields)
  unfolding judge
  validate_response none method revised fs = some (none, fs)
  validate_response (some s) method revised fs = elim (lookup method s.requests) [
    | none ↦ some (none, fs)
    | some _ ↦ elim (lookup method s.responses) [
      | none ↦ none
      | some validator ↦
          judge (properties_of (lookup method s.properties)) method revised fs (validator fs)
    ]
  ]
