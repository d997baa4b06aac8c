-- ===== src/HttpClient.antt =====
-- internal/core/endpoint/http_client.go, with recordingErrorResult of client.go: one call of an endpoint
-- over HTTP, its outcome by errors, status and body, and the endpoint's metrics after it. net/http,
-- encoding/json, fmt and the clocks are the record `Transport`.
pub mod Outcomes
pub mod Making
use web3_rpc_proxy.Prelude.{
  ℕ, String, Bool, true, false, ◌&&◌, not, Option, none, some, List, [], ◌∷◌, ◌==◌,
  string_comparable, leb, ltb, if◌then◌else◌,
}
use web3_rpc_proxy.Prelude.Int.{ℤ}
use web3_rpc_proxy.Json.{Value, obj, Fields, end, field}
use web3_rpc_proxy.Rpc.{Sealed, Reply, RpcType, error, reply_type, reply_error, unmarshal_replies}
use web3_rpc_proxy.Errors.{
  HttpError, GoError, http, plain, error_text, timeout_error, upstream_server_error,
  internal_server_error,
}
use web3_rpc_proxy.Endpoint.{State, FloatOps, Observation}
use web3_rpc_proxy.Endpoint.Metrics.{ResponseProfile, update_metrics}
use web3_rpc_proxy.CoreClient.{Outcome}

-- Bytes, or the text of the error that their making or reading gave.
pub data Bytes : Type 0 where
  whole : String → Bytes
  broken : String → Bytes

-- What http.Client.Do gives: a response with its body, or an error; a url.Error
-- says whether it is a timeout, and wraps another error.
pub data Sent : Type 0 where
  response : ℕ → Bytes → Sent
  url_failed : Bool → String → Sent
  failed : String → Sent

pub record Transport : Type 0 where
  pub marshal : List Sealed → Bytes
  pub send : String → Sent
  pub cause : Option GoError
  pub elapsed : ℤ
  pub now : ℤ
  pub parse : String → Option Value
  pub sprint : Value → String
  pub status_text : ℕ → String

abbrev pub connection_failed : String → HttpError
connection_failed text = upstream_server_error "Error connection to endpoint" (some text ∷ [])

-- A deadline's cause that is no error of the proxy fails the type assertion: a panic.
abbrev of_cause : HttpError → Option GoError → Option HttpError
of_cause e none = some e
of_cause e (some (http c)) = some c
of_cause e (some (plain text)) = none

-- The error of `request`; the outer `none` is a panic.
unfoldable pub request_error : Option GoError → Sent → Option (Option HttpError)
request_error cause (response status body) = some none
request_error cause (failed text) = some (some (connection_failed text))
request_error cause (url_failed true text) = some (some (timeout_error text (some text ∷ [])))
request_error cause (url_failed false text) =
    if text == "context deadline exceeded"
    then elim (of_cause (connection_failed text) cause) [ none ↦ none | some e ↦ some (some e) ]
    else some (some (connection_failed text))

module _ (t : Transport) where
  abbrev code_of : Value → String × String
  code_of (obj fs) = (t.sprint (field "code" fs), t.sprint (field "message" fs))
  code_of _ = ("unknown_error", t.sprint (obj end))

  unfoldable pub recording_error_result : ResponseProfile → Reply → ResponseProfile
  recording_error_result p r =
      let (code, message) = code_of (reply_error r) in record p { code = code; message = message }

  abbrev is_error : RpcType → Bool
  is_error error = true
  is_error _ = false

  -- A single error result is recorded in the profile.
  abbrev record_single : Bool → List Reply → ResponseProfile → ResponseProfile
  record_single true rs p = p
  record_single false [] p = p
  record_single false (r ∷ rs) p = if is_error (reply_type r) then recording_error_result p r else p

  -- A body that does not decode leaves the slice nil.
  abbrev slice_of : Bool → List Reply → Option (List Reply)
  slice_of false [] = none
  slice_of _ rs = some rs

  abbrev pub give_up : HttpError → ResponseProfile → Outcome
  give_up e p = record { results = none; err = some (http e); profile = p }

  -- The part after the status of the response has been accepted.
  unfoldable pub decode_body : String → ResponseProfile → Outcome
  decode_body body p =
      let (rs, batch, e) = unmarshal_replies t.parse body in
      elim e [
        | some text ↦
            give_up (internal_server_error "Unmarshalling response failed" (some text ∷ []))
              (record p { code = "request_error"; error = text })
        | none ↦ record {
          results = slice_of batch rs;
          err = none;
          profile = record_single batch rs p;
        }
      ]

  abbrev pub accepted : ℕ → Bool
  accepted status = leb 200 status && ltb status 300

  -- The part after `request`, with the number of bytes of a body.
  unfoldable pub read_response : (String → ℕ) → ℕ → Bytes → ResponseProfile → Outcome
  read_response size status (broken text) p =
      give_up (upstream_server_error "Reading response failed" (some text ∷ []))
        (record p { code = "connection_error"; error = text })
  read_response size status (whole body) p =
      let q = record p { traffic = size body; status = status } in
      if accepted status
      then decode_body body q
      else give_up (upstream_server_error "HTTP error" (some (t.status_text status) ∷ []))
          (record q { code = "http_error" })

  abbrev finish_request : (String → ℕ) → Sent → Option HttpError → ResponseProfile → Outcome
  finish_request size sent (some e) p = give_up e (record p { error = error_text e })
  finish_request size (response status body) none p = read_response size status body p
  finish_request size _ none p = record { results = none; err = none; profile = p }

  -- `Call`, without the metrics: an outcome, or a panic; the flag says that the metrics are told.
  unfoldable pub call_outcome :
      (String → ℕ) → List Sealed → ResponseProfile → Option (Outcome × Bool)
  call_outcome size sealed p = elim (t.marshal sealed) [
    | broken text ↦
        some
          (give_up (internal_server_error "Marshalling request failed" (some text ∷ [])) p, false)
    | whole b ↦ elim (request_error t.cause (t.send b)) [
      | none ↦ none
      | some e ↦ some (finish_request size (t.send b) e (record p { duration = t.elapsed }), true)
    ]
  ]

  -- `Call`: the outcome, and the attributes of the endpoint after the deferred update.
  unfoldable pub call :
      {F : Type 0}
      → FloatOps F
      → (String → ℕ)
      → List Sealed
      → ResponseProfile
      → State F
      → Option (Outcome × State F)
  call fl size sealed p s = elim (call_outcome size sealed p) [
    | none ↦ none
    | some (out, false) ↦ some (out, s)
    | some (out, true) ↦ elim (update_metrics fl t.now out.profile s) [
      | none ↦ none
      | some (s', obs) ↦ some (out, s')
    ]
  ]
