-- ===== src/WsClient.antt =====
-- internal/core/endpoint/websocket_client.go: the keys of sessions and the outcome of a call; the children
-- hold the sessions that requests and the reader of messages share.
pub mod Keys
pub mod Dialling
pub mod Sessions
pub mod Moves
pub mod Delivery
pub mod Answering
pub mod Races
pub mod Reconnecting
pub mod Making
use web3_rpc_proxy.Prelude.{
  ℕ, String, Bool, true, false, Option, none, some, List, [], ◌∷◌, ◌++◌, map, ◌==◌,
  string_comparable, if◌then◌else◌,
}
use web3_rpc_proxy.Prelude.Int.{ℤ}
use Prim.Native.String.{◌++◌ as str_append}
use web3_rpc_proxy.Json.{Value, field}
use web3_rpc_proxy.Rpc.{Sealed, Reply, RpcType, error, reply_type}
use web3_rpc_proxy.Errors.{
  HttpError, GoError, http, error_text, upstream_server_error, timeout_error, internal_server_error,
}
use web3_rpc_proxy.Endpoint.Metrics.{ResponseProfile}
use web3_rpc_proxy.CoreClient.{Outcome}
use web3_rpc_proxy.HttpClient.{Transport, Bytes, whole, broken, recording_error_result, give_up}

-- `slice.Join(ids, "")`
unfoldable pub joined : List String → String
joined [] = ""
joined (x ∷ xs) = str_append x (joined xs)

-- `sort` is slice.Sort, `short` is helpers.Short and `sprint` is fmt.Sprint.
module _ (sort : List String → List String) (short : String → String) where
  unfoldable pub get_jsonrpc_key : List Sealed → String
  unfolding joined
  get_jsonrpc_key sealed = short (joined (sort (map (λ r. r.id) sealed)))

  unfoldable pub get_json_result_key : (Value → String) → List Reply → String
  unfolding joined
  get_json_result_key sprint rs = short (joined (sort (map (λ r. sprint (field "id" r.raw)) rs)))

-- How a request ends.
pub data Ending : Type 0 where
  answered : List Reply → Ending
  closed late no_connection : Ending
  unsent : String → Ending

-- The error that `request` returns for an ending.
unfoldable pub ending_error : Ending → Option HttpError
ending_error (answered rs) = none
ending_error closed = some (upstream_server_error "Error connection to endpoint" (none ∷ []))
ending_error late = some (timeout_error "context deadline exceeded" [])
ending_error no_connection = some (upstream_server_error "WebSocket connection is nil" (none ∷ []))
ending_error (unsent text) = some (upstream_server_error "Error creating request" (some text ∷ []))

abbrev results_of : Ending → List Reply
results_of (answered rs) = rs
results_of _ = []

-- The switch over the text of an error.
abbrev pub code_for : String → String → String
code_for text code =
    if text == "Error connection to endpoint"
    then "connection_error"
    else if text == "Error creating request"
    then "request_error"
    else code

module _ (t : Transport) where
  abbrev is_error : RpcType → Bool
  is_error error = true
  is_error _ = false

  abbrev pub last : Reply → List Reply → Reply
  last r [] = r
  last r (s ∷ rs) = last s rs

  -- The last result is recorded if it is an error.
  unfoldable pub record_last : List Reply → ResponseProfile → ResponseProfile
  record_last [] p = p
  record_last (r ∷ rs) p =
      if is_error (reply_type (last r rs)) then recording_error_result t p (last r rs) else p

  -- The profile of results that are written again, with the number of bytes.
  abbrev traced : (String → ℕ) → Bytes → ResponseProfile → ResponseProfile
  traced size (whole body) p = record p { status = 200; traffic = size body }
  traced size (broken text) p = p

  -- `Call`, for a request that has ended in the given way; `write` is json.Marshal of the results.
  unfoldable pub call :
      (String → ℕ) → (List Reply → Bytes) → List Sealed → Ending → ResponseProfile → Outcome
  unfolding ending_error record_last
  call size write sealed ending p = elim (t.marshal sealed) [
    | broken text ↦
        give_up t (internal_server_error "Marshalling request failed" (some text ∷ [])) p
    | whole b ↦ elim (ending_error ending) [
      | some e ↦ give_up t e (record p {
        duration = t.elapsed;
        code = code_for (error_text e) p.code;
        error = error_text e;
      })
      | none ↦ record {
        results = some (results_of ending);
        err = none;
        profile =
            record_last (results_of ending)
              (traced size (write (results_of ending)) (record p { duration = t.elapsed }));
      }
    ]
  ]
