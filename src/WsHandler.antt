-- ===== src/WsHandler.antt =====
-- internal/app/agent/controller/ws_handler.go: a WebSocket connection of a client, message by message, from
-- the welcome to the end of the loop. The services are those of an HTTP call; pings, the deadlines of
-- reading and writing, logs, durations and the publication to the message queue are left out.
pub mod Messages
pub mod Lasting
pub mod Access
use web3_rpc_proxy.Prelude.{
  ℕ, String, Bool, true, false, ◌&&◌, Option, none, some, List, [], ◌∷◌, ◌++◌, length, leb,
  if◌then◌else◌,
}
use web3_rpc_proxy.Json.{
  Value, null, num, str, arr, obj, Fields, entry, end, cons, nil, field, as_object, as_array,
}
use web3_rpc_proxy.Errors.{
  GoError, http, plain, QueryStatus, success, error, query_status, error_text,
}
use web3_rpc_proxy.Controller.{Context, Services}

-- What ReadMessage gives: a message, or an error, as of a client that is gone or of a message that is longer
-- than the limit.
pub data Frame : Type 0 where
  text : String → Frame
  binary gone : Frame

-- What the decoder of encoding/json gives: the first token, and then the next value (for an array, that
-- is what stands behind its bracket) or the whole first one, if there is one.
pub data Peeked : Type 0 where
  broken : String → Peeked
  bracket other : Option Value → Peeked

-- The services, and what is outside: the decoder, json.Marshal of an answer, the body that the context of
-- a message is given, `safeWrite`, which says whether it wrote, and whether a call of the agent service has
-- panicked, by the world that it leaves.
pub record Wire (E F W : Type 0) : Type 0 where
  pub services : Services E F W
  pub peek : String → Peeked
  pub marshal : Value → String
  pub arrives : String → W → W
  pub write : String → W → Bool × W
  pub panicked : W → Bool

-- What was written to the client, and the statuses that TotalRequests has counted.
pub record Session (W : Type 0) : Type 0 where
  pub world : W
  pub sent : List String
  pub counted : List QueryStatus

-- The id of an error's answer: `batchRequests[0]["id"]` or `request["id"]`, of what could be decoded.
unfoldable pub batch_id : Option Value → Value
unfolding as_array
batch_id none = null
batch_id (some v) = elim (as_array v) [
  | none ↦ null
  | some [] ↦ null
  | some (fs ∷ rest) ↦ field "id" fs
]

unfoldable pub single_id : Option Value → Value
unfolding as_object
single_id none = null
single_id (some v) = elim (as_object v) [ none ↦ null | some fs ↦ field "id" fs ]

-- The maps of the source, their keys in the order in which json.Marshal writes them.
unfoldable pub error_answer : Value → Fields → Value
error_answer i body =
    obj (entry "error" (obj body) (entry "id" i (entry "jsonrpc" (str "2.0") end)))

abbrev pub parse_error : String → Fields
parse_error cause =
    entry "code" (num "-32700") (entry "data" (str cause) (entry "message" (str "Parse error") end))

abbrev pub no_endpoints : Fields
no_endpoints = entry "code" (num "-32000") (entry "message" (str "No endpoints available") end)

abbrev pub call_error : String → Fields
call_error message = entry "code" (num "-32603") (entry "message" (str message) end)

abbrev pub go_text : GoError → String
go_text (http e) = error_text e
go_text (plain message) = message

-- `reqctx.NewReqctx` over an empty request, after `SetChain`.
abbrev pub fresh_context : {F : Type 0} → ℕ → Context F
fresh_context chain = record { chain_id = chain; app = none; app_key = ""; app_bucket = "default" }

module _ {E F W : Type 0} (wire : Wire E F W) (chain : ℕ) where
  -- Whether the loop goes on, and the session after a write.
  unfoldable pub send : String → Session W → Bool × Session W
  send answer s =
      let (ok, w) = wire.write answer s.world in
      (
        ok,
        if ok then record s { world = w; sent = s.sent ++ answer ∷ [] } else record s { world = w },
      )

  abbrev pub count_if : QueryStatus → Bool × Session W → Bool × Session W
  count_if status (true, s) = (true, record s { counted = s.counted ++ status ∷ [] })
  count_if status (false, s) = (false, s)

  abbrev pub status_of : GoError → QueryStatus
  status_of (http e) = query_status wire.services.contains e
  status_of (plain message) = error

  -- One object, also as the only item of an array for a batch.
  abbrev pub framed : Bool → Value → Value
  framed true v = arr (cons v nil)
  framed false v = v

  unfoldable pub reply : Bool → Value → (Option GoError × String) × W → Session W → Bool × Session W
  unfolding send error_answer
  reply batch i ((some e, bytes), w) s = count_if (status_of e) (
      send (wire.marshal (framed batch (error_answer i (call_error (go_text e)))))
        (record s { world = w }))
  reply batch i ((none, bytes), w) s = count_if success (send bytes (record s { world = w }))

  -- A panic of the call is recovered nowhere, and ends the loop.
  abbrev pub replied : Bool → Value → (Option GoError × String) × W → Session W → Bool × Session W
  replied batch i (r, w) s =
      if wire.panicked w then (false, record s { world = w }) else reply batch i (r, w) s

  unfoldable pub process : String → Bool → Value → Session W → Bool × Session W
  unfolding reply send error_answer
  process message batch i s =
      let w = wire.arrives message s.world in
      let refused = send (wire.marshal (error_answer i no_endpoints)) (record s { world = w }) in
      elim (wire.services.get_all chain w) [
        | none ↦ refused
        | some es ↦
            if leb 1 (length es)
            then replied batch i (wire.services.agent_call (fresh_context chain) es w) s
            else refused
      ]

  unfoldable pub serve_message : String → Peeked → Session W → Bool × Session W
  unfolding process send error_answer batch_id single_id
  serve_message message (broken e) s = send (wire.marshal (error_answer null (parse_error e))) s
  serve_message message (bracket v) s = process message true (batch_id v) s
  serve_message message (other v) s = process message false (single_id v) s

  -- The body of the loop.
  unfoldable pub serve_frame : Frame → Session W → Bool × Session W
  unfolding serve_message
  serve_frame gone s = (false, s)
  serve_frame binary s = (true, s)
  serve_frame (text message) s = serve_message message (wire.peek message) s

  unfoldable pub serve_frames : List Frame → Session W → Bool × Session W
  unfolding serve_frame
  serve_frames [] s = (true, s)
  serve_frames (f ∷ fs) s =
      let (on, t) = serve_frame f s in
      let rest = serve_frames fs t in if on then rest else (false, t)

  -- What the handler does after the upgrade, for the messages that have arrived.
  unfoldable pub serve_client : List Frame → Session W → Bool × Session W
  unfolding serve_frames send
  serve_client fs s =
      let (on, t) = send (wire.marshal (obj (entry "status" (str "connected") end))) s in
      let rest = serve_frames fs t in if on then rest else (false, t)

-- `HandleWebSocket`: a chain that strconv.ParseUint refuses is answered by 400, and gives none.
unfoldable pub handle_web_socket :
    {E F W : Type 0} → Wire E F W → Option ℕ → List Frame → Session W → Option (Bool × Session W)
unfolding serve_client
handle_web_socket wire none fs s = none
handle_web_socket wire (some chain) fs s = some (serve_client wire chain fs s)
