-- ===== src/WsClient/Reconnecting.antt =====
-- What `request` of internal/core/endpoint/websocket_client.go does where its message cannot be written. The library of WebSockets gives what a write or a dial gives.
use web3_rpc_proxy.Prelude.{
  String, ◌≡◌, Bool, true, false, ◌&&◌, Option, none, some, ◌==◌, string_comparable,
}
use web3_rpc_proxy.WsClient.{Ending, late, unsent}

-- An error of the network: the operation and the text of what it wraps, of the first net.OpError in its
-- chain, if there is one; the text that it wraps, if it is a net.OpError itself; and its own text.
pub record WriteError : Type 0 where
  pub op : Option (String × String)
  pub cause : Option String
  pub text : String

-- `isBrokenPipeError`
abbrev of_op : Option (String × String) → Bool
of_op none = false
of_op (some (op, text)) = op == "write" && text == "write: broken pipe"

unfoldable pub is_broken_pipe_error : WriteError → Bool
is_broken_pipe_error e = of_op e.op

-- The text that the error of a request wraps.
abbrev pub unsent_by : WriteError → Ending
unsent_by e = elim e.cause [ none ↦ unsent e.text | some cause ↦ unsent cause ]

-- A select over the channel of the request, which may have something ready, and a context, which may be
-- done: one of those that are ready.
pub data Selected (ready : Option Ending) (done : Bool) (e : Ending) : Type 0 where
  takes : ready ≡ some e → Selected ready done e
  gives_up : done ≡ true → e ≡ late → Selected ready done e

-- What is known when a write has failed: whether the reconnection gives a connection, the error of the
-- second write, and what the channel has ready after it.
pub record Retry : Type 0 where
  pub connected : Bool
  pub rewritten : Option WriteError
  pub ready : Option Ending

-- The new context is cancelled before the select that waits for it.
abbrev pub cancelled : Bool
cancelled = true

-- How a request ends whose write has failed.
pub data Ends (first : WriteError) (r : Retry) (e : Ending) : Type 0 where
  other_error : is_broken_pipe_error first ≡ false → e ≡ unsent_by first → Ends first r e
  not_connected :
      is_broken_pipe_error first ≡ true → r.connected ≡ false → e ≡ unsent_by first → Ends first r e
  not_rewritten :
      (second : WriteError)
      → is_broken_pipe_error first ≡ true
      → r.connected ≡ true
      → r.rewritten ≡ some second
      → e ≡ unsent_by second
      → Ends first r e
  rewritten :
      is_broken_pipe_error first ≡ true
      → r.connected ≡ true
      → r.rewritten ≡ none
      → Selected r.ready cancelled e
      → Ends first r e
