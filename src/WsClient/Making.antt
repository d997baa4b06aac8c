-- ===== src/WsClient/Making.antt =====
-- The making and the end of a client of internal/core/endpoint/websocket_client.go.

use web3_rpc_proxy.Prelude.{String, Bool, Option, none, ◌==◌, string_comparable, if◌then◌else◌}

-- `NewWebSocketClient`: no client without an address or without a connection, which is dialled once.
unfoldable pub new_web_socket_client :
    {C W : Type 0} → String → (W → Option C × W) → W → Option C × W
new_web_socket_client url connect w = if url == "" then (none, w) else connect w

-- `Close`: the writing of the close message may fail, its error is only logged.
unfoldable pub close_client : Bool → Option String → Option String
close_client connected closing = if connected then closing else none
