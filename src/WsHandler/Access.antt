-- ===== src/WsHandler/Access.antt =====
-- What a connection's calls are spared: the check of the tenant that an HTTP call has.
use web3_rpc_proxy.Prelude.{
  false, ℕ, String, ◌≡◌, true, Option, none, some, List, [], ◌∷◌, ◌++◌, arith, string_comparable,
}
use web3_rpc_proxy.Json.{Value}
use web3_rpc_proxy.Errors.{success, forbidden_error}
use web3_rpc_proxy.Controller.{call, get_tenant_app}
use web3_rpc_proxy.WsHandler.{
  text, other, Wire, Session, fresh_context, send, reply, process, serve_message, serve_frame,
}

module _ {E F W : Type 0} (wire : Wire E F W) (chain : ℕ) where
  -- With the tenants' feature enabled, and a chain with endpoints: the HTTP call of a request without a
  -- key is refused, its world unchanged, while the same request as a message is given to the agent
  -- service, and its bytes are sent to the client, where the agent service has no error and
  -- does not panic.
  pub serve_frame-unchecked :
      (message bytes : String) (v : Option Value) (e : E) (es : List E) (w x y : W) (s : Session W)
      → wire.services.enable_tenant ≡ true
      → wire.peek message ≡ other v
      → wire.services.get_all chain (wire.arrives message s.world) ≡ some (e ∷ es)
      → wire.services.agent_call (fresh_context chain) (e ∷ es) (wire.arrives message s.world)
        ≡ ((none, bytes), x)
      → wire.panicked x ≡ false
      → wire.write bytes x ≡ (true, y)
      → (call wire.services (fresh_context chain) (e ∷ es) w
          ≡ ((some (forbidden_error "Token is empty" []), "", fresh_context chain), w))
        × (serve_frame wire chain (text message) s ≡ (
          true,
          record { world = y; sent = s.sent ++ bytes ∷ []; counted = s.counted ++ success ∷ [] },
        ))
  unfolding call get_tenant_app serve_frame serve_message process reply send
  serve_frame-unchecked message bytes v e es w x y s a p g c m k =
      (ground (arith, a), ground (arith, p, g, c, m, k))
