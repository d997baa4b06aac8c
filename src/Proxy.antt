-- ===== src/Proxy.antt =====
-- The parts put together, for endpoints over HTTP: `Request` of internal/core/client.go with the clients of
-- GetClient and the calls of http_client.go, which write into the shared endpoints, as the `request` that
-- the agent service is given. Places in the heap of attributes stand for the endpoints.
pub mod Clients
pub mod Calls
pub mod Rounds
pub mod Failover
pub mod Orders
pub mod Answers
pub mod Serving
use web3_rpc_proxy.Prelude.{
  ℕ, String, Bool, true, false, Option, none, some, List, [], is_some, set,
}
use web3_rpc_proxy.Prelude.Int.{ℤ}
use web3_rpc_proxy.Rpc.{Sealed, Reply}
use web3_rpc_proxy.Errors.{GoError}
use web3_rpc_proxy.Endpoint.{State, FloatOps, health}
use web3_rpc_proxy.Endpoint.Metrics.{ResponseProfile}
use web3_rpc_proxy.Endpoint.Clients.{Makers, Client, http_client, web_socket_client, get_client}
use web3_rpc_proxy.EndpointService.Service.{state_at}
use web3_rpc_proxy.CoreClient.{Net, Limits, Loop, Outcome, request}
use web3_rpc_proxy.Agent.Store.{Config, Deps}
use web3_rpc_proxy.Agent.Upstream.{Result, ok, err, panic}
use web3_rpc_proxy.Agent.Service.{serve_body}
use web3_rpc_proxy.Controller.{Context, Services}
use web3_rpc_proxy.HttpClient.{Transport, call}

-- The endpoints' attributes, whether a call has panicked (what follows means nothing then), and the world
-- outside.
pub record World (F R : Type 0) : Type 0 where
  pub heap : List (State F)
  pub panicked : Bool
  pub rest : R

-- What the parts take from outside: the arithmetic, the clients, what an endpoint answers to a call
-- with or without a deadline of its own, ids and clocks.
pub record Wiring (C F R : Type 0) : Type 0 where
  pub floats : FloatOps F
  pub size : String → ℕ
  pub contains : String → String → Bool
  pub makers : Makers C ℕ R
  pub wire : ℕ → Option ℤ → Transport
  -- A call of a client of WebSockets.
  pub web_socket_call :
      C → Option ℤ → List Sealed → ResponseProfile → World F R → Option (Outcome × World F R)
  pub fresh_id : R → String × R
  pub clock : R → ℤ

module _ {C F R : Type 0} (wiring : Wiring C F R) where
  -- `GetClient` before a call.
  unfoldable pub connect : ℕ → World F R → Option (Client C ℕ) × World F R
  connect e w =
      let (client, rest) = get_client wiring.makers e w.rest in (client, record w { rest = rest })

  -- A call of a client of HTTP that was made for the endpoint `e`, into which its deferred update writes.
  unfoldable pub http_call :
      ℕ → Option ℤ → List Sealed → ResponseProfile → World F R → Option (Outcome × World F R)
  http_call e deadline sealed p w =
      elim (call (wiring.wire e deadline) wiring.floats wiring.size sealed p (state_at w.heap e)) [
        | none ↦ none
        | some (out, s) ↦ some (out, record w { heap = set w.heap e s })
      ]

  -- The call of a client, whichever endpoint asked for it.
  abbrev pub client_call :
      Client C ℕ
      → Option ℤ
      → List Sealed
      → ResponseProfile
      → World F R
      → Option (Outcome × World F R)
  client_call (http_client e request) deadline sealed p w = http_call e deadline sealed p w
  client_call (web_socket_client c) deadline sealed p w =
      wiring.web_socket_call c deadline sealed p w

  abbrev next_id : World F R → String × World F R
  next_id w = let (id, rest) = wiring.fresh_id w.rest in (id, record w { rest = rest })

  unfoldable pub net : Net (Client C ℕ) ℕ (World F R)
  net = record {
    url = wiring.makers.url;
    connect = connect;
    healthy = λ e w. health (state_at w.heap e);
    call = client_call;
    fresh_id = next_id;
    clock = λ w. wiring.clock w.rest;
  }

  abbrev pub start : World F R → Loop (World F R)
  start w = record { world = w; results = none; err = none; requests = []; responses = [] }

  -- The request of the agent service's client.
  unfoldable pub send_request :
      Limits → List ℕ → List Sealed → World F R → (Option GoError × List Reply) × World F R
  unfolding net
  send_request limits es sealed w = elim (request wiring.contains net limits es sealed (start w)) [
    | none ↦ ((none, []), record w { panicked = true })
    | some (out, s) ↦ (out, s.world)
  ]

  -- The agent service with that client; the endpoints are those that the controller hands it.
  abbrev pub with_client : Limits → (List ℕ → Deps ℕ (World F R)) → List ℕ → Deps ℕ (World F R)
  with_client limits deps es = record (deps es) { request = send_request limits }

  abbrev pub of_service : Result String × World F R → (Option GoError × String) × World F R
  of_service (ok bytes, w) = ((none, bytes), w)
  of_service (err e, w) = ((some e, ""), w)
  of_service (panic, w) = ((none, ""), record w { panicked = true })

  -- `agentService.Call` of a request with this body, as the controller calls it.
  unfoldable pub call_service :
      {G : Type 0}
      → Limits
      → (List ℕ → Deps ℕ (World F R))
      → Config
      → Bool
      → String
      → Context G
      → List ℕ
      → World F R
      → (Option GoError × String) × World F R
  unfolding send_request
  call_service limits deps cfg caches body rc es w =
      of_service (serve_body (with_client limits deps es) cfg rc.chain_id caches body w)

  -- The controller with that agent service.
  abbrev pub with_service :
      {G : Type 0}
      → Limits
      → (List ℕ → Deps ℕ (World F R))
      → Config
      → Bool
      → String
      → Services ℕ G (World F R)
      → Services ℕ G (World F R)
  with_service limits deps cfg caches body s = record s {
    agent_call = call_service limits deps cfg caches body;
  }
