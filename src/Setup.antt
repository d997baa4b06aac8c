-- ===== src/Setup.antt =====
-- What the parts are given of the configuration when they are made: internal/app/agent/agent_module.go,
-- the constructors of agent_service.go, agent_controller.go and endpoint_service.go, and the routes of
-- internal/app/router.go. koanf's `Unmarshal` into a struct and net/http's NewRequest are parameters.
use web3_rpc_proxy.Prelude.{
  ℕ, String, ◌≡◌, Bool, false, not, ◌||◌, Option, none, some, List, [], ◌∷◌, ◌==◌,
  string_comparable, arith, if◌then◌else◌,
}
use web3_rpc_proxy.Prelude.Dict.{Dict}
use web3_rpc_proxy.Prelude.Int.{ℤ, pos}
use web3_rpc_proxy.Rpc.{Request, method}
use web3_rpc_proxy.Agent.Store.{Config, Deps, can_cache}
use web3_rpc_proxy.Agent.Service.{serve, direct, invalid}
use web3_rpc_proxy.Conf.{Koanf, read_or}

pub record ControllerConfig : Type 0 where
  pub app_name : String
  pub enable_tenant_feature : Bool
  pub amqp_exchange : String

pub record ProviderConfig : Type 0 where
  pub method : String
  pub url : String
  pub headers : Option (List (String × String))
  pub sources : List String

-- A request that net/http has made, with the headers that were set.
pub record Provider (Q : Type 0) : Type 0 where
  pub request : Q
  pub sources : List String

module _ {L V S : Type 0} (k : Koanf L V S) (int duration : String → S → ℤ) (conf : S) where
  abbrev pub expiry_path : String
  expiry_path = "cache.results.expiry_durations"

  -- The part of `NewAgentService` that makes its configuration; `durations` is what the path unmarshals to.
  unfoldable pub new_agent_service : ℤ → (String → S → Dict String ℤ) → Config
  new_agent_service fifteen_minutes durations = record {
    cache_methods = if k.exists expiry_path conf then some (durations expiry_path conf) else none;
    disable_cache =
        read_or k k.bool "cache.results.disable" (false ∷ []) conf
        || not (k.exists expiry_path conf);
    cache_ttl = read_or k duration "cache.results.ttl" (fifteen_minutes ∷ []) conf;
  }

  -- The configuration that `NewAgentController` makes.
  unfoldable pub new_agent_controller : ControllerConfig
  new_agent_controller = record {
    app_name = read_or k k.string "app.name" ("Web3 RPC Proxy" ∷ []) conf;
    enable_tenant_feature = read_or k k.bool "tenant.enable" (false ∷ []) conf;
    amqp_exchange = read_or k k.string "amqp.exchange" ("web3rpcproxy.query.topic" ∷ []) conf;
  }

  -- The size that `NewClientFactory` gives the cache of clients.
  unfoldable pub clients_size : ℤ
  clients_size = read_or k int "clients.size" (pos 64 ∷ []) conf

  -- The time between two refreshes, which `Init` starts.
  unfoldable pub refresh_interval : ℤ → ℤ
  refresh_interval thirty_seconds =
      read_or k duration "endpoints-refresh-interval" (thirty_seconds ∷ []) conf

  abbrev or_empty : Option String → String
  or_empty none = ""
  or_empty (some b) = b

  -- `NewJSONRPCSchema`: the document of the schema, none if the validation is off or there are no bytes.
  unfoldable pub schema_document : (V → Option String) → String
  schema_document bytes_of =
      if read_or k k.bool "jsonrpc.enable_validation" (false ∷ []) conf
      then or_empty (bytes_of (k.get "jsonrpc.schema" conf))
      else ""

  -- `NewWeb3RPCProvider`: no provider without an address, or where the request cannot be made.
  unfoldable pub new_web3_rpc_provider :
      {Q : Type 0}
      → (ProviderConfig → S → ProviderConfig)
      → (String → String → Option Q)
      → (List (String × String) → Q → Q)
      → Option (Provider Q)
  new_web3_rpc_provider unmarshal new_request set_headers =
      let c = unmarshal (record { method = "GET"; url = ""; headers = none; sources = [] }) conf in
      if c.url == "" then none else elim (new_request c.method c.url) [
        | none ↦ none
        | some q ↦ some (record {
          request = elim c.headers [ none ↦ q | some hs ↦ set_headers hs q ];
          sources = c.sources;
        })
      ]

  -- Without durations in the configuration nothing is ever cached: no method can be, and a request that
  -- the schema accepts goes to the endpoints, whatever it says of the cache itself.
  pub new_agent_service-uncached :
      {E W : Type 0} (fifteen_minutes : ℤ) (durations : String → S → Dict String ℤ) (d : Deps E W)
      (chain : ℕ) (batch caches : Bool) (q : Request) (qs : List Request) (w : W)
      → k.exists expiry_path conf ≡ false
      → invalid d (q ∷ qs) ≡ none
      → (can_cache (new_agent_service fifteen_minutes durations) (method q) ≡ false)
        × (serve d (new_agent_service fifteen_minutes durations) chain batch caches (q ∷ qs) w
            ≡ direct d (new_agent_service fifteen_minutes durations) chain batch (q ∷ qs) w)
  unfolding new_agent_service can_cache serve
  new_agent_service-uncached fifteen_minutes durations d chain batch caches q qs w e i =
      (ground (arith, e), ground (arith, e, i))

-- The routes of `RegisterRoutes`: the method, the path and the handler.
pub data Route : Type 0 where
  metrics healthz call web_socket : Route

abbrev pub register_routes : List (String × String × Route)
register_routes =
    ("GET", "/metrics", metrics)
    ∷ ("GET", "/k8s/healthz", healthz)
    ∷ ("POST", "/{chain}", call)
    ∷ ("POST", "/{apikey}/{chain}", call)
    ∷ ("POST", "/rpc/{chain}", call)
    ∷ ("GET", "/ws/{chain}", web_socket)
    ∷ ("GET", "/ws/{apikey}/{chain}", web_socket)
    ∷ []
