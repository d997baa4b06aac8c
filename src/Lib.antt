-- ===== src/Lib.antt =====
-- web3-rpc-proxy takes JSON-RPC bodies over HTTP and WebSockets, checks the tenant's balance, looks for cached results
-- in redis, and sends what is left to the endpoints of a chain, with retries. A call goes through the
-- parts in this order, and each has a module:
-- - Controller (internal/app/agent/controller/agent_controller.go): `handle_call` is HandleCall, `call` and
--   `get_tenant_app` are call and getTenantApp. The services it calls are the record `Services`.
-- - Tenant (internal/app/agent/service/tenant_service.go, internal/app/shared/redis_scripts/balance.go):
--   `access` is Access, `balance_script` the Lua script, `affected`, `unaffected` and `flush` are Affected,
--   Unaffected and what debounce writes, where its goroutine is run as it is started. Tenant/Debounce.antt
--   has the goroutines and timers of the requests of one key, as the step relation `Step`.
-- - Reqctx (internal/core/reqctx/reqctxs.go, utils/config/conf.go): the options of a request and the chain it
--   names; Reqctx/Context.antt has the context with its profile, from NewReqctx on.
-- - Agent (internal/app/agent/service/agent_service.go): `serve_body` is Call, `Upstream.call` is call,
--   `get_cache` and `set_cache` are getCache and setCache. Agent/Store.antt has the cache of results,
--   Agent/Upstream.antt the call, Agent/Batch.antt and Agent/Service.antt the body of Call.
-- - Selector (internal/core/endpoint/selector.go): `select` is Select, `best` the order, `score` the scores.
-- - CoreClient (internal/core/client.go): `request` is Request; its loop is `rounds`, which recurs on the
--   number of attempts, so that no fuel is needed.
-- - Endpoint (internal/core/endpoint/endpoint.go, and parts of client.go, provider.go): an endpoint is its
--   map of attributes; `update` is Update, `read` and the typed readers are those of the source.
--   Endpoint/Clients.antt has GetClient of client.go.
-- - EndpointService (internal/app/agent/service/endpoint_service.go, utils/helpers/slice.go,
--   providers/web3-rpc-provider/web3_rpc_provider.go): `load` and `load_from_config` give the endpoints of a
--   chain, `get_all` is GetAll, `refresh` is refresh. Shared endpoints are places in a heap of attributes.
-- - WsClient (internal/core/endpoint/websocket_client.go): the requests of a client and the goroutine that
--   reads the messages of its connection, as the step relation `Step` of WsClient/Sessions.antt: a step is
--   what runs between two waits, so that every interleaving is a sequence of steps. `call` is Call for each
--   ending, and WsClient/Dialling.antt has what a dial writes into the endpoint.
-- - WsHandler (internal/app/agent/controller/ws_handler.go): the connection of a client, message by message.
-- - HttpClient (internal/core/endpoint/http_client.go): `call` is Call, for one endpoint; http.Client is the
--   record `Transport`.
-- - Cache (internal/core/endpoint/cache.go): the endpoints by URL and the URLs of each chain.
-- - Rpc (internal/core/rpc/jsonrpc.go) and Json: requests and results over decoded values. Rpc/Schema.antt
--   (internal/core/rpc/jsonrpc_schema.go) has the loading of schemas, Rpc/Schema/Validation.antt the validation.
-- - ShortText (utils/helpers/shortstr.go): the short texts of which keys are made; `short` is Short.
-- - Errors (internal/common/error.go): the errors of the proxy, their HTTP codes and query statuses.
-- - Proxy puts the parts together for endpoints over HTTP: the clients of GetClient under `rounds`, `rounds`
--   under the agent service, the agent service under the controller, over one heap of attributes. A client is
--   kept under its URL and writes into the endpoint that it was made for (Proxy/Clients.antt); the clients of
--   WebSocket endpoints are parameters here.
-- - Conf (utils/config/conf.go; internal/app/shared/config.go, watcher.go and etcd.go): `load_endpoint_chains` is
--   LoadEndpointChains, `new_conf_instance` NewConfInstance. Conf/Watching.antt has the goroutines that watch
--   the list of endpoints, by the paths they watch, Conf/Reloading.antt what they run. koanf is a record.
-- - Application (internal/app/application.go, utils/config/config.go) has the address and the options of the
--   server, Setup what the constructors read (internal/app/agent/agent_module.go, router.go), and Lifecycle
--   (internal/app/bootstrap.go, database/database.go, shared/redis.go, shared/amqp.go) the connections from
--   OnStart to OnStop, as the list of the calls of outside libraries.
-- - Controller/Publication.antt has the report of a call and publish, Controller/Health.antt the health probes
--   of internal/app/agent/controller/other_controller.go, as the steps of their goroutines, and
--   WsClient/Reconnecting.antt the end of a request whose write fails.
-- - Agent/Rules.antt (internal/app/agent/service/cache.go): the old rules of what is cached, which nothing calls.
-- Prelude holds the tests, lists, dictionaries and integers that all share; Tests the examples.
--
-- The state is passed explicitly. What lies outside the program is a world `W` that the functions of the
-- records `Deps`, `Net` and `Services` step: redis, the database, the local cache, clocks, endpoints,
-- encoding/json. The sort, the shuffle, the random number and the order in which Go visits a map are
-- parameters of the selector, and float64 is the record `FloatOps`. `none` or `panic` stands for a Go panic.
-- Signed integers are `ℤ` with the wrap-around of their width in the updates of endpoints and in the
-- timeout; the balance and the counters of a tenant are not wrapped, since they stay far below 2^63.
--
-- Not modelled, since they only call libraries or only order or print what is modelled: logs, metrics and
-- headers; the locks, which order whole operations; the ticker of the endpoint service; the pings and
-- deadlines of WebSockets; the making of the logger and of the transport, the pool of the database and the
-- reconnection of redis (internal/app/shared/logger.go, redis.go). A reader of a WebSocket that still
-- holds results when its connection is replaced is left out too.
mod Prelude
pub mod Proxy
pub mod Conf
pub mod Application
pub mod Lifecycle
pub mod Setup
pub mod Json
pub mod Rpc
pub mod Endpoint
pub mod Cache
pub mod Reqctx
pub mod Selector
pub mod ShortText
pub mod Errors
pub mod CoreClient
pub mod Agent
pub mod Tenant
pub mod Controller
pub mod HttpClient
pub mod EndpointService
pub mod WsClient
pub mod WsHandler
mod Tests
