-- ===== src/Tests/Proxies.antt =====
-- Examples of requests that go through all parts: the first of three endpoints is down, and the second
-- answers.
use web3_rpc_proxy.Prelude.{
  String, zero, suc, sym, ap, ◌∙◌, inl, ℕ, ◌≡◌, refl, true, false, Option, none, some, List, [],
  ◌∷◌, ◌==◌, contains, arith, string_comparable, nat_comparable, if◌then◌else◌,
}
use web3_rpc_proxy.Prelude.Dict.{lookup}
use web3_rpc_proxy.Prelude.Int.{ℤ, pos}
use web3_rpc_proxy.Json.{Value, obj, field}
use web3_rpc_proxy.Rpc.{
  Reply, Sealed, Request, unmarshal_requests, unmarshal_replies, reply_type, reply_version, method,
}
use web3_rpc_proxy.Reqctx.{rotation}
use web3_rpc_proxy.Errors.{http, success, upstream_server_error, query_status, new_http_error}
use web3_rpc_proxy.Tenant.{App, affected}
use web3_rpc_proxy.Endpoint.{new, read, health}
use web3_rpc_proxy.Endpoint.Clients.{Makers}
use web3_rpc_proxy.Endpoint.Metrics.{new_profile}
use web3_rpc_proxy.EndpointService.Service.{state_at}
use web3_rpc_proxy.Agent.Store.{Config, Deps, can_cache, missing}
use web3_rpc_proxy.Agent.Service.{invalid}
use web3_rpc_proxy.CoreClient.{Limits, succeeded, timed_out}
use web3_rpc_proxy.Controller.{Context, Services, handle_call}
use web3_rpc_proxy.HttpClient.{
  Transport, whole, response, call_outcome, read_response, decode_body, request_error,
}
use web3_rpc_proxy.Proxy.{World, Wiring, send_request}
use web3_rpc_proxy.Proxy.Calls.{Fit}
use web3_rpc_proxy.Proxy.Clients.{IsLru, Unlike, Own}
use web3_rpc_proxy.Proxy.Rounds.{Refuses, Answers}
use web3_rpc_proxy.Proxy.Orders.{some_answers}
use web3_rpc_proxy.Proxy.Failover.{send_request-failover}
use web3_rpc_proxy.Proxy.Serving.{
  handle_call-failover, handle_call-some_answers, controller, agent, sealed_of,
}
use web3_rpc_proxy.Proxy.Answers.{fixed}
use web3_rpc_proxy.Tests.{floats, sprint, reply_of, call_of, entry_bytes}

-- The endpoint 0 is down, the others answer.
abbrev wire : ℕ → Option ℤ → Transport
wire e limit = record {
  marshal = λ ss. whole "[]";
  send = λ b. if e == 0 then response 503 (whole "page") else response 200 (whole "reply");
  cause = none;
  elapsed = pos 20;
  now = pos 7;
  parse = λ b. if b == "reply" then some (obj (reply_of "1" "0x10").raw) else none;
  sprint = sprint;
  status_text = λ n. "status 503";
}

abbrev makers : Makers ℕ ℕ ℕ
makers = record {
  url = λ e. if e == 0 then "https://a" else if e == 1 then "https://b" else "https://c";
  has_prefix = λ s prefix. false;
  cached = λ u w. (none, w);
  add = λ u c w. w;
  connect = λ e w. (none, w);
  headers = λ e. [];
  parses = λ u. true;
}

abbrev wiring : Wiring ℕ ℤ ℕ
wiring = record {
  floats = floats;
  size = λ b. 4;
  contains = λ a b. a == b;
  makers = makers;
  wire = wire;
  web_socket_call = λ c deadline sealed p w. none;
  fresh_id = λ w. ("id", w);
  clock = λ w. pos 7;
}

abbrev limits : Limits
limits = record { strategy = rotation; attempts = pos 3; timeout = pos 3000000000 }

abbrev world : World ℤ ℕ
world = record {
  heap = new (pos 1) "a" ∷ new (pos 1) "b" ∷ new (pos 1) "c" ∷ [];
  panicked = false;
  rest = 5;
}

abbrev three : List ℕ
three = 0 ∷ 1 ∷ 2 ∷ []

lru : IsLru wiring
lru = record {
  cached-cached = λ u v w. refl;
  cached-add = λ u v c w. inl refl;
  cached-fresh_id = λ u w. refl;
}

abbrev number : String → ℕ
number u = if u == "https://a" then 0 else if u == "https://b" then 1 else 2

number_url : (r : ℕ) → contains three r ≡ true → number (makers.url r) ≡ r
number_url zero a = refl
number_url (suc zero) a = refl
number_url (suc (suc zero)) a = refl
number_url (suc (suc (suc r))) a = absurd (ground arith)

unlike : Unlike wiring three
unlike r e a b h = sym (number_url r a) ∙ ap number h ∙ number_url e b

unlike_two : Unlike wiring (0 ∷ 1 ∷ [])
unlike_two r e a b h = unlike r e (ground arith) (ground arith) h

own : (es : List ℕ) → Own wiring es 5
own es = record { mine = λ r c i h. absurd (cc h) }

refuses : (ss : List Sealed) → Refuses wiring ss 0
unfolding call_outcome request_error read_response upstream_server_error new_http_error timed_out
    query_status
refuses ss limit id = (
  record {
    results = none;
    err = some (http (upstream_server_error "HTTP error" (some "status 503" ∷ [])));
    profile = record (new_profile id) {
      duration = pos 20;
      traffic = 4;
      status = 503;
      code = "http_error";
    };
  },
  upstream_server_error "HTTP error" (some "status 503" ∷ []),
  refl,
  refl,
  refl,
)

answers : (ss : List Sealed) → Answers wiring ss 1 (reply_of "1" "0x10" ∷ [])
unfolding call_outcome request_error read_response decode_body unmarshal_replies reply_type
    reply_version field
answers ss limit id = (
  record {
    results = some (reply_of "1" "0x10" ∷ []);
    err = none;
    profile = record (new_profile id) { duration = pos 20; traffic = 4; status = 200 };
  },
  refl,
  refl,
  refl,
  refl,
)

Fit-a : Fit 2 world.heap 0
unfolding new read lookup
Fit-a = record {
  count = 0;
  address = "a";
  placed = omega arith;
  counted = refl;
  room = omega arith;
  addressed = refl;
}

Fit-b : Fit 2 world.heap 1
unfolding new read lookup
Fit-b = record {
  count = 0;
  address = "b";
  placed = omega arith;
  counted = refl;
  room = omega arith;
  addressed = refl;
}

good : succeeded none (some (reply_of "1" "0x10" ∷ [])) ≡ true
unfolding succeeded reply_type reply_version field
good = refl

send_request-failover_example :
    (w : World ℤ ℕ) × (send_request wiring limits (0 ∷ 1 ∷ 2 ∷ []) [] world
      ≡ ((none, reply_of "1" "0x10" ∷ []), w))
    × (w.panicked ≡ false)
    × ((r : ℕ)
        → health (state_at w.heap r) ≡ (
            if 1 == r
            then true
            else if contains (0 ∷ []) r
            then false
            else health (state_at world.heap r)))
send_request-failover_example =
    send_request-failover wiring [] limits (0 ∷ []) (2 ∷ []) 1 (reply_of "1" "0x10") [] world refl
      (omega arith) (((refl, refl, refl), refuses []), tt) (refl, refl, refl) (answers []) good
      (Fit-a, tt) Fit-b lru unlike (own three)

-- The request that a client sends, with the id 7.
abbrev asked : Request
asked = record { raw = call_of "7" "eth_blockNumber" }

-- The selector gives the three endpoints in their order, and every value is written alike.
abbrev parts : List ℕ → Deps ℕ (World ℤ ℕ)
parts es = record {
  sprint = sprint;
  decimal = λ n. "1";
  parse = λ b. some (obj (call_of "7" "eth_blockNumber"));
  marshal = λ v. some "answer";
  encode_entry = entry_bytes;
  decode_entry = λ s. none;
  redis_get = λ k w. (missing, w);
  redis_set = λ k v ttl w. (none, w);
  clock = λ w. pos 7;
  unix = λ w. pos 0;
  validate = λ m raw. none;
  select = λ qs w. ((es, true), w);
  request = λ es ss w. ((none, []), w);
}

abbrev uncached : Config
uncached = record { cache_methods = none; disable_cache = true; cache_ttl = pos 0 }

abbrev shop : App ℤ
shop = record {
  info = record { id = 1; name = "shop"; token = "key"; capacity = pos 2; rate = pos 1 };
  bucket = "default";
  balance = pos 1;
  last_time = pos 0;
  offset = pos 0;
}

abbrev services : Services ℕ ℤ (World ℤ ℕ)
services = record {
  enable_tenant = true;
  get_all = λ id w. some (0 ∷ 1 ∷ 2 ∷ []);
  access = λ token bucket w. ((none, shop), w);
  agent_call = λ rc es w. ((none, ""), w);
  cause = λ w. none;
  contains = λ a b. a == b;
  body_of = λ e. e.msg;
  unix_milli = λ w. pos 9;
}

abbrev context : Context ℤ
context = record { chain_id = 1; app = none; app_key = "key"; app_bucket = "default" }

abbrev fixed_id : Value
fixed_id =
    (fixed (agent wiring limits parts uncached true "body" services context three) uncached 1 asked
      (reply_of "1" "0x10")).id

abbrev sealed : List Sealed
sealed = sealed_of wiring limits parts uncached true "body" services context three asked

handle_call-failover_example :
    (w : World ℤ ℕ) × (handle_call
        (controller wiring limits parts uncached true "body" services context)
        context
        world
      ≡ (
        (
          record { status = success; status_code = 200; body = "answer" },
          some (affected (pos 9) shop),
        ),
        w,
      ))
    × (sprint fixed_id ≡ "7")
    × (w.panicked ≡ false)
    × ((r : ℕ)
        → health (state_at w.heap r) ≡ (
            if 1 == r
            then true
            else if contains (0 ∷ []) r
            then false
            else health (state_at world.heap r)))
unfolding unmarshal_requests invalid can_cache method field
handle_call-failover_example =
    handle_call-failover wiring limits parts uncached true "body" services context 0 (1 ∷ 2 ∷ [])
      (0 ∷ []) (2 ∷ []) 1 shop asked (reply_of "1" "0x10") "answer" world world world refl refl refl
      refl refl refl refl refl refl refl refl refl (omega arith)
      (((refl, refl, refl), refuses sealed), tt) (refl, refl, refl) (answers sealed) good
      (Fit-a, tt) Fit-b refl lru unlike (own three)

-- A chain of the first two endpoints, of which the second answers.
abbrev two_services : Services ℕ ℤ (World ℤ ℕ)
two_services = record services { get_all = λ id w. some (0 ∷ 1 ∷ []) }

abbrev two : List ℕ
two = 0 ∷ 1 ∷ []

abbrev answer : ℕ → Option Reply
answer e = if e == 1 then some (reply_of "1" "0x10") else none

abbrev sealed_for_two : List Sealed
sealed_for_two = sealed_of wiring limits parts uncached true "body" two_services context two asked

handle_call-some_answers_example :
    (e : ℕ) × (reply : Reply) × (w : World ℤ ℕ) × (contains two e ≡ true)
    × (answer e ≡ some reply)
    × (handle_call
          (controller wiring limits parts uncached true "body" two_services context)
          context
          world
        ≡ (
          (
            record { status = success; status_code = 200; body = "answer" },
            some (affected (pos 9) shop),
          ),
          w,
        ))
    × (w.panicked ≡ false)
    × (health (state_at w.heap e) ≡ true)
unfolding unmarshal_requests invalid can_cache method field some_answers
handle_call-some_answers_example =
    handle_call-some_answers wiring limits parts uncached true "body" two_services context 0
      (1 ∷ []) two answer shop asked (λ r. "answer") world world world refl refl refl refl refl refl
      refl refl refl refl refl refl (omega arith)
      (
        ((refl, refl, refl), refuses sealed_for_two, Fit-a),
        (((refl, refl, refl), (answers sealed_for_two, good), Fit-b), tt),
      )
      refl (λ r. refl) lru unlike_two (own two)
