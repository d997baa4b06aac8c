-- ===== src/Tests.antt =====
-- Concrete data for the examples of the children: bodies, endpoints, and a redis that is a dictionary.
mod Agents
mod Calls
mod Endpoints
mod Clients
mod Tenants
mod Texts
mod Sockets
mod Messages
mod Services
mod Contexts
mod Proxies
mod Starts
mod Stops
use web3_rpc_proxy.Prelude.{
  ℕ, ◌+◌, String, Bool, true, false, Option, none, some, List, [], ◌∷◌, ◌==◌, string_comparable,
  if◌then◌else◌,
}
use web3_rpc_proxy.Prelude.Dict.{Dict, lookup, insert}
use web3_rpc_proxy.Prelude.Int.{ℤ, pos, ◌+ℤ◌, ◌-ℤ◌, ◌*ℤ◌, ltb_ℤ, leb_ℤ, min_ℤ}
use web3_rpc_proxy.Json.{Value, null, str, num, arr, obj, Fields, entry, end, Items, nil, cons}
use web3_rpc_proxy.Rpc.{Request, Sealed, Reply}
use web3_rpc_proxy.Errors.{GoError}
use web3_rpc_proxy.Agent.Store.{Config, Deps, CacheEntry, RedisReply, found, missing}
use web3_rpc_proxy.Endpoint.{FloatOps, Endpoint, State, Any, url, bool, time, integer, int, uint64}
use web3_rpc_proxy.Endpoint

-- A redis that keeps every value, and nothing else.
abbrev pub Redis : Type 0
Redis = Dict String String

abbrev pub sprint : Value → String
sprint (str s) = s
sprint (num s) = s
sprint _ = "<nil>"

abbrev pub call_of : String → String → Fields
call_of i m = entry "jsonrpc" (str "2.0") (entry "id" (num i) (entry "method" (str m) end))

abbrev pub block_number : Request
block_number = record { raw = call_of "1" "eth_blockNumber" }

abbrev pub gas_price : Request
gas_price = record { raw = call_of "2" "eth_gasPrice" }

abbrev pub reply_of : String → String → Reply
reply_of i v = record { raw = entry "id" (num i) (entry "result" (str v) end) }

abbrev pub entry_bytes : CacheEntry → Option String
entry_bytes e = some "entry"

abbrev pub kept : CacheEntry
kept = record { v = str "0x10"; t = pos 5 }

abbrev reply_to : Option String → RedisReply
reply_to none = missing
reply_to (some s) = found s

-- One endpoint, which answers every batch by two replies; the time is 6 s, and the seconds say 5.
abbrev pub deps : Deps ℕ Redis
deps = record {
  sprint = sprint;
  decimal = λ n. "1";
  parse = λ b. if b == "{" then none else some (obj (call_of "1" "eth_blockNumber"));
  marshal = λ v. some "answer";
  encode_entry = entry_bytes;
  decode_entry = λ s. if s == "entry" then some kept else none;
  redis_get = λ k w. (reply_to (lookup k w), w);
  redis_set = λ k v ttl w. (none, insert k v w);
  clock = λ w. pos 6000000000;
  unix = λ w. pos 5;
  validate = λ m raw. if m == "bad" then some "Invalid method" else none;
  select = λ qs w. ((7 ∷ [], true), w);
  request = λ es ss w. ((none, reply_of "1" "0x10" ∷ reply_of "2" "0x20" ∷ []), w);
}

abbrev pub two_seconds : ℤ
two_seconds = pos 2000000000

abbrev pub config : Config
config = record {
  cache_methods = some (("eth_blockNumber", two_seconds) ∷ []);
  disable_cache = false;
  cache_ttl = pos 0;
}

-- Whole numbers in place of float64.
abbrev pub floats : FloatOps ℤ
floats = record {
  of_ℤ = λ v. v;
  trunc = λ v. v;
  add = λ a b. a +ℤ b;
  sub = λ a b. a -ℤ b;
  mul = λ a b. a *ℤ b;
  div = λ a b. a;
  min = λ a b. min_ℤ a b;
  lt = λ a b. ltb_ℤ a b;
  eq = λ a b. if leb_ℤ a b then leb_ℤ b a else false;
}

abbrev pub node : ℕ → String → String → Bool → Endpoint ℤ
node n u kind healthy = record {
  ref = n;
  state =
      ("url", url u)
      ∷ ("type", Endpoint.str kind)
      ∷ ("health", bool healthy)
      ∷ ("count", integer int (pos 3))
      ∷ ("chain_id", integer uint64 (pos 1))
      ∷ [];
}
