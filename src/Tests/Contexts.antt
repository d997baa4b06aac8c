-- ===== src/Tests/Contexts.antt =====
-- Examples of a request's context, of the schema of one method, and of the clients of endpoints.
use web3_rpc_proxy.Prelude.{
  ℕ, String, refl, Option, none, some, List, [], ◌∷◌, ◌==◌, string_comparable, nat_comparable,
  if◌then◌else◌,
}
use web3_rpc_proxy.Prelude.Dict.{lookup}
use web3_rpc_proxy.Prelude.Int.{pos}
use web3_rpc_proxy.Json.{null, bool, str, num, arr, obj, Fields, end, field}
use web3_rpc_proxy.Reqctx.{Parsers, RequestCtx, Chain}
use web3_rpc_proxy.Reqctx.Context.{
  Incoming, Conf, Tenant, Context, blank, new_reqctx, set_app, options,
}
use web3_rpc_proxy.Reqctx.Profiles.{
  ContextCall, asks_chain, asks_options, sets_chain, sets_app, context_step, context_run, Agrees,
  context_run-Agrees,
}
use web3_rpc_proxy.Rpc.Schema.{Method, Flaw, judged, Validator, JsonRpcSchema, response_properties}

abbrev parsers : Parsers
parsers = record {
  atoi = λ s. if s == "2" then some (pos 2) else none;
  parse_bool = λ s. none;
  parse_uint = λ s. if s == "1" then some 1 else none;
  split_comma = λ s. s ∷ [];
}

abbrev ctx : RequestCtx
ctx = record {
  user_value = λ k. if k == "chain" then some "eth" else none;
  header = λ k. "";
  has = λ k. k == "attempts";
  peek = λ k. if k == "attempts" then "2" else "";
}

abbrev incoming : Incoming
incoming = record { ctx = ctx; method = "POST"; uri = "/eth"; remote_ip = "10.0.0.1" }

abbrev conf : Conf
conf = ("chains.eth", record { id = 1; code = "eth" }) ∷ []

abbrev tenant : Tenant
tenant = record { id = 4; configuration = obj end }

abbrev chains_of : Fields → Option (List Chain)
chains_of fs = some (record { id = 5; code = "bsc" } ∷ [])

abbrev decimal : ℕ → String
decimal n = "5"

abbrev context_or : Option Context → Context → Context
context_or none d = d
context_or (some c) d = c

abbrev blank_context : Context
blank_context = record {
  incoming = none;
  conf = [];
  chain = none;
  app = none;
  profile = blank parsers decimal "id" (pos 0);
}

abbrev calls : List ContextCall
calls = asks_options ∷ sets_app tenant ∷ asks_chain ∷ sets_chain (record { id = 9; code = "" }) ∷ []

abbrev fresh : Context
fresh = context_or (new_reqctx parsers decimal "id" (pos 7) conf (some incoming)) blank_context

abbrev after : Context
after = context_or (context_run parsers decimal chains_of fresh calls) fresh

context_run-Agrees_example : Agrees parsers decimal chains_of after
unfolding new_reqctx lookup context_run context_step set_app options
context_run-Agrees_example =
    context_run-Agrees parsers decimal chains_of "id" (pos 7) conf (some incoming) fresh after calls
      refl refl

abbrev wrong : String → Flaw
wrong name = record { kind = "invalid_type"; field_name = name; description = "Invalid type" }

-- A version that is no text is a flaw, and so is a result that is null.
abbrev validator : Validator
validator fs = elim (field "jsonrpc" fs) [
  | num n ↦ judged (wrong "jsonrpc" ∷ [])
  | null ↦ judged []
  | bool b ↦ judged []
  | str t ↦ elim (field "result" fs) [
    | null ↦ judged (wrong "result" ∷ [])
    | num n ↦ judged []
    | bool b ↦ judged []
    | str r ↦ judged []
    | arr vs ↦ judged []
    | obj gs ↦ judged []
  ]
  | arr vs ↦ judged []
  | obj gs ↦ judged []
]

abbrev document : String → Option (List Method)
document bytes = some (record { name = "eth_call"; params = []; result = obj end } ∷ [])

abbrev schema : JsonRpcSchema
schema = record {
  requests = ("eth_call", validator) ∷ [];
  responses = ("eth_call", validator) ∷ [];
  properties = ("eth_call", response_properties) ∷ [];
}
