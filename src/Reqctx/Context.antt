-- ===== src/Reqctx/Context.antt =====
-- The request context of internal/core/reqctx/reqctxs.go and the chains of utils/config/conf.go: a context
-- resolves its chain and its options once, and writes both into its profile. `none` is a panic.
use Prim.Native.String.{◌++◌ as str_append}
use web3_rpc_proxy.Prelude.{
  ℕ, ◌+◌, ◌/◌, String, Bool, false, Option, none, some, List, [], ◌∷◌, ◌==◌, string_comparable,
  if◌then◌else◌,
}
use web3_rpc_proxy.Prelude.Dict.{Dict, lookup, insert}
use web3_rpc_proxy.Prelude.Int.{ℤ, pos, negsuc, sub_ℕ}
use web3_rpc_proxy.Json.{Value, null, obj, Fields}
use web3_rpc_proxy.Reqctx.{
  Parsers, RequestCtx, Chain, resolve_chain, caches, attempts, timeout, millisecond,
}

-- The request of fasthttp, with what the profile takes from it.
pub record Incoming : Type 0 where
  pub ctx : RequestCtx
  pub method : String
  pub uri : String
  pub remote_ip : String

-- `QueryArgs`: of no request, no arguments.
abbrev pub query_args : Option Incoming → RequestCtx
query_args none = record {
  user_value = λ k. none;
  header = λ k. "";
  has = λ k. false;
  peek = λ k. "";
}
query_args (some i) = i.ctx

pub record OptionsProfile : Type 0 where
  pub timeout : ℤ
  pub use_cache : Bool
  pub use_scan_api : Bool
  pub max_retry_count : ℤ
  pub specified_upstream_types : List String
  pub force_upstream_type : String
  pub eth_call_use_full_node : Bool
  pub before_blocks_use_scan_api : ℤ
  pub before_blocks_use_active : ℤ

abbrev pub or_zero : Option ℤ → ℤ
or_zero none = pos 0
or_zero (some v) = v

-- `Milliseconds` of a duration, towards zero.
abbrev pub whole_milliseconds : ℤ → ℤ
whole_milliseconds (pos n) = pos (n / millisecond)
whole_milliseconds (negsuc n) = sub_ℕ 0 ((n + 1) / millisecond)

-- `ToProfile`
unfoldable pub to_profile : Parsers → RequestCtx → OptionsProfile
unfolding timeout caches attempts
to_profile p args = record {
  timeout = whole_milliseconds (timeout p args);
  use_cache = caches p args;
  use_scan_api = args.has "useScanApi";
  max_retry_count = attempts p args;
  specified_upstream_types = p.split_comma (args.peek "specifiedUpstreamTypes");
  force_upstream_type = args.peek "forceUpstreamType";
  eth_call_use_full_node = args.has "ethCallUseFullNode";
  before_blocks_use_scan_api = or_zero (p.atoi (args.peek "beforeBlocksUseScanApi"));
  before_blocks_use_active = or_zero (p.atoi (args.peek "beforeBlocksUseActive"));
}

-- The part of `QueryProfile` that a context writes.
pub record Profile : Type 0 where
  pub id : String
  pub method : String
  pub href : String
  pub ip : String
  pub ip_country : String
  pub chain_id : ℕ
  pub app_id : ℕ
  pub starttime : ℤ
  pub options : Option OptionsProfile

-- The chains of the configuration by name and number, and how a tenant's configuration is loaded over it.
abbrev pub Conf : Type 0
Conf = Dict String Chain

-- `LoadEndpointChains`, for the chains that could be read.
unfoldable pub load_endpoint_chains : (ℕ → String) → List Chain → Conf → Conf
unfolding insert
load_endpoint_chains decimal [] conf = conf
load_endpoint_chains decimal (c ∷ cs) conf =
    load_endpoint_chains decimal cs
      (insert (str_append "chains." c.code) c (insert (str_append "chains." (decimal c.id)) c conf))

-- A tenant, with what its preferences hold under `__configuration`.
pub record Tenant : Type 0 where
  pub id : ℕ
  pub configuration : Value

-- `reqctx`; its options are there once they have been asked for.
pub record Context : Type 0 where
  pub incoming : Option Incoming
  pub conf : Conf
  pub chain : Option Chain
  pub app : Option Tenant
  pub profile : Profile

module _ (p : Parsers) (decimal : ℕ → String) where
  -- `ChainID`: the chain is resolved once.
  unfoldable pub chain_id : Context → Option (ℕ × Context)
  unfolding resolve_chain
  chain_id c = elim c.chain [
    | some chain ↦ some (chain.id, c)
    | none ↦
        elim (resolve_chain p (λ name. lookup (str_append "chains." name) c.conf)
          (elim c.incoming [ none ↦ none | some i ↦ some i.ctx ])) [
            | none ↦ none
            | some chain ↦ some (chain.id, record c { chain = some chain })
          ]
  ]

  -- `SetChain`
  unfoldable pub set_chain : Chain → Context → Context
  set_chain chain c = record c {
    chain = some chain;
    profile = record (c.profile) { chain_id = chain.id };
  }

  -- The configuration after a tenant's own is loaded over it: `chains_of` is what it then lists, unless
  -- loading fails. A configuration that is no object is a panic.
  unfoldable pub configured : (Fields → Option (List Chain)) → Value → Conf → Option Conf
  unfolding load_endpoint_chains
  configured chains_of null conf = some conf
  configured chains_of (obj fs) conf = elim (chains_of fs) [
    | none ↦ some conf
    | some chains ↦ some (load_endpoint_chains decimal chains conf)
  ]
  configured chains_of _ conf = none

  -- `SetApp`
  unfoldable pub set_app : (Fields → Option (List Chain)) → Tenant → Context → Option Context
  unfolding configured
  set_app chains_of tenant c = elim (configured chains_of tenant.configuration c.conf) [
    | none ↦ none
    | some conf ↦ some (record c {
      app = some tenant;
      conf = conf;
      profile = record (c.profile) { app_id = tenant.id };
    })
  ]

  -- `Options`: the profile is written the first time.
  unfoldable pub options : Context → Context
  unfolding to_profile
  options c = elim c.profile.options [
    | some o ↦ c
    | none ↦ record c {
      profile = record (c.profile) { options = some (to_profile p (query_args c.incoming)) };
    }
  ]

  abbrev pub first_given : String → String → String → String
  first_given a b c = if a == "" then (if b == "" then c else b) else a

  abbrev pub blank : String → ℤ → Profile
  blank id now = record {
    id = id;
    method = "";
    href = "";
    ip = "";
    ip_country = "";
    chain_id = 0;
    app_id = 0;
    starttime = now;
    options = none;
  }

  abbrev pub described : Incoming → ℕ → Profile → Profile
  described i n profile = record profile {
    method = i.method;
    href = i.uri;
    ip = first_given (i.ctx.header "cf-connecting-ip") (i.ctx.header "true-client-ip") i.remote_ip;
    ip_country = i.ctx.header "cf-ipcountry";
    chain_id = n;
  }

  -- `NewReqctx`
  unfoldable pub new_reqctx : String → ℤ → Conf → Option Incoming → Option Context
  unfolding chain_id
  new_reqctx uuid now conf incoming =
      let c : Context = record {
        incoming = incoming;
        conf = conf;
        chain = none;
        app = none;
        profile = blank uuid now;
      } in
      elim incoming [
        | none ↦ some c
        | some i ↦ elim (chain_id c) [
          | none ↦ none
          | some (n, d) ↦ some (record d { profile = described i n d.profile })
        ]
      ]
