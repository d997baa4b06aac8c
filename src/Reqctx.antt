-- ===== src/Reqctx.antt =====
-- internal/core/reqctx/reqctxs.go: what a request says about its chain, its tenant and its options.
-- fasthttp's request is the record `RequestCtx`; strconv and strings are the record `Parsers`.
pub mod Bounds
pub mod Context
pub mod Profiles
pub mod Delegation
use web3_rpc_proxy.Prelude.{
  ℕ, ◌*◌, ◌^◌, String, Bool, true, false, Option, none, some, List, [], ◌∷◌, ◌==◌,
  string_comparable, is_some, if◌then◌else◌,
}
use web3_rpc_proxy.Prelude.Int.{ℤ, pos, ◌*ℤ◌, wrap_signed, ltb_ℤ, min_ℤ}

pub record Parsers : Type 0 where
  pub atoi : String → Option ℤ
  pub parse_bool : String → Option Bool
  pub parse_uint : String → Option ℕ
  pub split_comma : String → List String

-- A query argument that is absent peeks as the empty text, and so does a header.
pub record RequestCtx : Type 0 where
  pub user_value : String → Option String
  pub header : String → String
  pub has : String → Bool
  pub peek : String → String

pub data RetryStrategy : Type 0 where
  same rotation : RetryStrategy

unfoldable pub parse_retry_strategy : String → RetryStrategy
parse_retry_strategy s = if s == "same" then same else if s == "Same" then same else rotation

abbrev pub max_attempts : ℕ
max_attempts = 30

-- Durations are int64 nanoseconds.
abbrev pub millisecond : ℕ
millisecond = 1000000

abbrev pub max_timeout : ℕ
max_timeout = 300 * 1000 * millisecond

abbrev pub default_timeout : ℕ
default_timeout = 30 * 1000 * millisecond

module _ (p : Parsers) (ctx : RequestCtx) where
  -- One query argument with its parser, if it is given and parses.
  abbrev given {ℓ} : {A : Type ℓ} → String → (String → Option A) → Option A
  given name parse = if ctx.has name then parse (ctx.peek name) else none

  unfoldable pub caches : Bool
  caches = elim (given "cache" p.parse_bool) [
    | some b ↦ b
    | none ↦ elim (given "useCache" p.parse_bool) [ some b ↦ b | none ↦ true ]
  ]

  abbrev clamp_attempts : Option ℤ → Option ℤ
  clamp_attempts none = none
  clamp_attempts (some v) = if ltb_ℤ (pos 0) v then some (min_ℤ v (pos max_attempts)) else none

  unfoldable pub attempts : ℤ
  attempts = elim (clamp_attempts (given "attempts" p.atoi)) [
    | some v ↦ v
    | none ↦ elim (clamp_attempts (given "maxRetryCount" p.atoi)) [ some v ↦ v | none ↦ pos 3 ]
  ]

  -- `time.Duration(v) * time.Millisecond` wraps around.
  abbrev pub milliseconds : ℤ → ℤ
  milliseconds v = wrap_signed (2 ^ 63) (v *ℤ pos millisecond)

  unfoldable pub timeout : ℤ
  timeout = elim (given "timeout" p.atoi) [
    | some v ↦ if ltb_ℤ (milliseconds v) (pos max_timeout) then milliseconds v else pos max_timeout
    | none ↦ pos default_timeout
  ]

  unfoldable pub endpoint_types : List String
  endpoint_types =
      if ctx.has "endpoint_type"
      then p.split_comma (ctx.peek "endpoint_type")
      else if ctx.has "forceUpstreamType"
      then ctx.peek "forceUpstreamType" ∷ "default" ∷ []
      else if ctx.has "specifiedUpstreamTypes"
      then p.split_comma (ctx.peek "specifiedUpstreamTypes")
      else "default" ∷ []

  unfoldable pub attempt_strategy : RetryStrategy
  unfolding parse_retry_strategy
  attempt_strategy =
      if ctx.has "attempt_strategy"
      then parse_retry_strategy (ctx.peek "attempt_strategy")
      else rotation

-- The header, query argument or path value that names the tenant, and its bucket.
unfoldable pub app_key : Option RequestCtx → String
app_key none = ""
app_key (some ctx) = elim (ctx.user_value "apikey") [
  | some v ↦ v
  | none ↦
      if ctx.header "x-api-key" == ""
      then (if ctx.has "x_api_key" then ctx.peek "x_api_key" else "")
      else ctx.header "x-api-key"
]

unfoldable pub app_bucket : Option RequestCtx → String
app_bucket none = "default"
app_bucket (some ctx) =
    if ctx.header "x-api-bucket" == ""
    then (if ctx.has "x_api_bucket" then ctx.peek "x_api_bucket" else "default")
    else ctx.header "x-api-bucket"

pub record Chain : Type 0 where
  pub id : ℕ
  pub code : String

-- The chain of a request that has none yet: by the configuration's `chains.<name>`, else by number.
unfoldable pub resolve_chain : Parsers → (String → Option Chain) → Option RequestCtx → Option Chain
resolve_chain p config none = some (record { id = 0; code = "" })
resolve_chain p config (some ctx) = elim (ctx.user_value "chain") [
  | none ↦ none
  | some name ↦ elim (config name) [
    | some c ↦ some c
    | none ↦ elim (p.parse_uint name) [
      | some n ↦ some (record { id = n; code = "" })
      | none ↦ some (record { id = 0; code = "" })
    ]
  ]
]
