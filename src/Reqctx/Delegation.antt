-- ===== src/Reqctx/Delegation.antt =====
-- The request context as a context.Context, and the names of strategies (internal/core/reqctx/reqctxs.go).
-- fasthttp's request as a context is the record `GoContext`.
use web3_rpc_proxy.Prelude.{String, ◌≡◌, refl, Bool, true, Option, none, some, List, ◌∷◌}
use web3_rpc_proxy.Prelude.Int.{ℤ}
use web3_rpc_proxy.Reqctx.{RetryStrategy, same, rotation, parse_retry_strategy}

pub record GoContext : Type 0 where
  pub deadline : Option ℤ
  pub is_done : Bool
  pub err : Option String
  pub value : String → Option String

-- `Deadline`, `Done`, `Err` and `Value`; without a request the channel of `Done` is closed at once.
unfoldable pub delegated : Option GoContext → GoContext
delegated none = record { deadline = none; is_done = true; err = none; value = λ key. none }
delegated (some c) = c

-- `RetryStrategy.String`
unfoldable pub strategy_name : RetryStrategy → String
strategy_name same = "same"
strategy_name rotation = "rotation"

-- A strategy is parsed back from its name.
pub parse_retry_strategy-strategy_name :
    (s : RetryStrategy) → parse_retry_strategy (strategy_name s) ≡ s
unfolding parse_retry_strategy strategy_name
parse_retry_strategy-strategy_name same = refl
parse_retry_strategy-strategy_name rotation = refl

-- `strings.Join(…, ",")`, slice.Sort and helpers.Short are parameters of `MakeOptionsFeature`.
unfoldable pub make_options_feature :
    (List String → String)
    → (List String → List String)
    → (String → String)
    → RetryStrategy
    → List String
    → String
unfolding strategy_name
make_options_feature join sort short strategy types =
    short (join (strategy_name strategy ∷ sort types))
