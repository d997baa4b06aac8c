-- ===== src/Agent/Rules.antt =====
-- internal/app/agent/service/cache.go: the key and the rules of a cache by method and parameters, which the
-- agent service does not use.
use Prim.Native.String.{◌++◌ as str_append}
use web3_rpc_proxy.Prelude.{
  ℕ, String, ◌≡◌, refl, Bool, true, false, not, ◌||◌, Option, none, some, List, [], ◌∷◌, get_elem?,
  contains, arith, ◌==◌, string_comparable, if◌then◌else◌,
}
use web3_rpc_proxy.Prelude.Dict.{Dict, lookup}
use web3_rpc_proxy.Prelude.Int.{ℤ, pos}
use web3_rpc_proxy.Json.{Value, arr, obj, null, Fields, field, nil, as_object}
use web3_rpc_proxy.Rpc.{Request, method, params}

module _ (sprint : Value → String) (base36 : ℕ → String) (marshal : Value → Option String)
    (short : String → String) where
  abbrev params_or_empty : Value → Value
  params_or_empty null = arr nil
  params_or_empty v = v

  abbrev shortened : Option String → String
  shortened none = ""
  shortened (some s) = if s == "" then "" else short s

  -- `_CacheKey`
  unfoldable pub old_cache_key : ℕ → Request → String
  old_cache_key chain q = str_append (base36 chain) (
      str_append ":" (
        str_append (method q)
          (str_append ":" (shortened (marshal (params_or_empty (field "params" q.raw)))))))

abbrev pub not_cache_tags : List String
not_cache_tags = "earliest" ∷ "latest" ∷ "pending" ∷ []

module _ (sprint : Value → String) (parse_duration : String → Option ℤ) where
  abbrev pub tagged : Value → Bool
  tagged v = contains not_cache_tags (sprint v)

  -- The parameter at a place, if it is there, must be no tag.
  abbrev pub untagged_at : ℕ → List Value → Bool
  untagged_at i ps = elim (get_elem? ps i) [ none ↦ false | some p ↦ not (tagged p) ]

  -- The loop over the parameters of `eth_getLogs`; one that is no object is a panic.
  unfoldable pub untagged_logs : List Value → Option Bool
  untagged_logs [] = some true
  untagged_logs (p ∷ ps) =
      let rest = untagged_logs ps in
      elim (as_object p) [
        | none ↦ none
        | some fs ↦
            if tagged (field "fromBlock" fs) || tagged (field "toBlock" fs)
            then some false
            else rest
      ]

  -- The switch over the method.
  unfoldable pub allowed : String → List Value → Option Bool
  unfolding untagged_logs
  allowed m ps =
      if contains
        ("eth_getBlockByNumber" ∷ "eth_getTransactionByBlockNumberAndIndex"
          ∷ "eth_getUncleByBlockNumberAndIndex" ∷ "eth_getUncleCountByBlockNumber"
          ∷ "eth_getBlockTransactionCountByNumber" ∷ [])
        m
      then some (untagged_at 0 ps)
      else if m == "eth_getTransactionCount"
      then some (untagged_at 1 ps)
      else if m == "eth_getLogs"
      then untagged_logs ps
      else some true

  abbrev duration_or_zero : Option ℤ → ℤ
  duration_or_zero none = pos 0
  duration_or_zero (some d) = d

  abbrev value_or_empty : Option String → String
  value_or_empty none = ""
  value_or_empty (some v) = v

  -- `_WithCache`: whether a request is cached, and how long; `none` is a panic.
  unfoldable pub with_cache_rules : Dict String String → Request → Option (Bool × ℤ)
  unfolding allowed
  with_cache_rules config q =
      let v = value_or_empty (lookup (method q) config) in
      if v == "" then some (false, pos 0) else elim (allowed (method q) (params q)) [
        | none ↦ none
        | some ok ↦ some (ok, duration_or_zero (parse_duration v))
      ]

  -- A query of logs that names no blocks is cached where the method is configured, though its range goes to
  -- the latest block: a missing block prints as no tag.
  pub open_logs_cached :
      (config : Dict String String) (q : Request) (fs : Fields) (v : String)
      → method q ≡ "eth_getLogs"
      → params q ≡ obj fs ∷ []
      → lookup (method q) config ≡ some v
      → (v == "") ≡ false
      → tagged (field "fromBlock" fs) ≡ false
      → tagged (field "toBlock" fs) ≡ false
      → with_cache_rules config q ≡ some (true, duration_or_zero (parse_duration v))
  unfolding with_cache_rules as_object
  open_logs_cached config q fs v m p l n f t =
      let logs : allowed (method q) (params q) ≡ some true =
        rw (m, allowed) (rw p (rw (f, t) refl)) in
      ground (arith, l, n, logs)
