-- ===== src/EndpointService/Refresh.antt =====
-- `refresh` of endpoint_service.go: the quantiles of the metrics become attributes of the cached endpoints.
use web3_rpc_proxy.Prelude.{
  ℕ, String, Bool, ◌&&◌, not, Option, none, some, List, [], ◌∷◌, ◌++◌, set, ◌==◌, string_comparable,
  if◌then◌else◌,
}
use web3_rpc_proxy.Prelude.Int.{ℤ, pos}
use web3_rpc_proxy.Cache as Cached
use web3_rpc_proxy.Endpoint.{
  float64, bool, time, State, FloatOps, Attribute, with_attr, update, chain_code,
}
use web3_rpc_proxy.EndpointService.Service.{Service, state_at}

-- A summary with its two labels; a quantile with its value.
pub record Metric (F : Type 0) : Type 0 where
  pub code : String
  pub url : String
  pub quantiles : List (F × F)

pub record Family (F : Type 0) : Type 0 where
  pub name : String
  pub metrics : List (Metric F)

abbrev pub duration_summary : String
duration_summary = "endpoint_url_durations"

abbrev pub status_summary : String
status_summary = "endpoint_url_status"

-- `p95` is the constant 0.95, `is_nan` is math.IsNaN, and `prefix` comes from the environment.
module _ {F : Type 0} (fl : FloatOps F) (p95 : F) (is_nan : F → Bool) (now : ℤ) where
  unfoldable pub duration_ops : List (F × F) → List (Attribute F)
  duration_ops [] = []
  duration_ops ((q, value) ∷ qs) =
      let rest = duration_ops qs in
      let v = if is_nan value then fl.of_ℤ (pos 0) else value in
      if fl.eq q p95 then with_attr "p95_duration" (float64 v) ∷ rest else rest

  abbrev good_status : F → Bool
  good_status v = (fl.lt (fl.of_ℤ (pos 100)) v && fl.lt v (fl.of_ℤ (pos 300))) && not (is_nan v)

  unfoldable pub status_ops : List (F × F) → List (Attribute F)
  status_ops [] = []
  status_ops ((q, value) ∷ qs) =
      let rest = status_ops qs in
      if fl.eq q p95 then with_attr "p95_health" (bool (good_status value)) ∷ rest else rest

  -- No attribute is no update.
  abbrev pub with_time : List (Attribute F) → List (Attribute F)
  with_time [] = []
  with_time (a ∷ as') = (a ∷ as') ++ with_attr "last_update_time" (time now) ∷ []

  -- A panic of an update is kept as `none`.
  unfoldable pub update_at : List (Attribute F) → ℕ → List (State F) → Option (List (State F))
  update_at [] r heap = some heap
  update_at (a ∷ as') r heap = elim (update fl (a ∷ as') (state_at heap r)) [
    | none ↦ none
    | some (t, obs) ↦ some (set heap r t)
  ]

  unfoldable pub refresh_one :
      (List (F × F) → List (Attribute F)) → Metric F → Service F → Option (Service F)
  refresh_one ops m s = elim (Cached.get m.url s.cache) [
    | none ↦ some s
    | some r ↦
        if chain_code (state_at s.heap r) == m.code
        then elim (update_at (with_time (ops m.quantiles)) r s.heap) [
          | none ↦ none
          | some heap ↦ some (record s { heap = heap })
        ]
        else some s
  ]

  unfoldable pub refresh_all :
      (List (F × F) → List (Attribute F)) → List (Metric F) → Service F → Option (Service F)
  refresh_all ops [] s = some s
  refresh_all ops (m ∷ ms) s = elim (refresh_one ops m s) [
    | none ↦ none
    | some t ↦ refresh_all ops ms t
  ]

  unfoldable pub refresh_family : (String → String) → Family F → Service F → Option (Service F)
  unfolding refresh_all
  refresh_family prefixed f s =
      elim (if f.name == prefixed duration_summary
        then refresh_all duration_ops f.metrics s
        else some s) [
          | none ↦ none
          | some t ↦
              if f.name == prefixed status_summary
              then refresh_all status_ops f.metrics t
              else some t
        ]

  unfoldable pub refresh_families :
      (String → String) → List (Family F) → Service F → Option (Service F)
  refresh_families prefixed [] s = some s
  refresh_families prefixed (f ∷ fs) s = elim (refresh_family prefixed f s) [
    | none ↦ none
    | some t ↦ refresh_families prefixed fs t
  ]

  -- `refresh`, with what the registry gathers: an error, or the families.
  unfoldable pub refresh :
      (String → String)
      → (Option String × List (Family F))
      → Service F
      → Option (Option String × Service F)
  refresh prefixed (some e, fs) s = some (some e, s)
  refresh prefixed (none, fs) s = elim (refresh_families prefixed fs s) [
    | none ↦ none
    | some t ↦ some (none, t)
  ]
