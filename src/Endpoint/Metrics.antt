-- ===== src/Endpoint/Metrics.antt =====
-- `updateMetrics` of internal/core/endpoint/client.go, the profile of one response
-- (internal/common/profile.go) and `Merge` of internal/core/endpoint/provider.go.
use web3_rpc_proxy.Prelude.{
  ℕ, String, Bool, false, ◌&&◌, Option, List, [], ◌∷◌, ◌++◌, ◌==◌, string_comparable, leb, ltb,
  if◌then◌else◌,
}
use web3_rpc_proxy.Prelude.Dict.{insert}
use web3_rpc_proxy.Prelude.Int.{ℤ, pos, ltb_ℤ}
use web3_rpc_proxy.Endpoint.{
  integer, int, int64, time, bool, State, FloatOps, Attribute, Observation, with_attr,
  with_attr_increase, update,
}

pub record ResponseProfile : Type 0 where
  pub req_id : String
  pub error : String
  pub message : String
  pub code : String
  pub duration : ℤ
  pub traffic : ℕ
  pub status : ℕ
  pub respond : Bool

-- `&common.ResponseProfile{}` with a request id.
abbrev pub new_profile : String → ResponseProfile
new_profile id = record {
  req_id = id;
  error = "";
  message = "";
  code = "";
  duration = pos 0;
  traffic = 0;
  status = 0;
  respond = false;
}

abbrev pub is_success : ResponseProfile → Bool
is_success p = p.code == "" && (leb 200 p.status && ltb p.status 300)

module _ {F : Type 0} where
  unfoldable pub metrics_ops : ℤ → ResponseProfile → List (Attribute F)
  metrics_ops now p =
      with_attr_increase "count" (integer int (pos 1))
      ∷ with_attr "last_update_time" (time now)
      ∷ ((if ltb_ℤ (pos 0) p.duration
            then with_attr "duration" (integer int64 p.duration) ∷ []
            else [])
          ++ with_attr "health" (bool (is_success p)) ∷ [])

  unfoldable pub update_metrics :
      FloatOps F → ℤ → ResponseProfile → State F → Option (State F × List (Observation F))
  update_metrics fl now p s = update fl (metrics_ops now p) s

  -- `maputil.Merge`: the keys of later maps replace those of earlier ones.
  unfoldable pub merge_state : State F → State F → State F
  unfolding insert
  merge_state a [] = a
  merge_state a ((k, v) ∷ b) = insert k v (merge_state a b)
