-- ===== src/WsClient/Dialling.antt =====
-- What dialling and the close of a connection write into the endpoint's attributes: `connect` of
-- internal/core/endpoint/websocket_client.go. A dial gives its time in milliseconds, or fails.
use web3_rpc_proxy.Prelude.{
  String, ◌≡◌, true, false, ◌&&◌, Option, none, some, List, [], ◌∷◌, ◌==◌, string_comparable, arith,
  is_some, if◌then◌else◌,
}
use web3_rpc_proxy.Prelude.Dict.{insert}
use web3_rpc_proxy.Prelude.Int.{ℤ, pos, ltb_ℤ}
use web3_rpc_proxy.Endpoint.{
  float64, time, bool, url, State, FloatOps, Attribute, Observation, with_attr, read, update,
  apply_all, apply, new_value, endpoint_url, health, duration, last_update_time,
}
use web3_rpc_proxy.Endpoint.Updates.{read-insert, observe-some}

module _ {F : Type 0} (fl : FloatOps F) where
  abbrev time_of : Option ℤ → ℤ
  time_of none = pos 0
  time_of (some d) = d

  -- The deferred update of `_connect`.
  unfoldable pub dial_ops : Option ℤ → ℤ → List (Attribute F)
  dial_ops dial now =
      with_attr "health" (bool (is_some dial))
      ∷ with_attr "last_update_time" (time now)
      ∷ (if ltb_ℤ (pos 0) (time_of dial)
          then with_attr "duration" (float64 (fl.of_ℤ (time_of dial))) ∷ []
          else [])

  unfoldable pub dialled : Option ℤ → ℤ → State F → Option (State F × List (Observation F))
  unfolding dial_ops
  dialled dial now s = update fl (dial_ops dial now) s

  -- The close handler, before it dials again.
  unfoldable pub closing : ℤ → State F → Option (State F × List (Observation F))
  closing now s =
      update fl (with_attr "health" (bool false) ∷ with_attr "last_update_time" (time now) ∷ []) s

  abbrev dialled_state : Option ℤ → ℤ → State F → State F
  dialled_state dial now s =
      let t = insert "last_update_time" (time now) (insert "health" (bool (is_some dial)) s) in
      if ltb_ℤ (pos 0) (time_of dial)
      then insert "duration" (float64 (fl.of_ℤ (time_of dial))) t
      else t

  read-dialled_state :
      (dial : Option ℤ) (now : ℤ) (k : String) (s : State F)
      → read k (dialled_state dial now s) ≡ (
          if ltb_ℤ (pos 0) (time_of dial) && "duration" == k
          then float64 (fl.of_ℤ (time_of dial))
          else if "last_update_time" == k
          then time now
          else if "health" == k
          then bool (is_some dial)
          else read k s)
  read-dialled_state dial now k s =
      let t1 = insert "health" (bool (is_some dial)) s in
      let t2 = insert "last_update_time" (time now) t1 in
      ground (
        arith,
        read-insert k "health" (bool (is_some dial)) s,
        read-insert k "last_update_time" (time now) t1,
        read-insert k "duration" (float64 (fl.of_ℤ (time_of dial))) t2,
      )

  -- Where the URL is stored, a dial does not panic: the endpoint is healthy exactly if the dial gave a
  -- connection, and after one that took time the typed reader of the duration gives that time.
  pub dialled_result :
      (dial : Option ℤ) (now : ℤ) (s : State F) (u : String)
      → read "url" s ≡ url u
      → (t : State F) × (obs : List (Observation F)) × (dialled dial now s ≡ some (t, obs))
        × (health t ≡ is_some dial)
        × (last_update_time t ≡ now)
        × (ltb_ℤ (pos 0) (time_of dial) ≡ true → duration fl t ≡ fl.of_ℤ (time_of dial))
  unfolding dialled dial_ops update apply_all apply new_value health duration last_update_time
      endpoint_url
  dialled_result dial now s u g =
      let (obs, e) =
        observe-some fl s (dialled_state dial now s) u
          (ground (arith, g, read-dialled_state dial now "url" s)) in
      (
        dialled_state dial now s,
        obs,
        ground (arith, e),
        ground (arith, read-dialled_state dial now "health" s),
        ground (arith, read-dialled_state dial now "last_update_time" s),
        λ h. ground (arith, h, read-dialled_state dial now "duration" s),
      )
