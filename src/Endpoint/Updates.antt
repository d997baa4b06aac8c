-- ===== src/Endpoint/Updates.antt =====
-- What an update leaves in an endpoint's attributes, and what the typed readers make of it.
use web3_rpc_proxy.Prelude.{
  ℕ, ◌+◌, ◌^◌, ◌<◌, String, ◌≡◌, ◌⊎◌, ◌∙◌, Option-cases, inl, inr, false, ◌&&◌, some, List, [], ◌∷◌,
  ◌==◌, string_comparable, arith, if◌then◌else◌, All,
}
use web3_rpc_proxy.Prelude.Dict.{insert, lookup-insert}
use web3_rpc_proxy.Prelude.Int.{ℤ, pos, wrap_signed_small, ltb_ℤ, ◌+ℤ◌}
use web3_rpc_proxy.Endpoint.{
  Any, integer, int, int64, time, bool, State, FloatOps, Attribute, Observation, read, count,
  health, duration, type, chain_id, last_update_time, new_value, apply, apply_all, observe, update,
  increase, wrap, endpoint_url, url,
}
use web3_rpc_proxy.Endpoint.Metrics.{ResponseProfile, metrics_ops, update_metrics, is_success}

module _ {F : Type 0} where
  pub read-insert :
      (j k : String) (v : Any F) (s : State F)
      → read j (insert k v s) ≡ (if k == j then v else read j s)
  unfolding read
  read-insert j k v s = ground (arith, lookup-insert j k v s)

  module _ (fl : FloatOps F) where
    read-apply :
        (a : Attribute F) (s t : State F) (k : String)
        → apply fl a s ≡ some t
        → (a.name == k) ≡ false
        → read k t ≡ read k s
    unfolding apply
    read-apply a s t k h g = elim (Option-cases (new_value fl a s)) [
      | inl e ↦ ground (arith, e)
      | inr (v, e) ↦ ground (arith, e, read-insert k a.name v s)
    ]

    -- An update that does not panic writes no other attribute than those it names.
    pub read-apply_all :
        (as' : List (Attribute F)) (s t : State F) (k : String)
        → apply_all fl as' s ≡ some t
        → All (λ a. (a.name == k) ≡ false) as'
        → read k t ≡ read k s
    unfolding apply_all
    read-apply_all [] s t k h g = ground arith
    read-apply_all (a ∷ as') s t k h g = elim (Option-cases (apply fl a s)) [
      | inl e ↦ ground (arith, e)
      | inr (m, e) ↦ read-apply_all as' m t k (ground (arith, e)) g.1 ∙ read-apply a s m k e g.0
    ]

    one_more : (n : ℕ) → n + 1 < 2 ^ 63 → wrap int (pos n +ℤ pos 1) ≡ pos (n + 1)
    unfolding wrap
    one_more n h =
        let e : pos n +ℤ pos 1 ≡ pos (n + 1) = unfold ◌+ℤ◌ in ground arith in
        rw e (wrap_signed_small (2 ^ 63) (n + 1) h)

    -- The attributes after `updateMetrics`, over those before it.
    abbrev pub metrics_state : ℕ → ℤ → ResponseProfile → State F → State F
    metrics_state n now p s =
        let t =
          insert "last_update_time" (time now) (insert "count" (integer int (pos (n + 1))) s) in
        insert "health" (bool (is_success p))
          (if ltb_ℤ (pos 0) p.duration then insert "duration" (integer int64 p.duration) t else t)

    apply_all-metrics_ops :
        (n : ℕ) (now : ℤ) (p : ResponseProfile) (s : State F)
        → read "count" s ≡ integer int (pos n)
        → n + 1 < 2 ^ 63
        → apply_all fl (metrics_ops now p) s ≡ some (metrics_state n now p s)
    unfolding metrics_ops apply_all apply increase
    apply_all-metrics_ops n now p s h k = ground (arith, one_more n k)

    pub observe-some :
        (s t : State F) (u : String)
        → endpoint_url t ≡ some u
        → (obs : List (Observation F)) × (observe fl s t ≡ some obs)
    unfolding observe
    observe-some s t u h = elim (Option-cases (observe fl s t)) [
      | inl e ↦ absurd (ground (arith, e))
      | inr (obs, e) ↦ (obs, e)
    ]

    module _ (n : ℕ) (now : ℤ) (p : ResponseProfile) (s : State F) (u : String) where
      abbrev after : State F
      after = metrics_state n now p s

      read-after :
          (k : String)
          → read k after ≡ (
              if "health" == k
              then bool (is_success p)
              else if ltb_ℤ (pos 0) p.duration && "duration" == k
              then integer int64 p.duration
              else if "last_update_time" == k
              then time now
              else if "count" == k
              then integer int (pos (n + 1))
              else read k s)
      read-after k =
          let t1 = insert "count" (integer int (pos (n + 1))) s in
          let t2 = insert "last_update_time" (time now) t1 in
          let t3 = insert "duration" (integer int64 p.duration) t2 in
          let t4 = if ltb_ℤ (pos 0) p.duration then t3 else t2 in
          ground (
            arith,
            read-insert k "count" (integer int (pos (n + 1))) s,
            read-insert k "last_update_time" (time now) t1,
            read-insert k "duration" (integer int64 p.duration) t2,
            read-insert k "health" (bool (is_success p)) t2,
            read-insert k "health" (bool (is_success p)) t3,
          )

      -- Where the count is stored as an int n with n + 1 below 2^63 and the URL is stored, one
      -- `updateMetrics` does not panic: the stored count grows by one, the health is that of the
      -- response, the time of the update is kept, the duration is stored for a response that took
      -- time, and the URL, the type and the chain stay.
      pub update_metrics_result :
          read "count" s ≡ integer int (pos n)
          → n + 1 < 2 ^ 63
          → read "url" s ≡ url u
          → (t : State F) × (obs : List (Observation F)) × (update_metrics fl now p s
              ≡ some (t, obs))
            × (read "count" t ≡ integer int (pos (n + 1)))
            × (health t ≡ is_success p)
            × (last_update_time t ≡ now)
            × (read "duration" t ≡ (
                if ltb_ℤ (pos 0) p.duration then integer int64 p.duration else read "duration" s))
            × ((read "url" t ≡ url u) × (type t ≡ type s) × (chain_id t ≡ chain_id s))
      unfolding update_metrics update health endpoint_url type chain_id last_update_time
      update_metrics_result h k g =
          let (obs, e) = observe-some s after u (ground (arith, read-after "url")) in
          (
            after,
            obs,
            ground (arith, e, apply_all-metrics_ops n now p s h k),
            ground (arith, read-after "count"),
            ground (arith, read-after "health"),
            ground (arith, read-after "last_update_time"),
            ground (arith, read-after "duration"),
            (
              ground (arith, read-after "url"),
              ground (arith, read-after "type"),
              ground (arith, read-after "chain_id"),
            ),
          )

      -- After an `updateMetrics` of an endpoint whose count is stored as `int` n with n + 1 below
      -- 2^63, as `New` stores it, the typed reader of the count gives 0, and that of the duration
      -- gives 0 if the response took time.
      pub typed_readers_zero :
          {t : State F} {obs : List (Observation F)}
          → read "count" s ≡ integer int (pos n)
          → n + 1 < 2 ^ 63
          → update_metrics fl now p s ≡ some (t, obs)
          → (count t ≡ 0) × ((ltb_ℤ (pos 0) p.duration ≡ false) ⊎ (duration fl t ≡ fl.of_ℤ (pos 0)))
      unfolding update_metrics update count duration
      typed_readers_zero {t} {obs} h k g = elim (Option-cases (observe fl s after)) [
        | inl e ↦ absurd (ground (arith, e, apply_all-metrics_ops n now p s h k))
        | inr (o, e) ↦
            let same : after ≡ t = ground (arith, e, apply_all-metrics_ops n now p s h k) in
            rw (← same) (ground (arith, read-after "count"), ground (arith, read-after "duration"))
      ]
