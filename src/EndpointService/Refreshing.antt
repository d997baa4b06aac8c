-- ===== src/EndpointService/Refreshing.antt =====
-- What `refresh` may change: the attributes of the last period and the time of the update.
use mathlib.Core.Path.{subst}
use web3_rpc_proxy.Prelude.{
  String, ◌≡◌, refl, sym, ap, ◌∙◌, Bool, true, false, Option, none, some, List, [], ◌∷◌, length,
  arith, Option-cases, Bool-cases, inl, inr, string_comparable, nat_comparable, ◌==◌, if◌then◌else◌,
}
use web3_rpc_proxy.Prelude.Dict.{lookup}
use web3_rpc_proxy.Prelude.Int.{ℤ}
use web3_rpc_proxy.Cache.{Cache, new_cache, urls_of, put, purge, chains, delete_all}
use web3_rpc_proxy.Cache as Cached
use web3_rpc_proxy.Endpoint.{FloatOps, Attribute, chain_code}
use web3_rpc_proxy.EndpointService.Service.{Service, state_at}
use web3_rpc_proxy.EndpointService.Refresh.{
  Metric, Family, duration_summary, status_summary, duration_ops, status_ops, with_time, update_at,
  refresh_one, refresh_all, refresh_family, refresh_families,
}
use web3_rpc_proxy.EndpointService.Stability.{Below}
use web3_rpc_proxy.EndpointService.Attributes.{
  OnlyPeriod, Alike, duration_ops-Avoids, status_ops-Avoids, with_time-Avoids, Alike-refl,
  Alike-trans, update_at-Alike,
}

module _ {F : Type 0} where
  -- A refresh keeps the cache, and of each endpoint every attribute but those of the last period and
  -- the time of the update.
  pub record Kept (s t : Service F) : Type 0 where
    pub same_cache : t.cache ≡ s.cache
    pub alike : Alike s.heap t.heap

  Kept-refl : (s : Service F) → Kept s s
  Kept-refl s = record { same_cache = refl; alike = Alike-refl s.heap }

  Kept-trans : {s t u : Service F} → Kept s t → Kept t u → Kept s u
  Kept-trans f g = record {
    same_cache = g.same_cache ∙ f.same_cache;
    alike = Alike-trans f.alike g.alike;
  }

  BelowOf : Service F → Type 0
  BelowOf s = Below (length s.heap) s.cache

  Kept-Below : (s t : Service F) → Kept s t → BelowOf s → BelowOf t
  unfolding BelowOf
  Kept-Below s t f b = λ k r h.
      omega
        (arith, f.alike.same_length, b k r (ap (λ c. lookup k c.endpoints) (sym f.same_cache) ∙ h))

  Keeps : (Service F → Option (Service F)) → Type 0
  Keeps f = (s t : Service F) → f s ≡ some t → BelowOf s → Kept s t

  module _ (fl : FloatOps F) (p95 : F) (is_nan : F → Bool) (now : ℤ) where
    refresh_one-Keeps :
        (ops : List (F × F) → List (Attribute F)) (m : Metric F)
        → ((qs : List (F × F)) → OnlyPeriod (ops qs))
        → Keeps (refresh_one fl p95 is_nan now ops m)
    unfolding refresh_one Keeps BelowOf
    refresh_one-Keeps ops m o = λ s t h b. elim (Option-cases (Cached.get m.url s.cache)) [
      | inl n ↦ subst (Kept s) (ground (arith, n, h)) (Kept-refl s)
      | inr (r, n) ↦ elim (Bool-cases (chain_code (state_at s.heap r) == m.code)) [
        | inr c ↦ subst (Kept s) (ground (arith, n, c, h)) (Kept-refl s)
        | inl c ↦
            let as' = with_time fl p95 is_nan now (ops m.quantiles) in
            elim (Option-cases (update_at fl p95 is_nan now as' r s.heap)) [
              | inl e ↦ absurd (ground (arith, n, c, e, h))
              | inr (heap, e) ↦
                  let same : record s { heap = heap } ≡ t = ground (arith, n, c, e, h) in
                  subst (Kept s) same (record {
                    same_cache = refl;
                    alike =
                        update_at-Alike fl p95 is_nan now as' r s.heap heap e
                          (b m.url r (unfold Cached.get in n))
                          (λ k x y z.
                            with_time-Avoids fl p95 is_nan now k (ops m.quantiles) z
                              (o m.quantiles k x y z));
                  })
            ]
      ]
    ]

    and_then-Keeps :
        (f g : Service F → Option (Service F))
        → Keeps f
        → Keeps g
        → Keeps (λ s. elim (f s) [ none ↦ none | some t ↦ g t ])
    unfolding Keeps
    and_then-Keeps f g hf hg = λ s u h b. elim (Option-cases (f s)) [
      | inl n ↦ absurd (ground (arith, n, h))
      | inr (t, n) ↦
          let kept = hf s t n b in
          Kept-trans kept (hg t u (ground (arith, n, h)) (Kept-Below s t kept b))
    ]

    id-Keeps : Keeps some
    unfolding Keeps
    id-Keeps = λ s t h b. subst (Kept s) (ground (arith, h)) (Kept-refl s)

    if-Keeps :
        (c : Bool) (f : Service F → Option (Service F))
        → Keeps f
        → Keeps (λ s. if c then f s else some s)
    if-Keeps true f h = h
    if-Keeps false f h = id-Keeps

    refresh_all-Keeps :
        (ops : List (F × F) → List (Attribute F)) (ms : List (Metric F))
        → ((qs : List (F × F)) → OnlyPeriod (ops qs))
        → Keeps (refresh_all fl p95 is_nan now ops ms)
    unfolding refresh_all
    refresh_all-Keeps ops [] o = id-Keeps
    refresh_all-Keeps ops (m ∷ ms) o =
        and_then-Keeps (refresh_one fl p95 is_nan now ops m) (refresh_all fl p95 is_nan now ops ms)
          (refresh_one-Keeps ops m o) (refresh_all-Keeps ops ms o)

    refresh_family-Keeps :
        (prefixed : String → String) (f : Family F)
        → Keeps (refresh_family fl p95 is_nan now prefixed f)
    unfolding refresh_family
    refresh_family-Keeps prefixed f =
        and_then-Keeps _ _
          (if-Keeps (f.name == prefixed duration_summary)
            (refresh_all fl p95 is_nan now (duration_ops fl p95 is_nan now) f.metrics)
            (refresh_all-Keeps (duration_ops fl p95 is_nan now) f.metrics
              (λ qs k x y z. duration_ops-Avoids fl p95 is_nan now k qs x)))
          (if-Keeps (f.name == prefixed status_summary)
            (refresh_all fl p95 is_nan now (status_ops fl p95 is_nan now) f.metrics)
            (refresh_all-Keeps (status_ops fl p95 is_nan now) f.metrics
              (λ qs k x y z. status_ops-Avoids fl p95 is_nan now k qs y)))

    refresh_families-Keeps :
        (prefixed : String → String) (fs : List (Family F))
        → Keeps (refresh_families fl p95 is_nan now prefixed fs)
    unfolding refresh_families
    refresh_families-Keeps prefixed [] = id-Keeps
    refresh_families-Keeps prefixed (f ∷ fs) =
        and_then-Keeps (refresh_family fl p95 is_nan now prefixed f)
          (refresh_families fl p95 is_nan now prefixed fs) (refresh_family-Keeps prefixed f)
          (refresh_families-Keeps prefixed fs)

    -- A refresh that does not panic keeps the cache, and of each endpoint, cached or not, every attribute
    -- but the two of the last period and the time of the update; where the cached places are in the heap.
    pub refresh_families-Kept :
        (prefixed : String → String) (fs : List (Family F)) (s t : Service F)
        → refresh_families fl p95 is_nan now prefixed fs s ≡ some t
        → Below (length s.heap) s.cache
        → Kept s t
    unfolding Keeps BelowOf
    refresh_families-Kept prefixed fs s t h b = refresh_families-Keeps prefixed fs s t h b
