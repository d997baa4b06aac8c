-- ===== src/EndpointService/Attributes.antt =====
-- Which attributes the updates of a refresh name, and what an update of one endpoint leaves of all.
use mathlib.Core.Path.{subst}
use web3_rpc_proxy.Prelude.{
  ℕ, zero, suc, ◌<◌, String, ◌≡◌, refl, ◌∙◌, Bool, false, some, List, [], ◌∷◌, length, get_elem?,
  set, length-set, All, All-append, arith, Option-cases, Bool-cases, inl, inr, string_comparable,
  nat_comparable, ◌==◌, if◌then◌else◌, nat_beq_iff,
}
use web3_rpc_proxy.Prelude.Int.{ℤ}
use web3_rpc_proxy.Endpoint.{
  State, FloatOps, Attribute, Observation, read, update, apply_all, observe,
}
use web3_rpc_proxy.Endpoint.Updates.{read-apply_all}
use web3_rpc_proxy.EndpointService.Service.{state_at}
use web3_rpc_proxy.EndpointService.Refresh.{duration_ops, status_ops, with_time, update_at}

get_elem?-set {ℓ} :
    {A : Type ℓ} (xs : List A) (i j : ℕ) (v : A)
    → i < length xs
    → get_elem? (set xs i v) j ≡ (if i == j then some v else get_elem? xs j)
get_elem?-set [] i j v h = absurd (omega arith)
get_elem?-set (x ∷ xs) zero zero v h = refl
get_elem?-set (x ∷ xs) zero (suc j) v h = ground arith
get_elem?-set (x ∷ xs) (suc i) zero v h = ground arith
get_elem?-set (x ∷ xs) (suc i) (suc j) v h = ground (arith, get_elem?-set xs i j v (omega arith))

module _ {F : Type 0} where
  abbrev pub Avoids : String → List (Attribute F) → Type 0
  Avoids k = All (λ a. (a.name == k) ≡ false)

  -- What an update of one place leaves of all places.
  pub record Alike (heap heap' : List (State F)) : Type 0 where
    pub same_length : length heap' ≡ length heap
    pub same_read :
        (k : String) (j : ℕ)
        → ("p95_duration" == k) ≡ false
        → ("p95_health" == k) ≡ false
        → ("last_update_time" == k) ≡ false
        → read k (state_at heap' j) ≡ read k (state_at heap j)

  pub Alike-refl : (heap : List (State F)) → Alike heap heap
  Alike-refl heap = record { same_length = refl; same_read = λ k j a b c. refl }

  pub Alike-trans : {a b c : List (State F)} → Alike a b → Alike b c → Alike a c
  Alike-trans f g = record {
    same_length = g.same_length ∙ f.same_length;
    same_read = λ k j x y z. g.same_read k j x y z ∙ f.same_read k j x y z;
  }

  abbrev pub OnlyPeriod : List (Attribute F) → Type 0
  OnlyPeriod as' =
      (k : String)
      → ("p95_duration" == k) ≡ false
      → ("p95_health" == k) ≡ false
      → ("last_update_time" == k) ≡ false
      → Avoids k as'

  pub state_at-set :
      (heap : List (State F)) (r j : ℕ) (t : State F)
      → r < length heap
      → state_at (set heap r t) j ≡ (if r == j then t else state_at heap j)
  state_at-set heap r j t h = ground (arith, get_elem?-set heap r j t h)

  module _ (fl : FloatOps F) (p95 : F) (is_nan : F → Bool) (now : ℤ) where
    pub duration_ops-Avoids :
        (k : String) (qs : List (F × F))
        → ("p95_duration" == k) ≡ false
        → Avoids k (duration_ops fl p95 is_nan now qs)
    unfolding duration_ops
    duration_ops-Avoids k [] h = tt
    duration_ops-Avoids k ((q, value) ∷ qs) h = elim (Bool-cases (fl.eq q p95)) [
      | inl e ↦ rw e (h, duration_ops-Avoids k qs h)
      | inr e ↦ rw e (duration_ops-Avoids k qs h)
    ]

    pub status_ops-Avoids :
        (k : String) (qs : List (F × F))
        → ("p95_health" == k) ≡ false
        → Avoids k (status_ops fl p95 is_nan now qs)
    unfolding status_ops
    status_ops-Avoids k [] h = tt
    status_ops-Avoids k ((q, value) ∷ qs) h = elim (Bool-cases (fl.eq q p95)) [
      | inl e ↦ rw e (h, status_ops-Avoids k qs h)
      | inr e ↦ rw e (status_ops-Avoids k qs h)
    ]

    pub with_time-Avoids :
        (k : String) (as' : List (Attribute F))
        → ("last_update_time" == k) ≡ false
        → Avoids k as'
        → Avoids k (with_time fl p95 is_nan now as')
    with_time-Avoids k [] h g = tt
    with_time-Avoids k (a ∷ as') h g = (g.0, All-append _ as' _ g.1 (h, tt))

    read-update :
        (as' : List (Attribute F)) (s t : State F) (k : String) (obs : List (Observation F))
        → update fl as' s ≡ some (t, obs)
        → Avoids k as'
        → read k t ≡ read k s
    unfolding update
    read-update as' s t k obs h g = elim (Option-cases (apply_all fl as' s)) [
      | inl n ↦ absurd (ground (arith, n, h))
      | inr (u, n) ↦ elim (Option-cases (observe fl s u)) [
        | inl m ↦ absurd (ground (arith, n, m, h))
        | inr (o, m) ↦ read-apply_all fl as' s t k (ground (arith, n, m, h)) g
      ]
    ]

    pub update_at-Alike :
        (as' : List (Attribute F)) (r : ℕ) (heap heap' : List (State F))
        → update_at fl p95 is_nan now as' r heap ≡ some heap'
        → r < length heap
        → OnlyPeriod as'
        → Alike heap heap'
    unfolding update_at
    update_at-Alike [] r heap heap' h l o = subst (Alike heap) (ground (arith, h)) (Alike-refl heap)
    update_at-Alike (a ∷ as') r heap heap' h l o =
        elim (Option-cases (update fl (a ∷ as') (state_at heap r))) [
          | inl n ↦ absurd (ground (arith, n, h))
          | inr ((t, obs), n) ↦
              let same : set heap r t ≡ heap' = ground (arith, n, h) in
              subst (Alike heap) same (record {
                same_length = length-set heap r t;
                same_read = λ k j x y z. ground (
                  arith,
                  state_at-set heap r j t l,
                  read-update (a ∷ as') (state_at heap r) t k obs n (o k x y z),
                  nat_beq_iff r j,
                );
              })
        ]
