-- ===== src/Selector/Choice.antt =====
-- Which endpoints are candidates for a request.
use web3_rpc_proxy.Prelude.{
  String, ◌≡◌, refl, Bool, true, false, List, [], ◌∷◌, filter, any, All, string_comparable, arith,
  Bool-cases, inl, inr,
}
use web3_rpc_proxy.Endpoint.{Endpoint}
use web3_rpc_proxy.Selector.{candidates, is_nonempty}

module _ {ℓ} {A : Type ℓ} (p : A → Bool) where
  is_nonempty-filter : (xs : List A) → is_nonempty (filter p xs) ≡ any p xs
  is_nonempty-filter [] = refl
  is_nonempty-filter (x ∷ xs) = ground (arith, is_nonempty-filter xs)

  All-filter : (xs : List A) → All (λ x. p x ≡ true) (filter p xs)
  All-filter [] = tt
  All-filter (x ∷ xs) = elim (Bool-cases (p x)) [
    | inl e ↦ rw e (e, All-filter xs)
    | inr e ↦ rw e (All-filter xs)
  ]

any_never {ℓ} : {A : Type ℓ} (xs : List A) → any (λ x. false) xs ≡ false
any_never [] = refl
any_never (x ∷ xs) = any_never xs

module _ {F : Type 0} where
  -- From a list that is not empty some candidate is chosen.
  pub candidates_nonempty :
      (types methods : List String) (es : List (Endpoint F))
      → is_nonempty es ≡ true
      → is_nonempty (candidates types methods es) ≡ true
  unfolding candidates
  candidates_nonempty types methods es h = ground arith
