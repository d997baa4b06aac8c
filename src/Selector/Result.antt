-- ===== src/Selector/Result.antt =====
-- What a selection returns: always the candidates, in some order.
use mathlib.Core.List.{Perm, perm_middle, append-nil, append_assoc}
use mathlib.Core.List.Perm
use web3_rpc_proxy.Prelude.{
  leb, String, ◌≡◌, refl, Bool, true, false, Option, none, some, List, [], ◌∷◌, ◌++◌, length, any,
  not, arith, Bool-cases, inl, inr,
}
use web3_rpc_proxy.Prelude.Int.{pos}
use web3_rpc_proxy.Endpoint.{Endpoint, FloatOps}
use web3_rpc_proxy.Selector.{
  Wishes, Outside, candidates, is_nonempty, endpoint_health, move_from, move_unhealthy, arrange,
  probes, probe, finish, select, score, total_score,
}
use web3_rpc_proxy.Selector.Choice.{candidates_nonempty}

module _ {F : Type 0} where
  move_from-Perm : (before es : List (Endpoint F)) → Perm (move_from before es) (before ++ es)
  unfolding move_from
  move_from-Perm before [] = rw append-nil (Perm.refl before)
  move_from-Perm before (e ∷ es) = elim (Bool-cases (endpoint_health e)) [
    | inl h ↦ rw h (rw append_assoc at (move_from-Perm (before ++ e ∷ []) es))
    | inr h ↦ rw h (Perm.symm (perm_middle before es))
  ]

  -- The probe keeps every endpoint, and puts an unhealthy one first if there is any.
  move_unhealthy-Perm : (es : List (Endpoint F)) → Perm (move_unhealthy es) es
  unfolding move_unhealthy
  move_unhealthy-Perm es = move_from-Perm [] es

  abbrev pub first_healthy : List (Endpoint F) → Bool
  first_healthy [] = true
  first_healthy (e ∷ es) = endpoint_health e

  move_from_first :
      (before es : List (Endpoint F))
      → any (λ e. not (endpoint_health e)) es ≡ true
      → first_healthy (move_from before es) ≡ false
  unfolding move_from
  move_from_first before [] h = cc
  move_from_first before (e ∷ es) h = ground (arith, move_from_first (before ++ e ∷ []) es)

  nonempty_of_Perm :
      (xs ys : List (Endpoint F)) → Perm xs ys → is_nonempty ys ≡ true → is_nonempty xs ≡ true
  nonempty_of_Perm [] [] p h = h
  nonempty_of_Perm [] (y ∷ ys) p h = absurd (cc (Perm.length-eq p))
  nonempty_of_Perm (x ∷ xs) ys p h = refl

  -- With one endpoint or none there is no choice: what the request asks for is not looked at.
  abbrev pub chosen : Wishes → List String → List (Endpoint F) → List (Endpoint F)
  chosen w methods [] = []
  chosen w methods (e ∷ []) = e ∷ []
  chosen w methods (e ∷ f ∷ es) = candidates w.types methods (e ∷ f ∷ es)

  module _ (fl : FloatOps F) (out : Outside F)
      (sort_keeps : (less : Endpoint F → Endpoint F → Bool) (es : List (Endpoint F))
        → Perm (out.sort less es) es)
      (shuffle_keeps : (es : List (Endpoint F)) → Perm (out.shuffle es) es) where
    abbrev KeepsAll : List (Endpoint F) → Option (List (Endpoint F)) → Type 0
    KeepsAll es none = Unit
    KeepsAll es (some l) = Perm l es

    arrange-KeepsAll : (es : List (Endpoint F)) → KeepsAll es (arrange fl out es)
    unfolding arrange
    arrange-KeepsAll es = elim (Bool-cases (leb (length es) 1)) [
      | inl h ↦ rw h (Perm.refl es)
      | inr h ↦
          rw h
            (elim (Bool-cases (
              fl.lt (fl.of_ℤ (pos 0))
                (total_score fl (score fl out.tenth es) (fl.of_ℤ (pos 0)) (out.visit es)))) [
                  | inl g ↦ rw g (sort_keeps _ es)
                  | inr g ↦ rw g tt
                ])
    ]

    probe-Perm :
        (w : Wishes) (es : List (Endpoint F))
        → is_nonempty es ≡ true
        → (l : List (Endpoint F)) × (probe fl out w es ≡ some l) × Perm l es
    unfolding probe
    probe-Perm w [] h = absurd (cc)
    probe-Perm w (e ∷ es) h = elim (Bool-cases (probes fl out w e)) [
      | inl g ↦ (move_unhealthy (e ∷ es), rw g, move_unhealthy-Perm (e ∷ es))
      | inr g ↦ (e ∷ es, rw g, Perm.refl (e ∷ es))
    ]

    arranged_choice :
        (w : Wishes) (es : List (Endpoint F))
        → is_nonempty es ≡ true
        → (o : Option (List (Endpoint F))) → KeepsAll es o
        → (l : List (Endpoint F)) × (finish fl out w es o ≡ some (l, true)) × Perm l es
    unfolding finish
    arranged_choice w es h none k = (out.shuffle es, refl, shuffle_keeps es)
    arranged_choice w es h (some arranged) k =
        let (l, e, p) = probe-Perm w arranged (nonempty_of_Perm arranged es k h) in
        (l, rw (e, finish), Perm.trans p k)

    -- A selection does not panic: it gives the chosen endpoints, each as often as it was chosen, in
    -- some order, and reports success exactly if there is an endpoint, where the outside sort and
    -- shuffle only reorder.
    pub select-Perm :
        (w : Wishes) (methods : List String) (es : List (Endpoint F))
        → (l : List (Endpoint F)) × (select fl out w methods es ≡ some (l, is_nonempty es))
          × Perm l (chosen w methods es)
    unfolding select
    select-Perm w methods [] = ([], refl, Perm.refl [])
    select-Perm w methods (e ∷ []) = (e ∷ [], refl, Perm.refl (e ∷ []))
    select-Perm w methods (e ∷ f ∷ es) =
        let all = e ∷ f ∷ es in
        let picked = candidates w.types methods all in
        arranged_choice w picked (candidates_nonempty w.types methods all refl)
          (arrange fl out picked) (arrange-KeepsAll picked)

    -- Where the probe runs and some endpoint is unhealthy, an unhealthy one comes first, and every
    -- endpoint is kept as often as it stood there; where the outside sort and shuffle only reorder.
    pub probe_first :
        (w : Wishes) (e : Endpoint F) (es : List (Endpoint F))
        → probes fl out w e ≡ true
        → any (λ x. not (endpoint_health x)) (e ∷ es) ≡ true
        → (l : List (Endpoint F)) × (probe fl out w (e ∷ es) ≡ some l)
          × (first_healthy l ≡ false)
          × Perm l (e ∷ es)
    unfolding probe move_unhealthy
    probe_first w e es h k =
        (move_unhealthy (e ∷ es), rw h, move_from_first [] (e ∷ es) k, move_unhealthy-Perm (e ∷ es))
