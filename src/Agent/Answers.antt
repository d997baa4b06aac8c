-- ===== src/Agent/Answers.antt =====
-- What `Call` answers: the length of a batch's array, answers from the cache alone, expired entries
-- and malformed bodies.
use mathlib.Core.Path.{subst}
use web3_rpc_proxy.Prelude.{
  ℕ, suc, ◌+◌, String, ◌≡◌, refl, ◌∙◌, ap, Bool, true, Option, none, some, List, [], ◌∷◌, map,
  length, arith, Option-cases, Bool-cases, inl, inr, length-append, length-map, length-set, set,
  string_comparable,
}
use web3_rpc_proxy.Prelude.Dict.{lookup}
use web3_rpc_proxy.Json.{Value, obj, arr, Fields, from_list, field}
use web3_rpc_proxy.Rpc.{Request, SealedResult, method}
use web3_rpc_proxy.Agent.Store.{Config, Deps, can_cache}
use web3_rpc_proxy.Agent.Upstream.{Result, ok, err, panic, call}
use web3_rpc_proxy.Agent.Batch.{
  many, answers, Looked, look_one, look_up, cached_slots, fill, place, places, dispatch, to_answer,
  note,
}
use web3_rpc_proxy.Agent.Service.{nothing_yet, from_cache, combine, after_look_up, with_cache}

length-place :
    (is : List ℕ) (v : Value) (slots : List Value) → length (place is v slots) ≡ length slots
unfolding place
length-place [] v slots = refl
length-place (i ∷ is) v slots = length-place is v (set slots i v) ∙ length-set slots i v

length-fill :
    (sprint : Value → String) (m : List (String × List ℕ)) (fs : List Fields) (slots : List Value)
    → length (fill sprint m fs slots) ≡ length slots
unfolding fill
length-fill sprint m [] slots = refl
length-fill sprint m (f ∷ fs) slots =
    length-fill sprint m fs _ ∙ length-place (places (lookup (sprint (field "id" f)) m)) _ slots

length-cached_slots : (rs : List SealedResult) → length (cached_slots rs) ≡ length rs
unfolding cached_slots
length-cached_slots [] = refl
length-cached_slots (r ∷ rs) = ap suc (length-cached_slots rs)

length-answers :
    (rs : List SealedResult) (hits : List Bool) {fs : List Fields}
    → answers rs hits ≡ some fs
    → length fs ≡ length rs
unfolding answers
length-answers [] hits h = ground arith
length-answers (r ∷ rs) [] h = cc
length-answers (r ∷ rs) (b ∷ hits) h = elim (Option-cases (answers rs hits)) [
  | inl e ↦ absurd (ground (arith, e))
  | inr (fs, e) ↦ ground (arith, e, length-answers rs hits e)
]

module _ {E W : Type 0} (d : Deps E W) (cfg : Config) (chain : ℕ) where
  length-note :
      (i : ℕ) (q : Request) (c : Value × Option String) (s : Looked)
      → length (note d cfg chain i q c s).results ≡ length s.results + 1
  unfolding note
  length-note i q (value, none) s = omega (arith, length-append {0})
  length-note i q (value, some e) s = omega (arith, length-append {0})

  length-look_one :
      (i : ℕ) (q : Request) (s : Looked) (w : W)
      → length (look_one d cfg chain i q s w).0.results ≡ length s.results + 1
  unfolding look_one
  length-look_one i q s w = elim (Bool-cases (can_cache cfg (method q))) [
    | inl e ↦ rw e (length-note i q _ s)
    | inr e ↦ rw e (omega (arith, length-append {0}))
  ]

  length-look_up :
      (i : ℕ) (qs : List Request) (s : Looked) (w : W)
      → length (look_up d cfg chain i qs s w).0.results ≡ length s.results + length qs
  unfolding look_up
  length-look_up i [] s w = omega arith
  length-look_up i (q ∷ qs) s w =
      let (s', w') = look_one d cfg chain i q s w in
      omega (arith, length-look_up (suc i) qs s' w', length-look_one i q s w)

  abbrev ArrayOf : ℕ → Result Value → Type 0
  ArrayOf n (ok v) = (items : List Value) × (v ≡ arr (from_list items)) × (length items ≡ n)
  ArrayOf n _ = Unit

  many-ArrayOf :
      (s : Looked) (fs : List Fields) → ArrayOf (length s.results) (combine d s (ok (many fs)))
  unfolding combine
  many-ArrayOf s fs = (
    fill d.sprint s.mapping fs (cached_slots s.results),
    refl,
    length-fill d.sprint s.mapping fs (cached_slots s.results) ∙ length-cached_slots s.results,
  )

  combine-ArrayOf :
      (s : Looked) (hits : List Bool) (r : Result (List SealedResult))
      → ArrayOf (length s.results) (combine d s (to_answer true hits r))
  unfolding to_answer
  combine-ArrayOf s hits (err e) = unfold combine in tt
  combine-ArrayOf s hits panic = unfold combine in tt
  combine-ArrayOf s hits (ok rs) = elim (Option-cases (answers rs hits)) [
    | inl e ↦ rw (e, to_answer) (unfold combine in tt)
    | inr (fs, e) ↦ rw (e, to_answer) (many-ArrayOf s fs)
  ]

  after_look_up-ArrayOf :
      (qs : List Request) (s : Looked) (w : W)
      → ArrayOf (length s.results) (after_look_up d cfg chain true qs s w).0
  unfolding after_look_up from_cache dispatch
  after_look_up-ArrayOf [] s w = elim (Option-cases (answers s.results s.hits)) [
    | inl e ↦ rw (e, ArrayOf, from_cache) tt
    | inr (fs, e) ↦
        rw (e, ArrayOf, from_cache)
          (map obj fs, refl, length-map obj fs ∙ length-answers s.results s.hits e)
  ]
  after_look_up-ArrayOf (q ∷ qs) s w = combine-ArrayOf s s.hits (call d cfg chain (q ∷ qs) w).0

  -- A batch served with the cache that is answered at all is answered by an array with as many members
  -- as the batch has requests.
  pub batch_length :
      (qs : List Request) (w w' : W) (v : Value)
      → with_cache d cfg chain true qs w ≡ (ok v, w')
      → (items : List Value) × (v ≡ arr (from_list items)) × (length items ≡ length qs)
  unfolding with_cache
  batch_length qs w w' v h =
      let (s, w1) = look_up d cfg chain 0 qs nothing_yet w in
      let result = after_look_up d cfg chain true s.pending s w1 in
      let n : length s.results ≡ length qs = omega (arith, length-look_up 0 qs nothing_yet w) in
      let same : result.0 ≡ ok v = ap (λ r. r.0) h in
      subst (λ k. ArrayOf k (ok v)) n
        (subst (ArrayOf (length s.results)) same (after_look_up-ArrayOf s.pending s w1))
