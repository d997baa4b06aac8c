-- ===== src/Tenant/Debounce/Losses.antt =====
-- A failed request that finds the timer of another request.
use mathlib.Core.Path.{subst}
use web3_rpc_proxy.Prelude.{
  ℕ, ◌≡◌, refl, sym, ap, ◌∙◌, Bool, true, false, ◌==◌, nat_comparable, nat_beq_iff, arith,
}
use web3_rpc_proxy.Prelude.Int.{pos, ◌+ℤ◌}
use web3_rpc_proxy.Tenant.{App, unaffected}
use web3_rpc_proxy.Tenant.Debounce.{
  Stage, untouched, started, timed, written, over, skipped, Timers, at, touched, stored, saved,
  unsaved, cleared, charged, Step, charges, affects, unaffects, stores, saves, fails, clears, Reach,
  here, next,
}

abbrev is_skipped : Stage → Bool
is_skipped skipped = true
is_skipped _ = false

at_other {ℓ} : {A : Type ℓ} (i j : ℕ) (v : A) (f : ℕ → A) → (j == i) ≡ false → at j v f i ≡ f i
at_other i j v f n = ground (arith, n)

module _ {F : Type 0} where
  record Dropped (i : ℕ) (app : App F) (s : Timers F) : Type 0 where
    at_end : s.stages i ≡ skipped
    same : s.apps i ≡ app

  not_other :
      (i j : ℕ) (p : Stage) (s : Timers F)
      → s.stages i ≡ skipped
      → s.stages j ≡ p
      → is_skipped p ≡ false
      → (j == i) ≡ false
  not_other i j p s h g n = ground (arith, h, g, n, nat_beq_iff j i)

  same-Dropped :
      (i : ℕ) (app : App F) (s t : Timers F)
      → t.stages i ≡ s.stages i
      → t.apps i ≡ s.apps i
      → Dropped i app s
      → Dropped i app t
  same-Dropped i app s t h g v = record { at_end = h ∙ v.at_end; same = g ∙ v.same }

  Step-Dropped :
      {s t : Timers F} (i : ℕ) (app : App F) → Step s t → Dropped i app s → Dropped i app t
  unfolding charged touched stored saved unsaved cleared
  Step-Dropped {s} i app (charges capacity rate now e) v =
      subst (Dropped i app) (sym e) (same-Dropped i app s _ refl refl v)
  Step-Dropped {s} i app (affects j now h e) v =
      let n = not_other i j untouched s v.at_end h refl in
      subst (Dropped i app) (sym e)
        (same-Dropped i app s _ (at_other i j _ s.stages n) (at_other i j _ s.apps n) v)
  Step-Dropped {s} i app (unaffects j h e) v =
      let n = not_other i j untouched s v.at_end h refl in
      subst (Dropped i app) (sym e)
        (same-Dropped i app s _ (at_other i j _ s.stages n) (at_other i j _ s.apps n) v)
  Step-Dropped {s} i app (stores j h e) v =
      let n = not_other i j started s v.at_end h refl in
      subst (Dropped i app) (sym e) (same-Dropped i app s _ (at_other i j timed s.stages n) refl v)
  Step-Dropped {s} i app (saves j h e) v =
      let n = not_other i j timed s v.at_end h refl in
      subst (Dropped i app) (sym e)
        (same-Dropped i app s _ (at_other i j written s.stages n) (at_other i j _ s.apps n) v)
  Step-Dropped {s} i app (fails j h e) v =
      let n = not_other i j timed s v.at_end h refl in
      subst (Dropped i app) (sym e)
        (same-Dropped i app s _ (at_other i j written s.stages n) refl v)
  Step-Dropped {s} i app (clears j h e) v =
      let n = not_other i j written s v.at_end h refl in
      subst (Dropped i app) (sym e) (same-Dropped i app s _ (at_other i j over s.stages n) refl v)

  Reach-Dropped :
      {s t : Timers F} (i : ℕ) (app : App F) → Dropped i app s → Reach s t → Dropped i app t
  Reach-Dropped i app v here = v
  Reach-Dropped i app v (next r x) = Step-Dropped i app x (Reach-Dropped i app v r)

  -- A request that fails while the key has a timer, of whichever request, is given nothing back: whatever
  -- happens then, its app still owes the call and no goroutine is started for it.
  pub Reach-lost :
      (i : ℕ) (s t : Timers F)
      → s.timer ≡ true
      → Reach (touched i unaffected s) t
      → (t.stages i ≡ skipped) × ((t.apps i).offset ≡ (s.apps i).offset +ℤ pos 1)
  unfolding touched unaffected
  Reach-lost i s t h r =
      let v =
        Reach-Dropped i (unaffected (s.apps i))
          (record {
            at_end = ground (arith, h, nat_beq_iff i i);
            same = ground (arith, nat_beq_iff i i);
          })
          r in
      (v.at_end, ap (λ a. a.offset) v.same)
