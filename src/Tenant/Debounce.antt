-- ===== src/Tenant/Debounce.antt =====
-- `Affected`, `Unaffected` and the goroutines of `debounce` of
-- internal/app/agent/service/tenant_service.go, for the requests of one key: each has an app of its own,
-- and all share the timer of the key and its hash in redis. A step is what runs between two waits.
pub mod Refunds
pub mod Losses
use web3_rpc_proxy.Prelude.{ℕ, ◌+◌, ◌≡◌, Bool, true, false, ◌==◌, nat_comparable, if◌then◌else◌}
use web3_rpc_proxy.Prelude.Int.{ℤ, pos, pos_part, ◌-ℤ◌}
use web3_rpc_proxy.Tenant.{
  App, Bucket, affected, unaffected, pipeline, reset, balance_script, value_or,
}

-- A request: before its answer, after its goroutine was started, was given its timer, and has written; at
-- the end of the goroutine; or without one, since it found the timer of another.
pub data Stage : Type 0 where
  untouched started timed written over skipped : Stage

pub record Timers (F : Type 0) : Type 0 where
  pub apps : ℕ → App F
  pub stages : ℕ → Stage
  pub timer : Bool
  pub hash : Bucket

abbrev pub at {ℓ} : {A : Type ℓ} → ℕ → A → (ℕ → A) → ℕ → A
at i v f j = if i == j then v else f j

-- How much more the second number is.
unfoldable pub rise : ℤ → ℤ → ℕ
unfolding ◌-ℤ◌
rise a b = pos_part (b -ℤ a)

abbrev pub balance_of : Bucket → ℤ
balance_of b = value_or (pos 0) b.balance

module _ {F : Type 0} where
  -- The app is written, and a goroutine is started unless there is a timer.
  unfoldable pub touched : ℕ → (App F → App F) → Timers F → Timers F
  touched i f s = record s {
    apps = at i (f (s.apps i)) s.apps;
    stages = at i (if s.timer then skipped else started) s.stages;
  }

  unfoldable pub stored : ℕ → Timers F → Timers F
  stored i s = record s { stages = at i timed s.stages; timer = true }

  -- What the pipeline does once the timer has fired.
  unfoldable pub saved : ℕ → Timers F → Timers F
  saved i s = record s {
    apps = at i (reset (s.apps i)) s.apps;
    stages = at i written s.stages;
    hash = pipeline (s.apps i) s.hash;
  }

  unfoldable pub unsaved : ℕ → Timers F → Timers F
  unsaved i s = record s { stages = at i written s.stages }

  -- The deferred deletion: the timer of the key, whosever it is.
  unfoldable pub cleared : ℕ → Timers F → Timers F
  cleared i s = record s { stages = at i over s.stages; timer = false }

  -- `Access` of a request runs the script.
  unfoldable pub charged : ℤ → ℤ → ℤ → Timers F → Timers F
  unfolding balance_script
  charged capacity rate now s = record s { hash = (balance_script capacity rate now s.hash).1 }

  pub data Step (s t : Timers F) : Type 0 where
    charges : (capacity rate now : ℤ) → t ≡ charged capacity rate now s → Step s t
    affects : (i : ℕ) (now : ℤ) → s.stages i ≡ untouched → t ≡ touched i (affected now) s → Step s t
    unaffects : (i : ℕ) → s.stages i ≡ untouched → t ≡ touched i unaffected s → Step s t
    stores : (i : ℕ) → s.stages i ≡ started → t ≡ stored i s → Step s t
    saves : (i : ℕ) → s.stages i ≡ timed → t ≡ saved i s → Step s t
    fails : (i : ℕ) → s.stages i ≡ timed → t ≡ unsaved i s → Step s t
    clears : (i : ℕ) → s.stages i ≡ written → t ≡ cleared i s → Step s t

  pub data Reach (s : Timers F) : Timers F → Type 0 where
    here : Reach s s
    next : {t u : Timers F} → Reach s t → Step t u → Reach s u

  -- How often `Unaffected` was called, and what was added to the balance beside the script.
  abbrev pub failed_by : {s t : Timers F} → Step s t → ℕ
  failed_by (unaffects i h e) = 1
  failed_by _ = 0

  -- What a step other than one of the script adds to the balance.
  abbrev pub given_by : {s t : Timers F} → Step s t → ℕ
  given_by (charges capacity rate now e) = 0
  given_by {s} {t} _ = rise (balance_of s.hash) (balance_of t.hash)

  abbrev pub failures : {s t : Timers F} → Reach s t → ℕ
  failures here = 0
  failures (next r x) = failures r + failed_by x

  abbrev pub given_back : {s t : Timers F} → Reach s t → ℕ
  given_back here = 0
  given_back (next r x) = given_back r + given_by x
