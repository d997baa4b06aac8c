-- ===== src/Tests/Tenants.antt =====
-- Examples of the tenants' balance and of calls that are refused.
use web3_rpc_proxy.Prelude.{
  ℕ, ◌≤◌, ◌≡◌, refl, true, false, none, some, [], ◌∷◌, ◌==◌, nat_comparable, string_comparable, leb,
  if◌then◌else◌,
}
use web3_rpc_proxy.Prelude.Int.{ℤ, pos, negsuc, ◌+ℤ◌, leb_ℤ, sub_ℕ}
use web3_rpc_proxy.Errors.{reject, too_many_requests_error}
use web3_rpc_proxy.Tenant.{Bucket, App, unaffected, TenantInfo, balance_script}
use web3_rpc_proxy.Tenant.Balance.{burst_admits, burst, new_bucket}
use web3_rpc_proxy.Tenant.Debounce.{
  Timers, untouched, skipped, touched, stored, saved, Reach, here, next, unaffects, stores, saves,
  given_back, failures,
}
use web3_rpc_proxy.Tenant.Debounce.Refunds.{New, given_back-le}
use web3_rpc_proxy.Tenant.Debounce.Losses.{Reach-lost}
use web3_rpc_proxy.Controller.{Context, Services, handle_call}
use web3_rpc_proxy.Controller.Charges.{overage_refused}

abbrev low : Bucket
low = record { balance = some (pos 3); last = some (pos 10) }

burst_admits_example :
    ((balance_script (pos 2) (pos 1) (pos 9) (burst 2 (pos 2) (pos 1) (pos 9) new_bucket)).0
      ≡ sub_ℕ 2 3)
    × (leb_ℤ
          (balance_script (pos 2) (pos 1) (pos 9) (burst 2 (pos 2) (pos 1) (pos 9) new_bucket)).0
          (negsuc 0)
        ≡ leb 2 2)
burst_admits_example = burst_admits 1 2 0 (pos 9)

abbrev info : TenantInfo ℤ
info = record { id = 1; name = "shop"; token = "key"; capacity = pos 2; rate = pos 1 }

abbrev app : App ℤ
app = record {
  info = info;
  bucket = "default";
  balance = negsuc 0;
  last_time = pos 0;
  offset = pos 0;
}

abbrev services : Services ℕ ℤ ℕ
services = record {
  enable_tenant = true;
  get_all = λ id w. if id == 1 then some (7 ∷ []) else none;
  access = λ token bucket w. ((none, app), w);
  agent_call = λ rc es w. ((none, "answer"), w);
  cause = λ w. none;
  contains = λ a b. a == b;
  body_of = λ e. e.msg;
  unix_milli = λ w. pos w;
}

abbrev context : ℕ → Context ℤ
context id = record { chain_id = id; app = none; app_key = "key"; app_bucket = "default" }

overage_refused_example : handle_call services (context 1) 0 ≡ (
  (
    record {
      status = reject;
      status_code = 429;
      body = (too_many_requests_error "Token is overage" []).msg;
    },
    none,
  ),
  0,
)
overage_refused_example =
    overage_refused services (context 1) 0 7 [] app 0 refl refl refl refl refl refl

abbrev idle : App ℤ
idle = record app { balance = pos 1 }

-- Two requests of one key; the first has failed and has its timer.
abbrev resting : Timers ℤ
resting = record { apps = λ i. idle; stages = λ i. untouched; timer = false; hash = low }

abbrev waiting_one : Timers ℤ
waiting_one = stored 1 (touched 1 unaffected resting)

resting-New : New resting
resting-New = record { untouched_all = λ i. refl; owed_none = λ i. refl }

waiting_one-Reach : Reach resting waiting_one
unfolding touched
waiting_one-Reach = next (next here (unaffects 1 refl refl)) (stores 1 refl refl)

saved-Reach : Reach resting (saved 1 waiting_one)
unfolding stored
saved-Reach = next waiting_one-Reach (saves 1 refl refl)

given_back-le_example : given_back saved-Reach ≤ failures saved-Reach
given_back-le_example = given_back-le resting-New saved-Reach

abbrev lost : Timers ℤ
lost = saved 1 (touched 2 unaffected waiting_one)

lost-Reach : Reach (touched 2 unaffected waiting_one) lost
unfolding stored touched
lost-Reach = next here (saves 1 refl refl)

Reach-lost_example : (lost.stages 2 ≡ skipped) × ((lost.apps 2).offset ≡ pos 0 +ℤ pos 1)
unfolding stored touched
Reach-lost_example = Reach-lost 2 waiting_one lost refl lost-Reach
