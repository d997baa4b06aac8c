-- ===== src/Tenant/Balance.antt =====
-- What the balance of a bucket can be: bounds, bursts, and the return of a request's cost.
use web3_rpc_proxy.Prelude.{
  ℕ, zero, suc, ◌≡◌, ◌⊎◌, refl, ap, true, false, Option, none, some, inl, inr, arith, leb, ◌∙◌,
}
use web3_rpc_proxy.Prelude.Int.{ℤ, pos, negsuc, ◌+ℤ◌, ◌-ℤ◌, ◌*ℤ◌, ◌≤ℤ◌, ltb_ℤ, leb_ℤ, min_ℤ, sub_ℕ}
use web3_rpc_proxy.Tenant.{Bucket, balance_script, value_or, App, unaffected, pipeline, last_before}

min_ℤ-le-left : (a b : ℤ) → min_ℤ a b ≤ℤ a
min_ℤ-le-left a b = ground arith

abbrev recovery : ℤ → ℤ → Bucket → ℤ
recovery rate now b = (now -ℤ last_before now b.last) *ℤ rate

abbrev current : ℤ → ℤ → ℤ → Bucket → ℤ
current capacity rate now b =
    min_ℤ (capacity +ℤ negsuc 0) (value_or capacity b.balance +ℤ negsuc 0 +ℤ recovery rate now b)

leb_ℤ_of_ltb : (a : ℤ) → ltb_ℤ (pos 0) a ≡ true → leb_ℤ a (pos 0) ≡ false
leb_ℤ_of_ltb a h = ground (arith, h)

balance_script_limited :
    (capacity rate now : ℤ) (b : Bucket)
    → ltb_ℤ (pos 0) capacity ≡ true
    → ltb_ℤ (pos 0) rate ≡ true
    → balance_script capacity rate now b ≡ (
      current capacity rate now b,
      record { balance = some (current capacity rate now b); last = b.last },
    )
unfolding balance_script
balance_script_limited capacity rate now b h k =
    rw (leb_ℤ_of_ltb capacity h, balance_script) (rw (leb_ℤ_of_ltb rate k, balance_script) refl)

-- With a positive capacity and rate the script returns at most the capacity less one, whatever the
-- hash held; it stores what it returns, and leaves the time of the last request.
pub balance_script_bounds :
    (capacity rate now : ℤ) (b : Bucket)
    → ltb_ℤ (pos 0) capacity ≡ true
    → ltb_ℤ (pos 0) rate ≡ true
    → ((balance_script capacity rate now b).0 ≤ℤ capacity +ℤ negsuc 0)
      × ((balance_script capacity rate now b).1.balance
          ≡ some (balance_script capacity rate now b).0)
      × ((balance_script capacity rate now b).1.last ≡ b.last)
balance_script_bounds capacity rate now b h k =
    rw (balance_script_limited capacity rate now b h k) (
      min_ℤ-le-left (capacity +ℤ negsuc 0)
          (value_or capacity b.balance +ℤ negsuc 0 +ℤ recovery rate now b),
      refl,
      refl,
    )

-- A capacity or a rate that is not positive is no limit: the script returns 0 and changes nothing.
pub balance_script_unlimited :
    (capacity rate now : ℤ) (b : Bucket)
    → (leb_ℤ capacity (pos 0) ≡ true) ⊎ (leb_ℤ rate (pos 0) ≡ true)
    → balance_script capacity rate now b ≡ (pos 0, b)
unfolding balance_script
balance_script_unlimited capacity rate now b (inl h) = rw (h, balance_script) refl
balance_script_unlimited capacity rate now b (inr h) = ground (arith, h)

-- The hash after so many runs of the script at one time.
unfoldable pub burst : ℕ → ℤ → ℤ → ℤ → Bucket → Bucket
burst zero capacity rate now b = b
burst (suc n) capacity rate now b =
    (balance_script capacity rate now (burst n capacity rate now b)).1

abbrev pub new_bucket : Bucket
new_bucket = record { balance = none; last = none }

-- The balance that a full bucket of `c` has after n requests.
abbrev pub spent : ℕ → ℕ → ℤ
spent c n = sub_ℕ c n

sub_self : (a : ℤ) → a -ℤ a ≡ pos 0
unfolding ◌-ℤ◌
sub_self a = ground arith

zero_mul : (a : ℤ) → pos 0 *ℤ a ≡ pos 0
unfolding ◌*ℤ◌
zero_mul a = ground arith

add_zero : (a : ℤ) → a +ℤ pos 0 ≡ a
unfolding ◌+ℤ◌
add_zero a = ground arith

min_ℤ_same : (a : ℤ) → min_ℤ a a ≡ a
min_ℤ_same a = ground arith

no_recovery :
    (rate now : ℤ) (v : Option ℤ) → recovery rate now (record { balance = v; last = none }) ≡ pos 0
no_recovery rate now v =
    ap (λ t. (now -ℤ t) *ℤ rate) (min_ℤ_same now)
    ∙ ap (λ t. t *ℤ rate) (sub_self now)
    ∙ zero_mul rate

one_spent :
    (c n : ℕ)
    → min_ℤ (pos (suc c) +ℤ negsuc 0) (spent (suc c) n +ℤ negsuc 0) ≡ spent (suc c) (suc n)
unfolding ◌+ℤ◌
one_spent c n = ground arith

current-spent :
    (c n : ℕ) (rate now : ℤ) (v : Option ℤ)
    → value_or (pos (suc c)) v ≡ spent (suc c) n
    → current (pos (suc c)) rate now (record { balance = v; last = none }) ≡ spent (suc c) (suc n)
current-spent c n rate now v h =
    ap (λ t. min_ℤ (pos (suc c) +ℤ negsuc 0) (value_or (pos (suc c)) v +ℤ negsuc 0 +ℤ t))
      (no_recovery rate now v)
    ∙ ap (min_ℤ (pos (suc c) +ℤ negsuc 0)) (add_zero _)
    ∙ ap (λ t. min_ℤ (pos (suc c) +ℤ negsuc 0) (t +ℤ negsuc 0)) h
    ∙ one_spent c n

script_spent :
    (c n rate : ℕ) (now : ℤ) (v : Option ℤ)
    → value_or (pos (suc c)) v ≡ spent (suc c) n
    → balance_script (pos (suc c)) (pos (suc rate)) now (record { balance = v; last = none })
      ≡ (spent (suc c) (suc n), record { balance = some (spent (suc c) (suc n)); last = none })
script_spent c n rate now v h =
    rw
      (balance_script_limited (pos (suc c)) (pos (suc rate)) now
        (record { balance = v; last = none }) (ground arith) (ground arith))
      (ap (λ v. (v, record { balance = some v; last = none }))
        (current-spent c n (pos (suc rate)) now v h))

burst-spent :
    (c n rate : ℕ) (now : ℤ)
    → (v : Option ℤ) × (burst n (pos (suc c)) (pos (suc rate)) now new_bucket
        ≡ record { balance = v; last = none })
      × (value_or (pos (suc c)) v ≡ spent (suc c) n)
unfolding burst
burst-spent c zero rate now = (none, refl, ground arith)
burst-spent c (suc n) rate now =
    let (v, e, h) = burst-spent c n rate now in
    (
      some (spent (suc c) (suc n)),
      rw (e, burst) (ap (λ r. r.1) (script_spent c n rate now v h)),
      refl,
    )

spent_refused : (c n : ℕ) → leb_ℤ (sub_ℕ (suc c) (suc n)) (negsuc 0) ≡ leb (suc c) n
spent_refused c n = ground arith

-- Of a burst of requests at one time on a new bucket, the one after n others is given the capacity
-- less n + 1; so it is refused, by a balance of -1 or less, if and only if the capacity is at most n.
pub burst_admits :
    (c n rate : ℕ) (now : ℤ)
    → let given =
        (balance_script
          (pos (suc c))
          (pos (suc rate))
          now
          (burst n (pos (suc c)) (pos (suc rate)) now new_bucket)).0 in
      (given ≡ sub_ℕ (suc c) (suc n)) × (leb_ℤ given (negsuc 0) ≡ leb (suc c) n)
burst_admits c n rate now =
    let (v, e, h) = burst-spent c n rate now in
    let given = ap (λ r. r.0) (script_spent c n rate now v h) in
    (rw e given, rw e (rw given (spent_refused c n)))

one_returned : (c n : ℕ) → sub_ℕ c (suc n) +ℤ pos 1 ≡ sub_ℕ c n
unfolding ◌+ℤ◌
one_returned c n = ground arith

-- A request whose failure is given back costs nothing: on a new bucket, at one time, after n
-- requests and that one, what `debounce` writes for an app without other offsets leaves the balance
-- that n requests leave.
pub refund :
    {F : Type 0}
    → (c n rate : ℕ) (now : ℤ) (app : App F) → app.offset ≡ pos 0
    → (pipeline
        (unaffected app)
        (burst (suc n) (pos (suc c)) (pos (suc rate)) now new_bucket)).balance
      ≡ some (spent (suc c) n)
unfolding burst unaffected ◌+ℤ◌
refund c n rate now app h =
    let (v, e, k) = burst-spent c n rate now in
    rw (e, burst)
      (rw (script_spent c n rate now v k) (rw (h, unaffected) (ap some (one_returned (suc c) n))))
