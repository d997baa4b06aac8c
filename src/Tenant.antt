-- ===== src/Tenant.antt =====
-- The tenants' access and their balance: internal/app/agent/service/tenant_service.go, the script of
-- internal/app/shared/redis_scripts/balance.go, and the types of internal/common/app.go. redis, the
-- local cache, the database and the codecs are the record `Deps` over a world `W`; a number of the
-- type `F` is a float64. The goroutines are run where they are started; `flush` is what `debounce` does
-- once its timer has fired. A cached tenant that does not decode leaves nothing behind in the one that
-- the database fills.
pub mod Balance
pub mod Debounce
use Prim.Native.String.{◌++◌ as str_append}
use web3_rpc_proxy.Prelude.{
  ℕ, ◌*◌, String, Bool, true, false, Option, none, some, ◌==◌, string_comparable, if◌then◌else◌,
}
use web3_rpc_proxy.Prelude.Int.{ℤ, pos, negsuc, ◌+ℤ◌, ◌-ℤ◌, ◌*ℤ◌, ltb_ℤ, leb_ℤ, min_ℤ}

-- The preferences of a tenant are not read here.
pub record TenantInfo (F : Type 0) : Type 0 where
  pub id : ℕ
  pub name : String
  pub token : String
  pub capacity : F
  pub rate : F

pub record App (F : Type 0) : Type 0 where
  pub info : TenantInfo F
  pub bucket : String
  pub balance : ℤ
  pub last_time : ℤ
  pub offset : ℤ

-- The hash that redis keeps for a tenant's bucket.
pub record Bucket : Type 0 where
  pub balance : Option ℤ
  pub last : Option ℤ

abbrev pub value_or : ℤ → Option ℤ → ℤ
value_or default none = default
value_or default (some v) = v

abbrev pub last_before : ℤ → Option ℤ → ℤ
last_before now last = min_ℤ (value_or now last) now

-- `GetBalanceScript`, at the time `now` in milliseconds: what it returns, and the hash it leaves.
unfoldable pub balance_script : ℤ → ℤ → ℤ → Bucket → ℤ × Bucket
balance_script capacity rate now b =
    if leb_ℤ capacity (pos 0)
    then (pos 0, b)
    else if leb_ℤ rate (pos 0)
    then (pos 0, b)
    else (let recovery = (now -ℤ last_before now b.last) *ℤ rate in
        let residual = value_or capacity b.balance +ℤ negsuc 0 in
        let current = min_ℤ (capacity +ℤ negsuc 0) (residual +ℤ recovery) in
        (current, record { balance = some current; last = b.last }))

pub record Deps (F W : Type 0) : Type 0 where
  pub to_int64 : F → ℤ
  -- redis: the bytes of a key, if it has any and can be read; an error of the script; its hashes.
  pub redis_get : String → W → Option String × W
  pub redis_set : String → String → ℤ → W → W
  pub redis_error : W → Option String
  pub bucket_of : String → W → Bucket
  pub put_bucket : String → Bucket → W → W
  -- The database.
  pub tenant_by_token : String → W → (Option String × TenantInfo F) × W
  -- bigcache, and encoding/json.
  pub local_get : String → W → Option String
  pub local_set : String → String → W → W
  pub encode_info : TenantInfo F → Option String
  pub decode_info : String → Option (TenantInfo F)
  pub encode_app : App F → Option String
  pub decode_app : String → Option (App F)
  pub unix_milli : W → ℤ

-- 7 * 24 hours, in nanoseconds.
abbrev cache_expire : ℤ
cache_expire = pos (7 * 24 * 3600 * 1000000000)

abbrev pub info_key : String → String
info_key token = str_append "app#" token

abbrev pub bucket_key : String → String → String
bucket_key token bucket = str_append "app#" (str_append token (str_append ":" bucket))

-- At the time `now`, in milliseconds.
unfoldable pub affected : {F : Type 0} → ℤ → App F → App F
affected now app = record app { last_time = now }

unfoldable pub unaffected : {F : Type 0} → App F → App F
unaffected app = record app { offset = app.offset +ℤ pos 1 }

-- HSET of the time and HINCRBY of the offset, if there are any.
abbrev pub pipeline : {F : Type 0} → App F → Bucket → Bucket
pipeline app b = record {
  balance =
      if ltb_ℤ (pos 0) app.offset
      then some (value_or (pos 0) b.balance +ℤ app.offset)
      else b.balance;
  last = if ltb_ℤ (pos 0) app.last_time then some app.last_time else b.last;
}

abbrev pub reset : {F : Type 0} → App F → App F
reset app =
    if ltb_ℤ (pos 0) app.offset then record app { offset = pos 0; last_time = pos 0 } else app

module _ {F W : Type 0} (d : Deps F W) where
  unfoldable pub cache_tenant_info : TenantInfo F → W → W
  cache_tenant_info info w = elim (d.encode_info info) [
    | none ↦ w
    | some bytes ↦ d.redis_set (info_key info.token) bytes cache_expire w
  ]

  abbrev decode_bytes : Option String → Option (TenantInfo F)
  decode_bytes none = none
  decode_bytes (some bytes) = if bytes == "" then none else d.decode_info bytes

  abbrev pub from_database : (Option String × TenantInfo F) × W → (Option String × TenantInfo F) × W
  from_database ((some e, info), w) = ((some e, info), w)
  from_database ((none, info), w) = ((none, info), cache_tenant_info info w)

  -- An error, or the tenant: from redis, else from the database.
  unfoldable pub get_tenant_info : String → W → (Option String × TenantInfo F) × W
  get_tenant_info token w =
      let (bytes, w') = d.redis_get (info_key token) w in
      elim (decode_bytes bytes) [
        | some info ↦ ((none, info), w')
        | none ↦ from_database (d.tenant_by_token token w')
      ]

  abbrev pub cached_app : String → W → Option (App F)
  cached_app key w = elim (d.local_get key w) [ none ↦ none | some bytes ↦ d.decode_app bytes ]

  abbrev pub keep_app : String → App F → W → W
  keep_app key app w = elim (d.encode_app app) [ none ↦ w | some bytes ↦ d.local_set key bytes w ]

  abbrev pub new_app : TenantInfo F → String → App F
  new_app info bucket = record {
    info = info;
    bucket = bucket;
    balance = pos 0;
    last_time = pos 0;
    offset = pos 0;
  }

  abbrev pub key_of : App F → String
  key_of app = bucket_key app.info.token app.bucket

  -- `getBalanceValue`: redis runs the script at its own time.
  unfoldable pub get_balance_value : App F → W → (Option String × ℤ) × W
  get_balance_value app w = elim (d.redis_error w) [
    | some e ↦ ((some e, pos 0), w)
    | none ↦
        let (current, b) =
          balance_script (d.to_int64 app.info.capacity) (d.to_int64 app.info.rate) (d.unix_milli w)
            (d.bucket_of (key_of app) w) in
        ((none, current), d.put_bucket (key_of app) b w)
  ]

  abbrev pub with_balance : App F → (Option String × ℤ) × W → (Option String × App F) × W
  with_balance app ((e, b), w) = ((e, record app { balance = b }), w)

  abbrev pub fresh :
      String → String → (Option String × TenantInfo F) × W → (Option String × App F) × W
  fresh key bucket ((some e, info), w) = ((some e, new_app info bucket), w)
  fresh key bucket ((none, info), w) =
      let app = new_app info bucket in with_balance app (get_balance_value app (keep_app key app w))

  -- `Access`: where there is an error, the app beside it means nothing.
  unfoldable pub access : String → String → W → (Option String × App F) × W
  access token bucket w =
      let key = bucket_key token bucket in
      elim (cached_app key w) [
        | some app ↦ with_balance app (get_balance_value app w)
        | none ↦ fresh key bucket (get_tenant_info token w)
      ]

  unfoldable pub flush : App F → W → Option String × App F × W
  flush app w = elim (d.redis_error w) [
    | some e ↦ (some e, app, w)
    | none ↦ (
      none,
      reset app,
      keep_app (key_of app) (reset app)
          (d.put_bucket (key_of app) (pipeline app (d.bucket_of (key_of app) w)) w),
    )
  ]
