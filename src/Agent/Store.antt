-- ===== src/Agent/Store.antt =====
-- The cache of results: `canCache`, `shouldInvalidateCache`, `cacheKey`, `getCache` and `setCache` of
-- agent_service.go. What lies outside the program is the record `Deps` over a world `W`.
use Prim.Native.String.{◌++◌ as str_append}
use web3_rpc_proxy.Prelude.{
  ℕ, String, Bool, true, Option, none, some, List, is_some, string_comparable, if◌then◌else◌,
}
use web3_rpc_proxy.Prelude.Dict.{Dict, lookup}
use web3_rpc_proxy.Prelude.Int.{ℤ, pos, ◌-ℤ◌, ◌*ℤ◌, ltb_ℤ}
use web3_rpc_proxy.Json.{Value, null, Fields, field, is_null}
use web3_rpc_proxy.Rpc.{Request, Sealed, Reply, method}
use web3_rpc_proxy.Errors.{GoError}

-- `T` is in seconds.
pub record CacheEntry : Type 0 where
  pub v : Value
  pub t : ℤ

-- The durations of the methods whose results are cached, if any are configured.
pub record Config : Type 0 where
  pub cache_methods : Option (Dict String ℤ)
  pub disable_cache : Bool
  pub cache_ttl : ℤ

-- What redis answers to a read: the bytes, `redis.Nil`, or another error.
pub data RedisReply : Type 0 where
  found : String → RedisReply
  missing : RedisReply
  failed : String → RedisReply

pub record Deps (E W : Type 0) : Type 0 where
  -- fmt.Sprint of a value and of a number, and encoding/json.
  pub sprint : Value → String
  pub decimal : ℕ → String
  pub parse : String → Option Value
  pub marshal : Value → Option String
  pub encode_entry : CacheEntry → Option String
  pub decode_entry : String → Option CacheEntry
  -- redis, and the wall clock in nanoseconds.
  pub redis_get : String → W → RedisReply × W
  pub redis_set : String → String → ℤ → W → Option String × W
  pub clock : W → ℤ
  pub unix : W → ℤ
  -- The schema, the selector and the client that the service is given.
  pub validate : String → Fields → Option String
  pub select : List Request → W → (List E × Bool) × W
  pub request : List E → List Sealed → W → (Option GoError × List Reply) × W

abbrev pub second : ℕ
second = 1000000000

module _ (cfg : Config) where
  abbrev pub ttl_of : String → Option ℤ
  ttl_of m = elim cfg.cache_methods [ none ↦ none | some methods ↦ lookup m methods ]

  unfoldable pub can_cache : String → Bool
  can_cache m = is_some (ttl_of m)

  -- `shouldInvalidateCache`; a clock before the entry's time gives a negative age.
  unfoldable pub should_invalidate : String → Option CacheEntry → ℤ → Bool
  should_invalidate m none now = true
  should_invalidate m (some entry) now = elim (ttl_of m) [
    | none ↦ true
    | some ttl ↦ ltb_ℤ ttl (now -ℤ entry.t *ℤ pos second)
  ]

module _ {E W : Type 0} (d : Deps E W) where
  abbrev params_text : Option String → String
  params_text none = ""
  params_text (some s) = s

  unfoldable pub cache_key : ℕ → Request → String
  cache_key chain r =
      let ps = field "params" r.raw in
      let text = if is_null ps then "" else params_text (d.marshal ps) in
      str_append (d.decimal chain) (str_append ":" (str_append (method r) (str_append ":" text)))

  -- The value and the error of `getCache`: an entry that is no longer valid gives nil for both.
  unfoldable pub read_entry : Config → String → RedisReply → ℤ → Value × Option String
  read_entry cfg m missing now = (null, some "cache entry not found")
  read_entry cfg m (failed e) now = (null, some e)
  read_entry cfg m (found bytes) now = elim (d.decode_entry bytes) [
    | none ↦ (null, some "unmarshal")
    | some entry ↦
        if should_invalidate cfg m (some entry) now then (null, none) else (entry.v, none)
  ]

  unfoldable pub get_cache : Config → String → String → W → (Value × Option String) × W
  unfolding read_entry
  get_cache cfg key m w =
      let (reply, w') = d.redis_get key w in (read_entry cfg m reply (d.clock w'), w')

  abbrev pub ttl_or : ℤ → Option ℤ → ℤ
  ttl_or default none = default
  ttl_or default (some ttl) = ttl

  -- `setCache`: the error, if any.
  unfoldable pub set_cache : Config → String → Value → String → W → Option String × W
  set_cache cfg key value m w =
      if can_cache cfg m
      then elim (d.encode_entry (record { v = value; t = d.unix w })) [
        | none ↦ (some "marshal", w)
        | some bytes ↦ d.redis_set key bytes (ttl_or cfg.cache_ttl (ttl_of cfg m)) w
      ]
      else (none, w)
