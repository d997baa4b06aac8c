-- ===== src/Agent/StoreLaws.antt =====
-- What the cache of results gives back.
use web3_rpc_proxy.Prelude.{String, ◌≡◌, false, none, some, arith}
use web3_rpc_proxy.Prelude.Int.{ℤ, pos, ◌-ℤ◌, ◌*ℤ◌, ◌≤ℤ◌}
use web3_rpc_proxy.Json.{Value}
use web3_rpc_proxy.Agent.Store.{
  Config, Deps, found, can_cache, should_invalidate, ttl_of, get_cache, set_cache, second,
}

module _ {E W : Type 0} (d : Deps E W) (cfg : Config) (key m : String) (w : W) where
  -- A value that has been written for a method with a time to live is read back with no error, while
  -- its age is within that time; where redis accepts the write and gives back what it has stored,
  -- and the codec of entries is inverse.
  pub get_cache-set_cache :
      (value : Value) (bytes : String) (ttl : ℤ)
      → ttl_of cfg m ≡ some ttl
      → d.encode_entry (record { v = value; t = d.unix w }) ≡ some bytes
      → d.decode_entry bytes ≡ some (record { v = value; t = d.unix w })
      → (d.redis_set key bytes ttl w).0 ≡ none
      → (d.redis_get key (d.redis_set key bytes ttl w).1).0 ≡ found bytes
      → d.clock (d.redis_get key (d.redis_set key bytes ttl w).1).1 -ℤ d.unix w *ℤ pos second ≤ℤ ttl
      → ((set_cache d cfg key value m w).0 ≡ none)
        × ((get_cache d cfg key m (set_cache d cfg key value m w).1).0 ≡ (value, none))
  unfolding set_cache get_cache can_cache should_invalidate
  get_cache-set_cache value bytes ttl a b c e f g = (ground arith, ground arith)

  -- Nothing is written for a method that is not configured.
  pub set_cache_uncacheable :
      (value : Value) → can_cache cfg m ≡ false → set_cache d cfg key value m w ≡ (none, w)
  unfolding set_cache
  set_cache_uncacheable value h = rw h
