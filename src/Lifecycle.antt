-- ===== src/Lifecycle.antt =====
-- internal/app/bootstrap.go with the connections that it makes and ends: internal/app/database/database.go,
-- internal/app/shared/redis.go and internal/app/shared/amqp.go. The calls of outside libraries are recorded
-- in their order, and `fails` says what error each gives. The logs are left out.
pub mod Stopping
pub mod Reporting
use web3_rpc_proxy.Prelude.{
  ℕ, suc, String, Bool, true, false, not, ◌||◌, ◌&&◌, Option, none, some, List, [], ◌∷◌, ◌++◌, ◌==◌,
  nat_comparable, if◌then◌else◌,
}

pub data Call : Type 0 where
  open_database migrate count_tenants close_database : Call
  create_tenant : ℕ → Call
  parse_redis_url ping_redis close_redis : Call
  dial_amqp open_channel declare_exchange close_channel close_connection : Call
  watch_endpoints init_service register_routes listen shutdown_server close_etcd : Call

-- What is set in the configuration and on the command line, how many tenants are counted_tenants, and whether
-- a failed dial or a failed opening still gives a connection or a channel.
pub record Setup : Type 0 where
  pub migrates : Bool
  pub seeds : Bool
  pub tenants : ℕ
  pub amqp_url : Bool
  pub watches : Bool
  pub failed_dial_leaves : Bool
  pub failed_channel_leaves : Bool

-- Which of the pointers are not nil, and the calls so far.
pub record Parts : Type 0 where
  pub database : Bool
  pub redis : Bool
  pub connection : Bool
  pub channel : Bool
  pub calls : List Call

abbrev pub called : Call → Parts → Parts
called c p = record p { calls = p.calls ++ c ∷ [] }

module _ (fails : Call → Option String) where
  -- `TenantSeeder.Seed`: the tenants from the number `i`, until one fails.
  unfoldable pub seed_tenants : ℕ → List String → Parts → Option String × Parts
  seed_tenants i [] p = (none, p)
  seed_tenants i (name ∷ names) p =
      let rest = seed_tenants (suc i) names (called (create_tenant i) p) in
      elim (fails (create_tenant i)) [ some e ↦ (some e, called (create_tenant i) p) | none ↦ rest ]

  abbrev pub tenant_values : List String
  tenant_values = "token1" ∷ "token2" ∷ []

  -- `TenantSeeder.Count`: an error counts as 0.
  abbrev pub counted_tenants : Setup → ℕ
  counted_tenants setup = elim (fails count_tenants) [ some e ↦ 0 | none ↦ setup.tenants ]

  -- `SeedModels`, with its one seeder; its errors are only logged.
  unfoldable pub seed_models : Setup → Parts → Parts
  unfolding seed_tenants
  seed_models setup p =
      if counted_tenants setup == 0
      then (seed_tenants 0 tenant_values (called count_tenants p)).1
      else called count_tenants p

  abbrev migrate_if : Bool → Parts → Parts
  migrate_if b p = if b then called migrate p else p

  -- `Database.Connect`
  unfoldable pub connect_database : Setup → Parts → Option String × Parts
  unfolding seed_models
  connect_database setup p = if p.database then (none, p) else elim (fails open_database) [
    | some e ↦ (some e, called open_database p)
    | none ↦
        let q = migrate_if setup.migrates (record (called open_database p) { database = true }) in
        (none, if setup.seeds then seed_models setup q else q)
  ]

  -- `Database.Close`, whose receiver is nil or not.
  unfoldable pub close : Bool → Parts → Option String × Parts
  close present p =
      if present || not p.database
      then (none, p)
      else (fails close_database, called close_database p)

  -- `RedisClient.Connect`: the client is kept also where it does not answer.
  unfoldable pub connect_redis : Parts → Option String × Parts
  connect_redis p = elim (fails parse_redis_url) [
    | some e ↦ (some e, called parse_redis_url p)
    | none ↦
        (fails ping_redis, record (called ping_redis (called parse_redis_url p)) { redis = true })
  ]

  -- `RedisClient.Close`
  unfoldable pub disconnect_redis : Parts → Option String × Parts
  disconnect_redis p = if p.redis then (fails close_redis, called close_redis p) else (none, p)

  -- `Amqp.Connect`
  unfoldable pub connect_amqp : Setup → Parts → Option String × Parts
  connect_amqp setup p =
      if setup.amqp_url
      then (let dialled = called dial_amqp p in
          elim (fails dial_amqp) [
            | some e ↦ (some e, record dialled { connection = setup.failed_dial_leaves })
            | none ↦
                let opened = record (called open_channel dialled) { connection = true } in
                elim (fails open_channel) [
                  | some e ↦ (some e, record opened { channel = setup.failed_channel_leaves })
                  | none ↦ (
                    fails declare_exchange,
                    record (called declare_exchange opened) { channel = true },
                  )
                ]
          ])
      else (some "skip amqp connect, because have not amqp config!", p)

  abbrev earlier_error : Option String → Option String → Option String
  earlier_error (some e) _ = some e
  earlier_error none e = e

  abbrev close_one : Bool → Call → Parts → Option String × Parts
  close_one there c p = if there then (fails c, called c p) else (none, p)

  -- `Amqp.Close`
  unfoldable pub disconnect_amqp : Parts → Option String × Parts
  disconnect_amqp p =
      let (e, q) = close_one p.channel close_channel p in
      let (f, r) = close_one p.connection close_connection (record q { channel = false }) in
      (earlier_error e f, record r { connection = false })

  -- OnStart: an error of a step is only logged. The goroutine that serves is run at the end.
  unfoldable pub on_start : Setup → Parts → Parts
  unfolding connect_database connect_redis connect_amqp
  on_start setup p =
      let q = (connect_amqp setup (connect_redis (connect_database setup p).1).1).1 in
      let watched = if setup.watches then called watch_endpoints q else q in
      called listen (called register_routes (called init_service watched))

  -- OnStop
  unfoldable pub on_stop : Parts → Parts
  unfolding disconnect_redis disconnect_amqp close
  on_stop p =
      let q = called close_etcd (called shutdown_server p) in
      (close true (disconnect_amqp (disconnect_redis q).1).1).1
