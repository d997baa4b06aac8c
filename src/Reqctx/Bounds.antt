-- ===== src/Reqctx/Bounds.antt =====
-- Bounds on the options of a request, whatever its query says.
use web3_rpc_proxy.Prelude.{ℕ, ◌+◌, ◌*◌, ◌-◌, ◌^◌, ◌<◌, ◌≡◌, true, some, arith, leb, if◌then◌else◌}
use web3_rpc_proxy.Prelude.Int.{pos, negsuc, ◌≤ℤ◌, ◌*ℤ◌, wrap_signed, wrap_signed_small}
use web3_rpc_proxy.Reqctx.{
  Parsers, RequestCtx, attempts, timeout, max_attempts, max_timeout, millisecond,
}

module _ (p : Parsers) (ctx : RequestCtx) where
  -- A request is tried at least once and at most `MaxAttempts` times, whatever its query says.
  pub attempts_bounds : (pos 1 ≤ℤ attempts p ctx) × (attempts p ctx ≤ℤ pos max_attempts)
  unfolding attempts
  attempts_bounds = (ground arith, ground arith)

  -- The timeout is at most `MaxTimeout`, whatever the query says.
  pub timeout-le-max_timeout : timeout p ctx ≤ℤ pos max_timeout
  unfolding timeout
  timeout-le-max_timeout = ground arith

  -- A timeout in milliseconds that fits in a duration is taken as it is, up to `MaxTimeout`.
  pub timeout_exact :
      (v : ℕ)
      → ctx.has "timeout" ≡ true
      → p.atoi (ctx.peek "timeout") ≡ some (pos v)
      → v * millisecond < 2 ^ 63
      → timeout p ctx
        ≡ (if leb max_timeout (v * millisecond) then pos max_timeout else pos (v * millisecond))
  unfolding timeout ◌*ℤ◌
  timeout_exact v h k g = ground (arith, wrap_signed_small (2 ^ 63) (v * millisecond) g)

  -- There is no lower bound: a timeout of a negative number of milliseconds that fits in a duration
  -- gives that negative timeout.
  pub timeout_negative :
      (n : ℕ)
      → ctx.has "timeout" ≡ true
      → p.atoi (ctx.peek "timeout") ≡ some (negsuc n)
      → (n + 1) * millisecond < 2 ^ 63
      → timeout p ctx ≡ negsuc ((n + 1) * millisecond - 1)
  unfolding timeout ◌*ℤ◌ wrap_signed
  timeout_negative n h k g = ground arith
