-- ===== src/CoreClient/Timeouts.antt =====
-- The deadline of a call to an unhealthy endpoint.
use web3_rpc_proxy.Prelude.{ℕ, ◌/◌, ◌≡◌, arith, ltb, if◌then◌else◌}
use web3_rpc_proxy.Prelude.Int.{ℤ, pos, ◌≤ℤ◌}
use web3_rpc_proxy.CoreClient.{try_timeout, quotient}

-- It is never longer than the request's own timeout, also if that is negative.
pub try_timeout-le : (timeout : ℤ) (l : ℕ) → try_timeout timeout l ≤ℤ timeout
unfolding try_timeout
try_timeout-le timeout l = ground arith

-- The deadline of a call to an unhealthy one of l endpoints, for a timeout of t milliseconds, is the
-- share t / l, but half a second if the share is less, and the whole timeout if that is less than
-- half a second.
pub try_timeout_share :
    (t l : ℕ)
    → try_timeout (pos t) l
      ≡ pos (
          if ltb (t / l) 500
          then (if ltb t 500 then t else 500)
          else if ltb t (t / l)
          then t
          else t / l)
unfolding try_timeout quotient
try_timeout_share t l = ground arith
