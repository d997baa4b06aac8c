-- ===== src/CoreClient.antt =====
-- internal/core/client.go: one request against the selected endpoints, with its retries. What a call
-- does outside the program is a step of the world `W`.
pub mod Timeouts
pub mod Retries
pub mod Rotation
use web3_rpc_proxy.Prelude.{
  ℕ, zero, suc, ◌+◌, ◌-◌, ◌*◌, ◌/◌, ◌%◌, String, Bool, true, false, not, ◌&&◌, ◌||◌, Option, none,
  some, List, [], ◌∷◌, ◌++◌, map, length, get_elem?, any, ◌==◌, nat_comparable, leb, if◌then◌else◌,
}
use web3_rpc_proxy.Prelude.Int.{ℤ, pos, negsuc, ltb_ℤ, pos_part}
use web3_rpc_proxy.Rpc.{Sealed, Reply, RpcType, error, reply_type}
use web3_rpc_proxy.Errors
use web3_rpc_proxy.Errors.{GoError, http, plain, QueryStatus, query_status, internal_server_error}
use web3_rpc_proxy.Reqctx.{RetryStrategy, same, rotation, millisecond}
use web3_rpc_proxy.Endpoint.Metrics.{ResponseProfile, new_profile}

pub record RequestProfile : Type 0 where
  pub req_id : String
  pub timestamp : ℤ
  pub url : String
  pub methods : List String

-- The named results of `Call`, and the profile it fills.
pub record Outcome : Type 0 where
  pub results : Option (List Reply)
  pub err : Option GoError
  pub profile : ResponseProfile

-- Endpoints and their clients: the client that `GetClient` gives, if any, and a call of a client with or
-- without a deadline of its own, in milliseconds; `none` is its panic.
pub record Net (C E W : Type 0) : Type 0 where
  pub url : E → String
  pub connect : E → W → Option C × W
  pub healthy : E → W → Bool
  pub call : C → Option ℤ → List Sealed → ResponseProfile → W → Option (Outcome × W)
  pub fresh_id : W → String × W
  pub clock : W → ℤ

-- What a request asks for, and its profile so far.
pub record Limits : Type 0 where
  pub strategy : RetryStrategy
  pub attempts : ℤ
  pub timeout : ℤ

-- The variables of the loop.
pub record Loop (W : Type 0) : Type 0 where
  pub world : W
  pub results : Option (List Reply)
  pub err : Option GoError
  pub requests : List RequestProfile
  pub responses : List ResponseProfile

-- Go's division rounds towards zero.
abbrev neg : ℕ → ℤ
neg zero = pos 0
neg (suc n) = negsuc n

unfoldable pub quotient : ℤ → ℕ → ℤ
quotient (pos n) d = pos (n / d)
quotient (negsuc n) d = neg (suc n / d)

abbrev pub max_ℤ : ℤ → ℤ → ℤ
max_ℤ a b = if ltb_ℤ a b then b else a

-- The deadline, in milliseconds, of a call to an unhealthy endpoint.
unfoldable pub try_timeout : ℤ → ℕ → ℤ
unfolding quotient
try_timeout timeout l =
    let share = max_ℤ (quotient timeout l) (pos 500) in
    if ltb_ℤ timeout share then timeout else share

abbrev is_error_type : RpcType → Bool
is_error_type error = true
is_error_type _ = false

abbrev is_timeout : QueryStatus → Bool
is_timeout QueryStatus.timeout = true
is_timeout _ = false

-- A call that ends the loop: results without an error among them.
unfoldable pub succeeded : Option GoError → Option (List Reply) → Bool
succeeded none (some rs) = not (any (λ r. is_error_type (reply_type r)) rs)
succeeded _ _ = false

-- The end of `Request`: the last error, or the last results if there are any.
unfoldable pub conclude : Option GoError → Option (List Reply) → Option GoError × List Reply
conclude (some e) results = (some e, [])
conclude none (some (r ∷ rs)) = (none, r ∷ rs)
conclude none _ = (some (http (internal_server_error "All endpoints are unavailable" [])), [])

-- `endpoints[:1]` under the strategy `Same`.
abbrev pub restrict : {E : Type 0} → RetryStrategy → List E → List E
restrict same [] = []
restrict same (e ∷ es) = e ∷ []
restrict rotation es = es

-- The record of a request.
unfoldable pub sent : {C E W : Type 0} → Net C E W → List Sealed → E → String → W → RequestProfile
sent net sealed e id w = record {
  req_id = id;
  timestamp = net.clock w;
  url = net.url e;
  methods = map (λ r. r.method) sealed;
}

module _ (contains : String → String → Bool) where
  unfoldable pub timed_out : Option GoError → Bool
  timed_out (some (http e)) = is_timeout (query_status contains e)
  timed_out _ = false

  module _ {C E W : Type 0} (net : Net C E W) (sealed : List Sealed) (deadline : ℤ) where
    -- The call: an unhealthy endpoint has a deadline of its own.
    unfoldable pub outcome : C → E → String → W → Option (Outcome × W)
    outcome c e id w =
        net.call c (if net.healthy e w then none else some deadline) sealed (new_profile id) w

    -- The loop after a call, which the request is recorded before and the response after. The flag says
    -- whether the loop is left.
    abbrev pub called : E → String → Loop W → Outcome → W → Loop W × Bool
    called e id s out w = (
      record {
        world = w;
        results = out.results;
        err = out.err;
        requests = s.requests ++ sent net sealed e id s.world ∷ [];
        responses = s.responses ++ record (out.profile) { respond = true } ∷ [];
      },
      succeeded out.err out.results || timed_out out.err,
    )

    -- The call of a round, at the endpoint `e` with the client `c`; its panic ends the request.
    unfoldable pub try : C → E → String → Loop W → Option (Loop W × Bool)
    try c e id s = elim (outcome c e id s.world) [
      | none ↦ none
      | some (out, w) ↦ some (called e id s out w)
    ]

    -- The body of the loop for the endpoint of the round; without a client the round is skipped, and
    -- a lone endpoint ends the loop.
    unfoldable pub round : List E → E → Loop W → Option (Loop W × Bool)
    round es e s =
        let (id, w) = net.fresh_id s.world in
        let (client, w') = net.connect e w in
        let s' = record s { world = w' } in
        elim client [ none ↦ some (s', leb (length es) 1) | some c ↦ try c e id s' ]

    -- `n` rounds from the round `i`, counted from 0; an index past the list is Go's panic.
    unfoldable pub rounds : List E → ℕ → ℕ → Loop W → Option (Loop W)
    rounds es zero i s = some s
    rounds es (suc n) i s = elim (get_elem? es (i % length es)) [
      | none ↦ none
      | some e ↦ elim (round es e s) [
        | none ↦ none
        | some (s', stop) ↦ elim stop [ true ↦ some s' | false ↦ rounds es n (suc i) s' ]
      ]
    ]

  module _ {C E W : Type 0} (net : Net C E W) (limits : Limits) where
    -- The deadline of a call to an unhealthy one of `l` endpoints.
    abbrev pub deadline : ℕ → ℤ
    deadline l = try_timeout (quotient limits.timeout millisecond) l

    -- The whole loop of `Request` from the first round.
    unfoldable pub attempt : List E → List Sealed → Loop W → Option (Loop W)
    attempt es sealed s = rounds net sealed (deadline (length es)) es (pos_part limits.attempts) 0 s

    -- `Request`: the error or the results, and the loop's last state. A panic, of a call or, without
    -- an endpoint, of the slice or of the division, is given as `none`.
    unfoldable pub request :
        List E → List Sealed → Loop W → Option ((Option GoError × List Reply) × Loop W)
    unfolding attempt
    request es sealed s = elim (restrict limits.strategy es) [
      | [] ↦ none
      | e ∷ rest ↦ elim (attempt (e ∷ rest) sealed s) [
        | none ↦ none
        | some t ↦ some (conclude t.err t.results, t)
      ]
    ]
