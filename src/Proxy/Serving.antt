-- ===== src/Proxy/Serving.antt =====
-- A request of a client over HTTP, from the controller to the endpoints and back, in any order of these.
use web3_rpc_proxy.Proxy.Orders.{
  alone, alone_found, some_answers-alone, contains-nonempty, Ready, some_answers,
  send_request-some_answers,
}
use web3_rpc_proxy.Prelude.{
  Option, ◌∙◌, ◌≤◌, string_comparable, ℕ, suc, ◌<◌, String, ◌≡◌, ap, Bool, true, false, ◌||◌, not,
  none, some, List, [], ◌∷◌, ◌++◌, length, length-append, leb, contains, arith, ◌==◌,
  nat_comparable, if◌then◌else◌, All,
}
use web3_rpc_proxy.Prelude.Int.{pos_part, negsuc, leb_ℤ}
use web3_rpc_proxy.Reqctx.{rotation}
use web3_rpc_proxy.Json.{Value, obj, field}
use web3_rpc_proxy.Rpc.{
  Request, Sealed, Reply, reply_result, reply_error, method, unmarshal_requests,
}
use web3_rpc_proxy.Errors.{success}
use web3_rpc_proxy.Endpoint.{health}
use web3_rpc_proxy.EndpointService.Service.{state_at}
use web3_rpc_proxy.Tenant.{App, affected}
use web3_rpc_proxy.Agent.Store.{Config, Deps, can_cache}
use web3_rpc_proxy.Agent.Upstream.{seal_original, of_reply}
use web3_rpc_proxy.Agent.UpstreamLaws.{correct_id_prints}
use web3_rpc_proxy.Agent.Batch.{answer}
use web3_rpc_proxy.Agent.Service.{invalid}
use web3_rpc_proxy.Controller.{Context, Services, handle_call}
use web3_rpc_proxy.CoreClient.{Limits, succeeded}
use web3_rpc_proxy.Proxy.{World, Wiring, with_client, with_service, of_service, call_service}
use web3_rpc_proxy.Proxy.Calls.{Fit}
use web3_rpc_proxy.Proxy.Clients.{OverHttp, IsLru, Unlike, Own}
use web3_rpc_proxy.Proxy.Rounds.{Refuses, Answers}
use web3_rpc_proxy.Proxy.Failover.{send_request-failover}
use web3_rpc_proxy.Proxy.Answers.{fixed, served_directly, served_body, charged}

-- A list with an element in it is not empty.
some_there : (xs : List ℕ) (x : ℕ) (ys : List ℕ) → leb 1 (length (xs ++ x ∷ ys)) ≡ true
some_there xs x ys = ground (arith, length-append xs (x ∷ ys))

module _ {C F R G : Type 0} (wiring : Wiring C F R) (limits : Limits)
    (deps : List ℕ → Deps ℕ (World F R)) (cfg : Config) (caches : Bool) (body : String)
    (s : Services ℕ G (World F R)) (rc : Context G) where
  -- The controller and the agent service of this request.
  abbrev pub controller : Services ℕ G (World F R)
  controller = with_service wiring limits deps cfg caches body s

  abbrev pub agent : List ℕ → Deps ℕ (World F R)
  agent es = with_client wiring limits deps es

  -- The answer to a request by a reply of an endpoint.
  abbrev pub answer_by : List ℕ → Request → Reply → Value
  answer_by es q reply = obj (
      answer (fixed (agent es) cfg rc.chain_id q reply).id (reply_result reply) (reply_error reply)
        false)

  abbrev pub sealed_of : List ℕ → Request → List Sealed
  sealed_of es q = seal_original (agent es) cfg rc.chain_id q ∷ []

  -- A client gets the answer of the first endpoint that answers. With the tenants' feature enabled, a
  -- tenant with something left, and a chain with endpoints; for a body with one request, which the
  -- schema accepts and whose method is not cached, the cache being off or not wanted; where the
  -- selector gives endpoints that are called over HTTP, by addresses of which a request can be made,
  -- of which some refuse every call by an error that is no timeout, and the next one answers every
  -- call with one reply that is no error, under rotation with enough attempts; the endpoints have
  -- addresses and can still count the calls, and have different URLs, under which no client of another
  -- endpoint is kept; and golang-lru keeps the clients as it documents: the response has the status
  -- 200 and the JSON of the endpoint's result, the id in it prints as that of the client's request,
  -- the tenant is charged, nothing panics, those that refused are unhealthy, the one that answered is
  -- healthy, and the health of all others is kept.
  pub handle_call-failover :
      (first : ℕ) (others refusing rest : List ℕ) (e : ℕ) (app : App G) (q : Request)
      (reply : Reply) (bytes : String) (w v u : World F R)
      → s.enable_tenant ≡ true
      → rc.app ≡ none
      → s.get_all rc.chain_id w ≡ some (first ∷ others)
      → (rc.app_key == "") ≡ false
      → s.access rc.app_key rc.app_bucket w ≡ ((none, app), v)
      → leb_ℤ app.balance (negsuc 0) ≡ false
      → unmarshal_requests (deps (first ∷ others)).parse body ≡ (q ∷ [], false, none)
      → (cfg.disable_cache || not caches) ≡ true
      → invalid (agent (first ∷ others)) (q ∷ []) ≡ none
      → can_cache cfg (method q) ≡ false
      → (deps (first ∷ others)).select (q ∷ []) v ≡ ((refusing ++ e ∷ rest, true), u)
      → limits.strategy ≡ rotation
      → length refusing < pos_part limits.attempts
      → All (λ r. OverHttp wiring r × Refuses wiring (sealed_of (first ∷ others) q) r) refusing
      → OverHttp wiring e
      → Answers wiring (sealed_of (first ∷ others) q) e (reply ∷ [])
      → succeeded none (some (reply ∷ [])) ≡ true
      → All (Fit (suc (length refusing)) u.heap) refusing
      → Fit (suc (length refusing)) u.heap e
      → (deps (first ∷ others)).marshal (answer_by (first ∷ others) q reply) ≡ some bytes
      → IsLru wiring
      → Unlike wiring (refusing ++ e ∷ rest)
      → Own wiring (refusing ++ e ∷ rest) u.rest
      → (w' : World F R) × (handle_call controller rc w ≡ (
        (
          record { status = success; status_code = 200; body = bytes },
          some (affected (s.unix_milli w') app),
        ),
        w',
      ))
        × ((deps (first ∷ others)).sprint
              (fixed (agent (first ∷ others)) cfg rc.chain_id q reply).id
            ≡ (deps (first ∷ others)).sprint (field "id" q.raw))
        × (w'.panicked ≡ u.panicked)
        × ((r : ℕ)
            → health (state_at w'.heap r) ≡ (
                if e == r
                then true
                else if contains refusing r
                then false
                else health (state_at u.heap r)))
  unfolding call_service
  handle_call-failover first others refusing rest e app q reply bytes w v u t n g k a l parsed c i m
        sel st att ref o ans good f fe out lru unlike own =
      let es = first ∷ others in
      let d = agent es in
      let (w', sent, calm, marked) =
        send_request-failover wiring (sealed_of es q) limits refusing rest e reply [] u st att ref o
          ans good f fe lru unlike own in
      let served =
        served_directly d cfg rc.chain_id q caches (refusing ++ e ∷ rest) reply v u w' c i m sel
          (some_there refusing e rest) sent in
      let whole =
        served_body d cfg rc.chain_id q caches body bytes (answer_by es q reply) v w' parsed served
          out in
      (
        w',
        charged controller rc first others app bytes w v w' t n g k a l
            (ap (of_service wiring) whole),
        correct_id_prints d cfg rc.chain_id q (of_reply d cfg rc.chain_id reply),
        calm,
        marked,
      )

  -- A client is served by one of the endpoints, in whatever order the selector gives them. With the
  -- tenants' feature enabled, a tenant with something left, and a chain with endpoints; for a body
  -- with one request, which the schema accepts and whose method is not cached, the cache being off or
  -- not wanted; under rotation with as many attempts as the selector gives endpoints, where each of
  -- them is called over HTTP by an address of which a request can be made, can still count the calls,
  -- and either refuses every call by an error that is no timeout or answers every call with its one
  -- reply, which is no error and has a JSON; where the endpoints have different URLs, under which no
  -- client of another endpoint is kept, and golang-lru keeps the clients as it documents: if at least
  -- one of them answers, the response has the status 200 and the JSON of the reply of one of them, the
  -- tenant is charged, nothing panics, and the endpoint that answered is healthy.
  pub handle_call-some_answers :
      (first : ℕ) (others es : List ℕ) (answer : ℕ → Option Reply) (app : App G) (q : Request)
      (print : Reply → String) (w v u : World F R)
      → s.enable_tenant ≡ true
      → rc.app ≡ none
      → s.get_all rc.chain_id w ≡ some (first ∷ others)
      → (rc.app_key == "") ≡ false
      → s.access rc.app_key rc.app_bucket w ≡ ((none, app), v)
      → leb_ℤ app.balance (negsuc 0) ≡ false
      → unmarshal_requests (deps (first ∷ others)).parse body ≡ (q ∷ [], false, none)
      → (cfg.disable_cache || not caches) ≡ true
      → invalid (agent (first ∷ others)) (q ∷ []) ≡ none
      → can_cache cfg (method q) ≡ false
      → (deps (first ∷ others)).select (q ∷ []) v ≡ ((es, true), u)
      → limits.strategy ≡ rotation
      → length es ≤ pos_part limits.attempts
      → All
          (Ready wiring (sealed_of (first ∷ others) q) (λ e. alone (answer e)) (length es) u.heap)
          es
      → some_answers answer es ≡ true
      → ((reply : Reply)
          → (deps (first ∷ others)).marshal (answer_by (first ∷ others) q reply)
            ≡ some (print reply))
      → IsLru wiring
      → Unlike wiring es
      → Own wiring es u.rest
      → (e : ℕ) × (reply : Reply) × (w' : World F R) × (contains es e ≡ true)
        × (answer e ≡ some reply)
        × (handle_call controller rc w ≡ (
          (
            record { status = success; status_code = 200; body = print reply },
            some (affected (s.unix_milli w') app),
          ),
          w',
        ))
        × (w'.panicked ≡ u.panicked)
        × (health (state_at w'.heap e) ≡ true)
  unfolding call_service
  handle_call-some_answers first others es answer app q print w v u t n g k a l parsed c i m sel st
        att ready one out lru unlike own =
      let all = first ∷ others in
      let d = agent all in
      let (e, rs, w', there, found, sent, calm, healthy) =
        send_request-some_answers wiring (sealed_of all q) (λ x. alone (answer x)) limits es u st
          att ready (some_answers-alone answer es ∙ one) lru unlike own in
      let (reply_of_e, single) = alone_found (answer e) rs found in
      let served =
        served_directly d cfg rc.chain_id q caches es rs.0 v u w' c i m sel
          (contains-nonempty es e there) (sent ∙ ap (λ r. ((none, rs.0 ∷ r), w')) single) in
      let whole =
        served_body d cfg rc.chain_id q caches body (print rs.0) (answer_by all q rs.0) v w' parsed
          served (out rs.0) in
      (
        e,
        rs.0,
        w',
        there,
        reply_of_e,
        charged controller rc first others app (print rs.0) w v w' t n g k a l
            (ap (of_service wiring) whole),
        calm,
        healthy,
      )
