-- ===== src/Proxy/Rounds.antt =====
-- One round of a request in the parts put together.
use web3_rpc_proxy.Prelude.{
  contains, string_comparable, ℕ, suc, ◌+◌, String, ◌≡◌, refl, true, false, ◌||◌, Option, none,
  some, List, [], ◌∷◌, ◌++◌, length, length-append, set, arith, ◌==◌, nat_comparable, if◌then◌else◌,
}
use web3_rpc_proxy.Prelude.Int.{ℤ}
use web3_rpc_proxy.Rpc.{Sealed, Reply}
use web3_rpc_proxy.Errors.{HttpError, http}
use web3_rpc_proxy.Endpoint.{State, health}
use web3_rpc_proxy.Endpoint.Metrics.{is_success}
use web3_rpc_proxy.Endpoint.Clients.{get_client}
use web3_rpc_proxy.EndpointService.Service.{state_at}
use web3_rpc_proxy.EndpointService.Attributes.{state_at-set}
use web3_rpc_proxy.CoreClient.{sent, Outcome, Loop, round, outcome, succeeded, timed_out}
use web3_rpc_proxy.Proxy.{World, Wiring, connect, net}
use web3_rpc_proxy.CoreClient.Retries.{round-called}
use web3_rpc_proxy.Endpoint.Clients.{http_client}
use web3_rpc_proxy.Proxy.Clients.{OverHttp, IsLru, Unlike, Own, Own-fresh_id, get_client-Own}
use web3_rpc_proxy.Proxy.Calls.{Fit, outcome_of, http_call-Called}

module _ {C F R : Type 0} (wiring : Wiring C F R) (sealed : List Sealed) where
  -- Every call to the endpoint ends with an error of the proxy that is no timeout.
  abbrev pub Refuses : ℕ → Type 0
  Refuses e =
      (limit : Option ℤ) (id : String)
      → (out : Outcome) × (err : HttpError) × (outcome_of wiring sealed e limit id
          ≡ some (out, true))
        × (out.err ≡ some (http err))
        × (timed_out wiring.contains (some (http err)) ≡ false)

  -- Every call to the endpoint ends well, with these results.
  abbrev pub Answers : ℕ → List Reply → Type 0
  Answers e rs =
      (limit : Option ℤ) (id : String)
      → (out : Outcome) × (outcome_of wiring sealed e limit id ≡ some (out, true))
        × (out.err ≡ none)
        × (out.results ≡ some rs)
        × (is_success out.profile ≡ true)

  module _ (limit : ℤ) (e : ℕ) (s : Loop (World F R)) where
    -- The id and the deadline of a round, and the world in which it calls.
    abbrev pub round_id : String
    round_id = (wiring.fresh_id s.world.rest).0

    abbrev pub round_limit : Option ℤ
    round_limit = if health (state_at s.world.heap e) then none else some limit

    abbrev pub round_world : World F R
    round_world = record (s.world) {
      rest = (get_client wiring.makers e (wiring.fresh_id s.world.rest).1).1;
    }

    -- What a round leaves behind, where the outcome of its call is `out`.
    pub record Round (es : List ℕ) (k : ℕ) (out : Outcome) : Type 0 where
      pub after : Loop (World F R)
      pub result :
          round wiring.contains (net wiring) sealed limit es e s
          ≡ some (after, succeeded out.err out.results || timed_out wiring.contains out.err)
      pub same_err : after.err ≡ out.err
      pub same_results : after.results ≡ out.results
      pub counted : length after.requests ≡ length s.requests + 1
      pub calm : after.world.panicked ≡ s.world.panicked
      pub marked :
          (r : ℕ)
          → health (state_at after.world.heap r)
            ≡ (if e == r then is_success out.profile else health (state_at s.world.heap r))
      pub fit : (r : ℕ) → Fit (suc k) s.world.heap r → Fit k after.world.heap r
      pub own : Own wiring es after.world.rest

    abbrev round_end : Outcome → State F → Loop (World F R)
    round_end out t = record {
      world = record round_world { heap = set s.world.heap e t };
      results = out.results;
      err = out.err;
      requests = s.requests ++ sent (net wiring) sealed e round_id round_world ∷ [];
      responses = s.responses ++ record (out.profile) { respond = true } ∷ [];
    }

    pub Round-gives :
        (es : List ℕ) (k : ℕ) (out : Outcome)
        → IsLru wiring
        → Unlike wiring es
        → contains es e ≡ true
        → Own wiring es s.world.rest
        → OverHttp wiring e
        → Fit (suc k) s.world.heap e
        → outcome_of wiring sealed e round_limit round_id ≡ some (out, true)
        → Round es k out
    unfolding outcome net connect
    Round-gives es k out l n i o h f c =
        let called = http_call-Called wiring sealed k e round_limit round_id out round_world f c in
        let (q, given, own) =
          get_client-Own wiring es e (wiring.fresh_id s.world.rest).1 l n h i
            (Own-fresh_id wiring es s.world.rest l o) in
        record {
          after = round_end out called.after;
          result =
              round-called wiring.contains (net wiring) sealed es limit e s (http_client e q) out
                (record round_world { heap = set s.world.heap e called.after }) given called.result;
          same_err = refl;
          same_results = refl;
          counted = length-append s.requests _;
          calm = refl;
          marked = λ r.
              ground (arith, state_at-set s.world.heap e r called.after f.placed, called.marked);
          fit = called.fit;
          own = own;
        }
