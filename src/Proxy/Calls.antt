-- ===== src/Proxy/Calls.antt =====
-- One call of an endpoint over HTTP, in the parts put together: its outcome, and what it leaves in the heap.
use web3_rpc_proxy.Prelude.{
  ℕ, suc, ◌+◌, ◌^◌, ◌<◌, String, ◌≡◌, Bool, true, Option, some, List, length, length-set, set,
  arith, ◌==◌, nat_comparable, Bool-cases, inl, inr,
}
use web3_rpc_proxy.Prelude.Int.{ℤ, pos}
use web3_rpc_proxy.Rpc.{Sealed}
use web3_rpc_proxy.Endpoint.{State, read, health, integer, int, url}
use web3_rpc_proxy.Endpoint.Metrics.{is_success, new_profile}
use web3_rpc_proxy.Endpoint.Updates.{update_metrics_result}
use web3_rpc_proxy.EndpointService.Service.{state_at}
use web3_rpc_proxy.EndpointService.Attributes.{state_at-set}
use web3_rpc_proxy.CoreClient.{Outcome}
use web3_rpc_proxy.HttpClient.{call, call_outcome}
use web3_rpc_proxy.Proxy.{World, Wiring, http_call}

-- A place of the heap whose endpoint has an address and can still count `k` calls.
pub record Fit {F : Type 0} (k : ℕ) (heap : List (State F)) (r : ℕ) : Type 0 where
  pub count : ℕ
  pub address : String
  pub placed : r < length heap
  pub counted : read "count" (state_at heap r) ≡ integer int (pos count)
  pub room : count + k < 2 ^ 63
  pub addressed : read "url" (state_at heap r) ≡ url address

module _ {C F R : Type 0} (wiring : Wiring C F R) (sealed : List Sealed) where
  -- The outcome of a call to an endpoint, before its metrics are told.
  abbrev pub outcome_of : ℕ → Option ℤ → String → Option (Outcome × Bool)
  outcome_of e deadline id =
      call_outcome (wiring.wire e deadline) wiring.size sealed (new_profile id)

  -- The state that a call whose outcome is told leaves in its endpoint.
  pub record Called (k e : ℕ) (deadline : Option ℤ) (id : String) (out : Outcome) (w : World F R)
      : Type 0 where
    pub after : State F
    pub result :
        http_call wiring e deadline sealed (new_profile id) w
        ≡ some (out, record w { heap = set w.heap e after })
    pub marked : health after ≡ is_success out.profile
    pub fit : (r : ℕ) → Fit (suc k) w.heap r → Fit k (set w.heap e after) r

  refit :
      (k e n : ℕ) (heap : List (State F)) (t : State F) (u : String)
      → e < length heap
      → n + k < 2 ^ 63
      → read "count" t ≡ integer int (pos n)
      → read "url" t ≡ url u
      → (r : ℕ) → Fit (suc k) heap r
      → Fit k (set heap e t) r
  refit k e n heap t u l room c a r f = elim (Bool-cases (e == r)) [
    | inl q ↦ record {
      count = n;
      address = u;
      placed = omega (arith, length-set heap e t, f.placed);
      counted = rw (state_at-set heap e r t l, q) c;
      room = room;
      addressed = rw (state_at-set heap e r t l, q) a;
    }
    | inr q ↦ record {
      count = f.count;
      address = f.address;
      placed = omega (arith, length-set heap e t, f.placed);
      counted = rw (state_at-set heap e r t l, q) f.counted;
      room = omega (arith, f.room);
      addressed = rw (state_at-set heap e r t l, q) f.addressed;
    }
  ]

  pub http_call-Called :
      (k e : ℕ) (deadline : Option ℤ) (id : String) (out : Outcome) (w : World F R)
      → Fit (suc k) w.heap e
      → outcome_of e deadline id ≡ some (out, true)
      → Called k e deadline id out w
  unfolding http_call call
  http_call-Called k e deadline id out w f h =
      let (t, obs, g, c, m, x, y, z) =
        update_metrics_result wiring.floats f.count (wiring.wire e deadline).now out.profile
          (state_at w.heap e) f.address f.counted (omega (arith, f.room)) f.addressed in
      record {
        after = t;
        result = ground (arith, h, g);
        marked = m;
        fit = refit k e (f.count + 1) w.heap t f.address f.placed (omega (arith, f.room)) c z.0;
      }
