-- ===== src/Proxy/Answers.antt =====
-- From a request of a client to the answer of an endpoint, through all the parts.
use web3_rpc_proxy.Prelude.{
  string_comparable, ℕ, String, ◌≡◌, ◌∙◌, refl, ap, Bool, true, false, ◌||◌, not, none, some, List,
  [], ◌∷◌, length, leb, arith, ◌==◌, nat_comparable,
}
use web3_rpc_proxy.Json.{Value, obj}
use web3_rpc_proxy.Rpc.{
  Request, SealedResult, Reply, reply_result, reply_error, method, unmarshal_requests,
}
use web3_rpc_proxy.Agent.Store.{Config, Deps, can_cache}
use web3_rpc_proxy.Agent.Upstream.{
  ok, call, seal_original, collect, of_reply, correct_id, store_result,
}
use web3_rpc_proxy.Agent.UpstreamLaws.{correct_id_result}
use web3_rpc_proxy.Agent.Single.{served}
use web3_rpc_proxy.Agent.Batch.{answer, dispatch, to_answer}
use web3_rpc_proxy.Agent.Service.{serve, serve_body, marshal_answer, direct, invalid}
use web3_rpc_proxy.Prelude.Int.{negsuc, leb_ℤ}
use web3_rpc_proxy.Errors.{success}
use web3_rpc_proxy.Tenant.{App, affected}
use web3_rpc_proxy.Controller
use web3_rpc_proxy.Controller.{
  granted, Context, Services, handle_call, answer_call, get_tenant_app, compensate,
}

module _ {E W : Type 0} (d : Deps E W) (cfg : Config) (chain : ℕ) (q : Request) where
  -- The result for one request, of which nothing is kept.
  collected :
      (reply : Reply) (w : W)
      → can_cache cfg (method q) ≡ false
      → collect d cfg chain (q ∷ []) (reply ∷ []) w
        ≡ (correct_id d cfg chain q (of_reply d cfg chain reply) ∷ [], w)
  unfolding collect store_result
  collected reply w h = rw h refl

  -- The result that a reply becomes.
  abbrev pub fixed : Reply → SealedResult
  fixed reply = correct_id d cfg chain q (of_reply d cfg chain reply)

  called :
      (es : List E) (reply : Reply) (w v w' : W)
      → can_cache cfg (method q) ≡ false
      → d.select (q ∷ []) w ≡ ((es, true), v)
      → leb 1 (length es) ≡ true
      → d.request es (seal_original d cfg chain q ∷ []) v ≡ ((none, reply ∷ []), w')
      → call d cfg chain (q ∷ []) w ≡ (ok (fixed reply ∷ []), w')
  unfolding call
  called es reply w v w' k s l r = rw (s, call) (rw l (rw r (rw (collected reply w' k) refl)))

  dispatched :
      (result : SealedResult) (w w' : W)
      → call d cfg chain (q ∷ []) w ≡ (ok (result ∷ []), w')
      → direct d cfg chain false (q ∷ []) w
        ≡ (ok (obj (answer result.id result.result result.error false)), w')
  unfolding direct dispatch to_answer
  dispatched result w w' c = rw (c, direct, dispatch) refl

  -- Where the cache is not asked, a request that the schema accepts, of a method that is not
  -- cached, is answered by the reply of the endpoints.
  pub served_directly :
      (caches : Bool) (es : List E) (reply : Reply) (w v w' : W)
      → (cfg.disable_cache || not caches) ≡ true
      → invalid d (q ∷ []) ≡ none
      → can_cache cfg (method q) ≡ false
      → d.select (q ∷ []) w ≡ ((es, true), v)
      → leb 1 (length es) ≡ true
      → d.request es (seal_original d cfg chain q ∷ []) v ≡ ((none, reply ∷ []), w')
      → serve d cfg chain false caches (q ∷ []) w
        ≡ (ok (obj (answer (fixed reply).id (reply_result reply) (reply_error reply) false)), w')
  unfolding serve
  served_directly caches es reply w v w' c i k s l r =
      let (same_result, same_error) =
        correct_id_result d cfg chain q (of_reply d cfg chain reply) in
      rw (i, serve)
        (rw c (
          rw (dispatched (fixed reply) w w' (called es reply w v w' k s l r))
            (rw (same_result, same_error) refl)))

  -- From the bytes of the body to those of the answer.
  pub served_body :
      (caches : Bool) (body bytes : String) (v : Value) (w w' : W)
      → unmarshal_requests d.parse body ≡ (q ∷ [], false, none)
      → serve d cfg chain false caches (q ∷ []) w ≡ (ok v, w')
      → d.marshal v ≡ some bytes
      → serve_body d cfg chain caches body w ≡ (ok bytes, w')
  unfolding serve_body
  served_body caches body bytes v w w' u h m =
      ap (served d cfg chain caches w) u
      ∙ ap (λ r. (marshal_answer d r.0, r.1)) h
      ∙ ground (arith, m)

module _ {E G W : Type 0} (s : Services E G W) (rc : Context G) where
  tenant_granted :
      (app : App G) (w v : W)
      → (rc.app_key == "") ≡ false
      → s.access rc.app_key rc.app_bucket w ≡ ((none, app), v)
      → leb_ℤ app.balance (negsuc 0) ≡ false
      → get_tenant_app s rc w ≡ (granted app, v)
  unfolding get_tenant_app
  tenant_granted app w v k a l = ground (arith, k, a, l)

  abbrev with_app : App G → Context G
  with_app app = record rc { app = some app }

  call_granted :
      (es : List E) (app : App G) (bytes : String) (w v w' : W)
      → s.enable_tenant ≡ true
      → rc.app ≡ none
      → get_tenant_app s rc w ≡ (granted app, v)
      → s.agent_call (with_app app) es v ≡ ((none, bytes), w')
      → Controller.call s rc es w ≡ ((none, bytes, with_app app), w')
  unfolding Controller.call
  call_granted es app bytes w v w' t n h c = ground (arith, t, n, h, c)

  answer_granted :
      (first : E) (es : List E) (app : App G) (bytes : String) (w w' : W)
      → s.get_all rc.chain_id w ≡ some (first ∷ es)
      → Controller.call s rc (first ∷ es) w ≡ ((none, bytes, with_app app), w')
      → answer_call s rc w
        ≡ ((record { status = success; status_code = 200; body = bytes }, with_app app), w')
  unfolding answer_call
  answer_granted first es app bytes w w' g c = ground (arith, g, c)

  -- A tenant who has something left is served, and the call is charged.
  pub charged :
      (first : E) (es : List E) (app : App G) (bytes : String) (w v w' : W)
      → s.enable_tenant ≡ true
      → rc.app ≡ none
      → s.get_all rc.chain_id w ≡ some (first ∷ es)
      → (rc.app_key == "") ≡ false
      → s.access rc.app_key rc.app_bucket w ≡ ((none, app), v)
      → leb_ℤ app.balance (negsuc 0) ≡ false
      → s.agent_call (with_app app) (first ∷ es) v ≡ ((none, bytes), w')
      → handle_call s rc w ≡ (
        (
          record { status = success; status_code = 200; body = bytes },
          some (affected (s.unix_milli w') app),
        ),
        w',
      )
  unfolding handle_call compensate
  charged first es app bytes w v w' t n g k a l c =
      let granting =
        call_granted (first ∷ es) app bytes w v w' t n (tenant_granted app w v k a l) c in
      rw (answer_granted first es app bytes w w' g granting, handle_call) refl
