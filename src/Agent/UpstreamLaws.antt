-- ===== src/Agent/UpstreamLaws.antt =====
-- The results of an upstream call: their ids, their order and their caching.
use web3_rpc_proxy.Prelude.{
  ℕ, String, ◌≡◌, ◌≢◌, ◌⊎◌, refl, false, List, [], ◌∷◌, map, string_comparable, eq_iff, arith,
}
use web3_rpc_proxy.Json.{field, is_null}
use web3_rpc_proxy.Rpc.{Request, Reply, SealedResult, method, reply_result, reply_error}
use web3_rpc_proxy.Agent.Store.{Config, Deps, can_cache}
use web3_rpc_proxy.Agent.Upstream.{collect, correct_id, of_reply, store_result}

module _ {E W : Type 0} (d : Deps E W) (cfg : Config) (chain : ℕ) where
  -- The printed ids that the results have: those of the requests, place by place, and their own where
  -- there are more results than requests.
  abbrev pub printed_ids : List Request → List Reply → List String
  printed_ids qs [] = []
  printed_ids [] (r ∷ rs) = d.sprint (field "id" r.raw) ∷ printed_ids [] rs
  printed_ids (q ∷ qs) (r ∷ rs) = d.sprint (field "id" q.raw) ∷ printed_ids qs rs

  pub correct_id_prints :
      (q : Request) (r : SealedResult)
      → d.sprint (correct_id d cfg chain q r).id ≡ d.sprint (field "id" q.raw)
  unfolding correct_id
  correct_id_prints q r = ground (arith, eq_iff (d.sprint r.id) (d.sprint (field "id" q.raw)))

  pub correct_id_result :
      (q : Request) (r : SealedResult)
      → ((correct_id d cfg chain q r).result ≡ r.result)
        × ((correct_id d cfg chain q r).error ≡ r.error)
  unfolding correct_id
  correct_id_result q r = (ground arith, ground arith)

  -- Every result that comes back is kept, in its order, with its value and its error; and it has the
  -- printed id of the request at its place, whatever id the endpoint gave it.
  pub collect_positions :
      (qs : List Request) (rs : List Reply) (w : W)
      → (map (λ r. r.result) (collect d cfg chain qs rs w).0 ≡ map reply_result rs)
        × (map (λ r. r.error) (collect d cfg chain qs rs w).0 ≡ map reply_error rs)
        × (map (λ r. d.sprint r.id) (collect d cfg chain qs rs w).0 ≡ printed_ids qs rs)
  unfolding collect
  collect_positions qs [] w = (refl, refl, refl)
  collect_positions [] (r ∷ rs) w = let (a, b, c) = collect_positions [] rs w in (cc a, cc b, cc c)
  collect_positions (q ∷ qs) (r ∷ rs) w =
      let (a, b, c) =
        collect_positions qs rs
          (store_result d cfg chain q (correct_id d cfg chain q (of_reply d cfg chain r)) w) in
      let (e, f) = correct_id_result q (of_reply d cfg chain r) in
      (cc (a, e), cc (b, f), cc (c, correct_id_prints q (of_reply d cfg chain r)))

  -- Where every result is an error, or belongs to a method that is not cached, nothing is written.
  abbrev pub NotStored : List Request → List Reply → Type 0
  NotStored qs [] = Unit
  NotStored [] (r ∷ rs) = NotStored [] rs
  NotStored (q ∷ qs) (r ∷ rs) =
      ((can_cache cfg (method q) ≡ false) ⊎ (is_null (reply_error r) ≡ false)) × NotStored qs rs

  pub collect-NotStored :
      (qs : List Request) (rs : List Reply) (w : W)
      → NotStored qs rs
      → (collect d cfg chain qs rs w).1 ≡ w
  unfolding collect
  collect-NotStored qs [] w h = refl
  collect-NotStored [] (r ∷ rs) w h = collect-NotStored [] rs w h
  collect-NotStored (q ∷ qs) (r ∷ rs) w h =
      let fixed = correct_id d cfg chain q (of_reply d cfg chain r) in
      let same : store_result d cfg chain q fixed w ≡ w =
        unfold store_result in
        ground (arith, h.0, (correct_id_result q (of_reply d cfg chain r)).1) in
      rw same (collect-NotStored qs rs w h.1)

  -- Two results that come back in the other order, for two requests whose ids print differently, are
  -- given each other's request: the answer to the first request carries the value of the second
  -- one's result, and the other way round.
  pub collect_swapped :
      (q1 q2 : Request) (r1 r2 : Reply) (w : W)
      → field "id" r1.raw ≡ field "id" q1.raw
      → field "id" r2.raw ≡ field "id" q2.raw
      → d.sprint (field "id" q1.raw) ≢ d.sprint (field "id" q2.raw)
      → (collect d cfg chain (q1 ∷ q2 ∷ []) (r2 ∷ r1 ∷ []) w).0
        ≡ record (of_reply d cfg chain r2) { id = field "id" q1.raw }
          ∷ record (of_reply d cfg chain r1) { id = field "id" q2.raw }
          ∷ []
  unfolding collect correct_id
  collect_swapped q1 q2 r1 r2 w a b c = ground (
    arith,
    eq_iff (d.sprint (field "id" q1.raw)) (d.sprint (field "id" q2.raw)),
    eq_iff (d.sprint (field "id" q2.raw)) (d.sprint (field "id" q1.raw)),
  )
