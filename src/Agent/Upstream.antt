-- ===== src/Agent/Upstream.antt =====
-- `call` of agent_service.go: the request to the endpoints, the ids of its results, and their caching.
use web3_rpc_proxy.Prelude.{
  ℕ, false, ◌&&◌, Option, none, some, List, [], ◌∷◌, map, ◌==◌, string_comparable, if◌then◌else◌,
  length, leb,
}
use web3_rpc_proxy.Json.{field, is_null}
use web3_rpc_proxy.Rpc.{
  Request, Sealed, Reply, SealedResult, method, seal, reply_version, reply_result, reply_error,
}
use web3_rpc_proxy.Errors.{GoError, http, internal_server_error}
use web3_rpc_proxy.Agent.Store.{Config, Deps, can_cache, cache_key, set_cache}

-- What a step gives: a value, an error, or a panic.
pub data Result {ℓ} (A : Type ℓ) : Type ℓ where
  ok : A → Result A
  err : GoError → Result A
  panic : Result A

module _ {E W : Type 0} (d : Deps E W) (cfg : Config) (chain : ℕ) where
  -- The sealed request of an incoming one: its id is the printed raw id.
  unfoldable pub seal_original : Request → Sealed
  seal_original r = record (seal d.sprint r) { id = d.sprint (field "id" r.raw) }

  abbrev pub of_reply : Reply → SealedResult
  of_reply r = record {
    id = field "id" r.raw;
    result = reply_result r;
    error = reply_error r;
    version = reply_version r;
    from_cache = false;
  }

  -- A result whose id prints differently from that of the request at its place takes that id.
  unfoldable pub correct_id : Request → SealedResult → SealedResult
  correct_id q r =
      let original = field "id" q.raw in
      if d.sprint r.id == d.sprint original then r else record r { id = original }

  -- A result without an error is cached for the request at its place; a failed write is only logged.
  unfoldable pub store_result : Request → SealedResult → W → W
  store_result q r w =
      if can_cache cfg (method q) && is_null r.error
      then (set_cache d cfg (cache_key d chain q) r.result (method q) w).1
      else w

  -- The loop over the results, beside the requests.
  unfoldable pub collect : List Request → List Reply → W → List SealedResult × W
  collect qs [] w = ([], w)
  collect [] (r ∷ rs) w = let (rest, w') = collect [] rs w in (of_reply r ∷ rest, w')
  collect (q ∷ qs) (r ∷ rs) w =
      let fixed = correct_id q (of_reply r) in
      let (rest, w') = collect qs rs (store_result q fixed w) in (fixed ∷ rest, w')

  abbrev finish_call :
      List Request → (Option GoError × List Reply) × W → Result (List SealedResult) × W
  finish_call qs ((some e, _), w) = (err e, w)
  finish_call qs ((none, replies), w) = let (results, w') = collect qs replies w in (ok results, w')

  -- `call`
  unfoldable pub call : List Request → W → Result (List SealedResult) × W
  call qs w =
      let ((es, found), w1) = d.select qs w in
      if found && leb 1 (length es)
      then finish_call qs (d.request es (map seal_original qs) w1)
      else (err (http (internal_server_error "No available endpoints" [])), w1)
