-- ===== src/Selector.antt =====
-- internal/core/endpoint/selector.go: which endpoints serve a request, and in which order. The
-- sorting, the shuffle and the random number come from outside; float64 is the record `FloatOps`.
pub mod Choice
pub mod Order
pub mod Result
use web3_rpc_proxy.Prelude.{
  ℕ, ◌*◌, ◌≤◌, String, Bool, true, false, not, ◌&&◌, Option, none, some, List, [], ◌∷◌, ◌++◌, map,
  length, filter, every, contains, ◌==◌, nat_comparable, string_comparable, leb, if◌then◌else◌,
}
use web3_rpc_proxy.Prelude.Dict.{Dict, lookup, insert}
use web3_rpc_proxy.Prelude.Int.{ℤ, pos, negsuc, ltb_ℤ}
use web3_rpc_proxy.Reqctx.{RetryStrategy, same, rotation, max_timeout}
use web3_rpc_proxy.Endpoint.{
  Any, integer, float32, float64, State, Endpoint, FloatOps, read, type, health, p95_health,
  last_update_time,
}

-- The methods that a full node answers.
abbrev pub full_node_methods : List String
full_node_methods =
    "eth_getBlockByNumber" ∷ "eth_getBlockByHash" ∷ "eth_getTransactionByHash"
    ∷ "eth_getTransactionByBlockHashAndIndex" ∷ "eth_getTransactionByBlockNumberAndIndex"
    ∷ "eth_getTransactionReceipt" ∷ "eth_getTransactionCount" ∷ "eth_getUncleByBlockHashAndIndex"
    ∷ "eth_getUncleByBlockNumberAndIndex" ∷ "eth_getBlockTransactionCountByHash"
    ∷ "eth_getBlockTransactionCountByNumber" ∷ "eth_getUncleCountByBlockHash"
    ∷ "eth_getUncleCountByBlockNumber" ∷ "eth_blockNumber" ∷ "eth_accounts" ∷ "eth_gasPrice"
    ∷ "eth_chainId" ∷ "net_version" ∷ []

-- What the selector reads of a request.
pub record Wishes : Type 0 where
  pub types : List String
  pub attempts : ℤ
  pub strategy : RetryStrategy
  pub timeout : ℤ

abbrev is_rotation : RetryStrategy → Bool
is_rotation rotation = true
is_rotation same = false

abbrev pub is_nonempty {ℓ} : {A : Type ℓ} → List A → Bool
is_nonempty [] = false
is_nonempty (x ∷ xs) = true

-- What the selector takes from outside: `slice.SortBy`, `slice.Shuffle`, `rand.Intn(100)`, the order in
-- which Go visits the map of values, and the constant 1.1.
pub record Outside (F : Type 0) : Type 0 where
  pub sort : (Endpoint F → Endpoint F → Bool) → List (Endpoint F) → List (Endpoint F)
  pub shuffle : List (Endpoint F) → List (Endpoint F)
  pub random : ℕ
  pub visit : List (Endpoint F) → List (Endpoint F)
  pub tenth : F

module _ {F : Type 0} where
  abbrev pub endpoint_health : Endpoint F → Bool
  endpoint_health e = health e.state

  unfoldable pub of_types : List String → List (Endpoint F) → List (Endpoint F)
  of_types types = filter (λ e. contains types (type e.state))

  unfoldable pub full_nodes : List (Endpoint F) → List (Endpoint F)
  full_nodes = filter (λ e. type e.state == "fullnode")

  -- The endpoints that are arranged: those of the wanted types, or else the full nodes for methods
  -- that a full node answers, or else all.
  unfoldable pub candidates : List String → List String → List (Endpoint F) → List (Endpoint F)
  unfolding of_types full_nodes
  candidates types methods es =
      let wanted = if is_nonempty types then of_types types es else [] in
      if is_nonempty wanted
      then wanted
      else (let full = if every (contains full_node_methods) methods then full_nodes es else [] in
          if is_nonempty full then full else es)

  -- The loop that moves the first unhealthy endpoint to the front: `before` has been passed.
  unfoldable pub move_from : List (Endpoint F) → List (Endpoint F) → List (Endpoint F)
  move_from before [] = before
  move_from before (e ∷ es) =
      let rest = move_from (before ++ e ∷ []) es in
      if endpoint_health e then rest else e ∷ (before ++ es)

  unfoldable pub move_unhealthy : List (Endpoint F) → List (Endpoint F)
  unfolding move_from
  move_unhealthy es = move_from [] es

  module _ (fl : FloatOps F) where
    abbrev zero_f : F
    zero_f = fl.of_ℤ (pos 0)

    -- `helpers.ToFloat`, with 0 for what is no number.
    unfoldable pub to_float : Any F → F
    to_float (integer k v) = fl.of_ℤ v
    to_float (float32 x) = x
    to_float (float64 x) = x
    to_float _ = zero_f

    -- One round of the first loop of `normalizeEndpointValues`, for one attribute: 0 stands for a
    -- bound that is not set yet.
    unfoldable pub widen : F × F → F → F × F
    widen (low, high) v =
        let low' = if fl.eq low zero_f then v else low in
        let high' = if fl.eq high zero_f then v else high in
        (if fl.lt v low' then v else low', if fl.lt high' v then v else high')

    unfoldable pub bounds : String → F × F → List (Endpoint F) → F × F
    unfolding widen to_float
    bounds attr b [] = b
    bounds attr b (e ∷ es) = bounds attr (widen b (to_float (read attr e.state))) es

    -- The normalised value of one attribute.
    unfoldable pub normalized : F → String → List (Endpoint F) → Endpoint F → F
    unfolding bounds to_float
    normalized scale attr es e =
        let (low, high) = bounds attr (zero_f, zero_f) es in
        let v = to_float (read attr e.state) in
        if fl.lt zero_f (fl.sub high low)
        then fl.mul (fl.div (fl.sub v low) (fl.sub high low)) scale
        else zero_f

    -- `calculateEndpointScores` for one endpoint; `tenth` is the constant 1.1.
    unfoldable pub score : F → List (Endpoint F) → Endpoint F → F
    unfolding normalized
    score tenth es e =
        let hundred = fl.of_ℤ (pos 100) in
        let value = λ (attr : String). normalized hundred attr es e in
        let s1 = fl.add zero_f (fl.mul (value "block_number") (fl.of_ℤ (pos 2))) in
        let s2 = fl.add s1 (fl.sub hundred (fl.min (value "duration") (value "p95_duration"))) in
        let s3 = fl.add s2 (fl.sub hundred (fl.mul (value "count") tenth)) in
        let s4 = fl.add s3 (value "weight") in if fl.lt s4 zero_f then zero_f else s4

    unfoldable pub total_score : (Endpoint F → F) → F → List (Endpoint F) → F
    total_score scores t [] = t
    total_score scores t (e ∷ es) = total_score scores (fl.add t (scores e)) es

    -- `best(scores)`: the order of the endpoints.
    unfoldable pub best : (Endpoint F → F) → Endpoint F → Endpoint F → Bool
    best scores a b =
        if endpoint_health a && not (endpoint_health b)
        then true
        else if not (endpoint_health a) && endpoint_health b
        then false
        else if p95_health a.state && not (p95_health b.state)
        then true
        else if not (p95_health a.state) && p95_health b.state
        then false
        else if fl.lt (scores b) (scores a)
        then true
        else if fl.lt (scores a) (scores b)
        then false
        else if ltb_ℤ (last_update_time a.state) (last_update_time b.state)
        then true
        else if ltb_ℤ (last_update_time b.state) (last_update_time a.state)
        then false
        else true

  module _ (fl : FloatOps F) (out : Outside F) where
    -- `arrange`: no endpoint scores, or the endpoints in the order of `best`.
    unfoldable pub arrange : List (Endpoint F) → Option (List (Endpoint F))
    arrange es =
        let scores = score fl out.tenth es in
        if leb (length es) 1
        then some es
        else if fl.lt (fl.of_ℤ (pos 0)) (total_score fl scores (fl.of_ℤ (pos 0)) (out.visit es))
        then some (out.sort (best fl scores) es)
        else none

    -- The chance, in percent, that an unhealthy endpoint is tried first.
    unfoldable pub probe_percent : ℤ → ℤ
    probe_percent timeout =
        fl.trunc (fl.mul (fl.div (fl.of_ℤ timeout) (fl.of_ℤ (pos max_timeout))) (fl.of_ℤ (pos 100)))

    -- Whether an unhealthy endpoint is looked for, given the first endpoint.
    unfoldable pub probes : Wishes → Endpoint F → Bool
    probes w e =
        endpoint_health e
        && (ltb_ℤ (pos 1) w.attempts && is_rotation w.strategy)
        && ltb_ℤ (pos out.random) (probe_percent w.timeout)

    -- An empty list has no first endpoint: Go panics there.
    unfoldable pub probe : Wishes → List (Endpoint F) → Option (List (Endpoint F))
    probe w [] = none
    probe w (e ∷ es) = if probes w e then some (move_unhealthy (e ∷ es)) else some (e ∷ es)

    -- What `Select` makes of the result of `arrange`: shuffled if there are no scores.
    unfoldable pub finish :
        Wishes → List (Endpoint F) → Option (List (Endpoint F)) → Option (List (Endpoint F) × Bool)
    finish w es none = some (out.shuffle es, true)
    finish w es (some arranged) = elim (probe w arranged) [ none ↦ none | some l ↦ some (l, true) ]

    -- `Select`: the endpoints in order, and whether there are any; `none` is a panic.
    unfoldable pub select :
        Wishes → List String → List (Endpoint F) → Option (List (Endpoint F) × Bool)
    select w methods [] = some ([], false)
    select w methods (e ∷ []) = some (e ∷ [], true)
    select w methods (e ∷ f ∷ es) =
        let picked = candidates w.types methods (e ∷ f ∷ es) in finish w picked (arrange picked)
