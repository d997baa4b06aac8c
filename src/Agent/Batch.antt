-- ===== src/Agent/Batch.antt =====
-- The pieces of `Call` in agent_service.go: `dispatch`, the reading of the cache for each request, and
-- the combination of cached results with new ones.
use web3_rpc_proxy.Prelude.{
  ℕ, suc, String, Bool, true, false, Option, none, some, List, [], ◌∷◌, ◌++◌, map, set,
  string_comparable, if◌then◌else◌,
}
use web3_rpc_proxy.Prelude.Dict.{Dict, lookup, insert}
use web3_rpc_proxy.Json.{
  Value, null, bool, str, obj, arr, Fields, end, entry, field, from_list, is_null,
}
use web3_rpc_proxy.Rpc.{Request, SealedResult, method, id, version}
use web3_rpc_proxy.Agent.Store.{Config, Deps, can_cache, cache_key, get_cache}
use web3_rpc_proxy.Agent.Upstream.{Result, ok, err, panic, call}

-- One member of the answer.
abbrev pub answer : Value → Value → Value → Bool → Fields
answer id result error from_cache = entry "jsonrpc" (str "2.0") (
    entry "id" id
      (entry "result" result (entry "error" error (entry "from_cache" (bool from_cache) end))))

abbrev pub empty_answer : Fields
empty_answer = entry "jsonrpc" (str "2.0") (entry "id" null (entry "result" null end))

-- What `dispatch` gives: an array of answers for a batch, one answer otherwise.
pub data Answer : Type 0 where
  many : List Fields → Answer
  one : Fields → Answer

abbrev pub to_value : Answer → Value
to_value (many fs) = arr (from_list (map obj fs))
to_value (one f) = obj f

-- The array of `dispatch`: the flag at a result's place is read from the flags of the requests, and
-- a result past them is a panic.
unfoldable pub answers : List SealedResult → List Bool → Option (List Fields)
answers [] hits = some []
answers (r ∷ rs) [] = none
answers (r ∷ rs) (h ∷ hits) = elim (answers rs hits) [
  | none ↦ none
  | some rest ↦ some (answer r.id r.result r.error h ∷ rest)
]

unfoldable pub to_answer : Bool → List Bool → Result (List SealedResult) → Result Answer
unfolding answers
to_answer batch hits (err e) = err e
to_answer batch hits panic = panic
to_answer true hits (ok rs) = elim (answers rs hits) [ none ↦ panic | some fs ↦ ok (many fs) ]
to_answer false hits (ok []) = ok (
    one (
      entry "jsonrpc" (str "2.0")
        (entry "id" null (entry "result" null (entry "from_cache" (bool false) end)))))
to_answer false [] (ok (r ∷ rs)) = panic
to_answer false (h ∷ hits) (ok (r ∷ rs)) = ok (one (answer r.id r.result r.error h))

-- The loop over the requests: a result or its zero value for each, what is still to be asked, where
-- the answers to the ids go, and which results came from the cache.
pub record Looked : Type 0 where
  pub results : List SealedResult
  pub pending : List Request
  pub mapping : Dict String (List ℕ)
  pub hits : List Bool

abbrev pub no_result : SealedResult
no_result = record { id = null; result = null; error = null; version = ""; from_cache = false }

abbrev pub places : Option (List ℕ) → List ℕ
places none = []
places (some is) = is

-- The array of the combined answers: first the cached ones, and nil at every other place.
unfoldable pub cached_slots : List SealedResult → List Value
cached_slots [] = []
cached_slots (r ∷ rs) =
    (if is_null r.result then null else obj (answer r.id r.result r.error true)) ∷ cached_slots rs

unfoldable pub place : List ℕ → Value → List Value → List Value
place [] v slots = slots
place (i ∷ is) v slots = place is v (set slots i v)

-- Then each new answer at the places of its printed id; an id with no place is dropped.
unfoldable pub fill :
    (Value → String) → Dict String (List ℕ) → List Fields → List Value → List Value
unfolding place
fill sprint mapping [] slots = slots
fill sprint mapping (f ∷ fs) slots =
    let v = obj (answer (field "id" f) (field "result" f) (field "error" f) false) in
    fill sprint mapping fs (place (places (lookup (sprint (field "id" f)) mapping)) v slots)

module _ {E W : Type 0} (d : Deps E W) (cfg : Config) (chain : ℕ) where
  unfoldable pub dispatch : Bool → List Bool → List Request → W → Result Answer × W
  unfolding to_answer
  dispatch batch hits [] w = (ok (if batch then many [] else one empty_answer), w)
  dispatch batch hits (q ∷ qs) w =
      let (r, w') = call d cfg chain (q ∷ qs) w in (to_answer batch hits r, w')

  abbrev pub hit : Request → Value → SealedResult
  hit q value = record {
    id = field "id" q.raw;
    result = value;
    error = null;
    version = version q;
    from_cache = true;
  }

  abbrev skipped : Request → Looked → Looked
  skipped q s = record s {
    results = s.results ++ no_result ∷ [];
    pending = s.pending ++ q ∷ [];
    hits = s.hits ++ false ∷ [];
  }

  -- What a read of the cache leads to, at the request's place `i`.
  unfoldable pub note : ℕ → Request → Value × Option String → Looked → Looked
  note i q (value, none) s = record s {
    results = s.results ++ hit q value ∷ [];
    hits = s.hits ++ true ∷ [];
  }
  note i q (value, some e) s = record (skipped q s) {
    mapping =
        insert (id d.sprint q) (places (lookup (id d.sprint q) s.mapping) ++ i ∷ []) s.mapping;
  }

  -- One round of the loop: the cache is read for a method that can be cached.
  unfoldable pub look_one : ℕ → Request → Looked → W → Looked × W
  unfolding note
  look_one i q s w =
      if can_cache cfg (method q)
      then (let (c, w') = get_cache d cfg (cache_key d chain q) (method q) w in (note i q c s, w'))
      else (skipped q s, w)

  unfoldable pub look_up : ℕ → List Request → Looked → W → Looked × W
  look_up i [] s w = (s, w)
  look_up i (q ∷ qs) s w = let (s', w') = look_one i q s w in look_up (suc i) qs s' w'
