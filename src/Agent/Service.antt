-- ===== src/Agent/Service.antt =====
-- `Call` of agent_service.go: from the bytes of a request's body to the bytes of its answer.
use web3_rpc_proxy.Prelude.{
  ℕ, String, Bool, true, false, ◌||◌, not, Option, none, some, List, [], ◌∷◌, map, if◌then◌else◌,
}
use web3_rpc_proxy.Json.{Value, null, bool, obj, arr, set_field, from_list}
use web3_rpc_proxy.Rpc.{Request, method, unmarshal_requests}
use web3_rpc_proxy.Errors.{http, plain, bad_request_error}
use web3_rpc_proxy.Agent.Store.{Config, Deps}
use web3_rpc_proxy.Agent.Upstream.{Result, ok, err, panic}
use web3_rpc_proxy.Agent.Batch.{
  Answer, many, one, to_value, answers, empty_answer, dispatch, Looked, look_up, cached_slots, fill,
}

abbrev pub nothing_yet : Looked
nothing_yet = record { results = []; pending = []; mapping = []; hits = [] }

module _ {E W : Type 0} (d : Deps E W) where
  -- The loop of the validation: the first error.
  unfoldable pub invalid : List Request → Option String
  invalid [] = none
  invalid (q ∷ qs) = elim (d.validate (method q) q.raw) [ some e ↦ some e | none ↦ invalid qs ]

  -- `json.Marshal` of the answer.
  abbrev marshal_value : Value → Result String
  marshal_value v = elim (d.marshal v) [ none ↦ err (plain "json") | some s ↦ ok s ]

  abbrev pub marshal_answer : Result Value → Result String
  marshal_answer (ok v) = marshal_value v
  marshal_answer (err e) = err e
  marshal_answer panic = panic

  -- `handle`
  abbrev value_of : Result Answer → Result Value
  value_of (ok a) = ok (to_value a)
  value_of (err e) = err e
  value_of panic = panic

  -- All results came from the cache.
  unfoldable pub from_cache : Bool → Looked → Result Value
  from_cache true s = elim (answers s.results s.hits) [
    | none ↦ panic
    | some fs ↦ ok (arr (from_list (map obj fs)))
  ]
  from_cache false s = elim (answers s.results s.hits) [
    | none ↦ panic
    | some [] ↦ ok null
    | some (f ∷ fs) ↦ ok (obj f)
  ]

  -- The new answers beside the cached ones.
  unfoldable pub combine : Looked → Result Answer → Result Value
  combine s (err e) = err e
  combine s panic = panic
  combine s (ok (many fs)) =
      ok (arr (from_list (fill d.sprint s.mapping fs (cached_slots s.results))))
  combine s (ok (one f)) = ok (obj (set_field "from_cache" (bool false) f))

  module _ (cfg : Config) (chain : ℕ) where
    unfoldable pub direct : Bool → List Request → W → Result Value × W
    direct batch qs w =
        let (a, w') = dispatch d cfg chain batch (map (λ q. false) qs) qs w in (value_of a, w')

    -- After the reads of the cache: the requests that are still to be asked are dispatched.
    unfoldable pub after_look_up : Bool → List Request → Looked → W → Result Value × W
    after_look_up batch [] s w = (from_cache batch s, w)
    after_look_up batch (q ∷ rest) s w =
        let (a, w') = dispatch d cfg chain batch s.hits (q ∷ rest) w in (combine s a, w')

    unfoldable pub with_cache : Bool → List Request → W → Result Value × W
    with_cache batch qs w =
        let (s, w') = look_up d cfg chain 0 qs nothing_yet w in after_look_up batch s.pending s w'

    -- `Call` after decoding; `caches` is the request's own option.
    unfoldable pub serve : Bool → Bool → List Request → W → Result Value × W
    serve batch caches [] w = (ok (if batch then arr (from_list []) else obj empty_answer), w)
    serve batch caches (q ∷ qs) w = elim (invalid (q ∷ qs)) [
      | some e ↦ (err (http (bad_request_error e (some e ∷ []))), w)
      | none ↦
          if cfg.disable_cache || not caches
          then direct batch (q ∷ qs) w
          else with_cache batch (q ∷ qs) w
    ]

    unfoldable pub serve_body : Bool → String → W → Result String × W
    serve_body caches body w =
        let (qs, batch, error) = unmarshal_requests d.parse body in
        elim error [
          | some e ↦ (err (http (bad_request_error e (some e ∷ []))), w)
          | none ↦ let (v, w') = serve batch caches qs w in (marshal_answer v, w')
        ]
