-- ===== src/Agent/Single.antt =====
-- `Call` for one request: answers from the cache, entries that have expired, and malformed bodies.
use web3_rpc_proxy.Prelude.{
  ℕ, String, ◌≡◌, refl, Bool, true, false, Option, none, some, List, [], ◌∷◌, arith, ap,
}
use web3_rpc_proxy.Json.{Value, null, obj, field}
use web3_rpc_proxy.Rpc.{Request, Decoded, method}
use web3_rpc_proxy.Rpc.Decoding.{Malformed, unmarshal_requests-Malformed}
use web3_rpc_proxy.Errors.{http, bad_request_error}
use web3_rpc_proxy.Agent.Store.{Config, Deps, can_cache, cache_key, get_cache}
use web3_rpc_proxy.Agent.Upstream.{Result, ok, err}
use web3_rpc_proxy.Agent.Batch.{answer, answers, empty_answer, hit, Looked, look_one, look_up, note}
use web3_rpc_proxy.Agent.Service.{
  nothing_yet, from_cache, after_look_up, with_cache, serve, serve_body, marshal_answer, invalid,
}

module _ {E W : Type 0} (d : Deps E W) (cfg : Config) (chain : ℕ) where
  abbrev pub served : Bool → W → Decoded Request → Result String × W
  served caches w (qs, batch, error) = elim error [
    | some e ↦ (err (http (bad_request_error e (some e ∷ []))), w)
    | none ↦ let (v, w') = serve d cfg chain batch caches qs w in (marshal_answer d v, w')
  ]

  -- A body that is no JSON, or neither an object nor an array of objects, is not refused: it is
  -- answered by a null result with a null id, and nothing is asked or stored.
  pub serve_body-Malformed :
      (caches : Bool) (b : String) (w : W)
      → Malformed (d.parse b)
      → serve_body d cfg chain caches b w ≡ (marshal_answer d (ok (obj empty_answer)), w)
  unfolding serve_body serve
  serve_body-Malformed caches b w h =
      ap (served caches w) (unmarshal_requests-Malformed d.parse b h).0

  -- A request that the schema refuses is answered by a bad request with the schema's words, and
  -- nothing is asked or stored.
  pub invalid_refused :
      (batch caches : Bool) (q : Request) (qs : List Request) (e : String) (w : W)
      → invalid d (q ∷ qs) ≡ some e
      → serve d cfg chain batch caches (q ∷ qs) w
        ≡ (err (http (bad_request_error e (some e ∷ []))), w)
  unfolding serve
  invalid_refused batch caches q qs e w h = rw (h, serve) refl

  module _ (q : Request) (w : W) where
    abbrev pub reading : (Value × Option String) × W
    reading = get_cache d cfg (cache_key d chain q) (method q) w

    look_one-hit :
        (value : Value)
        → can_cache cfg (method q) ≡ true
        → reading.0 ≡ (value, none)
        → look_one d cfg chain 0 q nothing_yet w ≡ (
          record {
            results = hit d cfg chain q value ∷ [];
            pending = [];
            mapping = [];
            hits = true ∷ [];
          },
          reading.1,
        )
    unfolding look_one
    look_one-hit value c e = rw (c, look_one) (unfold note in rw e refl)

    cases_served :
        {r : Result Value × W}
        → cfg.disable_cache ≡ false
        → invalid d (q ∷ []) ≡ none
        → with_cache d cfg chain false (q ∷ []) w ≡ r
        → serve d cfg chain false true (q ∷ []) w ≡ r
    unfolding serve
    cases_served a b e = ground (arith, a, b, e)

    abbrev after : Looked × W → Result Value × W
    after (s, w') = after_look_up d cfg chain false s.pending s w'

    -- With the cache enabled, a single request that the schema accepts, whose method is cached and
    -- whose read of the cache gives no error, is answered by the value that was read, marked as
    -- cached, and nothing but the read is done.
    pub single_from_cache :
        (value : Value)
        → cfg.disable_cache ≡ false
        → invalid d (q ∷ []) ≡ none
        → can_cache cfg (method q) ≡ true
        → reading.0 ≡ (value, none)
        → serve d cfg chain false true (q ∷ []) w
          ≡ (ok (obj (answer (field "id" q.raw) value null true)), reading.1)
    unfolding serve with_cache after_look_up look_up from_cache answers
    single_from_cache value a b c e = cases_served a b (ap after (look_one-hit value c e))
