-- ===== src/Agent/Misses.antt =====
-- Requests whose answers a batch with the cache loses, and cached entries that have expired.
use mathlib.Core.List.{append_assoc, append-nil}
use web3_rpc_proxy.Prelude.{
  ℕ, zero, suc, ◌≤◌, String, ◌≡◌, refl, ◌∙◌, ap, Bool, true, false, some, List, [], ◌∷◌, ◌++◌,
  length, replicate, length-replicate, arith, All,
}
use web3_rpc_proxy.Prelude.Dict.{lookup}
use web3_rpc_proxy.Json.{Value, null, arr, Fields, from_list}
use web3_rpc_proxy.Rpc.{Request, SealedResult, method}
use web3_rpc_proxy.Agent.Store.{Config, Deps, can_cache}
use web3_rpc_proxy.Agent.Upstream.{ok, call}
use web3_rpc_proxy.Agent.Batch.{
  many, answer, answers, Looked, no_result, look_one, look_up, cached_slots, fill, dispatch,
}
use web3_rpc_proxy.Agent.Service.{nothing_yet, combine, after_look_up, with_cache}

-- Without a place for any id the array keeps its slots.
fill_no_places :
    (sprint : Value → String) (fs : List Fields) (slots : List Value)
    → fill sprint [] fs slots ≡ slots
unfolding fill lookup
fill_no_places sprint [] slots = refl
fill_no_places sprint (f ∷ fs) slots = fill_no_places sprint fs slots

cached_slots_none : (n : ℕ) → cached_slots (replicate n no_result) ≡ replicate n null
unfolding cached_slots
cached_slots_none zero = refl
cached_slots_none (suc n) = ap (◌∷◌ null) (cached_slots_none n)

pub answers-some :
    (rs : List SealedResult) (hits : List Bool)
    → length rs ≤ length hits
    → (fs : List Fields) × (answers rs hits ≡ some fs) × (length fs ≡ length rs)
unfolding answers
answers-some [] hits h = ([], refl, refl)
answers-some (r ∷ rs) [] h = absurd (omega arith)
answers-some (r ∷ rs) (b ∷ hits) h =
    let (fs, e, l) = answers-some rs hits (omega arith) in
    (answer r.id r.result r.error b ∷ fs, ground (arith, e), omega (arith, l))

module _ {E W : Type 0} (d : Deps E W) (cfg : Config) (chain : ℕ) where
  -- Requests of methods that are not cached leave no place for their ids.
  look_up_uncacheable :
      (i : ℕ) (qs : List Request) (s : Looked) (w : W)
      → All (λ q. can_cache cfg (method q) ≡ false) qs
      → look_up d cfg chain i qs s w ≡ (
        record {
          results = s.results ++ replicate (length qs) no_result;
          pending = s.pending ++ qs;
          mapping = s.mapping;
          hits = s.hits ++ replicate (length qs) false;
        },
        w,
      )
  unfolding look_up
  look_up_uncacheable i [] s w h =
      cc (append-nil s.results, append-nil s.pending, append-nil s.hits)
  look_up_uncacheable i (q ∷ qs) s w h =
      let one_round : look_one d cfg chain i q s w ≡ (
        record s {
          results = s.results ++ no_result ∷ [];
          pending = s.pending ++ q ∷ [];
          hits = s.hits ++ false ∷ [];
        },
        w,
      ) =
        unfold look_one in rw h.0 in
      rw one_round (
        look_up_uncacheable (suc i) qs _ w h.1
        ∙ cc (
          append_assoc s.results (no_result ∷ []) (replicate (length qs) no_result),
          append_assoc s.pending (q ∷ []) qs,
          append_assoc s.hits (false ∷ []) (replicate (length qs) false),
        ))

  -- A batch served with the cache, of methods that are not cached, is answered by an array of nulls,
  -- one for each request, whatever results the call gives for them, if they are no more than the
  -- requests.
  pub batch_uncacheable_lost :
      (q : Request) (qs : List Request) (w w' : W) (rs : List SealedResult)
      → All (λ r. can_cache cfg (method r) ≡ false) (q ∷ qs)
      → call d cfg chain (q ∷ qs) w ≡ (ok rs, w')
      → length rs ≤ length (q ∷ qs)
      → with_cache d cfg chain true (q ∷ qs) w
        ≡ (ok (arr (from_list (replicate (length (q ∷ qs)) null))), w')
  unfolding with_cache after_look_up
  batch_uncacheable_lost q qs w w' rs h c l =
      let looked = look_up_uncacheable 0 (q ∷ qs) nothing_yet w h in
      let hits : List Bool = false ∷ replicate (length qs) false in
      let (fs, e, _) =
        answers-some rs hits (omega (arith, l, length-replicate (length qs) false)) in
      let asked : dispatch d cfg chain true hits (q ∷ qs) w ≡ (ok (many fs), w') =
        unfold dispatch in ground (arith, c, e) in
      rw looked (
        rw asked (
          unfold combine in
          ap (λ l. (ok (arr (from_list l)), w'))
            (fill_no_places d.sprint fs (cached_slots (replicate (length (q ∷ qs)) no_result))
              ∙ cached_slots_none (length (q ∷ qs)))))
