-- ===== src/Proxy/Failover.antt =====
-- How a request goes from endpoint to endpoint, and which of them it leaves healthy.
use web3_rpc_proxy.Prelude.{
  ℕ, zero, suc, ◌+◌, ◌<◌, ◌%◌, ◌≡◌, ◌∙◌, refl, sym, ap, true, false, ◌||◌, Option, none, some, List,
  [], ◌∷◌, ◌++◌, length, length-append, get_elem?, contains, arith, ◌==◌, nat_comparable,
  if◌then◌else◌, All,
}
use mathlib.Core.List.{append_assoc}
use web3_rpc_proxy.Prelude.Int.{ℤ, pos_part}
use web3_rpc_proxy.Reqctx.{rotation}
use web3_rpc_proxy.Rpc.{Sealed, Reply}
use web3_rpc_proxy.Errors.{GoError, http}
use web3_rpc_proxy.Endpoint.{health}
use web3_rpc_proxy.EndpointService.Service.{state_at}
use web3_rpc_proxy.CoreClient.{
  Outcome, Loop, Limits, rounds, succeeded, timed_out, attempt, restrict, deadline, conclude,
}
use web3_rpc_proxy.CoreClient.Retries.{rounds_stop, rounds_next, request_of_picked}
use web3_rpc_proxy.HttpClient.Outcomes.{call_outcome_err}
use web3_rpc_proxy.Proxy.{World, Wiring, net, send_request, start}
use web3_rpc_proxy.Proxy.Calls.{Fit}
use web3_rpc_proxy.Proxy.Clients.{OverHttp, IsLru, Unlike, Own}
use web3_rpc_proxy.Proxy.Rounds.{Refuses, Answers, Round, Round-gives, round_id, round_limit}

All-map {ℓ} :
    {A : Type ℓ} (P Q : A → Type 0) (xs : List A) → ((x : A) → P x → Q x) → All P xs → All Q xs
All-map P Q [] f h = tt
All-map P Q (x ∷ xs) f (p, h) = (f x p, All-map P Q xs f h)

get_elem?-middle :
    (xs : List ℕ) (x : ℕ) (ys : List ℕ) → get_elem? (xs ++ x ∷ ys) (length xs) ≡ some x
get_elem?-middle [] x ys = refl
get_elem?-middle (y ∷ xs) x ys = get_elem?-middle xs x ys

contains_middle : (es xs : List ℕ) (x : ℕ) (ys : List ℕ) → es ≡ xs ++ x ∷ ys → contains es x ≡ true
contains_middle es [] x ys h = rw h (ground arith)
contains_middle es (y ∷ xs) x ys h =
    rw h (ground (arith, contains_middle (xs ++ x ∷ ys) xs x ys refl))

-- The index of a round, before the list is gone through.
at_round :
    (es xs : List ℕ) (x : ℕ) (ys : List ℕ)
    → es ≡ xs ++ x ∷ ys
    → get_elem? es (length xs % length es) ≡ some x
at_round es xs x ys h =
    let below : length xs < length es = omega (arith, ap length h, length-append xs (x ∷ ys)) in
    let small : length xs % length es ≡ length xs = grind arith in
    rw (small, h) (get_elem?-middle xs x ys)

refused_call :
    (e : GoError) (results : Option (List Reply)) → (succeeded (some e) results || false) ≡ false
unfolding succeeded
refused_call e none = refl
refused_call e (some rs) = refl

module _ {C F R : Type 0} (wiring : Wiring C F R) (sealed : List Sealed) (limit : ℤ) (es : List ℕ)
    (e : ℕ) (rs : List Reply) where
  -- The loop from the round `i` ends with the answer of `e`, after a call of each of `refusing`.
  pub record Served (n i : ℕ) (refusing : List ℕ) (s : Loop (World F R)) : Type 0 where
    pub after : Loop (World F R)
    pub result : rounds wiring.contains (net wiring) sealed limit es n i s ≡ some after
    pub no_err : after.err ≡ none
    pub answered : after.results ≡ some rs
    pub counted : length after.requests ≡ length s.requests + length refusing + 1
    pub calm : after.world.panicked ≡ s.world.panicked
    pub marked :
        (r : ℕ)
        → health (state_at after.world.heap r) ≡ (
            if e == r
            then true
            else if contains refusing r
            then false
            else health (state_at s.world.heap r))

  module _ (n : ℕ) (tried : List ℕ) (x : ℕ) (rest : List ℕ) (s : Loop (World F R)) (k : ℕ)
      (out : Outcome) (h : es ≡ tried ++ x ∷ rest)
      (step : Round wiring sealed limit x s es k out) where
    ends :
        (succeeded out.err out.results || timed_out wiring.contains out.err) ≡ true
        → rounds wiring.contains (net wiring) sealed limit es (suc n) (length tried) s
          ≡ some step.after
    ends q =
        rounds_stop wiring.contains (net wiring) sealed es limit n (length tried) s x
          (at_round es tried x rest h) step.after (step.result ∙ ap (λ b. some (step.after, b)) q)

    goes_on :
        (succeeded out.err out.results || timed_out wiring.contains out.err) ≡ false
        → rounds wiring.contains (net wiring) sealed limit es (suc n) (length tried) s
          ≡ rounds wiring.contains (net wiring) sealed limit es n (suc (length tried)) step.after
    goes_on q =
        rounds_next wiring.contains (net wiring) sealed es limit n (length tried) s x
          (at_round es tried x rest h) step.after (step.result ∙ ap (λ b. some (step.after, b)) q)

  pub rounds-Served :
      (n : ℕ) (tried refusing rest : List ℕ) (s : Loop (World F R))
      → es ≡ tried ++ (refusing ++ e ∷ rest)
      → length refusing < n
      → All (λ r. OverHttp wiring r × Refuses wiring sealed r) refusing
      → OverHttp wiring e
      → Answers wiring sealed e rs
      → succeeded none (some rs) ≡ true
      → All (Fit (suc (length refusing)) s.world.heap) refusing
      → Fit (suc (length refusing)) s.world.heap e
      → IsLru wiring
      → Unlike wiring es
      → Own wiring es s.world.rest
      → Served n (length tried) refusing s
  rounds-Served zero tried refusing rest s h l r o a g f fe lru unlike own = absurd (omega arith)
  rounds-Served (suc n) tried [] rest s h l r o a g f fe lru unlike own =
      let (out, told, no_err, results, good) =
        a (round_limit wiring sealed limit e s) (round_id wiring sealed limit e s) in
      let step =
        Round-gives wiring sealed limit e s es 0 out lru unlike (contains_middle es tried e rest h)
          own o fe told in
      record {
        after = step.after;
        result = ends n tried e rest s 0 out h step (rw (no_err, results, g) refl);
        no_err = step.same_err ∙ no_err;
        answered = step.same_results ∙ results;
        counted = omega (arith, step.counted);
        calm = step.calm;
        marked = λ r. step.marked r ∙ rw good (ground arith);
      }
  rounds-Served (suc n) tried (x ∷ refusing) rest s h l ((over, refuses), r) o a g (fx, f) fe lru
        unlike own =
      let (out, err, told, has_err, late) =
        refuses (round_limit wiring sealed limit x s) (round_id wiring sealed limit x s) in
      let k = suc (length refusing) in
      let step =
        Round-gives wiring sealed limit x s es k out lru unlike
          (contains_middle es tried x (refusing ++ e ∷ rest) h) own over fx told in
      let bad =
        call_outcome_err (wiring.wire x (round_limit wiring sealed limit x s)) wiring.size sealed
          (round_id wiring sealed limit x s) out true (http err) told has_err in
      let longer : length (tried ++ x ∷ []) ≡ suc (length tried) =
        omega (arith, length-append tried (x ∷ [])) in
      let moved : es ≡ (tried ++ x ∷ []) ++ (refusing ++ e ∷ rest) =
        h ∙ sym (append_assoc tried (x ∷ []) (refusing ++ e ∷ rest)) in
      let later =
        rounds-Served n (tried ++ x ∷ []) refusing rest step.after moved (omega arith) r o a g
          (All-map _ _ refusing step.fit f) (step.fit e fe) lru unlike step.own in
      record {
        after = later.after;
        result =
            goes_on n tried x (refusing ++ e ∷ rest) s k out h step
              (rw (has_err, late) (refused_call (http err) out.results))
            ∙ rw (← longer) later.result;
        no_err = later.no_err;
        answered = later.answered;
        counted = omega (arith, step.counted, later.counted);
        calm = later.calm ∙ step.calm;
        marked = λ r. ground (arith, later.marked r, step.marked r, bad);
      }

module _ {C F R : Type 0} (wiring : Wiring C F R) (sealed : List Sealed) (limits : Limits) where
  -- Under rotation, with more attempts than there are endpoints before the first that answers, each
  -- called over HTTP by an address of which a request can be made: where those before it refuse every call, by an error that is no timeout, a
  -- request that is sent to the endpoints returns the results of the one that answers, and does not
  -- panic; after it those that were tried in vain are unhealthy, the one that answered is healthy,
  -- and the health of every other endpoint is what it was; where every endpoint that is called has
  -- an address and can still count so many calls, golang-lru keeps the clients as it documents, and the
  -- endpoints have different URLs, under which no client of another endpoint is kept.
  pub send_request-failover :
      (refusing rest : List ℕ) (e : ℕ) (reply : Reply) (replies : List Reply) (w : World F R)
      → limits.strategy ≡ rotation
      → length refusing < pos_part limits.attempts
      → All (λ r. OverHttp wiring r × Refuses wiring sealed r) refusing
      → OverHttp wiring e
      → Answers wiring sealed e (reply ∷ replies)
      → succeeded none (some (reply ∷ replies)) ≡ true
      → All (Fit (suc (length refusing)) w.heap) refusing
      → Fit (suc (length refusing)) w.heap e
      → IsLru wiring
      → Unlike wiring (refusing ++ e ∷ rest)
      → Own wiring (refusing ++ e ∷ rest) w.rest
      → (w' : World F R) × (send_request wiring limits (refusing ++ e ∷ rest) sealed w
          ≡ ((none, reply ∷ replies), w'))
        × (w'.panicked ≡ w.panicked)
        × ((r : ℕ)
            → health (state_at w'.heap r) ≡ (
                if e == r
                then true
                else if contains refusing r
                then false
                else health (state_at w.heap r)))
  unfolding send_request attempt conclude
  send_request-failover refusing rest e reply replies w strategy l r o a g f fe lru unlike own =
      let es = refusing ++ e ∷ rest in
      let served =
        rounds-Served wiring sealed (deadline wiring.contains (net wiring) limits (length es)) es e
          (reply ∷ replies) (pos_part limits.attempts) [] refusing rest (start wiring w) refl l r o
          a g f fe lru unlike own in
      let whole : restrict limits.strategy es ≡ es = rw strategy refl in
      let asked =
        request_of_picked wiring.contains (net wiring) limits sealed es es (start wiring w)
          served.after whole (omega (arith, length-append refusing (e ∷ rest))) served.result in
      (
        served.after.world,
        rw (asked, send_request) (rw (served.no_err, served.answered) refl),
        served.calm,
        served.marked,
      )
