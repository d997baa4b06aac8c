-- ===== src/Tests/Clients.antt =====
-- Examples of the retries, over a world that counts the calls: the first endpoint times out or gives
-- an error, and the second answers.
use web3_rpc_proxy.Prelude.{
  ℕ, ◌≤◌, ◌+◌, String, ◌≡◌, refl, Bool, true, Option, none, some, List, [], ◌∷◌, ◌++◌, length,
  arith, ◌==◌, nat_comparable, string_comparable, if◌then◌else◌,
}
use web3_rpc_proxy.Prelude.Int.{pos}
use web3_rpc_proxy.Json.{field}
use web3_rpc_proxy.Rpc.{Reply, reply_type, reply_version}
use web3_rpc_proxy.Errors.{GoError, http, timeout_error, query_status, new_http_error}
use web3_rpc_proxy.Reqctx.{rotation}
use web3_rpc_proxy.Endpoint.Metrics.{new_profile}
use web3_rpc_proxy.CoreClient.{
  Net, Outcome, Limits, Loop, request, round, rounds, try, sent, conclude, succeeded, timed_out,
  outcome,
}
use web3_rpc_proxy.CoreClient.Retries.{request_bounded, first_call_decides, after_first}
use web3_rpc_proxy.CoreClient.Rotation.{rounds-cycle, asked, cycle}
use web3_rpc_proxy.Tests.{reply_of}

abbrev answer_of : ℕ → Outcome
answer_of e =
    if e == 1
    then record {
      results = none;
      err = some (http (timeout_error "late" []));
      profile = new_profile "1";
    }
    else record { results = some (reply_of "1" "0x10" ∷ []); err = none; profile = new_profile "1" }

abbrev net : Net ℕ ℕ ℕ
net = record {
  url = λ e. if e == 1 then "a" else "b";
  connect = λ e w. (some e, w);
  healthy = λ e w. true;
  call = λ e deadline ss p w. some (answer_of e, w + 1);
  fresh_id = λ w. ("id", w);
  clock = λ w. pos w;
}

abbrev contains : String → String → Bool
contains a b = a == b

abbrev limits : Limits
limits = record { strategy = rotation; attempts = pos 3; timeout = pos 3000000000 }

abbrev start : Loop ℕ
start = record { world = 0; results = none; err = none; requests = []; responses = [] }

request_bounded_example :
    (out : Option GoError × List Reply) × (t : Loop ℕ) × (request contains net limits
        (2 ∷ 1 ∷ [])
        []
        start
      ≡ some (out, t))
    × (length t.requests ≤ 0 + 3)
    × (length t.requests + 0 ≡ length t.responses + 0)
request_bounded_example =
    request_bounded contains net limits [] (2 ∷ 1 ∷ []) start (omega arith)
      (λ c limit p w. (answer_of c, w + 1, refl))

first_call_decides_example :
    request contains net limits (1 ∷ 2 ∷ []) [] start
    ≡ some (
      conclude (answer_of 1).err (answer_of 1).results,
      after_first contains net limits [] 1 (2 ∷ []) start (answer_of 1) 1,
    )
unfolding outcome succeeded timed_out query_status timeout_error new_http_error
first_call_decides_example =
    first_call_decides contains net limits [] 1 (2 ∷ []) start (1 ∷ 2 ∷ []) 2 1 (answer_of 1) 1 refl
      refl refl refl refl

abbrev answered : Loop ℕ
answered = record {
  world = 1;
  results = some (reply_of "1" "0x10" ∷ []);
  err = none;
  requests = sent net [] 2 "id" 0 ∷ [];
  responses = record (new_profile "1") { respond = true } ∷ [];
}

rounds-cycle_example :
    (m : ℕ) × (m ≤ 3)
    × (asked answered.requests ≡ asked start.requests ++ cycle net.url (1 ∷ 2 ∷ []) 1 m)
unfolding rounds round try outcome succeeded reply_type reply_version field sent
rounds-cycle_example =
    rounds-cycle contains net [] (pos 1000) (1 ∷ 2 ∷ []) (λ e w. refl) 3 1 start answered
      (omega arith) refl
