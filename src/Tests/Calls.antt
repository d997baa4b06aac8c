-- ===== src/Tests/Calls.antt =====
-- Examples of calls over HTTP: a status that is refused, and a body that is no JSON.
use web3_rpc_proxy.Prelude.{ℕ, String, none, nat_comparable}
use web3_rpc_proxy.Prelude.Int.{pos}
use web3_rpc_proxy.HttpClient.{Transport, whole, response}
use web3_rpc_proxy.Tests.{sprint}

-- Every request is answered by the status 503 and a page.
abbrev pub transport : Transport
transport = record {
  marshal = λ ss. whole "[]";
  send = λ b. response 503 (whole "page");
  cause = none;
  elapsed = pos 20;
  now = pos 0;
  parse = λ s. none;
  sprint = sprint;
  status_text = λ n. "status 503";
}

abbrev size : String → ℕ
size s = 4
