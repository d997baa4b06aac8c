-- ===== src/Tests/Messages.antt =====
-- Examples of a client's messages and of the keys of requests.
use web3_rpc_proxy.Prelude.{
  false, ℕ, ◌+◌, ◌≡◌, refl, true, none, some, List, [], ◌∷◌, ◌++◌, length, ◌==◌, nat_comparable,
  string_comparable, if◌then◌else◌,
}
use web3_rpc_proxy.Prelude.Int.{ℤ, pos}
use web3_rpc_proxy.Json.{obj}
use web3_rpc_proxy.Errors.{success, forbidden_error}
use web3_rpc_proxy.Controller.{Services, call}
use web3_rpc_proxy.Tests.{call_of}
use web3_rpc_proxy.WsHandler.{
  Frame, text, binary, broken, other, Wire, Session, serve_frame, serve_frames, fresh_context,
}
use web3_rpc_proxy.WsHandler.Lasting.{serve_frames-all}
use web3_rpc_proxy.WsHandler.Access.{serve_frame-unchecked}

abbrev services : Services ℕ ℤ ℕ
services = record {
  enable_tenant = true;
  get_all = λ id w. if id == 1 then some (7 ∷ []) else none;
  access = λ token bucket w. (
    (
      none,
      record {
        info = record { id = 1; name = "shop"; token = "key"; capacity = pos 2; rate = pos 1 };
        bucket = "default";
        balance = pos 1;
        last_time = pos 0;
        offset = pos 0;
      },
    ),
    w,
  );
  agent_call = λ rc es w. ((none, "answer"), w + 1);
  cause = λ w. none;
  contains = λ a b. a == b;
  body_of = λ e. e.msg;
  unix_milli = λ w. pos w;
}

abbrev wire : Wire ℕ ℤ ℕ
wire = record {
  services = services;
  peek = λ message.
      if message == "{"
      then broken "unexpected end"
      else other (some (obj (call_of "1" "eth_call")));
  marshal = λ v. "error";
  arrives = λ message w. w;
  write = λ answer w. (true, w);
  panicked = λ w. false;
}

abbrev session : Session ℕ
session = record { world = 0; sent = []; counted = [] }

abbrev frames : List Frame
frames = text "{" ∷ binary ∷ text "call" ∷ []

serve_frames-all_example :
    ((serve_frames wire 1 frames session).0 ≡ true)
    × (length (serve_frames wire 1 frames session).1.sent ≡ 0 + 2)
serve_frames-all_example =
    serve_frames-all wire 1 frames session (λ a w. refl) (λ c es w. refl) (refl, (refl, (refl, tt)))

serve_frame-unchecked_example :
    (call services (fresh_context 1) (7 ∷ []) 0
      ≡ ((some (forbidden_error "Token is empty" []), "", fresh_context 1), 0))
    × (serve_frame wire 1 (text "call") session
        ≡ (true, record { world = 1; sent = [] ++ "answer" ∷ []; counted = [] ++ success ∷ [] }))
serve_frame-unchecked_example =
    serve_frame-unchecked wire 1 "call" "answer" (some (obj (call_of "1" "eth_call"))) 7 [] 0 1 1
      session refl refl refl refl refl refl
