-- ===== src/Lifecycle/Stopping.antt =====
-- What is ended when the proxy stops, whatever fails.
use web3_rpc_proxy.Prelude.{String, ◌≡◌, Bool, true, false, Option, List, [], ◌∷◌, ◌++◌}
use mathlib.Core.List.{append_assoc}
use web3_rpc_proxy.Lifecycle.{
  Call, shutdown_server, close_etcd, close_redis, close_channel, close_connection, Parts, on_stop,
}

abbrev pub only_if : Bool → Call → List Call
only_if true c = c ∷ []
only_if false c = []

abbrev parts : Bool → Bool → Bool → Bool → List Call → Parts
parts d r c h cs = record { database = d; redis = r; connection = c; channel = h; calls = cs }

-- The calls of a stop.
abbrev pub stops : Bool → Bool → Bool → List Call
stops redis connection channel =
    shutdown_server
    ∷ close_etcd
    ∷ (only_if redis close_redis
        ++ (only_if channel close_channel ++ only_if connection close_connection))

module _ (fails : Call → Option String) where
  stopped :
      (d r c h : Bool) (cs : List Call)
      → on_stop fails (parts d r c h cs) ≡ parts d r false false (cs ++ stops r c h)
  unfolding on_stop
  stopped d true true true cs = simp append_assoc
  stopped d true true false cs = simp append_assoc
  stopped d true false true cs = simp append_assoc
  stopped d true false false cs = simp append_assoc
  stopped d false true true cs = simp append_assoc
  stopped d false true false cs = simp append_assoc
  stopped d false false true cs = simp append_assoc
  stopped d false false false cs = simp append_assoc

  -- Whatever fails, a stop shuts the server down, closes etcd, redis if it has a client, and the channel and
  -- the connection of amqp if they are there, in this order and each once, and forgets the last two; a
  -- database that is connected is not closed and stays.
  pub on_stop-calls :
      (p : Parts)
      → on_stop fails p ≡ record p {
        connection = false;
        channel = false;
        calls = p.calls ++ stops p.redis p.connection p.channel;
      }
  on_stop-calls p = stopped p.database p.redis p.connection p.channel p.calls
