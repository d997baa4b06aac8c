-- ===== src/Tests/Stops.antt =====
-- Examples of connections that fail: at the stop of the proxy, in its probes, and of a WebSocket.
use mathlib.Core.Path.{subst}
use web3_rpc_proxy.Prelude.{
  ◌==◌, string_comparable, ◌⊎◌, if◌then◌else◌, String, ◌≡◌, ◌↔◌, refl, true, false, Option, none,
  some, List, [], ◌∷◌,
}
use web3_rpc_proxy.Rpc.{Reply}
use web3_rpc_proxy.HttpClient.{Bytes, whole}
use web3_rpc_proxy.WsClient.Reconnecting.{WriteError, Retry}
use web3_rpc_proxy.Lifecycle.{
  Call, shutdown_server, close_etcd, close_redis, close_channel, close_connection, Parts, on_stop,
}
use web3_rpc_proxy.Lifecycle.Stopping.{on_stop-calls}
use web3_rpc_proxy.Controller.Health.{
  Probe, Sound, Shared, Reach, here, next, ends, writes, Gives, beginning, end_probe, write_error,
  closed_one, closed_text, health_probes, handle_k8s_healthz, handle_k8s_healthz-Sound,
}

-- The server fails to shut down.
abbrev fails : Call → Option String
fails shutdown_server = some "deadline"
fails _ = none

abbrev parts : Parts
parts = record { database = true; redis = true; connection = true; channel = true; calls = [] }

on_stop-calls_example : on_stop fails parts ≡ record {
  database = true;
  redis = true;
  connection = false;
  channel = false;
  calls = shutdown_server ∷ close_etcd ∷ close_redis ∷ close_channel ∷ close_connection ∷ [];
}
on_stop-calls_example = on_stop-calls fails parts

-- Amqp is found closed, and the database fails before that error is written; then redis answers that its
-- context was cancelled, and the error of the database is written over that of amqp.
abbrev ping : Probe
ping cancelled = if cancelled then some "context canceled" else none

abbrev raw : Probe
raw cancelled = some "pool is closed"

abbrev amqp : Probe
amqp cancelled = some closed_text

abbrev probes : List Probe
probes = ping ∷ raw ∷ amqp ∷ []

abbrev amqp_ended : Shared
amqp_ended = end_probe amqp (ping ∷ raw ∷ []) (beginning probes)

abbrev raw_ended : Shared
raw_ended = end_probe raw (ping ∷ []) amqp_ended

abbrev amqp_written : Shared
amqp_written = write_error closed_text ("pool is closed" ∷ []) raw_ended

abbrev ping_ended : Shared
ping_ended = end_probe ping [] amqp_written

abbrev all_ended : Shared
all_ended = write_error "pool is closed" [] ping_ended

all_ended-Reach : Reach (beginning probes) all_ended
unfolding beginning end_probe write_error
all_ended-Reach =
    next
      (next
        (next
          (next (next here (ends (ping ∷ raw ∷ []) [] amqp refl refl))
            (ends (ping ∷ []) [] raw refl refl))
          (writes ("pool is closed" ∷ []) [] closed_text refl refl))
        (ends [] [] ping refl refl))
      (writes [] [] "pool is closed" refl refl)

-- No error is empty.
abbrev Told : String → Type 0
Told e = (e == "") ≡ false

ping-Gives : Gives probes Told ping
ping-Gives true e h = let same : "context canceled" ≡ e = cc h in subst Told same refl
ping-Gives false e h = absurd (cc h)

raw-Gives : Gives probes Told raw
raw-Gives c e h = let same : "pool is closed" ≡ e = cc h in subst Told same refl

amqp-Gives : Gives probes Told amqp
amqp-Gives c e h = let same : closed_text ≡ e = cc h in subst Told same refl

handle_k8s_healthz-Sound_example :
    (((handle_k8s_healthz all_ended).0 ≡ 200) ↔ Sound ping raw closed_one)
    × (((handle_k8s_healthz all_ended).0 ≡ 500) ⊎ ((handle_k8s_healthz all_ended).0 ≡ 200))
    × ((handle_k8s_healthz all_ended).0 ≡ 500 → Told (handle_k8s_healthz all_ended).1)
unfolding beginning end_probe write_error health_probes
handle_k8s_healthz-Sound_example =
    handle_k8s_healthz-Sound ping raw closed_one probes all_ended Told refl
      (ping-Gives, (raw-Gives, (amqp-Gives, tt))) all_ended-Reach refl refl

-- An error of the network that another wraps.
abbrev broken_pipe : WriteError
broken_pipe = record {
  op = some ("write", "write: broken pipe");
  cause = none;
  text = "tls: write: broken pipe";
}

abbrev retry : Retry
retry = record { connected = true; rewritten = none; ready = none }

abbrev write : List Reply → Bytes
write rs = whole "[]"
