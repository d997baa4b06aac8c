-- ===== src/Lifecycle/Reporting.antt =====
-- What becomes of the reports of calls when amqp could only be reached in part.
use web3_rpc_proxy.Prelude.{
  ℕ, String, ◌≡◌, true, false, Option, none, some, ◌==◌, nat_comparable, arith,
}
use web3_rpc_proxy.Tenant.{App}
use web3_rpc_proxy.Lifecycle.{Call, dial_amqp, open_channel, Parts, Setup, connect_amqp}
use web3_rpc_proxy.Controller.Publication.{Broker, Published, skipped, panicked, report}

-- The broker with the pointers that a start has left.
abbrev pub reached_by : {P W : Type 0} → Parts → Broker P W → Broker P W
reached_by p b = record b { connected = p.connection; has_channel = p.channel }

module _ {P W F : Type 0} (fails : Call → Option String) (setup : Setup) (p : Parts)
    (b : Broker P W) (exchange : String) (chain : ℕ) (app : Option (App F)) (profile : P)
    (w : W) where
  -- The report of a call after amqp was connected to.
  abbrev pub reported : Published × W
  reported = report (reached_by (connect_amqp fails setup p).1 b) exchange chain app profile w

  -- Where amqp is configured and dialled, but gives no channel: the error is returned, the connection stays,
  -- so that every later call of a chain is reported over a channel that is nil, while the connection is
  -- open: that panics, and no message is sent.
  pub reported-panicked :
      (e : String)
      → setup.amqp_url ≡ true
      → fails dial_amqp ≡ none
      → fails open_channel ≡ some e
      → setup.failed_channel_leaves ≡ false
      → (chain == 0) ≡ false
      → b.is_closed w ≡ false
      → ((connect_amqp fails setup p).0 ≡ some e) × (reported ≡ (panicked, w))
  unfolding connect_amqp report
  reported-panicked e u d o l c n = (ground (arith, u, d, o), ground (arith, u, d, o, l, c, n))

  -- Without a connection of amqp nothing is reported.
  pub reported-skipped : setup.amqp_url ≡ false → p.connection ≡ false → reported ≡ (skipped, w)
  unfolding connect_amqp report
  reported-skipped u c = ground (arith, u, c)
