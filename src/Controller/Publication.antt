-- ===== src/Controller/Publication.antt =====
-- What a call leaves in the message queue: the end of HandleCall and `publish` of
-- internal/app/agent/controller/agent_controller.go. The library of amqp and encoding/json are the record
-- `Broker`; metrics and logs are left out.
use Prim.Native.String.{◌++◌ as str_append}
use web3_rpc_proxy.Prelude.{
  ℕ, String, Bool, not, ◌&&◌, Option, none, some, ◌==◌, nat_comparable, if◌then◌else◌,
}
use web3_rpc_proxy.Tenant.{App}

-- A message of type application/json with its routing key.
pub record Message : Type 0 where
  pub exchange : String
  pub key : String
  pub body : String

-- Whether the connection and the channel are there, the profile's JSON if it has one, and what a
-- publication gives.
pub record Broker (P W : Type 0) : Type 0 where
  pub connected : Bool
  pub has_channel : Bool
  pub is_closed : W → Bool
  pub marshal : P → Option String
  pub decimal : ℕ → String
  pub publish : Message → W → Option String × W

pub data Published : Type 0 where
  skipped : Published
  panicked : Published
  failed : String → Published
  sent : Published

module _ {P W : Type 0} (b : Broker P W) (exchange : String) where
  -- The bytes are nil where the profile has no JSON, and are sent all the same.
  abbrev body_or_nil : Option String → String
  body_or_nil none = ""
  body_or_nil (some s) = s

  -- The app of an answer that has none counts as 0.
  abbrev pub app_id : {F : Type 0} → Option (App F) → ℕ
  app_id none = 0
  app_id (some app) = app.info.id

  abbrev pub message : ℕ → ℕ → P → Message
  message chain app profile = record {
    exchange = exchange;
    key = str_append "query." (str_append (b.decimal chain) (str_append "." (b.decimal app)));
    body = body_or_nil (b.marshal profile);
  }

  abbrev of_publish : Option String × W → Published × W
  of_publish (none, w) = (sent, w)
  of_publish (some e, w) = (failed e, w)

  -- `publish`; the panic of a channel that is nil is recovered.
  unfoldable pub publish : {F : Type 0} → ℕ → Option (App F) → P → W → Published × W
  publish chain app profile w =
      if b.is_closed w
      then (skipped, w)
      else if b.has_channel
      then of_publish (b.publish (message chain (app_id app) profile) w)
      else (panicked, w)

  -- The report at the end of HandleCall.
  unfoldable pub report : {F : Type 0} → ℕ → Option (App F) → P → W → Published × W
  unfolding publish
  report chain app profile w =
      if b.connected && not (chain == 0) then publish chain app profile w else (skipped, w)
