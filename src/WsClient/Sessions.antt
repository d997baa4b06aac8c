-- ===== src/WsClient/Sessions.antt =====
-- The sessions of a client: requests wait for the results of their key, and one reader hands them
-- over. A channel is named by the request that made it, and a step is what runs between two waits;
-- `key` is the key of each request and `result_key` that of a message.
use web3_rpc_proxy.Prelude.{
  ℕ, String, ◌≡◌, Bool, true, false, ◌||◌, Option, none, some, List, [], ◌==◌, nat_comparable,
  string_comparable, if◌then◌else◌,
}
use web3_rpc_proxy.Prelude.Dict.{Dict, lookup, insert, remove}
use web3_rpc_proxy.Rpc.{Reply}
use web3_rpc_proxy.WsClient.{Ending, answered, closed, late, unsent}

-- A request before it has stored its session, in its select, in its deferred function, and after it.
pub data Phase : Type 0 where
  idle waiting : Phase
  leaving finished : Ending → Phase

pub record Client : Type 0 where
  pub sessions : Dict String ℕ
  pub phase : ℕ → Phase
  pub is_closed : ℕ → Bool
  pub holding : Option (ℕ × List Reply)
  pub alive : Bool

abbrev pub new_client : Client
new_client = record {
  sessions = [];
  phase = λ i. idle;
  is_closed = λ i. false;
  holding = none;
  alive = true;
}

abbrev pub at {ℓ} : {A : Type ℓ} → ℕ → A → (ℕ → A) → ℕ → A
at i v f j = if i == j then v else f j

module _ (key : ℕ → String) (result_key : List Reply → String) where
  -- A request stores its channel, replacing whatever its key led to, and writes its message.
  unfoldable pub started : ℕ → Client → Client
  started i s = record s { sessions = insert (key i) i s.sessions; phase = at i waiting s.phase }

  -- The reader has a message, and holds it for the channel of its key; without one it is dropped.
  unfoldable pub received : List Reply → Client → Client
  received rs s = elim (lookup (result_key rs) s.sessions) [
    | none ↦ s
    | some c ↦ record s { holding = some (c, rs) }
  ]

  -- A channel without a buffer: the results are sent when the request takes them.
  unfoldable pub handed : ℕ → List Reply → Client → Client
  handed i rs s = record s { phase = at i (leaving (answered rs)) s.phase; holding = none }

  -- A request whose select has ended in another way, or whose message could not be written.
  unfoldable pub ended : ℕ → Ending → Client → Client
  ended i e s = record s { phase = at i (leaving e) s.phase }

  -- The deferred function: the channel that the key leads to is closed, whosever it is.
  unfoldable pub left : ℕ → Ending → Client → Client
  left i e s = elim (lookup (key i) s.sessions) [
    | none ↦ record s { phase = at i (finished e) s.phase }
    | some c ↦ record s {
      sessions = remove (key i) s.sessions;
      is_closed = at c true s.is_closed;
      phase = at i (finished e) s.phase;
    }
  ]

  -- The reader ends, after a panic (sending on a closed channel) or when its connection is gone.
  unfoldable pub stopped : Client → Client
  stopped s = record s { holding = none; alive = false }

  -- A new connection has a reader of its own; the old one, which waits for messages, has no effect any more.
  unfoldable pub reconnected : Client → Client
  reconnected s = record s { holding = none; alive = true }

  pub data Step (s t : Client) : Type 0 where
    starts : (i : ℕ) → s.phase i ≡ idle → t ≡ started i s → Step s t
    receives : (rs : List Reply) → s.alive ≡ true → s.holding ≡ none → t ≡ received rs s → Step s t
    hands :
        (i : ℕ) (rs : List Reply)
        → s.holding ≡ some (i, rs)
        → s.phase i ≡ waiting
        → s.is_closed i ≡ false
        → t ≡ handed i rs s
        → Step s t
    sees_closed :
        (i : ℕ) → s.phase i ≡ waiting → s.is_closed i ≡ true → t ≡ ended i closed s → Step s t
    times_out : (i : ℕ) → s.phase i ≡ waiting → t ≡ ended i late s → Step s t
    fails : (i : ℕ) (text : String) → s.phase i ≡ waiting → t ≡ ended i (unsent text) s → Step s t
    leaves : (i : ℕ) (e : Ending) → s.phase i ≡ leaving e → t ≡ left i e s → Step s t
    -- The connection is closed, or its context is done.
    breaks : s.alive ≡ true → s.holding ≡ none → t ≡ stopped s → Step s t
    -- After a close message, or a write into a broken pipe.
    reconnects : s.holding ≡ none → t ≡ reconnected s → Step s t
    panics :
        (i : ℕ) (rs : List Reply)
        → s.holding ≡ some (i, rs)
        → s.is_closed i ≡ true
        → t ≡ stopped s
        → Step s t

  pub data Reach (s : Client) : Client → Type 0 where
    here : Reach s s
    next : {t u : Client} → Reach s t → Step t u → Reach s u

  abbrev pub is_reconnect : {s t : Client} → Step s t → Bool
  is_reconnect (reconnects h e) = true
  is_reconnect _ = false

  -- Whether the connection stays the same.
  abbrev pub has_reconnect : {s t : Client} → Reach s t → Bool
  has_reconnect here = false
  has_reconnect (next r x) = is_reconnect x || has_reconnect r
