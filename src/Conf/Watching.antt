-- ===== src/Conf/Watching.antt =====
-- internal/app/shared/watcher.go: the handlers of a path in etcd, and the goroutines that wait for its
-- changes, one for each handler that was given.
use web3_rpc_proxy.Prelude.{
  ℕ, String, ◌≡◌, refl, true, false, Option, none, some, List, [], ◌∷◌, ◌++◌, ◌==◌, arith,
  string_comparable, beq_refl,
}
use web3_rpc_proxy.Prelude.Dict.{Dict, lookup, insert}
use web3_rpc_proxy.Conf.{Koanf, IsLawful, load_endpoint_chains}
use web3_rpc_proxy.Conf.Loading.{endpoints_token}
use web3_rpc_proxy.Conf.Reloading.{Handled, exited, panicked, done, Running, reload}

abbrev pub Handler : Type 0 → Type 0
Handler A = String → String → A → Handled A

-- A put with its value, which may be nil, or any other event.
pub data EtcdEvent : Type 0 where
  put : Option String → EtcdEvent
  other : EtcdEvent

pub record Watcher (A : Type 0) : Type 0 where
  pub path_handles : Dict String (List (Handler A))
  -- The paths that goroutines are watching.
  pub watching : List String

module _ {A : Type 0} where
  abbrev pub new_watcher : Watcher A
  new_watcher = record { path_handles = []; watching = [] }

  abbrev pub handles_or_nil : Option (List (Handler A)) → List (Handler A)
  handles_or_nil none = []
  handles_or_nil (some hs) = hs

  abbrev pub handles_of : String → Watcher A → List (Handler A)
  handles_of path w = handles_or_nil (lookup path w.path_handles)

  -- `OnChanaged`
  unfoldable pub on_changed : String → Handler A → Watcher A → Watcher A
  unfolding lookup insert
  on_changed path fn w = record {
    path_handles = insert path (handles_of path w ++ fn ∷ []) w.path_handles;
    watching = w.watching ++ path ∷ [];
  }

  -- The handlers of a value, one after the other.
  unfoldable pub call_handlers : String → String → List (Handler A) → A → Handled A
  call_handlers path value [] a = done a
  call_handlers path value (h ∷ hs) a = elim (h path value a) [
    | exited ↦ exited
    | panicked b ↦ panicked b
    | done b ↦ call_handlers path value hs b
  ]

  abbrev handle_event : String → List (Handler A) → EtcdEvent → A → Handled A
  handle_event path hs (put (some value)) a = call_handlers path value hs a
  handle_event path hs (put none) a = done a
  handle_event path hs other a = done a

  -- One response, in the loop of `watch`: a panic leaves the rest of it, and is recovered outside.
  unfoldable pub handle_events : String → List (Handler A) → List EtcdEvent → A → Handled A
  unfolding call_handlers
  handle_events path hs [] a = done a
  handle_events path hs (e ∷ es) a = elim (handle_event path hs e a) [
    | exited ↦ exited
    | panicked b ↦ panicked b
    | done b ↦ handle_events path hs es b
  ]

  abbrev keep_watching : String → Option (A × List String) → Option (A × List String)
  keep_watching q none = none
  keep_watching q (some (a, qs)) = some (a, q ∷ qs)

  -- Every goroutine that watches the path has the response; one that panics has ended. `none`: the
  -- process has exited.
  unfoldable pub respond_all :
      String → List (Handler A) → List EtcdEvent → List String → A → Option (A × List String)
  unfolding handle_events
  respond_all path hs es [] a = some (a, [])
  respond_all path hs es (q ∷ qs) a = elim (q == path) [
    | false ↦ keep_watching q (respond_all path hs es qs a)
    | true ↦ elim (handle_events path hs es a) [
      | exited ↦ none
      | panicked b ↦ respond_all path hs es qs b
      | done b ↦ keep_watching q (respond_all path hs es qs b)
    ]
  ]

  abbrev with_watching : Watcher A → Option (A × List String) → Option (A × Watcher A)
  with_watching w none = none
  with_watching w (some (a, qs)) = some (a, record w { watching = qs })

  -- A response of etcd for a path.
  unfoldable pub receive : String → List EtcdEvent → Watcher A → A → Option (A × Watcher A)
  unfolding respond_all
  receive path es w a = with_watching w (respond_all path (handles_of path w) es w.watching a)

  abbrev receive_next :
      (Watcher A → A → Option (A × Watcher A)) → Option (A × Watcher A) → Option (A × Watcher A)
  receive_next f none = none
  receive_next f (some (a, w)) = f w a

  -- All later responses.
  unfoldable pub receive_all :
      String → List (List EtcdEvent) → Watcher A → A → Option (A × Watcher A)
  unfolding receive
  receive_all path [] w a = some (a, w)
  receive_all path (es ∷ ess) w a = receive_next (receive_all path ess) (receive path es w a)

  -- A client in which no goroutine is left.
  abbrev pub deaf : Dict String (List (Handler A)) → Watcher A
  deaf m = record { path_handles = m; watching = [] }

  receive_all-deaf :
      (path : String) (ess : List (List EtcdEvent)) (m : Dict String (List (Handler A))) (a : A)
      → receive_all path ess (deaf m) a ≡ some (a, deaf m)
  unfolding receive_all
  receive_all-deaf path [] m a = refl
  receive_all-deaf path (es ∷ ess) m a = receive_all-deaf path ess m a

  -- The client whose only handler is this one.
  abbrev pub watching_by : String → Handler A → Watcher A
  watching_by path h = on_changed path h new_watcher

  receive_panicked :
      (path value : String) (h : Handler A) (a b : A)
      → h path value a ≡ panicked b
      → receive path (put (some value) ∷ []) (watching_by path h) a
        ≡ some (b, deaf ((path, h ∷ []) ∷ []))
  unfolding receive on_changed
  receive_panicked path value h a b e = ground (arith, e, beq_refl path)

module _ {L V S F : Type 0} (k : Koanf L V S) (decimal : ℕ → String)
    (parse_list : String → Option V) where
  abbrev pub reloading : Handler (Running F S)
  reloading path value r = reload k decimal parse_list value r

  -- A list of endpoints that parses, but cannot be read as chains, ends the watch: the list is in the
  -- configuration, but no chain is set and the cache of endpoints is not purged; and nothing that
  -- etcd says of the path afterwards has any effect.
  pub receive_all-lost :
      (path value : String) (v : V) (later : List (List EtcdEvent)) (r : Running F S)
      → IsLawful k
      → parse_list value ≡ some v
      → k.is_map v ≡ false
      → k.list_of v ≡ none
      → (w : Watcher (Running F S)) × (receive_all path
            ((put (some value) ∷ []) ∷ later)
            (watching_by path reloading)
            r
          ≡ some (record r { conf = k.set endpoints_token v r.conf }, w))
        × (w.watching ≡ [])
  unfolding receive_all
  receive_all-lost path value v later r h p m l =
      let s = k.set endpoints_token v r.conf in
      let lost : reload k decimal parse_list value r ≡ panicked (record r { conf = s }) =
        unfold reload load_endpoint_chains in
        ground (
          arith,
          p,
          l,
          h.exists-set endpoints_token v r.conf m,
          h.get-set endpoints_token v r.conf m,
        ) in
      let handles = (path, reloading ∷ []) ∷ [] in
      (
        deaf handles,
        rw (receive_panicked path value reloading r (record r { conf = s }) lost)
            (receive_all-deaf path later handles (record r { conf = s })),
        refl,
      )
