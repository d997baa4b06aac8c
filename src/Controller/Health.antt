-- ===== src/Controller/Health.antt =====
-- HandleK8sHealthz of internal/app/agent/controller/other_controller.go: probes that run side by side over one
-- context and one error, which is read and written without a lock. A step is what runs between two
-- accesses of the error.
use mathlib.Core.Path.{subst}
use web3_rpc_proxy.Prelude.{
  ◌⊎◌, All, ap, sym, ◌∙◌, ℕ, String, ◌≡◌, ◌↔◌, refl, Bool, true, false, Option, none, some, List,
  [], ◌∷◌, ◌++◌, arith, Option-cases, inl, inr,
}

-- A probe: its error, if it has one, by whether the context was cancelled before it ended.
abbrev pub Probe : Type 0
Probe = Bool → Option String

-- The connection of amqp: none, open or closed.
pub data Connection : Type 0 where
  absent open_one closed_one : Connection

abbrev pub is_open : Connection → Bool
is_open absent = true
is_open open_one = true
is_open closed_one = false

abbrev pub closed_text : String
closed_text = "amqp connection is closed"

abbrev amqp_probe : Connection → List Probe
amqp_probe absent = []
amqp_probe open_one = (λ cancelled. none) ∷ []
amqp_probe closed_one = (λ cancelled. some closed_text) ∷ []

-- The probes: the ping of redis, the making of the database's statement, which is not sent, and the
-- connection of amqp if there is one. A client of redis or a database that is nil panics in the goroutine
-- of its probe, which ends the process: there are no probes.
unfoldable pub health_probes : Option Probe → Option Probe → Connection → Option (List Probe)
health_probes (some ping) (some raw) connection = some (ping ∷ raw ∷ amqp_probe connection)
health_probes none _ connection = none
health_probes _ none connection = none

-- The probes that still run, the errors of those that have found no error before them and are to write
-- theirs, and the shared variables: the error, and whether the context was cancelled.
pub record Shared : Type 0 where
  pub running : List Probe
  pub pending : List String
  pub err : Option String
  pub cancelled : Bool

unfoldable pub beginning : List Probe → Shared
beginning probes = record { running = probes; pending = []; err = none; cancelled = false }

-- A probe ends: without an error, or with one, which it is to write if there is none before it.
unfoldable pub end_probe : Probe → List Probe → Shared → Shared
end_probe probe rest s = elim (probe s.cancelled) [
  | none ↦ record s { running = rest }
  | some e ↦ elim s.err [
    | some f ↦ record s { running = rest }
    | none ↦ record s { running = rest; pending = e ∷ s.pending }
  ]
]

-- The error is written, whatever was written since it was read, and the context cancelled.
unfoldable pub write_error : String → List String → Shared → Shared
write_error e rest s = record s { pending = rest; err = some e; cancelled = true }

pub data Step (s t : Shared) : Type 0 where
  ends :
      (before after : List Probe) (probe : Probe)
      → s.running ≡ before ++ probe ∷ after
      → t ≡ end_probe probe (before ++ after) s
      → Step s t
  writes :
      (before after : List String) (e : String)
      → s.pending ≡ before ++ e ∷ after
      → t ≡ write_error e (before ++ after) s
      → Step s t

pub data Reach (s : Shared) : Shared → Type 0 where
  here : Reach s s
  next : {t u : Shared} → Reach s t → Step t u → Reach s u

-- The status and the body of the answer, when all have ended.
unfoldable pub handle_k8s_healthz : Shared → ℕ × String
handle_k8s_healthz s = elim s.err [ none ↦ (200, "ok") | some e ↦ (500, e) ]

module _ {A : Type 0} (P : A → Type 0) where
  All-remove : (xs : List A) (x : A) (ys : List A) → All P (xs ++ x ∷ ys) → P x × All P (xs ++ ys)
  All-remove [] x ys (h, k) = (h, k)
  All-remove (z ∷ xs) x ys (h, k) = let (p, q) = All-remove xs x ys k in (p, (h, q))

  All-insert : (xs : List A) (x : A) (ys : List A) → P x → All P (xs ++ ys) → All P (xs ++ x ∷ ys)
  All-insert [] x ys p k = (p, k)
  All-insert (z ∷ xs) x ys p (h, k) = (h, All-insert xs x ys p k)

no_middle {ℓ} : {A : Type ℓ} (xs : List A) (x : A) (ys : List A) → [] ≡ xs ++ x ∷ ys → ⊥
no_middle [] x ys h = cc h
no_middle (z ∷ xs) x ys h = cc h

-- It does not fail in a context that is not cancelled.
abbrev Fine : Probe → Type 0
Fine p = p false ≡ none

-- Neither the ping nor the statement fails in a context that is not cancelled, and the connection of
-- amqp, if there is one, is open.
abbrev pub Sound : Probe → Probe → Connection → Type 0
Sound ping raw connection = (ping false ≡ none) × (raw false ≡ none) × (is_open connection ≡ true)

Sound-iff :
    (ping raw : Probe) (connection : Connection)
    → All Fine (ping ∷ raw ∷ amqp_probe connection) ↔ Sound ping raw connection
Sound-iff ping raw absent = (λ (p, (r, u)). (p, r, refl), λ (p, r, o). (p, (r, tt)))
Sound-iff ping raw open_one = (λ (p, (r, u)). (p, r, refl), λ (p, r, o). (p, (r, (refl, tt))))
Sound-iff ping raw closed_one = (λ (p, (r, (c, u))). absurd (cc c), λ (p, r, o). absurd (cc o))

module _ (probes : List Probe) (Q : String → Type 0) where
  -- Every error of the probe is one of `Q`.
  abbrev pub Gives : Probe → Type 0
  Gives p = (cancelled : Bool) (e : String) → p cancelled ≡ some e → Q e

  record Inv (s : Shared) : Type 0 where
    untouched : s.err ≡ none → s.cancelled ≡ false
    -- Without an error, those that have ended were fine.
    unseen : s.err ≡ none → s.pending ≡ [] → All Fine s.running → All Fine probes
    -- Where all probes are fine there is no error.
    quiet : All Fine probes → (s.err ≡ none) × (s.pending ≡ []) × All Fine s.running
    running_give : All Gives s.running
    pending_of : All Q s.pending
    err_of : (e : String) → s.err ≡ some e → Q e

  beginning-Inv : All Gives probes → Inv (beginning probes)
  unfolding beginning
  beginning-Inv g = record {
    untouched = λ h. refl;
    unseen = λ h p a. a;
    quiet = λ a. (refl, refl, a);
    running_give = g;
    pending_of = tt;
    err_of = λ e h. absurd (cc h);
  }

  ended-Inv :
      (before after : List Probe) (probe : Probe) (s : Shared)
      → s.running ≡ before ++ probe ∷ after
      → Inv s
      → Inv (end_probe probe (before ++ after) s)
  unfolding end_probe
  ended-Inv before after probe s h v =
      let rest = before ++ after in
      let gives = All-remove Gives before probe after (subst (All Gives) h v.running_give) in
      let fine : All Fine probes → Fine probe × All Fine rest =
        λ a. All-remove Fine before probe after (subst (All Fine) h (v.quiet a).2) in
      elim (Option-cases (probe s.cancelled)) [
        | inl n ↦
            let ended : end_probe probe rest s ≡ record s { running = rest } = ground (arith, n) in
            subst Inv (sym ended) (record {
              untouched = v.untouched;
              unseen = λ q p a. v.unseen q p (
                  subst (All Fine) (sym h)
                    (All-insert Fine before probe after (ap probe (sym (v.untouched q)) ∙ n) a));
              quiet = λ a. ((v.quiet a).0, (v.quiet a).1, (fine a).1);
              running_give = gives.1;
              pending_of = v.pending_of;
              err_of = v.err_of;
            })
        | inr (e, n) ↦ elim (Option-cases s.err) [
          | inl m ↦
              let ended : end_probe probe rest s
                  ≡ record s { running = rest; pending = e ∷ s.pending } =
                ground (arith, n, m) in
              subst Inv (sym ended) (record {
                untouched = v.untouched;
                unseen = λ q p a. absurd (cc p);
                quiet = λ a. absurd (cc (n, ap probe (v.untouched m), (fine a).0));
                running_give = gives.1;
                pending_of = (gives.0 s.cancelled e n, v.pending_of);
                err_of = v.err_of;
              })
          | inr (f, m) ↦
              let ended : end_probe probe rest s ≡ record s { running = rest } =
                ground (arith, n, m) in
              subst Inv (sym ended) (record {
                untouched = v.untouched;
                unseen = λ q p a. absurd (cc (m, q));
                quiet = λ a. absurd (cc (m, (v.quiet a).0));
                running_give = gives.1;
                pending_of = v.pending_of;
                err_of = v.err_of;
              })
        ]
      ]

  written-Inv :
      (before after : List String) (e : String) (s : Shared)
      → s.pending ≡ before ++ e ∷ after
      → Inv s
      → Inv (write_error e (before ++ after) s)
  unfolding write_error
  written-Inv before after e s h v =
      let those = All-remove Q before e after (subst (All Q) h v.pending_of) in
      record {
        untouched = λ q. absurd (cc q);
        unseen = λ q p a. absurd (cc q);
        quiet = λ a. absurd (no_middle before e after (sym (v.quiet a).1 ∙ h));
        running_give = v.running_give;
        pending_of = those.1;
        err_of = λ f q. let same : e ≡ f = cc q in subst Q same those.0;
      }

  Reach-Inv : {t : Shared} → All Gives probes → Reach (beginning probes) t → Inv t
  Reach-Inv g here = beginning-Inv g
  Reach-Inv g (next r (ends before after probe h e)) =
      subst Inv (sym e) (ended-Inv before after probe _ h (Reach-Inv g r))
  Reach-Inv g (next r (writes before after x h e)) =
      subst Inv (sym e) (written-Inv before after x _ h (Reach-Inv g r))

-- Where redis and the database are there, however the probes and the writes of their errors interleave, when
-- all have ended: the answer is 200 if and only if neither the ping nor the statement fails in a context
-- that is not cancelled, and the connection of amqp, if there is one, is open; else it is 500, and whatever
-- is true of every error that a probe can give is true of the error that it has.
pub handle_k8s_healthz-Sound :
    (ping raw : Probe) (connection : Connection) (probes : List Probe) (t : Shared)
    (Q : String → Type 0)
    → health_probes (some ping) (some raw) connection ≡ some probes
    → All (Gives probes Q) probes
    → Reach (beginning probes) t
    → t.running ≡ []
    → t.pending ≡ []
    → (((handle_k8s_healthz t).0 ≡ 200) ↔ Sound ping raw connection)
      × (((handle_k8s_healthz t).0 ≡ 500) ⊎ ((handle_k8s_healthz t).0 ≡ 200))
      × ((handle_k8s_healthz t).0 ≡ 500 → Q (handle_k8s_healthz t).1)
unfolding handle_k8s_healthz health_probes
handle_k8s_healthz-Sound ping raw connection probes t Q h g r done written =
    let v = Reach-Inv probes Q g r in
    let sound = Sound-iff ping raw connection in
    let started : probes ≡ ping ∷ raw ∷ amqp_probe connection = cc h in
    elim (Option-cases t.err) [
      | inl n ↦
          let all = v.unseen n written (subst (All Fine) (sym done) tt) in
          let ok : handle_k8s_healthz t ≡ (200, "ok") = ground (arith, n) in
          (
            (λ k. sound.0 (subst (All Fine) started all), λ k. ap (λ x. x.0) ok),
            inr (ap (λ x. x.0) ok),
            λ k. absurd (ground (arith, ok, k)),
          )
      | inr (e, n) ↦
          let failed : handle_k8s_healthz t ≡ (500, e) = ground (arith, n) in
          let quiet : Sound ping raw connection → t.err ≡ none =
            λ k. (v.quiet (subst (All Fine) (sym started) (sound.1 k))).0 in
          (
            (λ k. absurd (ground (arith, failed, k)), λ k. absurd (cc (n, quiet k))),
            inl (ap (λ x. x.0) failed),
            λ k. subst Q (sym (ap (λ x. x.1) failed)) (v.err_of e n),
          )
    ]
