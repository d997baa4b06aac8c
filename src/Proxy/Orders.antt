-- ===== src/Proxy/Orders.antt =====
-- A request that is sent to endpoints in any order, of which at least one answers.
use mathlib.Core.Path.{subst}
use web3_rpc_proxy.Prelude.{
  leb, ℕ, suc, ◌+◌, ◌≤◌, ◌≡◌, ◌∙◌, sym, refl, ap, Bool, true, false, ◌||◌, Option, none, some,
  is_some, List, [], ◌∷◌, ◌++◌, length, length-append, contains, arith, nat_comparable, All,
  Option-cases, inl, inr,
}
use web3_rpc_proxy.Prelude.Int.{pos_part}
use web3_rpc_proxy.Reqctx.{rotation}
use web3_rpc_proxy.Rpc.{Sealed, Reply}
use web3_rpc_proxy.Endpoint.{State, health}
use web3_rpc_proxy.EndpointService.Service.{state_at}
use web3_rpc_proxy.CoreClient.{Limits, succeeded}
use web3_rpc_proxy.Proxy.{World, Wiring, send_request}
use web3_rpc_proxy.Proxy.Calls.{Fit}
use web3_rpc_proxy.Proxy.Clients.{OverHttp, IsLru, Unlike, Own}
use web3_rpc_proxy.Proxy.Rounds.{Refuses, Answers}
use web3_rpc_proxy.Proxy.Failover.{send_request-failover}

-- One endpoint of a list answers.
unfoldable pub some_answers : {A : Type 0} → (ℕ → Option A) → List ℕ → Bool
some_answers answer [] = false
some_answers answer (e ∷ es) = is_some (answer e) || some_answers answer es

-- The replies of an endpoint that gives one.
abbrev pub alone : Option Reply → Option (Reply × List Reply)
alone none = none
alone (some reply) = some (reply, [])

pub alone_found :
    (o : Option Reply) (rs : Reply × List Reply) → alone o ≡ some rs → (o ≡ some rs.0) × (rs.1 ≡ [])
alone_found none rs h = absurd (cc h)
alone_found (some reply) rs h =
    let same : (reply, []) ≡ rs = cc h in (ap (λ r. some r.0) same, sym (ap (λ r. r.1) same))

pub some_answers-alone :
    (answer : ℕ → Option Reply) (es : List ℕ)
    → some_answers (λ e. alone (answer e)) es ≡ some_answers answer es
unfolding some_answers
some_answers-alone answer [] = refl
some_answers-alone answer (e ∷ es) = elim (Option-cases (answer e)) [
  | inl q ↦ rw (q, some_answers-alone answer es) refl
  | inr (r, q) ↦ rw q refl
]

pub contains-nonempty : (es : List ℕ) (e : ℕ) → contains es e ≡ true → leb 1 (length es) ≡ true
contains-nonempty [] e h = absurd (cc h)
contains-nonempty (x ∷ es) e h = ground arith

Fit-le :
    {F : Type 0} (k n : ℕ) (heap : List (State F)) (r : ℕ) → k ≤ n → Fit n heap r → Fit k heap r
Fit-le k n heap r l f = record {
  count = f.count;
  address = f.address;
  placed = f.placed;
  counted = f.counted;
  room = omega (arith, f.room);
  addressed = f.addressed;
}

All-Fit-le :
    {F : Type 0} (k n : ℕ) (heap : List (State F)) (rs : List ℕ)
    → k ≤ n
    → All (Fit n heap) rs
    → All (Fit k heap) rs
All-Fit-le k n heap [] l h = tt
All-Fit-le k n heap (r ∷ rs) l (f, h) = (Fit-le k n heap r l f, All-Fit-le k n heap rs l h)

module _ {C F R : Type 0} (wiring : Wiring C F R) (sealed : List Sealed)
    (answer : ℕ → Option (Reply × List Reply)) where
  -- An endpoint refuses every call, or answers every call with these replies.
  abbrev pub Behaves : Option (Reply × List Reply) → ℕ → Type 0
  Behaves none e = Refuses wiring sealed e
  Behaves (some (reply, replies)) e =
      Answers wiring sealed e (reply ∷ replies) × (succeeded none (some (reply ∷ replies)) ≡ true)

  module _ (n : ℕ) (heap : List (State F)) where
    -- It is called over HTTP, behaves so, and can still count so many calls.
    abbrev pub Ready : ℕ → Type 0
    Ready e = OverHttp wiring e × Behaves (answer e) e × Fit n heap e

    record Split (es : List ℕ) : Type 0 where
      pub refusing : List ℕ
      pub rest : List ℕ
      pub e : ℕ
      pub reply : Reply
      pub replies : List Reply
      pub shape : es ≡ refusing ++ e ∷ rest
      pub found : answer e ≡ some (reply, replies)
      pub there : contains es e ≡ true
      pub refuse : All (λ r. OverHttp wiring r × Refuses wiring sealed r) refusing
      pub over : OverHttp wiring e
      pub good : Behaves (some (reply, replies)) e
      pub fits : All (Fit n heap) refusing
      pub fit : Fit n heap e

    -- A list of such endpoints up to the first that answers.
    split : (es : List ℕ) → some_answers answer es ≡ true → All Ready es → Split es
    unfolding some_answers
    split [] h a = absurd (cc h)
    split (x ∷ es) h ((o, b, f), a) = elim (Option-cases (answer x)) [
      | inl q ↦
          let s = split es (ground (arith, q, h)) a in
          record {
            refusing = x ∷ s.refusing;
            rest = s.rest;
            e = s.e;
            reply = s.reply;
            replies = s.replies;
            shape = ap (λ l. x ∷ l) s.shape;
            found = s.found;
            there = ground (arith, s.there);
            refuse = ((o, subst (λ r. Behaves r x) q b), s.refuse);
            over = s.over;
            good = s.good;
            fits = (f, s.fits);
            fit = s.fit;
          }
      | inr ((reply, replies), q) ↦ record {
        refusing = [];
        rest = es;
        e = x;
        reply = reply;
        replies = replies;
        shape = refl;
        found = q;
        there = ground arith;
        refuse = tt;
        over = o;
        good = subst (λ r. Behaves r x) q b;
        fits = tt;
        fit = f;
      }
    ]

  -- Whatever the order of the endpoints: under rotation with as many attempts as there are endpoints,
  -- each called over HTTP by an address of which a request can be made; where each of them either refuses
  -- every call, by an error that is no timeout, or answers every call with its own replies, none of them
  -- an error, and can still count the calls; where golang-lru keeps the clients as it documents, and the
  -- endpoints have different URLs, under which no client of another endpoint is kept: if at least one of them answers, the request returns the
  -- replies of one of the list, without an error or a panic, and leaves it healthy.
  pub send_request-some_answers :
      (limits : Limits) (es : List ℕ) (w : World F R)
      → limits.strategy ≡ rotation
      → length es ≤ pos_part limits.attempts
      → All (Ready (length es) w.heap) es
      → some_answers answer es ≡ true
      → IsLru wiring
      → Unlike wiring es
      → Own wiring es w.rest
      → (e : ℕ) × (rs : Reply × List Reply) × (w' : World F R) × (contains es e ≡ true)
        × (answer e ≡ some rs)
        × (send_request wiring limits es sealed w ≡ ((none, rs.0 ∷ rs.1), w'))
        × (w'.panicked ≡ w.panicked)
        × (health (state_at w'.heap e) ≡ true)
  send_request-some_answers limits es w strategy l ready some_one lru unlike own =
      let s = split (length es) w.heap es some_one ready in
      let longer : length es ≡ length s.refusing + suc (length s.rest) =
        ap length s.shape ∙ length-append s.refusing (s.e ∷ s.rest) in
      let enough : suc (length s.refusing) ≤ length es = omega (arith, longer) in
      let (w', sent, calm, marked) =
        send_request-failover wiring sealed limits s.refusing s.rest s.e s.reply s.replies w
          strategy (omega (arith, enough, l)) s.refuse s.over (s.good.0) (s.good.1)
          (All-Fit-le (suc (length s.refusing)) (length es) w.heap s.refusing enough s.fits)
          (Fit-le (suc (length s.refusing)) (length es) w.heap s.e enough s.fit) lru
          (subst (Unlike wiring) s.shape unlike) (subst (λ xs. Own wiring xs w.rest) s.shape own) in
      (
        s.e,
        (s.reply, s.replies),
        w',
        s.there,
        s.found,
        subst (λ xs. send_request wiring limits xs sealed w ≡ ((none, s.reply ∷ s.replies), w'))
            (sym s.shape) sent,
        calm,
        marked s.e ∙ ground arith,
      )
