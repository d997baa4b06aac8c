-- ===== src/WsHandler/Messages.antt =====
-- The answers of a connection, and the ids that errors are answered with.
use mathlib.Core.List.{append_assoc, append-nil}
use mathlib.Core.Path.{subst}
use web3_rpc_proxy.Prelude.{
  ℕ, ◌+◌, ◌≤◌, String, ◌≡◌, refl, sym, ap, ◌∙◌, Bool, true, false, Option, none, some, List, [],
  ◌∷◌, ◌++◌, length, length-append, leb, arith, Option-cases, Bool-cases, inl, inr, if◌then◌else◌,
}
use web3_rpc_proxy.Json.{Value}
use web3_rpc_proxy.Errors.{GoError, QueryStatus}
use web3_rpc_proxy.WsHandler.{
  replied, Frame, text, binary, gone, Peeked, broken, bracket, other, Wire, Session, batch_id,
  single_id, error_answer, no_endpoints, send, count_if, reply, process, serve_message, serve_frame,
  serve_frames,
}

abbrev pub is_text : Frame → Bool
is_text (text m) = true
is_text _ = false

-- How many messages are to be answered.
abbrev pub texts : List Frame → ℕ
texts [] = 0
texts (f ∷ fs) = if is_text f then 1 + texts fs else texts fs

module _ {E F W : Type 0} (wire : Wire E F W) (chain : ℕ) where
  -- What was written since a session, at most so much, and just so much if the loop goes on.
  pub record Answered (n : ℕ) (s : Session W) (out : Bool × Session W) : Type 0 where
    pub answers : List String
    pub added : out.1.sent ≡ s.sent ++ answers
    pub at_most : length answers ≤ n
    pub exact : out.0 ≡ true → length answers ≡ n

  send-Answered :
      (answer : String) (s t : Session W)
      → t.sent ≡ s.sent
      → Answered 1 s (send wire chain answer t)
  unfolding send
  send-Answered answer s t h = elim (Bool-cases (wire.write answer t.world).0) [
    | inl e ↦ record {
      answers = answer ∷ [];
      added = ground (arith, e, h);
      at_most = omega arith;
      exact = λ x. refl;
    }
    | inr e ↦ record {
      answers = [];
      added = ground (arith, e, h, append-nil s.sent);
      at_most = omega arith;
      exact = λ x. absurd (ground (arith, e, x));
    }
  ]

  count_if-Answered :
      (n : ℕ) (s : Session W) (status : QueryStatus) (out : Bool × Session W)
      → Answered n s out
      → Answered n s (count_if wire chain status out)
  count_if-Answered n s status (true, t) a = record {
    answers = a.answers;
    added = a.added;
    at_most = a.at_most;
    exact = a.exact;
  }
  count_if-Answered n s status (false, t) a = a

  reply-Answered :
      (batch : Bool) (i : Value) (r : (Option GoError × String) × W) (s : Session W)
      → Answered 1 s (reply wire chain batch i r s)
  unfolding reply
  reply-Answered batch i ((some e, bytes), w) s =
      count_if-Answered 1 s _ _ (send-Answered _ s (record s { world = w }) refl)
  reply-Answered batch i ((none, bytes), w) s =
      count_if-Answered 1 s _ _ (send-Answered bytes s (record s { world = w }) refl)

  replied-Answered :
      (batch : Bool) (i : Value) (r : (Option GoError × String) × W) (s : Session W)
      → Answered 1 s (replied wire chain batch i r s)
  replied-Answered batch i (r, w) s = elim (Bool-cases (wire.panicked w)) [
    | inl p ↦ rw p (record {
      answers = [];
      added = sym (append-nil s.sent);
      at_most = omega arith;
      exact = λ x. absurd (cc x);
    })
    | inr p ↦ rw p (reply-Answered batch i (r, w) s)
  ]

  process-Answered :
      (message : String) (batch : Bool) (i : Value) (s : Session W)
      → Answered 1 s (process wire chain message batch i s)
  unfolding process
  process-Answered message batch i s =
      let w = wire.arrives message s.world in
      let refused =
        send-Answered (wire.marshal (error_answer i no_endpoints)) s (record s { world = w })
          refl in
      elim (Option-cases (wire.services.get_all chain w)) [
        | inl n ↦ rw (n, process) refused
        | inr (es, n) ↦ elim (Bool-cases (leb 1 (length es))) [
          | inl l ↦ rw (n, l, process) (replied-Answered batch i _ s)
          | inr l ↦ rw (n, l, process) refused
        ]
      ]

  serve_message-Answered :
      (message : String) (p : Peeked) (s : Session W)
      → Answered 1 s (serve_message wire chain message p s)
  unfolding serve_message
  serve_message-Answered message (broken e) s = send-Answered _ s s refl
  serve_message-Answered message (bracket v) s = process-Answered message true (batch_id v) s
  serve_message-Answered message (other v) s = process-Answered message false (single_id v) s

  serve_frame-Answered :
      (f : Frame) (s : Session W) → Answered (texts (f ∷ [])) s (serve_frame wire chain f s)
  unfolding serve_frame
  serve_frame-Answered gone s = record {
    answers = [];
    added = sym (append-nil s.sent);
    at_most = omega arith;
    exact = λ x. refl;
  }
  serve_frame-Answered binary s = record {
    answers = [];
    added = sym (append-nil s.sent);
    at_most = omega arith;
    exact = λ x. refl;
  }
  serve_frame-Answered (text message) s = serve_message-Answered message (wire.peek message) s

  and_then-Answered :
      (m n : ℕ) (s : Session W) (out rest : Bool × Session W)
      → Answered m s out
      → Answered n out.1 rest
      → Answered (m + n) s (if out.0 then rest else (false, out.1))
  and_then-Answered m n s (true, t) rest a b = record {
    answers = a.answers ++ b.answers;
    added = b.added ∙ ap (λ xs. xs ++ b.answers) a.added ∙ append_assoc s.sent a.answers b.answers;
    at_most = omega (arith, a.at_most, b.at_most, length-append a.answers b.answers);
    exact = λ x. omega (arith, a.exact refl, b.exact x, length-append a.answers b.answers);
  }
  and_then-Answered m n s (false, t) rest a b = record {
    answers = a.answers;
    added = a.added;
    at_most = omega (arith, a.at_most);
    exact = λ x. absurd (cc x);
  }

  texts-cons : (f : Frame) (fs : List Frame) → texts (f ∷ fs) ≡ texts (f ∷ []) + texts fs
  texts-cons f fs = elim (Bool-cases (is_text f)) [
    | inl e ↦ ground (arith, e)
    | inr e ↦ ground (arith, e)
  ]

  -- Messages are answered one by one and in their order: what is written is appended to what was written
  -- before, at most one answer for each text message, and exactly one for each if the loop does not end.
  pub serve_frames-Answered :
      (fs : List Frame) (s : Session W) → Answered (texts fs) s (serve_frames wire chain fs s)
  unfolding serve_frames
  serve_frames-Answered [] s = record {
    answers = [];
    added = sym (append-nil s.sent);
    at_most = omega arith;
    exact = λ x. refl;
  }
  serve_frames-Answered (f ∷ fs) s =
      subst (λ n. Answered n s (serve_frames wire chain (f ∷ fs) s)) (sym (texts-cons f fs))
        (and_then-Answered (texts (f ∷ [])) (texts fs) s (serve_frame wire chain f s)
          (serve_frames wire chain fs (serve_frame wire chain f s).1) (serve_frame-Answered f s)
          (serve_frames-Answered fs (serve_frame wire chain f s).1))
