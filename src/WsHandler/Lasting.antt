-- ===== src/WsHandler/Lasting.antt =====
-- Which messages let a connection go on, and how a failed batch is answered.
use web3_rpc_proxy.Prelude.{
  ℕ, ◌+◌, String, ◌≡◌, refl, ap, ◌∙◌, Bool, true, false, Option, none, some, List, [], ◌∷◌, ◌++◌,
  length, length-append, leb, arith, Option-cases, Bool-cases, inl, inr, All,
}
use web3_rpc_proxy.Json.{Value, null, obj, arr, cons, nil, Fields, as_array}
use web3_rpc_proxy.Errors.{GoError, QueryStatus}
use web3_rpc_proxy.Controller.{Context}
use web3_rpc_proxy.WsHandler.{
  replied, Frame, text, binary, gone, Peeked, broken, bracket, other, Wire, Session, batch_id,
  single_id, error_answer, no_endpoints, call_error, go_text, fresh_context, send, count_if, reply,
  process, serve_message, serve_frame, serve_frames,
}
use web3_rpc_proxy.WsHandler.Messages.{texts, serve_frames-Answered}

abbrev pub is_gone : Frame → Bool
is_gone gone = true
is_gone _ = false

module _ {E F W : Type 0} (wire : Wire E F W) (chain : ℕ) where
  send_on :
      (answer : String) (s : Session W)
      → ((a : String) (w : W) → (wire.write a w).0 ≡ true)
      → (send wire chain answer s).0 ≡ true
  unfolding send
  send_on answer s h = h answer s.world

  count_if-on :
      (status : QueryStatus) (out : Bool × Session W) → (count_if wire chain status out).0 ≡ out.0
  count_if-on status (true, t) = refl
  count_if-on status (false, t) = refl

  reply_on :
      (batch : Bool) (i : Value) (r : (Option GoError × String) × W) (s : Session W)
      → ((a : String) (w : W) → (wire.write a w).0 ≡ true)
      → (reply wire chain batch i r s).0 ≡ true
  unfolding reply
  reply_on batch i ((some e, bytes), w) s h = count_if-on _ _ ∙ send_on _ (record s { world = w }) h
  reply_on batch i ((none, bytes), w) s h =
      count_if-on _ _ ∙ send_on bytes (record s { world = w }) h

  -- No call of the agent service panics.
  abbrev pub Calm : Type 0
  Calm =
      (c : Context F) (es : List E) (w : W)
      → wire.panicked (wire.services.agent_call c es w).1 ≡ false

  replied_on :
      (batch : Bool) (i : Value) (r : (Option GoError × String) × W) (s : Session W)
      → ((a : String) (w : W) → (wire.write a w).0 ≡ true)
      → wire.panicked r.1 ≡ false
      → (replied wire chain batch i r s).0 ≡ true
  replied_on batch i (r, w) s h m = rw m (reply_on batch i (r, w) s h)

  process_on :
      (message : String) (batch : Bool) (i : Value) (s : Session W)
      → ((a : String) (w : W) → (wire.write a w).0 ≡ true)
      → Calm
      → (process wire chain message batch i s).0 ≡ true
  unfolding process
  process_on message batch i s h m =
      let w = wire.arrives message s.world in
      let refused =
        send_on (wire.marshal (error_answer i no_endpoints)) (record s { world = w }) h in
      elim (Option-cases (wire.services.get_all chain w)) [
        | inl n ↦ rw (n, process) refused
        | inr (es, n) ↦ elim (Bool-cases (leb 1 (length es))) [
          | inl l ↦
              rw (n, l, process)
                (replied_on batch i (wire.services.agent_call (fresh_context chain) es w) s h
                  (m (fresh_context chain) es w))
          | inr l ↦ rw (n, l, process) refused
        ]
      ]

  serve_message_on :
      (message : String) (p : Peeked) (s : Session W)
      → ((a : String) (w : W) → (wire.write a w).0 ≡ true)
      → Calm
      → (serve_message wire chain message p s).0 ≡ true
  unfolding serve_message
  serve_message_on message (broken e) s h m = send_on _ s h
  serve_message_on message (bracket v) s h m = process_on message true (batch_id v) s h m
  serve_message_on message (other v) s h m = process_on message false (single_id v) s h m

  serve_frame_on :
      (f : Frame) (s : Session W)
      → ((a : String) (w : W) → (wire.write a w).0 ≡ true)
      → Calm
      → is_gone f ≡ false
      → (serve_frame wire chain f s).0 ≡ true
  unfolding serve_frame
  serve_frame_on gone s h m g = absurd (cc g)
  serve_frame_on binary s h m g = refl
  serve_frame_on (text message) s h m g = serve_message_on message (wire.peek message) s h m

  serve_frames_on :
      (fs : List Frame) (s : Session W)
      → ((a : String) (w : W) → (wire.write a w).0 ≡ true)
      → Calm
      → All (λ f. is_gone f ≡ false) fs
      → (serve_frames wire chain fs s).0 ≡ true
  unfolding serve_frames
  serve_frames_on [] s h m g = refl
  serve_frames_on (f ∷ fs) s h m g =
      rw (serve_frame_on f s h m g.0) (serve_frames_on fs (serve_frame wire chain f s).1 h m g.1)

  -- Where the client takes every answer, every message can be read, and no call of the agent service
  -- panics: the loop goes on after every message, also after one that is no JSON or whose call gives an
  -- error, and each text message has one answer.
  pub serve_frames-all :
      (fs : List Frame) (s : Session W)
      → ((a : String) (w : W) → (wire.write a w).0 ≡ true)
      → Calm
      → All (λ f. is_gone f ≡ false) fs
      → ((serve_frames wire chain fs s).0 ≡ true)
        × (length (serve_frames wire chain fs s).1.sent ≡ length s.sent + texts fs)
  serve_frames-all fs s h m g =
      let on = serve_frames_on fs s h m g in
      let a = serve_frames-Answered wire chain fs s in
      (
        on,
        ap length a.added
            ∙ length-append s.sent a.answers
            ∙ ap (λ n. length s.sent + n) (a.exact on),
      )

  -- A batch whose call fails is answered by one error in an array, its id null whatever ids the
  -- requests have, since the decoder has taken the bracket before the array is decoded.
  pub serve_frame-batch :
      (message : String) (fs : Fields) (e : GoError) (n : E) (ns : List E) (bytes : String)
      (x y : W) (s : Session W)
      → wire.peek message ≡ bracket (some (obj fs))
      → wire.services.get_all chain (wire.arrives message s.world) ≡ some (n ∷ ns)
      → wire.services.agent_call (fresh_context chain) (n ∷ ns) (wire.arrives message s.world)
        ≡ ((some e, bytes), x)
      → wire.panicked x ≡ false
      → wire.write (wire.marshal (arr (cons (error_answer null (call_error (go_text e))) nil))) x
        ≡ (true, y)
      → (serve_frame wire chain (text message) s).1.sent
        ≡ s.sent ++ wire.marshal (arr (cons (error_answer null (call_error (go_text e))) nil)) ∷ []
  unfolding serve_frame serve_message process reply send batch_id as_array
  serve_frame-batch message fs e n ns bytes x y s p g c m k = ground (arith, p, g, c, m, k)
