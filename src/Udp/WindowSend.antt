-- ===== src/Udp/WindowSend.antt =====
-- network/udp_queue.cpp: the window of MAX_FLIGHT chunks, kept by `do_send`.
use firestr.Prelude.{
  ℕ, zero, suc, ◌+◌, ◌-◌, ◌*◌, ◌%◌, ◌^◌, List-cases, ◌≤◌, ◌≡◌, ◌≢◌, ◌⊎◌, inl, inr, refl, sym, subst,
  ◌∙◌, Bool, true, false, not, ◌&&◌, List, [], ◌∷◌, ◌++◌, Bytes, Option, none, some, Outcome, ok,
  Ensures, Ensures-ok, Ensures-aborted, Ensures-out_of_fuel, Ensures-if, Ensures-require,
  Ensures-bind, Ensures-imp, arith, length, min, set, get_elem?, ltb, leb, ◌==◌, ==_iff,
  if◌then◌else◌, nat_eq, All, Bool-cases, Option-cases,
}
use firestr.Prelude.Maps.{find, assign, find-assign_same, find-assign_other}
use firestr.Udp.Chunk.{MessageChunk, max_flight, nth_chunk, udp_chunk_size}
use firestr.Udp.Assemble.{WorkingMessage, WorkingMessages, is_data}
use firestr.Udp.Wire.{encode_udp_wire}
use firestr.Udp.Connection.{Connection, RingItem, is_robust, sent_chunk, get_next_chunk}
use firestr.Udp.Sending.{
  incr_next_message, queue_again, queue_got, queue_from, at_next, next_turn, queue_loop,
  queue_next_chunk, send_next, do_send, write_chunk,
}
use firestr.Udp.Window.{InWindow, Windows, Kept, sent_chunk-Kept}

-- A queued chunk that `do_send` does not hand to `sent_chunk`.
abbrev pub Harmless : MessageChunk → Type 0
Harmless c = (not c.resent && is_data c.type) ≡ false

-- A connection between two handlers.
pub record IsCalm (k : Connection) : Type 0 where
  pub windows : Windows k.out_working
  pub harmless : All Harmless k.out_queue

abbrev Others : ℕ → WorkingMessages → Type 0
Others s w = (t : ℕ) (wm : WorkingMessage) → t ≢ s → find t w ≡ some wm → InWindow t wm

-- A message that has just queued a chunk.
record IsLoaded (s : ℕ) (wm : WorkingMessage) : Type 0 where
  sequence : wm.proto.sequence ≡ s
  sends : (not wm.proto.resent && is_data wm.proto.type) ≡ true
  queued : wm.queued ≡ 1
  in_flight : (if is_robust wm.proto.type then wm.in_flight + 1 else wm.in_flight) ≤ max_flight

-- A connection between `queue_next_chunk` and the sending.
data Ready (k : Connection) : Type 0 where
  calm : IsCalm k → Ready k
  loaded :
      (c : MessageChunk) (wm : WorkingMessage)
      → k.out_queue ≡ c ∷ []
      → (not c.resent && is_data c.type) ≡ true
      → Others c.sequence k.out_working
      → find c.sequence k.out_working ≡ some wm
      → IsLoaded c.sequence wm
      → Ready k

abbrev sends_once : MessageChunk → Bool
sends_once c = not c.resent && is_data c.type

-- A chunk has the sequence number and the kind of its prototype.
abbrev Like : MessageChunk → MessageChunk → Type 0
Like p c = (c.sequence ≡ p.sequence) × (sends_once c ≡ sends_once p)

nth_chunk-Like : (n : ℕ) (p : MessageChunk) (b : Bytes) → Ensures (Like p) (nth_chunk n p b)
unfolding nth_chunk
nth_chunk-Like n p b =
    let size : ℕ =
      (min (length b) (n * udp_chunk_size + udp_chunk_size) + 2 ^ 64 - n * udp_chunk_size)
      % 2 ^ 64 in
    Ensures-require (Like p) (ltb n p.total_chunks)
      (λ _. Ensures-require (Like p) (ltb 0 size) (λ _. Ensures-ok (Like p) (refl, refl)))

abbrev Next : ℕ → Option (MessageChunk × WorkingMessage) → Type 0
Next s none = Unit
Next s (some (c, wm)) = (c.sequence ≡ s) × (sends_once c ≡ true) × IsLoaded s wm

room :
    (b : Bool) (f q : ℕ)
    → q ≡ 0
    → f ≤ max_flight
    → ((max_flight - ((if b then f else 0) + q)) == 0) ≡ false
    → (if b then f + 1 else f) ≤ max_flight
room true f q h l e = ground arith
room false f q h l e = l

get_next_chunk-Next :
    (s : ℕ) (wm : WorkingMessage) → InWindow s wm → Ensures (Next s) (get_next_chunk wm)
unfolding get_next_chunk
get_next_chunk-Next s wm i =
    let f : ℕ = if is_robust wm.proto.type then wm.in_flight else 0 in
    Ensures-require (Next s) (ltb 0 wm.proto.total_chunks) (λ _.
      Ensures-if (Next s) (ltb max_flight (f + wm.queued)) (λ _. Ensures-ok (Next s) tt)
        (λ _.
          Ensures-if (Next s) ((max_flight - (f + wm.queued)) == 0) (λ _. Ensures-ok (Next s) tt)
            (λ e.
              Ensures-if (Next s) (leb wm.proto.total_chunks wm.next_send)
                (λ _. Ensures-ok (Next s) tt)
                (λ _. Ensures-bind (Next s) (nth_chunk wm.next_send wm.proto wm.content) (λ c g.
                  let (same, kind) =
                    (nth_chunk-Like wm.next_send wm.proto wm.content).ensured c g in
                  Ensures-ok (Next s) (
                    same ∙ i.sequence,
                    kind ∙ i.sends,
                    record {
                      sequence = i.sequence;
                      sends = i.sends;
                      queued = omega (arith, i.queued);
                      in_flight =
                          room (is_robust wm.proto.type) wm.in_flight wm.queued i.queued i.in_flight
                            e;
                    },
                  ))))))

abbrev MaybeReady : Option Connection → Type 0
MaybeReady none = Unit
MaybeReady (some k) = Ready k

module _ (k : Connection) (h : IsCalm k) (e : k.out_queue ≡ []) where
  queue_again-Ready : (r : RingItem) (wm : WorkingMessage) → Ensures MaybeReady (queue_again r wm k)
  unfolding queue_again
  queue_again-Ready r wm = elim (List-cases r.resends) [
    | inl n ↦ rw (n, queue_again) (Ensures-ok MaybeReady {a = none} tt)
    | inr (i, is, n) ↦
        rw (n, queue_again)
          (Ensures-bind MaybeReady (nth_chunk i wm.proto wm.content) (λ c _.
            Ensures-ok MaybeReady
              {a = some (record k {
                message_ring = set k.message_ring k.next_message (record r { resends = is });
                out_queue = k.out_queue ++ (record c { resent = true } ∷ []);
              })}
              (calm (record { windows = h.windows; harmless = rw e (refl, tt) }))))
  ]

  queue_got-Ready :
      (r : RingItem) (wm : WorkingMessage) (o : Option (MessageChunk × WorkingMessage))
      → Next r.wm o
      → Ensures MaybeReady (queue_got r wm k o)
  unfolding queue_got
  queue_got-Ready r wm none n = queue_again-Ready r wm
  queue_got-Ready r wm (some (c, wm')) (s, d', l) = Ensures-ok MaybeReady {a = some _} (
      loaded c wm' (rw e refl) d'
        (λ t v d f.
          h.windows t v (sym (find-assign_other r.wm wm' k.out_working t (λ x. d (x ∙ sym s))) ∙ f))
        (subst (λ x. find x (assign r.wm wm' k.out_working) ≡ some wm') (sym s)
          (find-assign_same r.wm wm' k.out_working))
        (subst (λ x. IsLoaded x wm') (sym s) l))

  queue_from-Ready :
      (r : RingItem) (wm : WorkingMessage)
      → InWindow r.wm wm
      → Ensures MaybeReady (queue_from r wm k)
  unfolding queue_from
  queue_from-Ready r wm i =
      Ensures-bind MaybeReady (get_next_chunk wm)
        (λ o g. queue_got-Ready r wm o ((get_next_chunk-Next r.wm wm i).ensured o g))

-- Going on to the next message changes nothing else.
incr_next_message-same :
    (k : Connection)
    → ((incr_next_message k).1.out_working ≡ k.out_working)
      × ((incr_next_message k).1.out_queue ≡ k.out_queue)
unfolding incr_next_message
incr_next_message-same k = elim (Bool-cases (length k.message_ring == 0)) [
  | inl e ↦ rw e (refl, refl)
  | inr e ↦ rw e (refl, refl)
]

incr_next_message-IsCalm : (k : Connection) → IsCalm k → IsCalm (incr_next_message k).1
incr_next_message-IsCalm k h =
    let (w, q) = incr_next_message-same k in
    record {
      windows = subst Windows (sym w) h.windows;
      harmless = subst (All Harmless) (sym q) h.harmless;
    }

at_next-cases :
    (k : Connection)
    → (at_next k ≡ none)
      ⊎ ((r : RingItem) × (wm : WorkingMessage) × (at_next k ≡ some (r, wm))
          × (find r.wm k.out_working ≡ some wm))
unfolding at_next
at_next-cases k = elim (Option-cases (get_elem? k.message_ring k.next_message)) [
  | inl e ↦ inl (rw (e, at_next) refl)
  | inr (r, e) ↦ elim (Option-cases (find r.wm k.out_working)) [
    | inl f ↦ inl (rw (e, f, at_next) refl)
    | inr (wm, f) ↦ inr (r, wm, rw (e, f, at_next) refl, f)
  ]
]

next_turn-Ready :
    (end : ℕ) (next : Connection) (rest : Outcome Connection) (o : Option Connection)
    → MaybeReady o
    → IsCalm next
    → Ensures Ready rest
    → Ensures Ready (next_turn end next rest o)
unfolding next_turn
next_turn-Ready end next rest (some k) h c r = Ensures-ok Ready h
next_turn-Ready end next rest none h c r =
    Ensures-if Ready (next.next_message == end) (λ _. Ensures-ok Ready (calm c)) (λ _. r)

queue_loop-Ready :
    (n end : ℕ) (k : Connection) → IsCalm k → k.out_queue ≡ [] → Ensures Ready (queue_loop n end k)
unfolding queue_loop
queue_loop-Ready zero end k h e = Ensures-out_of_fuel Ready
queue_loop-Ready (suc n) end k h e = elim (at_next-cases k) [
  | inl f ↦ rw (f, queue_loop) (Ensures-aborted Ready)
  | inr (r, wm, f, g) ↦
      rw (f, queue_loop)
        (Ensures-bind Ready (queue_from r wm k) (λ o q.
          next_turn-Ready end (incr_next_message k).1 (queue_loop n end (incr_next_message k).1) o
            ((queue_from-Ready k h e r wm (h.windows r.wm wm g)).ensured o q)
            (incr_next_message-IsCalm k h)
            (queue_loop-Ready n end (incr_next_message k).1 (incr_next_message-IsCalm k h)
              ((incr_next_message-same k).1 ∙ e))))
]

queue_next_chunk-Ready :
    (k : Connection) → IsCalm k → k.out_queue ≡ [] → Ensures Ready (queue_next_chunk k)
unfolding queue_next_chunk
queue_next_chunk-Ready k h e =
    let k' : Connection = (incr_next_message k).1 in
    let h' : IsCalm k' = incr_next_message-IsCalm k h in
    Ensures-if Ready (incr_next_message k).0
      (λ _.
        queue_loop-Ready (length k'.message_ring) k'.next_message k' h'
          ((incr_next_message-same k).1 ∙ e))
      (λ _. Ensures-ok Ready (calm h'))

send-IsCalm :
    (cs : List MessageChunk) (k : Connection)
    → k.out_queue ≡ cs
    → IsCalm k
    → Ensures IsCalm (send_next cs k)
unfolding send_next
send-IsCalm [] k e h = Ensures-ok IsCalm h
send-IsCalm (c ∷ cs) k e h =
    let q : All Harmless (c ∷ cs) = subst (All Harmless) e h.harmless in
    Ensures-bind IsCalm (encode_udp_wire k.out_buffer c) (λ wire _. rw q.0 (
      Ensures-ok IsCalm {a = write_chunk c wire cs k}
        (record { windows = h.windows; harmless = q.1 })))

send_loaded :
    (c : MessageChunk) (wm : WorkingMessage) (k : Connection)
    → (not c.resent && is_data c.type) ≡ true
    → Others c.sequence k.out_working
    → find c.sequence k.out_working ≡ some wm
    → IsLoaded c.sequence wm
    → Ensures IsCalm (send_next (c ∷ []) k)
unfolding send_next
send_loaded c wm k d o f l = Ensures-bind IsCalm (encode_udp_wire k.out_buffer c) (λ wire _.
    let k' : Connection = write_chunk c wire [] k in
    rw d (
      Ensures-imp (Kept k') IsCalm (sent_chunk c k')
        (λ k'' (w, q). record { windows = w; harmless = rw q tt })
        (sent_chunk-Kept c wm k' o f l.sequence l.sends l.queued l.in_flight)))

send_Ready : (k : Connection) → Ready k → Ensures IsCalm (send_next k.out_queue k)
send_Ready k (calm h) = send-IsCalm k.out_queue k refl h
send_Ready k (loaded c wm e d o f l) =
    subst (λ cs. Ensures IsCalm (send_next cs k)) (sym e) (send_loaded c wm k d o f l)

none_queued : (cs : List MessageChunk) → (length cs == 0) ≡ true → cs ≡ []
none_queued [] e = refl
none_queued (c ∷ cs) e = absurd (omega (arith, (==_iff (length (c ∷ cs)) 0).0 e))

-- `do_send` keeps the window of every message, and leaves no new chunk behind in the queue.
pub do_send-IsCalm : (k : Connection) → IsCalm k → Ensures IsCalm (do_send k)
unfolding do_send
do_send-IsCalm k h =
    let first : Outcome Connection = if length k.out_queue == 0 then queue_next_chunk k else ok k in
    let ready : Ensures Ready first =
      Ensures-if Ready (length k.out_queue == 0)
        (λ e. queue_next_chunk-Ready k h (none_queued k.out_queue e))
        (λ _. Ensures-ok Ready (calm h)) in
    Ensures-bind IsCalm first (λ k' e. send_Ready k' (ready.ensured k' e))
