-- ===== src/Udp/Window.antt =====
-- network/udp_queue.cpp: the window of MAX_FLIGHT chunks, kept by what changes one message.
use firestr.Prelude.{
  ℕ, ◌+◌, ◌≤◌, ◌≡◌, ◌≢◌, inl, inr, refl, sym, subst, ◌∙◌, true, false, not, ◌&&◌, Bytes, some,
  Ensures, Ensures-ok, Ensures-aborted, Ensures-if, Ensures-require, of_some, arith, get_or, ltb,
  leb, ◌==◌, ==_iff, if◌then◌else◌, nat_eq, Bool-cases, Option-cases,
}
use firestr.Prelude.Maps.{find, assign, erase, find-assign, find-erase}
use firestr.Udp.Chunk.{MessageChunk, max_flight}
use firestr.Udp.Assemble.{WorkingMessage, WorkingMessages, or_fresh, is_data}
use firestr.Udp.Buffers.{count}
use firestr.Udp.Connection.{
  Connection, is_robust, erase_item, init_working, cleanup_message, all_sent, sent_chunk,
  validate_in, validate_chunk, mark_sent, acknowledge, work,
}

-- A message between two handlers: nothing is queued, and at most MAX_FLIGHT chunks wait for their
-- acknowledgement.
pub record InWindow (s : ℕ) (wm : WorkingMessage) : Type 0 where
  pub sequence : wm.proto.sequence ≡ s
  pub sends : (not wm.proto.resent && is_data wm.proto.type) ≡ true
  pub queued : wm.queued ≡ 0
  pub in_flight : wm.in_flight ≤ max_flight

abbrev pub Windows : WorkingMessages → Type 0
Windows w = (s : ℕ) (wm : WorkingMessage) → find s w ≡ some wm → InWindow s wm

pub Windows-assign :
    (s : ℕ) (wm : WorkingMessage) (w : WorkingMessages)
    → InWindow s wm
    → ((t : ℕ) (wm' : WorkingMessage) → t ≢ s → find t w ≡ some wm' → InWindow t wm')
    → Windows (assign s wm w)
Windows-assign s wm w i h t wm' e = elim (Bool-cases (s == t)) [
  | inl same ↦
      of_some (InWindow t) (sym (find-assign s t wm w ∙ rw same refl) ∙ e)
        (subst (λ x. InWindow x wm) ((==_iff s t).0 same) i)
  | inr other ↦
      h t wm' (λ k. cc ((==_iff s t).1 (sym k))) (sym (find-assign s t wm w ∙ rw other refl) ∙ e)
]

pub Windows-erase : (s : ℕ) (w : WorkingMessages) → Windows w → Windows (erase s w)
Windows-erase s w h t wm e = elim (Bool-cases (s == t)) [
  | inl same ↦ cc (find-erase s t w, same)
  | inr other ↦ h t wm (sym (find-erase s t w ∙ rw other refl) ∙ e)
]

pub or_fresh-InWindow :
    (s : ℕ) (w : WorkingMessages)
    → Windows w
    → ((or_fresh (find s w)).queued ≡ 0) × ((or_fresh (find s w)).in_flight ≤ max_flight)
or_fresh-InWindow s w h = elim (Option-cases (find s w)) [
  | inl e ↦ rw e (refl, omega arith)
  | inr (wm, e) ↦ rw e ((h s wm e).queued, (h s wm e).in_flight)
]

-- The sending side of `k'` is within its windows, and its queue is that of `k`.
abbrev pub Kept : Connection → Connection → Type 0
Kept k k' = Windows k'.out_working × (k'.out_queue ≡ k.out_queue)

pub init_working-Kept :
    (c : MessageChunk) (b : Bytes) (k : Connection)
    → Windows k.out_working
    → (not c.resent && is_data c.type) ≡ true
    → Ensures (Kept k) (init_working c b k)
unfolding init_working
init_working-Kept c b k h d = Ensures-require (Kept k) (ltb 0 c.total_chunks) (λ _.
    let (q, f) = or_fresh-InWindow c.sequence k.out_working h in
    Ensures-ok (Kept k) (
      Windows-assign c.sequence (work c b (or_fresh (find c.sequence k.out_working))) k.out_working
          (record { sequence = refl; sends = d; queued = q; in_flight = f }) (λ t wm n. h t wm),
      refl,
    ))

pub cleanup_message-Kept :
    (s : ℕ) (k : Connection) → Windows k.out_working → Ensures (Kept k) (cleanup_message s k)
unfolding cleanup_message
cleanup_message-Kept s k h = elim (Option-cases (erase_item s k.message_ring)) [
  | inl n ↦ rw (n, cleanup_message) (Ensures-aborted (Kept k))
  | inr (ring, n) ↦
      rw (n, cleanup_message) (Ensures-ok (Kept k) (Windows-erase s k.out_working h, refl))
]

validate_in-Kept :
    (c : MessageChunk) (wm : WorkingMessage) (k : Connection)
    → Windows k.out_working
    → InWindow c.sequence wm
    → Ensures (Kept k) (validate_in c wm k)
unfolding validate_in
validate_in-Kept c wm k h i =
    let w' : Windows (assign c.sequence (acknowledge c wm) k.out_working) =
      Windows-assign c.sequence (acknowledge c wm) k.out_working
        (record {
          sequence = i.sequence;
          sends = i.sends;
          queued = i.queued;
          in_flight = omega (arith, i.in_flight);
        })
        (λ t wm n. h t wm) in
    Ensures-if (Kept k) (leb wm.proto.total_chunks c.chunk) (λ _. (Ensures-ok (Kept k) (h, refl)))
      (λ _.
        Ensures-if (Kept k) (not (c.total_chunks == wm.proto.total_chunks))
          (λ _. (Ensures-ok (Kept k) (h, refl)))
          (λ _.
            Ensures-if (Kept k) (get_or wm.set_bits c.chunk false)
              (λ _. (Ensures-ok (Kept k) (h, refl)))
              (λ _.
                Ensures-if (Kept k)
                  (not (count (acknowledge c wm).set_bits == wm.proto.total_chunks))
                  (λ _. (Ensures-ok (Kept k) (w', refl)))
                  (λ _. Ensures-require (Kept k) (count wm.sent == wm.proto.total_chunks) (λ _.
                    Ensures-require (Kept k) ((acknowledge c wm).in_flight == 0) (λ _.
                      Ensures-require (Kept k) (wm.queued == 0) (λ _.
                        cleanup_message-Kept c.sequence
                          (record k {
                            out_working = assign c.sequence (acknowledge c wm) k.out_working;
                          })
                          w')))))))

pub validate_chunk-Kept :
    (c : MessageChunk) (k : Connection)
    → Windows k.out_working
    → Ensures (Kept k) (validate_chunk c k)
unfolding validate_chunk
validate_chunk-Kept c k h = Ensures-require (Kept k) (not (is_data c.type)) (λ _.
    elim (Option-cases (find c.sequence k.out_working)) [
      | inl e ↦ rw e (Ensures-ok (Kept k) (h, refl))
      | inr (wm, e) ↦ rw e (validate_in-Kept c wm k h (h c.sequence wm e))
    ])

-- A chunk that has been queued is sent: it leaves the queue, and a robust one is in flight.
pub sent_chunk-Kept :
    (c : MessageChunk) (wm : WorkingMessage) (k : Connection)
    → ((t : ℕ) (wm' : WorkingMessage)
        → t ≢ c.sequence
        → find t k.out_working ≡ some wm'
        → InWindow t wm')
    → find c.sequence k.out_working ≡ some wm
    → wm.proto.sequence ≡ c.sequence
    → (not wm.proto.resent && is_data wm.proto.type) ≡ true
    → wm.queued ≡ 1
    → (if is_robust wm.proto.type then wm.in_flight + 1 else wm.in_flight) ≤ max_flight
    → Ensures (Kept k) (sent_chunk c k)
unfolding sent_chunk
sent_chunk-Kept c wm k h f s d q l =
    let w' : Windows (assign c.sequence (mark_sent c wm) k.out_working) =
      Windows-assign c.sequence (mark_sent c wm) k.out_working
        (record { sequence = s; sends = d; queued = omega (arith, q); in_flight = l }) h in
    Ensures-require (Kept k) (is_data c.type) (λ _. Ensures-require (Kept k) (not c.resent) (λ _.
      rw f (
        Ensures-if (Kept k) (is_robust wm.proto.type) (λ _. (Ensures-ok (Kept k) (w', refl)))
          (λ _.
            Ensures-if (Kept k) (all_sent (mark_sent c wm))
              (λ _.
                cleanup_message-Kept c.sequence
                  (record k { out_working = assign c.sequence (mark_sent c wm) k.out_working }) w')
              (λ _. (Ensures-ok (Kept k) (w', refl)))))))
