-- ===== src/Udp/Turns.antt =====
-- network/udp_queue.cpp: the loop of `queue_next_chunk` ends.
use firestr.Prelude.{
  ℕ, zero, suc, ◌+◌, ◌-◌, ◌*◌, ◌%◌, ◌^◌, ◌<◌, ◌≤◌, ◌≡◌, ◌≢◌, inl, inr, refl, sym, subst, ◌∙◌, Bool,
  true, false, not, ◌&&◌, List, [], ◌∷◌, Bytes, Option, none, some, Outcome, ok, thrown, aborted,
  out_of_fuel, require, ◌>>=◌, ◌>>◌, arith, length, min, ltb, leb, ◌==◌, ==_iff, if◌then◌else◌,
  nat_eq, Bool-cases, Option-cases, List-cases,
}
use native.Mathlib.Nat.{mod_self, mod-eq_of_lt, mod-lt}
use firestr.Udp.Chunk.{MessageChunk, max_flight, nth_chunk, udp_chunk_size}
use firestr.Prelude.Maps.{find, assign}
use firestr.Udp.Assemble.{WorkingMessage, or_fresh, is_data}
use firestr.Udp.Wire.{encode_udp_wire, write_be_u64, write_be_u16, has_room, write_at, resize, mark}
use firestr.Udp.Connection.{
  Connection, RingItem, is_robust, get_next_chunk, cleanup_message, all_sent, sent_chunk, mark_sent,
  erase_item,
}
use firestr.Udp.Sending.{
  incr_next_message, queue_again, queue_got, queue_from, at_next, next_turn, queue_loop,
  queue_next_chunk, send_next, do_send, write_chunk,
}

-- The call comes to an end: it returns, throws or fails a contract.
abbrev pub Ends : {A : Type 0} → Outcome A → Type 0
Ends m = m ≢ out_of_fuel

module _ {A : Type 0} where
  Ends-ok : (a : A) → Ends (ok a)
  Ends-ok a e = cc

  Ends-if : (b : Bool) {x y : Outcome A} → Ends x → Ends y → Ends (if b then x else y)
  Ends-if true f g = f
  Ends-if false f g = g

  Ends-require : (b : Bool) {m : Outcome A} → Ends m → Ends (require b >> m)
  Ends-require true h = h
  Ends-require false h = λ e. cc

  Ends-bind :
      {B : Type 0} (m : Outcome B) {f : B → Outcome A}
      → Ends m
      → ((b : B) → Ends (f b))
      → Ends (m >>= f)
  Ends-bind (ok a) h g = g a
  Ends-bind thrown h g = λ e. cc
  Ends-bind aborted h g = λ e. cc
  Ends-bind out_of_fuel h g = absurd (h refl)

turn_mod : (x n : ℕ) → x < n → (x + 1) % n ≡ (if x + 1 == n then 0 else x + 1)
turn_mod x n h = elim (Bool-cases (x + 1 == n)) [
  | inl e ↦ rw e (subst (λ m. (x + 1) % m ≡ 0) ((==_iff (x + 1) n).0 e) (mod_self (x + 1)))
  | inr e ↦
      rw e
        (mod-eq_of_lt (let ne : x + 1 ≢ n = λ k. cc ((==_iff (x + 1) n).1 k) in omega (arith, ne)))
]

nth_chunk-Ends : (n : ℕ) (p : MessageChunk) (b : Bytes) → Ends (nth_chunk n p b)
unfolding nth_chunk
nth_chunk-Ends n p b = Ends-require (ltb n p.total_chunks) (
    Ends-require
      (ltb 0 (
        (min (length b) (n * udp_chunk_size + udp_chunk_size) + 2 ^ 64 - n * udp_chunk_size)
        % 2 ^ 64))
      (Ends-ok _))

get_next_chunk-Ends : (wm : WorkingMessage) → Ends (get_next_chunk wm)
unfolding get_next_chunk
get_next_chunk-Ends wm =
    let f : ℕ = if is_robust wm.proto.type then wm.in_flight else 0 in
    Ends-require (ltb 0 wm.proto.total_chunks) (
      Ends-if (ltb max_flight (f + wm.queued)) (Ends-ok none) (
        Ends-if ((max_flight - (f + wm.queued)) == 0) (Ends-ok none) (
          Ends-if (leb wm.proto.total_chunks wm.next_send) (Ends-ok none) (
            Ends-bind (nth_chunk wm.next_send wm.proto wm.content)
              (nth_chunk-Ends wm.next_send wm.proto wm.content) (λ c. Ends-ok _)))))

queue_got-Ends :
    (r : RingItem) (wm : WorkingMessage) (k : Connection)
    (o : Option (MessageChunk × WorkingMessage))
    → Ends (queue_got r wm k o)
unfolding queue_got queue_again
queue_got-Ends r wm k (some (c, wm')) = Ends-ok _
queue_got-Ends r wm k none = elim (List-cases r.resends) [
  | inl e ↦ rw (e, queue_again) (Ends-ok none)
  | inr (i, is, e) ↦
      rw (e, queue_again)
        (Ends-bind (nth_chunk i wm.proto wm.content) (nth_chunk-Ends i wm.proto wm.content)
          (λ c. Ends-ok _))
]

queue_from-Ends : (r : RingItem) (wm : WorkingMessage) (k : Connection) → Ends (queue_from r wm k)
unfolding queue_from
queue_from-Ends r wm k =
    Ends-bind (get_next_chunk wm) (get_next_chunk-Ends wm) (λ o. queue_got-Ends r wm k o)

-- One turn brings the loop nearer to `end`, unless it is back there.
nearer :
    (x y size end n : ℕ)
    → x < size
    → end < size
    → y ≡ (if x + 1 == size then 0 else x + 1)
    → (x < end → end - x ≤ suc n)
    → (end ≤ x → size + end - x ≤ suc n)
    → (y == end) ≡ false
    → (y < size) × (y < end → end - y ≤ n) × (end ≤ y → size + end - y ≤ n)
nearer x y size end n p q e f g ne =
    let d : y ≢ end = λ k. cc ((==_iff y end).1 k) in
    elim (Bool-cases (x + 1 == size)) [
      | inl s ↦
          let z : y ≡ 0 = e ∙ rw s refl in
          let t : x + 1 ≡ size = (==_iff (x + 1) size).0 s in
          (
            omega (arith, z),
            λ h. omega (arith, z, t, g (omega (arith, t))),
            λ h. absurd (omega (arith, z, d, h)),
          )
      | inr s ↦
          let z : y ≡ x + 1 = e ∙ rw s refl in
          let t : x + 1 ≢ size = λ k. cc ((==_iff (x + 1) size).1 k) in
          (
            omega (arith, z, t),
            λ h. omega (arith, z, f (omega (arith, z, h))),
            λ h. omega (arith, z, g (omega (arith, z, d, h))),
          )
    ]

none_left :
    (x size end : ℕ)
    → x < size
    → end < size
    → (x < end → end - x ≤ 0)
    → (end ≤ x → size + end - x ≤ 0)
    → ⊥
none_left x size end p q f g = elim (Bool-cases (ltb x end)) [
  | inl e ↦ let h : x < end = ground arith in absurd (omega (arith, h, f h))
  | inr e ↦ let h : end ≤ x = ground arith in absurd (omega (arith, h, g h, p))
]

incr_next_message-next :
    (k : Connection)
    → (0 < length k.message_ring)
    → ((incr_next_message k).0 ≡ true)
      × ((incr_next_message k).1.message_ring ≡ k.message_ring)
      × ((incr_next_message k).1.next_message ≡ (k.next_message + 1) % length k.message_ring)
unfolding incr_next_message
incr_next_message-next k h =
    let ne : (length k.message_ring == 0) ≡ false = ground arith in rw ne (refl, refl, refl)

next_turn-Ends :
    (end : ℕ) (next : Connection) (rest : Outcome Connection) (o : Option Connection)
    → ((next.next_message == end) ≡ false → Ends rest)
    → Ends (next_turn end next rest o)
unfolding next_turn
next_turn-Ends end next rest (some k) h = Ends-ok k
next_turn-Ends end next rest none h = elim (Bool-cases (next.next_message == end)) [
  | inl e ↦ rw e (Ends-ok next)
  | inr e ↦ rw e (h e)
]

queue_loop-Ends :
    (n end : ℕ) (k : Connection)
    → k.next_message < length k.message_ring
    → end < length k.message_ring
    → (k.next_message < end → end - k.next_message ≤ n)
    → (end ≤ k.next_message → length k.message_ring + end - k.next_message ≤ n)
    → Ends (queue_loop n end k)
unfolding queue_loop
queue_loop-Ends zero end k p q f g =
    absurd (none_left k.next_message (length k.message_ring) end p q f g)
queue_loop-Ends (suc n) end k p q f g =
    let (_, ring, next) = incr_next_message-next k (omega (arith, p)) in
    let k' : Connection = (incr_next_message k).1 in
    elim (Option-cases (at_next k)) [
      | inl e ↦ rw (e, queue_loop) (λ i. cc)
      | inr ((r, wm), e) ↦
          rw (e, queue_loop)
            (Ends-bind (queue_from r wm k) (queue_from-Ends r wm k) (λ o.
              next_turn-Ends end k' (queue_loop n end k') o (λ ne.
                let (a, b, c) =
                  nearer k.next_message k'.next_message (length k.message_ring) end n p q
                    (next ∙ turn_mod k.next_message (length k.message_ring) p) f g ne in
                queue_loop-Ends n end k' (subst (λ rs. k'.next_message < length rs) (sym ring) a)
                  (subst (λ rs. end < length rs) (sym ring) q) b
                  (subst (λ rs. end ≤ k'.next_message → length rs + end - k'.next_message ≤ n)
                    (sym ring) c))))
    ]

no_messages :
    (k : Connection) → (length k.message_ring == 0) ≡ true → (incr_next_message k).0 ≡ false
unfolding incr_next_message
no_messages k e = rw e refl

queue_next_chunk-Ends : (k : Connection) → Ends (queue_next_chunk k)
unfolding queue_next_chunk
queue_next_chunk-Ends k = elim (Bool-cases (length k.message_ring == 0)) [
  | inl e ↦ rw (no_messages k e) (Ends-ok _)
  | inr e ↦
      let some_left : 0 < length k.message_ring = ground arith in
      let (more, ring, next) = incr_next_message-next k some_left in
      let k' : Connection = (incr_next_message k).1 in
      let inside : k'.next_message < length k'.message_ring =
        subst (λ rs. k'.next_message < length rs) (sym ring)
          (subst (λ x. x < length k.message_ring) (sym next)
            (mod-lt (k.next_message + 1) some_left)) in
      rw more (
        queue_loop-Ends (length k'.message_ring) k'.next_message k' inside inside
          (λ h. absurd (omega (arith, h))) (λ h. omega arith))
]

cleanup_message-Ends : (s : ℕ) (k : Connection) → Ends (cleanup_message s k)
unfolding cleanup_message
cleanup_message-Ends s k = elim (Option-cases (erase_item s k.message_ring)) [
  | inl e ↦ rw (e, cleanup_message) (λ i. cc)
  | inr (rs, e) ↦ rw (e, cleanup_message) (Ends-ok _)
]

sent_chunk-Ends : (c : MessageChunk) (k : Connection) → Ends (sent_chunk c k)
unfolding sent_chunk
sent_chunk-Ends c k =
    let wm : WorkingMessage = or_fresh (find c.sequence k.out_working) in
    let k' : Connection = record k {
      out_working = assign c.sequence (mark_sent c wm) k.out_working;
    } in
    Ends-require (is_data c.type) (
      Ends-require (not c.resent) (
        Ends-if (is_robust wm.proto.type) (Ends-ok _)
          (Ends-if (all_sent (mark_sent c wm)) (cleanup_message-Ends c.sequence k') (Ends-ok _))))

write_be_u64-Ends : (b : Bytes) (offset v : ℕ) → Ends (write_be_u64 b offset v)
unfolding write_be_u64
write_be_u64-Ends b offset v = Ends-require (has_room 8 b offset) (Ends-ok _)

write_be_u16-Ends : (b : Bytes) (offset v : ℕ) → Ends (write_be_u16 b offset v)
unfolding write_be_u16
write_be_u16-Ends b offset v = Ends-require (has_room 2 b offset) (Ends-ok _)

encode_udp_wire-Ends : (r : Bytes) (c : MessageChunk) → Ends (encode_udp_wire r c)
unfolding encode_udp_wire
encode_udp_wire-Ends r c =
    let r₁ = write_at 0 (mark c.type ∷ []) (resize (13 + length c.write) r) in
    Ends-bind (write_be_u64 r₁ 1 c.sequence) (write_be_u64-Ends r₁ 1 c.sequence) (λ r₂.
      Ends-bind (write_be_u16 r₂ 9 c.total_chunks) (write_be_u16-Ends r₂ 9 c.total_chunks) (λ r₃.
        Ends-bind (write_be_u16 r₃ 11 c.chunk) (write_be_u16-Ends r₃ 11 c.chunk) (λ r₄. Ends-ok _)))

send_next-Ends : (cs : List MessageChunk) (k : Connection) → Ends (send_next cs k)
unfolding send_next
send_next-Ends [] k = Ends-ok k
send_next-Ends (c ∷ cs) k =
    Ends-bind (encode_udp_wire k.out_buffer c) (encode_udp_wire-Ends k.out_buffer c) (λ wire.
      Ends-if (not c.resent && is_data c.type) (sent_chunk-Ends c (write_chunk c wire cs k))
        (Ends-ok _))

-- In every state do_send comes to an end: the round robin of queue_next_chunk needs no more turns
-- than the ring has messages.
pub do_send-Ends : (k : Connection) → Ends (do_send k)
unfolding do_send
do_send-Ends k =
    Ends-bind (if length k.out_queue == 0 then queue_next_chunk k else ok k)
      (Ends-if (length k.out_queue == 0) (queue_next_chunk-Ends k) (Ends-ok k))
      (λ k'. send_next-Ends k'.out_queue k')
