-- ===== src/Udp/Insert.antt =====
-- network/udp_queue.cpp: `insert_chunk` on the chunks of one message.
use firestr.Prelude.{
  ℕ, ◌+◌, ◌-◌, ◌*◌, ◌%◌, ◌^◌, ◌<◌, ◌≤◌, ◌≡◌, ◌≢◌, inl, inr, refl, subst, ◌∙◌, true, false, Bytes,
  none, some, arith, length, min, get_or, set, leb, ◌==◌, ==_iff, if◌then◌else◌, Bool-cases, nat_eq,
}
use firestr.Prelude.Maps.{assign, erase}
use firestr.Udp.Chunk.{MessageChunk}
use firestr.Udp.Wire.{write_at}
use firestr.Udp.Cut.{chunks, slice, length-slice, max_cut}
use firestr.Udp.Buffers.{count}
use firestr.Udp.Reassemble.{Filled, trim, Filled-set}
use firestr.Udp.Assemble.{WorkingMessage, WorkingMessages, is_data, place, accept}

-- A chunk of the message `d`, as its receiver has it.
pub record ChunkOf (d : Bytes) (c : MessageChunk) : Type 0 where
  pub kind : is_data c.type ≡ true
  pub total : c.total_chunks ≡ chunks (length d)
  pub chunk : c.chunk < chunks (length d)
  pub content : c.content ≡ slice c.chunk d

pub record IsUnder (d : Bytes) (wm : WorkingMessage) : Type 0 where
  pub total : wm.proto.total_chunks ≡ chunks (length d)
  pub filled : Filled d wm.content wm.set_bits

-- The working message once a new chunk is in.
abbrev pub with_chunk : MessageChunk → Bytes → WorkingMessage → WorkingMessage
with_chunk c d wm = record wm {
  content = write_at (c.chunk * 499) (slice c.chunk d) (trim d c.chunk wm.content);
  set_bits = set wm.set_bits c.chunk true;
}

leb-false : (a b : ℕ) → a < b → leb b a ≡ false
leb-false a b h = ground arith

-- The size_t arithmetic of the last chunk cuts the buffer to the size of the message.
last_size :
    (n m l k : ℕ)
    → n ≤ max_cut
    → m ≡ chunks n * 499
    → k ≡ chunks n - 1
    → 0 < n
    → l ≡ min 499 (n - k * 499)
    → (m + 2 ^ 64 - (499 + 2 ^ 64 - l) % 2 ^ 64) % 2 ^ 64 ≡ n
last_size n m l k p q e r f = omega arith

module _ (d : Bytes) (p : 0 < length d) (b : length d ≤ max_cut) (c : MessageChunk)
    (h : ChunkOf d c) (wm : WorkingMessage) (u : IsUnder d wm) (w : WorkingMessages) where
  in_range : leb (chunks (length d)) c.chunk ≡ false
  in_range = leb-false c.chunk (chunks (length d)) h.chunk

  agrees : (chunks (length d) == chunks (length d)) ≡ true
  agrees = (==_iff (chunks (length d)) (chunks (length d))).1 refl

  pub accept-again :
      get_or wm.set_bits c.chunk false ≡ true → accept c wm w ≡ (none, assign c.sequence wm w)
  unfolding accept
  accept-again e = rw (u.total, h.total, in_range, agrees, e) refl

  cut :
      (c.chunk == chunks (length d) - 1) ≡ true
      → get_or wm.set_bits c.chunk false ≡ false
      → (length wm.content + 2 ^ 64 - (499 + 2 ^ 64 - length (slice c.chunk d)) % 2 ^ 64) % 2 ^ 64
        ≡ length d
  cut l e =
      let k : c.chunk ≡ chunks (length d) - 1 = (==_iff c.chunk (chunks (length d) - 1)).0 l in
      let e' : get_or wm.set_bits (chunks (length d) - 1) false ≡ false =
        subst (λ x. get_or wm.set_bits x false ≡ false) k e in
      let room : length wm.content ≡ chunks (length d) * 499 = u.filled.room ∙ rw e' refl in
      last_size (length d) (length wm.content) (length (slice c.chunk d)) c.chunk b room k p
        (length-slice c.chunk d)

  whole : (c.chunk == chunks (length d) - 1) ≡ false → (length (slice c.chunk d) == 499) ≡ true
  whole l =
      let ne : c.chunk ≢ chunks (length d) - 1 =
        λ k. cc ((==_iff c.chunk (chunks (length d) - 1)).1 k) in
      (==_iff (length (slice c.chunk d)) 499).1 (omega (arith, ne, length-slice c.chunk d, h.chunk))

  pub accept-new :
      get_or wm.set_bits c.chunk false ≡ false
      → accept c wm w ≡ (
          if count (set wm.set_bits c.chunk true) == chunks (length d)
          then (some (with_chunk c d wm).content, erase c.sequence w)
          else (none, assign c.sequence (with_chunk c d wm) w))
  unfolding accept place
  accept-new e = elim (Bool-cases (c.chunk == chunks (length d) - 1)) [
    | inl l ↦ rw (u.total, h.total, h.content, in_range, agrees, e, l, cut l e) refl
    | inr l ↦ rw (u.total, h.total, h.content, in_range, agrees, e, l, whole l) refl
  ]

  pub with_chunk-IsUnder : get_or wm.set_bits c.chunk false ≡ false → IsUnder d (with_chunk c d wm)
  with_chunk-IsUnder e = record {
    total = u.total;
    filled = Filled-set d wm.content wm.set_bits c.chunk u.filled h.chunk e;
  }
