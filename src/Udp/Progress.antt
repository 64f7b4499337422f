-- ===== src/Udp/Progress.antt =====
-- network/udp_queue.cpp: what one call of `insert_chunk` does to a message that is under way.
use firestr.Prelude.{
  ℕ, zero, suc, ◌-◌, ◌*◌, ◌<◌, ◌≤◌, ◌≡◌, ◌≢◌, inl, inr, refl, sym, ◌∙◌, Bool, true, false, List, [],
  ◌∷◌, Bytes, Option, none, some, ok, arith, length, replicate, get_or, set, ltb, ◌==◌, ==_iff,
  if◌then◌else◌, Bool-cases, nat_eq,
}
use firestr.Prelude.Maps.{find, find-assign_same, find-assign_other, find-erase}
use firestr.Udp.Chunk.{MessageChunk, max_message_size}
use firestr.Udp.Cut.{chunks, max_cut}
use firestr.Udp.Buffers.{count, count-le}
use firestr.Udp.Reassemble.{Filled-empty, Filled-full}
use firestr.Udp.Assemble.{
  WorkingMessage, WorkingMessages, fresh, resize_bits, begin, accept, insert_chunk,
}
use firestr.Udp.Insert.{ChunkOf, IsUnder, with_chunk, accept-again, accept-new, with_chunk-IsUnder}

-- What the map holds of message `d` under a sequence number: nothing, or the chunks whose bits are set.
pub data Known (s : ℕ) (d : Bytes) (bits : List Bool) (w : WorkingMessages) : Type 0 where
  nothing : find s w ≡ none → bits ≡ replicate (chunks (length d)) false → Known s d bits w
  under :
      (wm : WorkingMessage)
      → find s w ≡ some wm
      → IsUnder d wm
      → wm.set_bits ≡ bits
      → Known s d bits w

-- What a chunk does: the answer, and the map.
pub data Step (s : ℕ) (d : Bytes) (bits : List Bool) (w w' : WorkingMessages)
    : Option Bytes → Type 0 where
  waits :
      count bits < chunks (length d)
      → Known s d bits w'
      → ((t : ℕ) → t ≢ s → find t w' ≡ find t w)
      → Step s d bits w w' none
  delivers :
      count bits ≡ chunks (length d)
      → ((t : ℕ) → find t w' ≡ (if s == t then none else find t w))
      → Step s d bits w w' (some d)

set-same : (bs : List Bool) (i : ℕ) → get_or bs i false ≡ true → set bs i true ≡ bs
set-same [] i h = refl
set-same (b ∷ bs) zero h = rw h refl
set-same (b ∷ bs) (suc i) h = rw (set-same bs i h)

below : (bs : List Bool) (n : ℕ) → length bs ≡ n → (count bs == n) ≡ false → count bs < n
below bs n e f =
    let ne : count bs ≢ n = λ k. cc ((==_iff (count bs) n).1 k) in omega (arith, ne, count-le bs)

resize_bits-nil : (n : ℕ) → resize_bits n [] ≡ replicate n false
unfolding resize_bits
resize_bits-nil zero = refl
resize_bits-nil (suc n) = let e : suc n - 0 ≡ suc n = omega arith in rw e refl

begin_bits : (c : MessageChunk) → (begin c fresh).set_bits ≡ replicate c.total_chunks false
unfolding begin
begin_bits c = resize_bits-nil c.total_chunks

module _ (d : Bytes) (p : 0 < length d) (b : length d ≤ max_cut) (c : MessageChunk)
    (h : ChunkOf d c) where
  accept-Step :
      (wm : WorkingMessage) (w : WorkingMessages)
      → IsUnder d wm
      → count wm.set_bits < chunks (length d)
      → Step c.sequence d (set wm.set_bits c.chunk true) w (accept c wm w).1 (accept c wm w).0
  accept-Step wm w u l = elim (Bool-cases (get_or wm.set_bits c.chunk false)) [
    | inl e ↦
        rw (accept-again d p b c h wm u w e, set-same wm.set_bits c.chunk e)
          (waits l (under wm (find-assign_same c.sequence wm w) u refl)
            (find-assign_other c.sequence wm w))
    | inr e ↦
        rw (accept-new d p b c h wm u w e)
          (elim (Bool-cases (count (set wm.set_bits c.chunk true) == chunks (length d))) [
            | inl f ↦
                let u' : IsUnder d (with_chunk c d wm) = with_chunk-IsUnder d p b c h wm u w e in
                let n : count (set wm.set_bits c.chunk true) ≡ chunks (length d) =
                  (==_iff (count (set wm.set_bits c.chunk true)) (chunks (length d))).0 f in
                rw
                  (
                    f,
                    Filled-full d p (with_chunk c d wm).content (with_chunk c d wm).set_bits
                        u'.filled n,
                  )
                  (delivers n (λ t. find-erase c.sequence t w))
            | inr f ↦
                let u' : IsUnder d (with_chunk c d wm) = with_chunk-IsUnder d p b c h wm u w e in
                rw f (
                  waits (below (set wm.set_bits c.chunk true) (chunks (length d)) u'.filled.size f)
                    (under (with_chunk c d wm) (find-assign_same c.sequence (with_chunk c d wm) w)
                      u' refl)
                    (find-assign_other c.sequence (with_chunk c d wm) w))
          ])
  ]

  begin-IsUnder : IsUnder d (begin c fresh)
  unfolding begin
  begin-IsUnder = record {
    total = h.total;
    filled = rw (h.total, resize_bits-nil (chunks (length d))) (Filled-empty d p []);
  }

  not_empty : (chunks (length d) == 0) ≡ false
  not_empty = ground arith

  not_large : ltb max_message_size (chunks (length d) * 499) ≡ false
  not_large = ground arith

  pub insert_chunk-Step :
      (bits : List Bool) (w : WorkingMessages)
      → count bits < chunks (length d)
      → Known c.sequence d bits w
      → (r : Option Bytes × WorkingMessages) × (insert_chunk c w ≡ ok r)
        × Step c.sequence d (set bits c.chunk true) w r.1 r.0
  unfolding insert_chunk
  insert_chunk-Step bits w l (nothing e f) =
      let g : (begin c fresh).set_bits ≡ bits = begin_bits c ∙ (rw h.total (sym f)) in
      (
        accept c (begin c fresh) w,
        rw (h.kind, h.total, e, not_empty, not_large) refl,
        rw (sym g) (accept-Step (begin c fresh) w begin-IsUnder (rw g l)),
      )
  insert_chunk-Step bits w l (under wm e u f) = (
    accept c wm w,
    rw (h.kind, h.total, e, u.total, not_empty) refl,
    rw (sym f) (accept-Step wm w u (rw f l)),
  )
