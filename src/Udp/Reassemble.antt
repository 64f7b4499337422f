-- ===== src/Udp/Reassemble.antt =====
-- network/udp_queue.cpp: what `insert_chunk` keeps about a message that is under way.
use firestr.Prelude.{
  ℕ, zero, suc, ◌∙◌, ◌+◌, ◌-◌, ◌*◌, ◌/◌, ◌<◌, ◌≤◌, ◌≡◌, ◌≢◌, ◌⊎◌, inl, inr, refl, min, Bool, true,
  false, List, Bytes, arith, length, drop, replicate, get_or, set, ◌==◌, if◌then◌else◌, Bool-cases,
  ==_iff, sym, length-set, length-replicate,
}
use firestr.Udp.Wire.{resize, write_at}
use firestr.Udp.Cut.{chunks, slice, length-slice}
use firestr.Udp.Buffers.{
  count, get_or-take, get_or-drop, eq_of_get_or, length-write_at, get_or-write_at_in,
  get_or-write_at_out, get_or-resize, length-resize, get_or-set, all_of_count,
}

-- The buffer has room for the message, cut to its length once the last chunk is in, and agrees with
-- the message at the bytes of the chunks that are in.
pub record Filled (d content : Bytes) (bits : List Bool) : Type 0 where
  pub size : length bits ≡ chunks (length d)
  pub room :
      length content
      ≡ (if get_or bits (chunks (length d) - 1) false then length d else chunks (length d) * 499)
  pub agree :
      (j : ℕ)
      → j < length d
      → get_or bits (j / 499) false ≡ true
      → get_or content j 0 ≡ get_or d j 0

-- The buffer as `insert_chunk` has it when it copies chunk `i`.
abbrev pub trim : Bytes → ℕ → Bytes → Bytes
trim d i content = if i == chunks (length d) - 1 then resize (length d) content else content

pub get_or-replicate : (n k : ℕ) → get_or (replicate n false) k false ≡ false
get_or-replicate zero k = refl
get_or-replicate (suc n) zero = refl
get_or-replicate (suc n) (suc k) = get_or-replicate n k

module _ (d : Bytes) where
  get_or-slice :
      (i j : ℕ)
      → i * 499 ≤ j
      → j < i * 499 + 499
      → get_or (slice i d) (j - i * 499) 0 ≡ get_or d j 0
  get_or-slice i j h k =
      let e : i * 499 + (j - i * 499) ≡ j = omega arith in
      rw (
        get_or-take 499 (j - i * 499) (drop (i * 499) d) 0 (omega arith),
        get_or-drop (i * 499) (j - i * 499) d 0,
        e,
      )

  split_at :
      (i j : ℕ)
      → length (slice i d) ≡ min 499 (length d - i * 499)
      → (i == j / 499) ≡ false
      → (j < i * 499) ⊎ (i * 499 + length (slice i d) ≤ j)
  split_at i j e h = let ne : i ≢ j / 499 = λ k. cc ((==_iff i (j / 499)).1 k) in omega (arith, ne)

  module _ (content : Bytes) (bits : List Bool) (i : ℕ) (f : Filled d content bits)
      (p : i < chunks (length d)) (q : get_or bits i false ≡ false) where
    length-trim :
        length (trim d i content)
        ≡ (if i == chunks (length d) - 1 then length d else length content)
    length-trim = ground (arith, length-resize (length d) content)

    -- A chunk that is not in finds room for all of it.
    get_or-trim : (j : ℕ) → j < length d → get_or (trim d i content) j 0 ≡ get_or content j 0
    get_or-trim j h = ground (arith, get_or-resize (length d) content j h, f.room)

    room_le : length d ≤ length content
    room_le = ground (arith, f.room)

    fits : i * 499 + length (slice i d) ≤ length (trim d i content)
    fits = elim (Bool-cases (i == chunks (length d) - 1)) [
      | inl e ↦
          let t : length (trim d i content) ≡ length d = length-trim ∙ rw e refl in
          omega (arith, t, length-slice i d, (==_iff i (chunks (length d) - 1)).0 e)
      | inr e ↦
          let t : length (trim d i content) ≡ length content = length-trim ∙ rw e refl in
          omega (arith, t, length-slice i d, room_le)
    ]

    -- Copying a chunk into place.
    pub Filled-set : Filled d (write_at (i * 499) (slice i d) (trim d i content)) (set bits i true)
    Filled-set = record {
      size = omega (arith, length-set bits i true, f.size);
      room = ground (
        arith,
        length-write_at (i * 499) (slice i d) (trim d i content),
        length-trim,
        get_or-set bits i (chunks (length d) - 1) (omega (arith, f.size)),
        f.room,
      );
      agree = λ j h e. elim (Bool-cases (i == j / 499)) [
        | inl same ↦
            (get_or-write_at_in (i * 499) (slice i d) (trim d i content) j
              (omega (arith, (==_iff i (j / 499)).0 same))
              (omega (arith, (==_iff i (j / 499)).0 same, length-slice i d)) fits)
            ∙ get_or-slice i j (omega (arith, (==_iff i (j / 499)).0 same))
                (omega (arith, (==_iff i (j / 499)).0 same))
        | inr other ↦
            (get_or-write_at_out (i * 499) (slice i d) (trim d i content) j
              (split_at i j (length-slice i d) other))
            ∙ (get_or-trim j h
                ∙ f.agree j h
                    (rw other at (sym (get_or-set bits i (j / 499) (omega (arith, f.size))) ∙ e)))
      ];
    }

  pub Filled-empty :
      0 < length d
      → (b : Bytes)
      → Filled d (resize (chunks (length d) * 499) b) (replicate (chunks (length d)) false)
  Filled-empty p b = record {
    size = length-replicate (chunks (length d)) false;
    room =
        rw (get_or-replicate (chunks (length d)) (chunks (length d) - 1))
          (length-resize (chunks (length d) * 499) b);
    agree = λ j h e. cc (get_or-replicate (chunks (length d)) (j / 499));
  }

  pub Filled-full :
      0 < length d
      → (content : Bytes) (bits : List Bool) → Filled d content bits
      → count bits ≡ chunks (length d)
      → content ≡ d
  Filled-full p content bits f c =
      let all : (k : ℕ) → k < chunks (length d) → get_or bits k false ≡ true =
        λ k h. all_of_count bits k (omega (arith, f.size)) (omega (arith, f.size)) in
      eq_of_get_or content d 0 (rw (all (chunks (length d) - 1) (omega arith)) at f.room)
        (λ j h. f.agree j h (all (j / 499) (omega arith)))
