-- ===== src/Udp/Cut.antt =====
-- network/udp_queue.cpp: `total_chunks` and `nth_chunk`, how a message is cut.
use firestr.Prelude.{
  if◌then◌else◌, leb, ◌∙◌, refl, true, ℕ, ◌+◌, ◌-◌, ◌*◌, ◌/◌, ◌<◌, ◌≤◌, ◌≡◌, min, Bytes, ok,
  aborted, arith, length, take, drop, length-drop, length-take,
}
use firestr.Udp.Chunk.{total_chunks, max_message_size}

-- How many chunks a message of `n` bytes has.
abbrev pub chunks : ℕ → ℕ
chunks n = (n + 498) / 499

-- The bytes of chunk `i`.
abbrev pub slice : ℕ → Bytes → Bytes
slice i d = take 499 (drop (i * 499) d)

abbrev pub max_cut : ℕ
max_cut = 65535 * 499

-- For a size from 1 to MAX_MESSAGE_SIZE, total_chunks is the size divided by 499 and rounded up as
-- long as the size is at most 65535 * 499, and above that the ENSURE fails, since the uint16_t
-- count wraps to 0.
pub total_chunks_lem :
    (n : ℕ)
    → 0 < n
    → n ≤ max_message_size
    → total_chunks n ≡ (if leb n max_cut then ok (chunks n) else aborted)
unfolding total_chunks
total_chunks_lem n p q = ground arith

pub total_chunks-ok : (n : ℕ) → 0 < n → n ≤ max_cut → total_chunks n ≡ ok (chunks n)
total_chunks-ok n p q =
    let e : leb n max_cut ≡ true = ground arith in total_chunks_lem n p (omega arith) ∙ rw e refl

pub length-slice : (i : ℕ) (d : Bytes) → length (slice i d) ≡ min 499 (length d - i * 499)
length-slice i d = omega (arith, length-take 499 (drop (i * 499) d), length-drop (i * 499) d)
