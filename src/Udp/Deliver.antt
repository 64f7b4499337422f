-- ===== src/Udp/Deliver.antt =====
-- network/udp_queue.cpp: `insert_chunk` called on one chunk after another, as `handle_read` does.
use firestr.Prelude.{
  ℕ, ◌<◌, ◌≤◌, ◌≡◌, ◌≢◌, inl, inr, refl, sym, subst, ◌∙◌, Bool, true, false, ◌||◌, List, [], ◌∷◌,
  ◌++◌, Bytes, Option, none, some, Outcome, ok, ◌>>=◌, arith, length, replicate, get_or, set, ◌==◌,
  ==_iff, if◌then◌else◌, Bool-cases, All, nat_eq, length-set, length-replicate,
}
use firestr.Prelude.Maps.{find}
use firestr.Udp.Chunk.{MessageChunk}
use firestr.Udp.Cut.{chunks, max_cut}
use firestr.Udp.Buffers.{count, count-lt, count-set, count_of_all, get_or-set}
use firestr.Udp.Reassemble.{get_or-replicate}
use firestr.Udp.Assemble.{WorkingMessages, insert_chunk}
use firestr.Udp.Insert.{ChunkOf}
use firestr.Udp.Progress.{Known, nothing, Step, waits, delivers, insert_chunk-Step}

abbrev pub then_deliver : Option Bytes → List Bytes → List Bytes
then_deliver none ms = ms
then_deliver (some m) ms = m ∷ ms

-- The messages that a run of chunks delivers, in order, and the map that it leaves.
unfoldable pub insert_chunks :
    List MessageChunk → WorkingMessages → Outcome (List Bytes × WorkingMessages)
insert_chunks [] w = ok ([], w)
insert_chunks (c ∷ cs) w = do
  r ← insert_chunk c w
  rest ← insert_chunks cs r.1
  ok (then_deliver r.0 rest.0, rest.1)

-- Whether chunk `k` is among the chunks.
abbrev pub arrived : ℕ → List MessageChunk → Bool
arrived k [] = false
arrived k (c ∷ cs) = (c.chunk == k) || arrived k cs

abbrev pub From : ℕ → Bytes → MessageChunk → Type 0
From s d c = (c.sequence ≡ s) × ChunkOf d c

abbrev marks : List MessageChunk → List Bool → List Bool
marks [] bits = bits
marks (c ∷ cs) bits = marks cs (set bits c.chunk true)

length-marks : (cs : List MessageChunk) (bits : List Bool) → length (marks cs bits) ≡ length bits
length-marks [] bits = refl
length-marks (c ∷ cs) bits = length-marks cs (set bits c.chunk true) ∙ length-set bits c.chunk true

count-marks : (cs : List MessageChunk) (bits : List Bool) → count bits ≤ count (marks cs bits)
count-marks [] bits = omega arith
count-marks (c ∷ cs) bits =
    omega (arith, count-marks cs (set bits c.chunk true), count-set bits c.chunk)

get_or-marks :
    (s : ℕ) (d : Bytes) (cs : List MessageChunk) (bits : List Bool) (k : ℕ)
    → All (From s d) cs
    → length bits ≡ chunks (length d)
    → get_or (marks cs bits) k false ≡ (arrived k cs || get_or bits k false)
get_or-marks s d [] bits k a l = refl
get_or-marks s d (c ∷ cs) bits k a l =
    get_or-marks s d cs (set bits c.chunk true) k a.1 (length-set bits c.chunk true ∙ l)
    ∙ ground (arith, get_or-set bits c.chunk k, a.0.1.chunk)

or_false : (b : Bool) → (b || false) ≡ b
or_false true = refl
or_false false = refl

unchanged :
    (s : ℕ) (w : WorkingMessages)
    → find s w ≡ none
    → (t : ℕ) → (if s == t then none else find t w) ≡ find t w
unchanged s w n t = elim (Bool-cases (s == t)) [
  | inl e ↦ rw e (sym (subst (λ x. find x w ≡ none) ((==_iff s t).0 e) n))
  | inr e ↦ rw e refl
]

module _ (s : ℕ) (d : Bytes) (bits : List Bool) (w : WorkingMessages) where
  when_below :
      (w' : WorkingMessages) (m : Option Bytes)
      → Step s d bits w w' m
      → count bits < chunks (length d)
      → (m ≡ none) × Known s d bits w' × ((t : ℕ) → t ≢ s → find t w' ≡ find t w)
  when_below w' none (waits l k o) h = (refl, k, o)
  when_below w' (some d') (delivers l o) h = absurd (omega arith)

  when_full :
      (w' : WorkingMessages) (m : Option Bytes)
      → Step s d bits w w' m
      → count bits ≡ chunks (length d)
      → (m ≡ some d) × ((t : ℕ) → find t w' ≡ (if s == t then none else find t w))
  when_full w' none (waits l k o) h = absurd (omega arith)
  when_full w' (some d') (delivers l o) h = (refl, o)

module _ (d : Bytes) (p : 0 < length d) (b : length d ≤ max_cut) (s : ℕ) where
  one :
      (c : MessageChunk) (bits : List Bool) (w : WorkingMessages)
      → From s d c
      → count bits < chunks (length d)
      → Known s d bits w
      → (r : Option Bytes × WorkingMessages) × (insert_chunk c w ≡ ok r)
        × Step s d (set bits c.chunk true) w r.1 r.0
  one c bits w f l =
      subst
        (λ t.
          Known t d bits w
          → (r : Option Bytes × WorkingMessages) × (insert_chunk c w ≡ ok r)
            × Step t d (set bits c.chunk true) w r.1 r.0)
        f.0 (insert_chunk-Step d p b c f.1 bits w l)

  -- While a chunk is missing nothing is delivered.
  insert_chunks-waits :
      (cs : List MessageChunk) (bits : List Bool) (w : WorkingMessages)
      → All (From s d) cs
      → count (marks cs bits) < chunks (length d)
      → Known s d bits w
      → (w' : WorkingMessages) × (insert_chunks cs w ≡ ok ([], w'))
        × Known s d (marks cs bits) w'
        × ((t : ℕ) → t ≢ s → find t w' ≡ find t w)
  unfolding insert_chunks
  insert_chunks-waits [] bits w a l k = (w, refl, k, λ t n. refl)
  insert_chunks-waits (c ∷ cs) bits w a l k =
      let below : count (set bits c.chunk true) < chunks (length d) =
        omega (arith, count-marks cs (set bits c.chunk true)) in
      let (r, e, st) = one c bits w a.0 (omega (arith, below, count-set bits c.chunk)) k in
      let (n, k', o) = when_below s d (set bits c.chunk true) w r.1 r.0 st below in
      let (w', e', k'', o') = insert_chunks-waits cs (set bits c.chunk true) r.1 a.1 l k' in
      (w', rw (e, e', n) refl, k'', λ t u. o' t u ∙ o t u)

  insert_chunks-delivers :
      (cs : List MessageChunk) (c : MessageChunk) (bits : List Bool) (w : WorkingMessages)
      → All (From s d) cs
      → From s d c
      → count (marks cs bits) < chunks (length d)
      → count (set (marks cs bits) c.chunk true) ≡ chunks (length d)
      → Known s d bits w
      → (w' : WorkingMessages) × (insert_chunks (cs ++ (c ∷ [])) w ≡ ok (d ∷ [], w'))
        × ((t : ℕ) → find t w' ≡ (if s == t then none else find t w))
  unfolding insert_chunks
  insert_chunks-delivers [] c bits w a f l m k =
      let (r, e, st) = one c bits w f l k in
      let (n, o) = when_full s d (set bits c.chunk true) w r.1 r.0 st m in (r.1, rw (e, n) refl, o)
  insert_chunks-delivers (c' ∷ cs) c bits w a f l m k =
      let below : count (set bits c'.chunk true) < chunks (length d) =
        omega (arith, count-marks cs (set bits c'.chunk true)) in
      let (r, e, st) = one c' bits w a.0 (omega (arith, below, count-set bits c'.chunk)) k in
      let (n, k', o) = when_below s d (set bits c'.chunk true) w r.1 r.0 st below in
      let (w', e', o') = insert_chunks-delivers cs c (set bits c'.chunk true) r.1 a.1 f l m k' in
      (w', rw (e, e', n) refl, λ t. o' t ∙ ground (arith, o t))

-- The bits once the chunks are in.
module _ (s : ℕ) (d : Bytes) (cs : List MessageChunk) (a : All (From s d) cs) where
  abbrev bits_of : List Bool
  bits_of = marks cs (replicate (chunks (length d)) false)

  length-bits_of : length bits_of ≡ chunks (length d)
  length-bits_of =
      length-marks cs (replicate (chunks (length d)) false)
      ∙ length-replicate (chunks (length d)) false

  get_or-bits_of : (k : ℕ) → get_or bits_of k false ≡ arrived k cs
  get_or-bits_of k =
      get_or-marks s d cs (replicate (chunks (length d)) false) k a
        (length-replicate (chunks (length d)) false)
      ∙ rw (get_or-replicate (chunks (length d)) k) (or_false (arrived k cs))

  missing :
      (k : ℕ) → k < chunks (length d) → arrived k cs ≡ false → count bits_of < chunks (length d)
  missing k h e = omega (
    arith,
    length-bits_of,
    count-lt bits_of k (omega (arith, length-bits_of)) (get_or-bits_of k ∙ e),
  )

  full :
      (j : ℕ)
      → j < chunks (length d)
      → ((k : ℕ) → k < chunks (length d) → k ≢ j → arrived k cs ≡ true)
      → count (set bits_of j true) ≡ chunks (length d)
  full j l h =
      let set_all : (k : ℕ) → k < chunks (length d) → get_or (set bits_of j true) k false ≡ true =
        λ k m. get_or-set bits_of j k (omega (arith, length-bits_of)) ∙ elim (Bool-cases (j == k)) [
          | inl e ↦ rw e refl
          | inr e ↦ rw e (get_or-bits_of k ∙ h k m (λ i. cc ((==_iff j k).1 (sym i))))
        ] in
      count_of_all (set bits_of j true)
        (λ k m. set_all k (omega (arith, m, length-set bits_of j true, length-bits_of)))
      ∙ (length-set bits_of j true ∙ length-bits_of)

-- While a chunk of a message of 1 to 65535 * 499 bytes, whose sequence number had no entry, has
-- not come, the chunks that did come, in any order and with repetitions, are taken with no failed
-- contract and deliver nothing, and a look-up under another sequence number gives what it gave.
pub insert_chunks-missing :
    (s : ℕ) (d : Bytes) (cs : List MessageChunk) (w : WorkingMessages) (k t : ℕ)
    → 0 < length d
    → length d ≤ max_cut
    → find s w ≡ none
    → All (From s d) cs
    → k < chunks (length d)
    → arrived k cs ≡ false
    → t ≢ s
    → (w' : WorkingMessages) × (insert_chunks cs w ≡ ok ([], w')) × (find t w' ≡ find t w)
insert_chunks-missing s d cs w k t p b n a h e u =
    let (w', e', _, o) =
      insert_chunks-waits d p b s cs (replicate (chunks (length d)) false) w a
        (missing s d cs a k h e) (nothing n refl) in
    (w', e', o t u)

-- For a message of 1 to 65535 * 499 bytes whose sequence number has no entry yet, any sequence of
-- its chunks, in any order and with repetitions, up to and including the chunk that was missing
-- last, makes insert_chunk deliver exactly the message, once, with no failed contract, and leaves
-- every look-up in the map of working messages as it was.
pub insert_chunks_complete :
    (s : ℕ) (d : Bytes) (cs : List MessageChunk) (c : MessageChunk) (w : WorkingMessages)
    → 0 < length d
    → length d ≤ max_cut
    → find s w ≡ none
    → All (From s d) cs
    → From s d c
    → arrived c.chunk cs ≡ false
    → ((k : ℕ) → k < chunks (length d) → k ≢ c.chunk → arrived k cs ≡ true)
    → (w' : WorkingMessages) × (insert_chunks (cs ++ (c ∷ [])) w ≡ ok (d ∷ [], w'))
      × ((t : ℕ) → find t w' ≡ find t w)
insert_chunks_complete s d cs c w p b n a f e h =
    let (w', e', o) =
      insert_chunks-delivers d p b s cs c (replicate (chunks (length d)) false) w a f
        (missing s d cs a c.chunk f.1.chunk e) (full s d cs a c.chunk f.1.chunk h)
        (nothing n refl) in
    (w', e', λ t. o t ∙ unchanged s w n t)
