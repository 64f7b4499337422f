-- ===== src/CrString/Tests.antt =====
-- Two peers, `a` and `b`, with concurrent and with newer texts.
use firestr.Prelude.{
  ℕ, suc, ◌<◌, ◌^◌, ◌≡◌, refl, true, [], ◌∷◌, Bytes, Option, none, some, ok, arith, bytes_eq,
  bytes_eq_iff, bytes_key, if◌then◌else◌,
}
use firestr.Prelude.Maps.{find}
use firestr.VClock.Clock.{count, has}
use firestr.CrString.{CrString, merge, updated, merged}
use firestr.CrString.Merging.{IsText, Newer, Concurrent, merge-Newer, merge_swaps}

-- The merges that dtl::Diff3 decides before it looks at single edits.
abbrev quick_diff3 : Bytes → Bytes → Bytes → Option Bytes
quick_diff3 a b c =
    if bytes_eq a b
    then some c
    else if bytes_eq c b
    then some a
    else if bytes_eq a c
    then some a
    else none

quick_both : (x y : Bytes) → quick_diff3 x y x ≡ some x
quick_both x y = ground (arith, (bytes_eq_iff x x).1 refl)

abbrev text : Bytes → ℕ → ℕ → Bytes → CrString
text id at_a at_b s = record {
  clock = record { clock = ((b'a' ∷ []), at_a) ∷ ((b'b' ∷ []), at_b) ∷ []; id = id };
  s = s;
}

text-IsText :
    (id : Bytes) (n m : ℕ) (s : Bytes)
    → suc n < 2 ^ 63
    → suc m < 2 ^ 63
    → has id (text id n m s).clock.clock ≡ true
    → IsText (text id n m s)
unfolding count find
text-IsText id n m s hn hm h = record {
  tracked = record { counted = h; distinct = (refl, (refl, tt)) };
  room = λ k. ground arith;
}

abbrev of_a : CrString
of_a = text (b'a' ∷ []) 2 1 (b'x' ∷ [])

abbrev of_b : CrString
of_b = text (b'b' ∷ []) 1 2 (b'y' ∷ [])

abbrev later : CrString
later = text (b'b' ∷ []) 2 2 (b'z' ∷ [])

of_a-IsText : IsText of_a
of_a-IsText = text-IsText _ 2 1 _ (omega arith) (omega arith) (unfold has find in refl)

of_b-IsText : IsText of_b
of_b-IsText = text-IsText _ 1 2 _ (omega arith) (omega arith) (unfold has find in refl)

later-IsText : IsText later
later-IsText = text-IsText _ 2 2 _ (omega arith) (omega arith) (unfold has find in refl)

later-Newer : Newer later of_a
unfolding count find
later-Newer = ((λ k. ground arith), ((b'b' ∷ []), omega arith))

merge-Newer_example :
    (u : CrString) × (merge quick_diff3 of_a later ≡ ok (updated, u))
    × (u.s ≡ later.s)
    × ((k : Bytes) → count k u.clock.clock ≡ count k later.clock.clock)
merge-Newer_example = merge-Newer quick_diff3 of_a later of_a-IsText later-IsText later-Newer

merge_swaps_example :
    (u : CrString) × (v : CrString) × (merge quick_diff3 of_a of_b ≡ ok (merged, u))
    × (merge quick_diff3 of_b of_a ≡ ok (merged, v))
    × (u.s ≡ b'y' ∷ [])
    × (v.s ≡ b'x' ∷ [])
    × Concurrent u v
unfolding count find
merge_swaps_example =
    merge_swaps quick_diff3 of_a of_b quick_both of_a-IsText of_b-IsText (refl, omega arith)
      (refl, omega arith)
