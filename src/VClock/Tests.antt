-- ===== src/VClock/Tests.antt =====
-- Clocks over numbers as ids.
use firestr.Prelude.{ℕ, ◌≡◌, ◌↔◌, ◌⊎◌, refl, pos, negsuc, [], ◌∷◌, ok, arith, nat_eq}
use firestr.Prelude.Maps.{find, assign}
use firestr.VClock.Clock.{Clock, count, has, merge, compare, compare_key, contains}
use firestr.VClock.Merge.{Le, merge_lub}
use firestr.VClock.Compare.{Less, compare_iff}
use firestr.VClock.Tracked.{Tracked, IsTracked, increment, merge-IsTracked, increment_newer}
use firestr.VClock.Tracked
use firestr.Prelude.{◌-ℤ◌, Bytes, bytes_key, codes}
use firestr.VClock.Convert.{to_tracked_dict, to_tracked_sclock, to_tracked_sclock-to_tracked_dict}

abbrev left : Clock ℕ
left = (1, 4) ∷ (2, 7) ∷ []

abbrev right : Clock ℕ
right = (2, 5) ∷ (3, 1) ∷ []

merged : merge left right ≡ (1, 4) ∷ (2, 7) ∷ (3, 1) ∷ []
unfolding merge count find assign
merged = refl

ahead_of_nothing : compare left ((1, 4) ∷ []) ≡ pos 1
unfolding compare compare_key count find contains ◌-ℤ◌
ahead_of_nothing = refl

merge_lub_example :
    Le (merge left right) (merge right left)
    ↔ (Le left (merge right left) × Le right (merge right left))
unfolding find
merge_lub_example = merge_lub left right (merge right left) (refl, (refl, tt))

compare_iff_example :
    ((compare left right ≡ negsuc 0) ↔ (Le left right × Less left right))
    × ((compare left right ≡ pos 1) ↔ (Le right left × Less right left))
    × ((compare left right ≡ pos 0)
        ↔ ((Le left right × Le right left) ⊎ (Less left right × Less right left)))
unfolding count find
compare_iff_example = compare_iff left right (λ k. ground arith) (λ k. ground arith)

abbrev one : Tracked ℕ
one = record { clock = left; id = 1 }

abbrev three : Tracked ℕ
three = record { clock = right; id = 3 }

one-IsTracked : IsTracked one
unfolding has find
one-IsTracked = record { counted = refl; distinct = (refl, (refl, tt)) }

three-IsTracked : IsTracked three
unfolding has find
three-IsTracked = record { counted = refl; distinct = (refl, (refl, tt)) }

abbrev shared : Tracked.Tracked Bytes
shared = record { clock = (codes "ann", 3) ∷ (codes "bob", 1) ∷ []; id = codes "bob" }

to_tracked_sclock-to_tracked_dict_example : to_tracked_sclock (to_tracked_dict shared) ≡ ok shared
unfolding has find
to_tracked_sclock-to_tracked_dict_example =
    to_tracked_sclock-to_tracked_dict shared
      (record { counted = refl; distinct = (refl, (refl, tt)) })
