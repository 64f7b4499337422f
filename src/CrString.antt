-- ===== src/CrString.antt =====
-- util/crstring.hpp and util/crstring.cpp: `cr_string`, a text with a vector clock, which two
-- peers edit and merge.
pub mod Merging
mod Tests
use firestr.Prelude.{
  ℕ, zero, suc, Bool, true, false, ℤ, pos, negsuc, [], Bytes, Option, none, some, Outcome, ok,
  aborted, ◌>>=◌, if◌then◌else◌, bytes_key,
}
use firestr.VClock.Tracked
use firestr.VClock.Tracked.{Tracked}

pub data MergeResult : Type 0 where
  no_change updated merged conflict : MergeResult

pub record CrString : Type 0 where
  pub clock : Tracked Bytes
  pub s : Bytes

-- The first two constructors.
unfoldable pub create : Bytes → CrString
create id = record { clock = Tracked.create id; s = [] }

unfoldable pub init_set : Bytes → CrString → CrString
init_set s t = record t { s = s }

-- `set`: the text, and one more event.
unfoldable pub set : Bytes → CrString → CrString
set s t = record t { s = s; clock = (Tracked.increment t.clock).1 }

-- util/text.cpp: `util::merge`, with dtl::Diff3 (a copy of the library dtl, under src/dtl) as the
-- parameter `diff3`: the merged sequence, and `none` for a conflict.
unfoldable pub merge_text :
    (Bytes → Bytes → Bytes → Option Bytes) → Bytes → Bytes → Bytes → Bytes → Bool × Bytes
merge_text diff3 a b c out = elim (diff3 a b c) [ none ↦ (false, out) | some x ↦ (true, x) ]

module _ (diff3 : Bytes → Bytes → Bytes → Option Bytes) where
  -- The case 0 of `merge`, past the test for identical clocks.
  unfoldable pub merge_concurrent : CrString → CrString → MergeResult × CrString
  unfolding merge_text
  merge_concurrent t o =
      let (done, s) = merge_text diff3 o.s t.s o.s t.s in
      if done
      then (merged, record t { s = s; clock = (Tracked.increment t.clock).1 })
      else (conflict, record t { s = s })

  -- The switch of `merge`.
  unfoldable pub merge_by : ℤ → CrString → CrString → Outcome (MergeResult × CrString)
  merge_by (negsuc zero) t o = ok (no_change, t)
  merge_by (pos (suc zero)) t o = ok (updated, record t { s = o.s })
  merge_by (pos zero) t o = do
    same ← Tracked.identical t.clock o.clock
    ok (if same then (no_change, t) else merge_concurrent t o)
  merge_by _ t o = aborted

  unfoldable pub merge : CrString → CrString → Outcome (MergeResult × CrString)
  merge t o = do
    order ← Tracked.compare o.clock t.clock
    (r, u) ← merge_by order t o
    c ← Tracked.merge u.clock o.clock
    ok (r, record u { clock = c })
