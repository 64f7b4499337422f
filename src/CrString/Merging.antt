-- ===== src/CrString/Merging.antt =====
-- util/crstring.cpp: what `merge` does with older, newer and concurrent texts.
use firestr.Prelude.{
  suc, ◌+◌, ◌%◌, ◌^◌, ◌<◌, max, ◌≡◌, refl, false, pos, Bytes, Option, none, some, ok, arith,
  bytes_key, bytes_eq_iff, Bool-cases, inl, inr,
}
use firestr.VClock.Clock.{Clock, count, or_zero}
use firestr.VClock.Clock
use firestr.VClock.Compare.{Small, Less, compare_iff, identical_iff}
use firestr.VClock.Merge.{Le, SameClock}
use firestr.VClock.Tracked.{
  IsTracked, increment, merge-IsTracked, compare-ok, identical-ok, increment_newer, count-increment,
}
use firestr.CrString.{
  CrString, no_change, updated, merged, conflict, merge, merge_by, merge_concurrent, merge_text,
}

-- `o` is ahead of `t`, as the clocks tell.
abbrev pub Newer : CrString → CrString → Type 0
Newer o t = Le t.clock.clock o.clock.clock × Less t.clock.clock o.clock.clock

-- Both have events that the other lacks.
abbrev pub Concurrent : CrString → CrString → Type 0
Concurrent o t = Less t.clock.clock o.clock.clock × Less o.clock.clock t.clock.clock

-- A text of a running program: its clock holds its contracts, and has counts below 2^63 - 1.
pub record IsText (t : CrString) : Type 0 where
  pub tracked : IsTracked t.clock
  pub room : (k : Bytes) → suc (count k t.clock.clock) < 2 ^ 63

Small-of : (t : CrString) → IsText t → Small t.clock.clock
Small-of t h = λ k. omega (arith, h.room k)

-- Where each clock is ahead, `compare` says 0 and the clocks are not identical.
Concurrent-verdict :
    (t o : CrString)
    → IsText t
    → IsText o
    → Concurrent o t
    → (Clock.compare o.clock.clock t.clock.clock ≡ pos 0)
      × (Clock.identical t.clock.clock o.clock.clock ≡ false)
Concurrent-verdict t o ht ho (less, more) = (
  (compare_iff o.clock.clock t.clock.clock (Small-of o ho) (Small-of t ht)).2.1 (inr (more, less)),
  elim (Bool-cases (Clock.identical t.clock.clock o.clock.clock)) [
    | inl same ↦
        let h =
          (identical_iff t.clock.clock o.clock.clock ht.tracked.distinct ho.tracked.distinct).0
            same in
        absurd (apart t.clock.clock o.clock.clock less h)
    | inr different ↦ different
  ],
)
  where
    apart : (a b : Clock Bytes) → Less a b → SameClock a b → ⊥
    apart a b (k, lt) h =
        let same : count k a ≡ count k b = unfold count in rw (h k) in omega (arith, same)

-- After the merges the first peer is ahead of the second in its own id.
ahead :
    (t o u v : CrString)
    → bytes_key.beq t.clock.id o.clock.id ≡ false
    → bytes_key.beq o.clock.id t.clock.id ≡ false
    → count t.clock.id o.clock.clock < count t.clock.id t.clock.clock
    → IsText t
    → ((k : Bytes)
        → count k u.clock.clock ≡ max (count k (increment t.clock).1.clock) (count k o.clock.clock))
    → ((k : Bytes)
        → count k v.clock.clock ≡ max (count k (increment o.clock).1.clock) (count k t.clock.clock))
    → count t.clock.id v.clock.clock < count t.clock.id u.clock.clock
ahead t o u v ne en at ht cu cv =
    let i = t.clock.id in
    let own = count-increment i t.clock in
    let other = count-increment i o.clock in
    let same = (bytes_eq_iff i i).1 refl in
    let own' : count i (increment t.clock).1.clock ≡ (count i t.clock.clock + 1) % 2 ^ 64 =
      rw (own, same) in
    let other' : count i (increment o.clock).1.clock ≡ count i o.clock.clock = rw (other, en) in
    omega (arith, cu i, cv i, own', other', ht.room i)

module _ (diff3 : Bytes → Bytes → Bytes → Option Bytes) where
  -- For texts whose clocks are tracked and have room to count, the merge with a newer text answers
  -- UPDATED, takes the text over, and leaves clocks that count the same.
  pub merge-Newer :
      (t o : CrString)
      → IsText t
      → IsText o
      → Newer o t
      → (u : CrString) × (merge diff3 t o ≡ ok (updated, u))
        × (u.s ≡ o.s)
        × ((k : Bytes) → count k u.clock.clock ≡ count k o.clock.clock)
  unfolding merge merge_by
  merge-Newer t o ht ho (le, less) =
      let order = compare-ok o.clock t.clock ho.tracked ht.tracked in
      let (c, e, hc, id, joins) = merge-IsTracked t.clock o.clock ht.tracked ho.tracked in
      let verdict = compare_iff o.clock.clock t.clock.clock (Small-of o ho) (Small-of t ht) in
      let newer = verdict.1.1 (le, less) in
      (record { s = o.s; clock = c }, rw (order, newer, e), refl, λ k. omega (arith, joins k, le k))

  -- For texts whose clocks are tracked and have room to count, the merge with an older text
  -- answers NO_CHANGE and keeps the text and every count.
  pub merge-older :
      (t o : CrString)
      → IsText t
      → IsText o
      → Newer t o
      → (u : CrString) × (merge diff3 t o ≡ ok (no_change, u))
        × (u.s ≡ t.s)
        × ((k : Bytes) → count k u.clock.clock ≡ count k t.clock.clock)
  unfolding merge merge_by
  merge-older t o ht ho (le, less) =
      let order = compare-ok o.clock t.clock ho.tracked ht.tracked in
      let (c, e, hc, id, joins) = merge-IsTracked t.clock o.clock ht.tracked ho.tracked in
      let verdict = compare_iff o.clock.clock t.clock.clock (Small-of o ho) (Small-of t ht) in
      let older = verdict.0.1 (le, less) in
      (record t { clock = c }, rw (order, older, e), refl, λ k. omega (arith, joins k, le k))

  merge_concurrent-some :
      (t o : CrString) {x : Bytes}
      → diff3 o.s t.s o.s ≡ some x
      → merge_concurrent diff3 t o ≡ (merged, record { s = x; clock = (increment t.clock).1 })
  unfolding merge_concurrent merge_text
  merge_concurrent-some t o d = rw (d, merge_concurrent, merge_text)

  merge_concurrent-none :
      (t o : CrString) → diff3 o.s t.s o.s ≡ none → merge_concurrent diff3 t o ≡ (conflict, t)
  unfolding merge_concurrent merge_text
  merge_concurrent-none t o d = rw (d, merge_concurrent, merge_text)

  -- What the merge of concurrent texts makes of the three-way merge's answer.
  pub merge-Concurrent :
      (t o : CrString)
      → IsText t
      → IsText o
      → Concurrent o t
      → {x : Bytes} → diff3 o.s t.s o.s ≡ some x
      → (u : CrString) × (merge diff3 t o ≡ ok (merged, u))
        × (u.s ≡ x)
        × ((k : Bytes)
            → count k u.clock.clock
              ≡ max (count k (increment t.clock).1.clock) (count k o.clock.clock))
  unfolding merge merge_by
  merge-Concurrent t o ht ho apart {x} d =
      let order = compare-ok o.clock t.clock ho.tracked ht.tracked in
      let equal = identical-ok t.clock o.clock ht.tracked ho.tracked in
      let (verdict, different) = Concurrent-verdict t o ht ho apart in
      let next = (increment_newer t.clock ht.tracked (Small-of t ht) (ht.room t.clock.id)).0 in
      let (c, e, hc, id, joins) = merge-IsTracked (increment t.clock).1 o.clock next ho.tracked in
      (
        record { s = x; clock = c },
        rw (order, verdict, equal, different, merge_concurrent-some t o d, e),
        refl,
        joins,
      )

  -- For concurrent texts whose clocks are tracked and have room to count, where the three-way
  -- merge finds a conflict the merge answers CONFLICT, keeps the text, and joins the clocks.
  pub merge-conflict :
      (t o : CrString)
      → IsText t
      → IsText o
      → Concurrent o t
      → diff3 o.s t.s o.s ≡ none
      → (u : CrString) × (merge diff3 t o ≡ ok (conflict, u))
        × (u.s ≡ t.s)
        × ((k : Bytes)
            → count k u.clock.clock ≡ max (count k t.clock.clock) (count k o.clock.clock))
  unfolding merge merge_by
  merge-conflict t o ht ho apart d =
      let order = compare-ok o.clock t.clock ho.tracked ht.tracked in
      let equal = identical-ok t.clock o.clock ht.tracked ho.tracked in
      let (verdict, different) = Concurrent-verdict t o ht ho apart in
      let (c, e, hc, id, joins) = merge-IsTracked t.clock o.clock ht.tracked ho.tracked in
      (
        record t { clock = c },
        rw (order, verdict, equal, different, merge_concurrent-none t o d, e),
        refl,
        joins,
      )

  -- Each clock is ahead in its own id, and the ids differ.
  abbrev pub OwnAhead : CrString → CrString → Type 0
  OwnAhead t o =
      (bytes_key.beq t.clock.id o.clock.id ≡ false)
      × (count t.clock.id o.clock.clock < count t.clock.id t.clock.clock)

  -- Where the three-way merge takes a change that both sides made, two peers whose clocks are
  -- tracked and have room to count, each ahead in its own id, who merge one another's texts, both
  -- answer MERGED, end up with each other's text, and are concurrent again.
  pub merge_swaps :
      (t o : CrString)
      → ((x y : Bytes) → diff3 x y x ≡ some x)
      → IsText t
      → IsText o
      → OwnAhead t o
      → OwnAhead o t
      → (u : CrString) × (v : CrString) × (merge diff3 t o ≡ ok (merged, u))
        × (merge diff3 o t ≡ ok (merged, v))
        × (u.s ≡ o.s)
        × (v.s ≡ t.s)
        × Concurrent u v
  merge_swaps t o both ht ho (ne, at) (en, ao) =
      let (u, eu, su, cu) =
        merge-Concurrent t o ht ho ((o.clock.id, ao), (t.clock.id, at)) (both o.s t.s) in
      let (v, ev, sv, cv) =
        merge-Concurrent o t ho ht ((t.clock.id, at), (o.clock.id, ao)) (both t.s o.s) in
      (
        u,
        v,
        eu,
        ev,
        su,
        sv,
        (
          (t.clock.id, ahead t o u v ne en at ht cu cv),
          (o.clock.id, ahead o t v u en ne ao ho cv cu),
        ),
      )
