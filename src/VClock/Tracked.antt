-- ===== src/VClock/Tracked.antt =====
-- util/vclock.hpp: `tracked_vclock`, a clock with the id that its owner counts.
-- Its prefix `operator++` has no return statement and is left out: the code uses the postfix one.
use firestr.Prelude.{
  ℕ, suc, ◌+◌, ◌%◌, ◌^◌, ◌<◌, ◌≤◌, max, ◌≡◌, refl, subst, Bool, true, not, ℤ, pos, [], ◌∷◌, Eq,
  arith, if◌then◌else◌, Outcome, ok, require, ◌>>◌, Bool-cases, inl, inr,
}
use firestr.Prelude.Maps.{find, assign, Distinct, find-assign, assign-Distinct}
use firestr.VClock.Clock
use firestr.VClock.Clock.{Clock, count, has, empty, or_zero}
use firestr.VClock.Merge.{find-merge, merge-Distinct, count-merge}
use firestr.VClock.Compare.{Small, compare_iff}

pub record Tracked {ℓ} (K : Type ℓ) : Type ℓ where
  pub clock : Clock K
  pub id : K

module _ {ℓ} {K : Type ℓ} ⦃e : Eq K⦄ where
  -- The three constructors.
  unfoldable pub create : K → Tracked K
  create i = record { clock = assign i 1 []; id = i }

  unfoldable pub create_at : K → ℕ → Tracked K
  create_at i v = record { clock = assign i v []; id = i }

  unfoldable pub create_from : K → Clock K → Tracked K
  create_from i c = record { clock = if has i c then c else assign i 1 c; id = i }

  -- The postfix `operator++`: the old clock, and the clock after it.
  unfoldable pub increment : Tracked K → Tracked K × Tracked K
  increment t = (t, record t { clock = assign t.id ((count t.id t.clock + 1) % 2 ^ 64) t.clock })

  -- `operator=`.
  unfoldable pub set_count : ℕ → Tracked K → Outcome (Tracked K)
  set_count v t = do require (has t.id t.clock); ok (record t { clock = assign t.id v t.clock })

  unfoldable pub merge : Tracked K → Tracked K → Outcome (Tracked K)
  merge t o = do
    require (not (empty o.clock))
    let c = Clock.merge t.clock o.clock
    require (has t.id c)
    ok (record t { clock = c })

  unfoldable pub compare : Tracked K → Tracked K → Outcome ℤ
  compare t o = do
    require (not (empty o.clock))
    require (has t.id t.clock)
    ok (Clock.compare t.clock o.clock)

  unfoldable pub identical : Tracked K → Tracked K → Outcome Bool
  identical t o = do
    require (not (empty o.clock))
    require (has t.id t.clock)
    ok (Clock.identical t.clock o.clock)

  unfoldable pub concurrent : Tracked K → Tracked K → Outcome Bool
  concurrent t o = do
    require (not (empty o.clock))
    require (has t.id t.clock)
    ok (Clock.concurrent t.clock o.clock)

  unfoldable pub conflict : Tracked K → Tracked K → Outcome Bool
  conflict t o = do
    require (not (empty o.clock))
    require (has t.id t.clock)
    ok (Clock.conflict t.clock o.clock)

  -- The class invariant: the clock counts its own id, and is a map.
  pub record IsTracked (t : Tracked K) : Type ℓ where
    pub counted : has t.id t.clock ≡ true
    pub distinct : Distinct t.clock

  has-assign : (k : K) (v : ℕ) (c : Clock K) → has k (assign k v c) ≡ true
  unfolding has
  has-assign k v c = rw (has, find-assign k k v c, (e.beq_iff k k).1 refl)

  has-merge : (k : K) (c o : Clock K) → Distinct o → has k c ≡ true → has k (Clock.merge c o) ≡ true
  unfolding has
  has-merge k c o d h = ground (arith, find-merge k c o d)

  pub not-empty : (k : K) (c : Clock K) → has k c ≡ true → not (empty c) ≡ true
  unfolding has empty find
  not-empty k [] h = cc
  not-empty k (x ∷ c) h = refl

  -- The contracts of the comparisons hold.
  pub compare-ok :
      (t o : Tracked K)
      → IsTracked t
      → IsTracked o
      → compare t o ≡ ok (Clock.compare t.clock o.clock)
  unfolding compare
  compare-ok t o ht ho = rw (not-empty o.id o.clock ho.counted, ht.counted)

  pub identical-ok :
      (t o : Tracked K)
      → IsTracked t
      → IsTracked o
      → identical t o ≡ ok (Clock.identical t.clock o.clock)
  unfolding identical
  identical-ok t o ht ho = rw (not-empty o.id o.clock ho.counted, ht.counted)

  pub create_from-IsTracked : (i : K) (c : Clock K) → Distinct c → IsTracked (create_from i c)
  unfolding create_from
  create_from-IsTracked i c d = elim (Bool-cases (has i c)) [
    | inl h ↦ record { counted = rw (h, if◌then◌else◌) h; distinct = rw (h, if◌then◌else◌) d }
    | inr h ↦ record {
      counted = rw h (has-assign i 1 c);
      distinct = rw h (assign-Distinct i 1 c d);
    }
  ]

  count-assign :
      (j k : K) (v : ℕ) (c : Clock K)
      → count k (assign j v c) ≡ (if e.beq j k then v else count k c)
  unfolding count
  count-assign j k v c = rw (find-assign j k v c) (ground arith)

  count_grows :
      (c : Clock K) (j k : K) (n : ℕ)
      → count j c ≤ n
      → count k (assign j n c) ≡ (if e.beq j k then n else count k c)
      → count k c ≤ count k (assign j n c)
  count_grows c j k n h put = elim (Bool-cases (e.beq j k)) [
    | inl same ↦
        let at_k = subst (λ i. count i c ≤ n) ((e.beq_iff j k).0 same) h in rw (put, same) (at_k)
    | inr other ↦ rw (put, other) (omega arith)
  ]

  pub count-increment :
      (k : K) (t : Tracked K)
      → count k (increment t).1.clock
        ≡ (if e.beq t.id k then (count t.id t.clock + 1) % 2 ^ 64 else count k t.clock)
  unfolding increment
  count-increment k t = count-assign t.id k ((count t.id t.clock + 1) % 2 ^ 64) t.clock

  -- For a tracked clock that has its own id, distinct ids and counts below 2^63, and whose own
  -- count is below 2^63 - 1, the incremented clock keeps that invariant and compares as 1 to the
  -- clock before, with no failed contract.
  pub increment_newer :
      (t : Tracked K)
      → IsTracked t
      → Small t.clock
      → suc (count t.id t.clock) < 2 ^ 63
      → IsTracked (increment t).1 × (compare (increment t).1 t ≡ ok (pos 1))
  unfolding increment compare
  increment_newer t inv small room =
      let n = (count t.id t.clock + 1) % 2 ^ 64 in
      let new = assign t.id n t.clock in
      let put = λ (k : K). count-assign t.id k n t.clock in
      let order = compare_iff new t.clock (λ k. ground (arith, put k, small k)) small in
      let same = (e.beq_iff t.id t.id).1 refl in
      (
        record {
          counted = has-assign t.id n t.clock;
          distinct = assign-Distinct t.id n t.clock inv.distinct;
        },
        rw (
          not-empty t.id t.clock inv.counted,
          has-assign t.id n t.clock,
          order.1.1 (
            (λ k. count_grows t.clock t.id k n (omega arith) (put k)),
            (t.id, ground (arith, put t.id, same)),
          ),
        ),
      )

  -- The merge of two tracked clocks that have their own ids and distinct ids meets its contracts,
  -- keeps that invariant and the id, and counts for every id the greater of the two counts.
  pub merge-IsTracked :
      (t o : Tracked K)
      → IsTracked t
      → IsTracked o
      → (r : Tracked K) × (merge t o ≡ ok r)
        × IsTracked r
        × (r.id ≡ t.id)
        × ((k : K) → count k r.clock ≡ max (count k t.clock) (count k o.clock))
  unfolding merge
  merge-IsTracked t o ht ho =
      let c = Clock.merge t.clock o.clock in
      let counted = has-merge t.id t.clock o.clock ho.distinct ht.counted in
      (
        record t { clock = c },
        rw (not-empty o.id o.clock ho.counted, counted),
        record { counted = counted; distinct = merge-Distinct t.clock o.clock ht.distinct },
        refl,
        λ k. count-merge k t.clock o.clock ho.distinct,
      )
