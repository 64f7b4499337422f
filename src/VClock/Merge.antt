-- ===== src/VClock/Merge.antt =====
-- util/vclock.hpp: `operator+=` takes the greater count of every id.
use firestr.Prelude.{
  ◌↔◌, ℕ, ◌≤◌, max, ◌≡◌, refl, subst, true, [], ◌∷◌, Option, none, some, Eq, arith, Bool-cases, inl,
  inr,
}
use firestr.Prelude.Maps.{find, assign, Distinct, find-assign, assign-Distinct}
use firestr.VClock.Clock.{Clock, or_zero, count, merge}

-- What `merge` binds an id to: nothing new where the other clock has no such id.
abbrev pub joined : Option ℕ → Option ℕ → Option ℕ
joined c none = c
joined c (some v) = some (max (or_zero c) v)

joined_comm : (c o : Option ℕ) → joined c o ≡ joined o c
joined_comm c o = ground arith

joined_assoc : (a b c : Option ℕ) → joined (joined a b) c ≡ joined a (joined b c)
joined_assoc a b c = ground arith

joined_idem : (a : Option ℕ) → joined a a ≡ a
joined_idem a = ground arith

joined_count : (c o : Option ℕ) → or_zero (joined c o) ≡ max (or_zero c) (or_zero o)
joined_count c o = ground arith

module _ {ℓ} {K : Type ℓ} ⦃e : Eq K⦄ where
  find_same : (j k : K) (o : Clock K) → e.beq j k ≡ true → find j o ≡ none → find k o ≡ none
  find_same j k o h = subst (λ i. find i o ≡ none) ((e.beq_iff j k).0 h)

  -- For a second clock with distinct ids, the merged clock has exactly the ids of the two clocks,
  -- each with the greater of its counts.
  pub find-merge :
      (k : K) (c o : Clock K) → Distinct o → find k (merge c o) ≡ joined (find k c) (find k o)
  unfolding merge find count
  find-merge k c [] d = refl
  find-merge k c ((j, v) ∷ o) d =
      let step = find-merge k (assign j (max (count j c) v) c) o d.1 in
      let put = find-assign j k (max (count j c) v) c in
      elim (Bool-cases (e.beq j k)) [
        | inl h ↦ rw (step, put, h, find_same j k o h d.0, (e.beq_iff j k).0 h)
        | inr h ↦ rw (step, put, h)
      ]

  pub merge-Distinct : (c o : Clock K) → Distinct c → Distinct (merge c o)
  unfolding merge
  merge-Distinct c [] d = d
  merge-Distinct c ((k, v) ∷ o) d =
      merge-Distinct (assign k (max (count k c) v) c) o (assign-Distinct k (max (count k c) v) c d)

  -- Two clocks that no look-up tells apart.
  abbrev pub SameClock : Clock K → Clock K → Type ℓ
  SameClock c o = (k : K) → find k c ≡ find k o

  -- For clocks with distinct ids, merging is commutative, associative and idempotent, up to what
  -- look-ups can tell.
  pub merge_semilattice :
      (a b c : Clock K)
      → Distinct a
      → Distinct b
      → Distinct c
      → SameClock (merge a b) (merge b a)
        × SameClock (merge (merge a b) c) (merge a (merge b c))
        × SameClock (merge a a) a
  merge_semilattice a b c da db dc = (
    (λ k. rw (find-merge k a b db, find-merge k b a da) (joined_comm (find k a) (find k b))),
    (λ k.
        rw
          (
            find-merge k (merge a b) c dc,
            find-merge k a b db,
            find-merge k a (merge b c) (merge-Distinct b c db),
            find-merge k b c dc,
          )
          (joined_assoc (find k a) (find k b) (find k c))),
    (λ k. rw (find-merge k a a da) (joined_idem (find k a))),
  )

  -- Every count is at most that of the other clock.
  abbrev pub Le : Clock K → Clock K → Type ℓ
  Le c o = (k : K) → count k c ≤ count k o

  pub count-merge :
      (k : K) (c o : Clock K) → Distinct o → count k (merge c o) ≡ max (count k c) (count k o)
  unfolding count
  count-merge k c o d = rw (find-merge k c o d) (joined_count (find k c) (find k o))

  -- A clock is above a merged clock exactly where it is above both of the clocks merged, for a
  -- second clock with distinct ids.
  pub merge_lub : (a b c : Clock K) → Distinct b → Le (merge a b) c ↔ (Le a c × Le b c)
  merge_lub a b c d = (
    (λ h. (
      (λ k. omega (arith, count-merge k a b d, h k)),
      (λ k. omega (arith, count-merge k a b d, h k)),
    )),
    (λ (ha, hb) k. omega (arith, count-merge k a b d, ha k, hb k)),
  )
