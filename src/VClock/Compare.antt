-- ===== src/VClock/Compare.antt =====
-- util/vclock.hpp: `compare` decides the pointwise order of the counts, and `identical` equality.
use firestr.Prelude.{
  ℕ, ◌≤◌, ◌<◌, ◌^◌, ◌≡◌, ◌↔◌, ◌⊎◌, refl, sym, subst, ◌∙◌, Bool, true, false, ◌||◌, pos, negsuc,
  ◌-ℤ◌, ltb_ℤ, List, [], ◌∷◌, ◌++◌, Option, none, some, Eq, arith, if◌then◌else◌, Bool-cases, inl,
  inr, ltb,
}
use firestr.Prelude.Maps.{find, Distinct}
use firestr.VClock.Clock.{
  Clock, to_ptrdiff, count, get_keys, merge_keys, contains, compare_key, compare_loop, verdict,
  compare, included, identical,
}
use firestr.VClock.Merge.{SameClock, Le}

-- The signed difference has the sign of the order, for counts that ptrdiff_t can hold.
flag_l :
    (a b : ℕ) → a < 2 ^ 63 → b < 2 ^ 63 → ltb_ℤ (to_ptrdiff a -ℤ to_ptrdiff b) (pos 0) ≡ ltb a b
unfolding ◌-ℤ◌
flag_l a b ha hb = ground arith

flag_g :
    (a b : ℕ) → a < 2 ^ 63 → b < 2 ^ 63 → ltb_ℤ (pos 0) (to_ptrdiff a -ℤ to_ptrdiff b) ≡ ltb b a
unfolding ◌-ℤ◌
flag_g a b ha hb = ground arith

-- The verdict on two flags, where each flag tells which of two exclusive facts holds.
verdict_iff {ℓ} :
    {P Q R S : Type ℓ} (a b : Bool)
    → ((a ≡ true) × P) ⊎ ((a ≡ false) × Q)
    → ((b ≡ true) × R) ⊎ ((b ≡ false) × S)
    → (P → Q → ⊥)
    → (R → S → ⊥)
    → ((verdict (a, b) ≡ negsuc 0) ↔ (S × P))
      × ((verdict (a, b) ≡ pos 1) ↔ (Q × R))
      × ((verdict (a, b) ≡ pos 0) ↔ ((S × Q) ⊎ (P × R)))
unfolding verdict
verdict_iff a b (inl (x, p)) (inl (y, r)) pq rs =
    rw (x, y)
      (
        ((λ h. cc), (λ (s, _). absurd (rs r s))),
        ((λ h. cc), (λ (q, _). absurd (pq p q))),
        ((λ h. inr (p, r)), (λ h. refl)),
      )
verdict_iff a b (inl (x, p)) (inr (y, s)) pq rs =
    rw (x, y)
      (
        ((λ h. (s, p)), (λ h. refl)),
        ((λ h. cc), (λ (q, _). absurd (pq p q))),
        ((λ h. cc), elim [ inl (_, q) ↦ absurd (pq p q) | inr (_, r) ↦ absurd (rs r s) ]),
      )
verdict_iff a b (inr (x, q)) (inl (y, r)) pq rs =
    rw (x, y)
      (
        ((λ h. cc), (λ (s, _). absurd (rs r s))),
        ((λ h. (q, r)), (λ h. refl)),
        ((λ h. cc), elim [ inl (s, _) ↦ absurd (rs r s) | inr (p, _) ↦ absurd (pq p q) ]),
      )
verdict_iff a b (inr (x, q)) (inr (y, s)) pq rs =
    rw (x, y)
      (
        ((λ h. cc), (λ (_, p). absurd (pq p q))),
        ((λ h. cc), (λ (_, r). absurd (rs r s))),
        ((λ h. inl (s, q)), (λ h. refl)),
      )

-- What one round adds to the two flags.
flags_lem :
    (l g x y a b : Bool)
    → ◌≡◌ {A = Bool × Bool}
        ((if x then true else l) || a, (if y then true else g) || b)
        (l || (x || a), g || (y || b))
flags_lem l g x y a b = ground arith

same_of_some :
    (x y : Option ℕ)
    → ((v : ℕ) → x ≡ some v → y ≡ some v)
    → ((v : ℕ) → y ≡ some v → x ≡ some v)
    → x ≡ y
same_of_some none none f g = refl
same_of_some none (some v) f g = g v refl
same_of_some (some u) y f g = sym (f u refl)

module _ {ℓ} {K : Type ℓ} ⦃e : Eq K⦄ where
  -- Counts that ptrdiff_t can hold.
  abbrev pub Small : Clock K → Type ℓ
  Small c = (k : K) → count k c < 2 ^ 63

  -- Some id is counted less on the left.
  abbrev pub Less : Clock K → Clock K → Type ℓ
  Less c o = (k : K) × (count k c < count k o)

  some_less : Clock K → Clock K → List K → Bool
  some_less c o [] = false
  some_less c o (k ∷ ks) = ltb (count k c) (count k o) || some_less c o ks

  compare_loop-flags :
      (c o : Clock K) (ks : List K) (l g : Bool)
      → Small c
      → Small o
      → compare_loop c o ks (l, g) ≡ (l || some_less c o ks, g || some_less o c ks)
  unfolding compare_loop some_less
  compare_loop-flags c o [] l g sc so = ground arith
  compare_loop-flags c o (k ∷ ks) l g sc so =
      let f = flag_l (count k c) (count k o) (sc k) (so k) in
      let f' = flag_g (count k c) (count k o) (sc k) (so k) in
      rw (compare_key, f, f')
        (compare_loop-flags c o ks _ _ sc so
          ∙ flags_lem l g (ltb (count k c) (count k o)) (ltb (count k o) (count k c)) _ _)

  contains-append :
      (k : K) (ks js : List K) → contains k (ks ++ js) ≡ contains k ks || contains k js
  unfolding contains
  contains-append k [] js = refl
  contains-append k (j ∷ ks) js = ground (arith, contains-append k ks js)

  contains-merge_keys :
      (k : K) (ks js : List K) → contains k (merge_keys ks js) ≡ contains k ks || contains k js
  unfolding merge_keys contains
  contains-merge_keys k ks [] = ground arith
  contains-merge_keys k ks (j ∷ js) = ground (
    arith,
    contains-merge_keys k ks js,
    contains-merge_keys k (ks ++ (j ∷ [])) js,
    contains-append k ks (j ∷ []),
    e.beq_iff j k,
  )

  find-contains : (k : K) (c : Clock K) → contains k (get_keys c) ≡ false → find k c ≡ none
  unfolding contains get_keys find
  find-contains k [] h = refl
  find-contains k ((j, v) ∷ c) h = ground (arith, find-contains k c)

  some_less-true : (c o : Clock K) (ks : List K) → some_less c o ks ≡ true → Less c o
  unfolding some_less
  some_less-true c o [] h = cc
  some_less-true c o (k ∷ ks) h = elim (Bool-cases (ltb (count k c) (count k o))) [
    | inl lt ↦ (k, ground arith)
    | inr ge ↦ some_less-true c o ks (rw ge at h)
  ]

  some_less-false :
      (c o : Clock K) (ks : List K) (k : K)
      → some_less c o ks ≡ false
      → contains k ks ≡ true
      → count k o ≤ count k c
  unfolding some_less contains
  some_less-false c o [] k h m = cc
  some_less-false c o (j ∷ ks) k h m = elim (Bool-cases (e.beq j k)) [
    | inl same ↦ subst (λ i. count i o ≤ count i c) ((e.beq_iff j k).0 same) (ground arith)
    | inr other ↦ some_less-false c o ks k (ground arith) (rw other at m)
  ]

  -- An id that is in neither clock counts 0 in both.
  absent :
      (c o : Clock K) (k : K)
      → contains k (merge_keys (get_keys c) (get_keys o)) ≡ false
      → (count k c ≡ 0) × (count k o ≡ 0)
  unfolding count
  absent c o k h =
      let split = contains-merge_keys k (get_keys c) (get_keys o) in
      (
        rw (find-contains k c (ground (arith, split))),
        rw (find-contains k o (ground (arith, split))),
      )

  some_less_cases :
      (c o : Clock K) (ks : List K)
      → ((k : K) → contains k ks ≡ false → count k o ≤ count k c)
      → ((some_less c o ks ≡ true) × Less c o) ⊎ ((some_less c o ks ≡ false) × Le o c)
  some_less_cases c o ks out = elim (Bool-cases (some_less c o ks)) [
    | inl h ↦ inl (h, some_less-true c o ks h)
    | inr h ↦ inr (
      h,
      λ k. elim (Bool-cases (contains k ks)) [
        | inl m ↦ some_less-false c o ks k h m
        | inr m ↦ out k m
      ],
    )
  ]

  -- For clocks whose counts are below 2^63, compare gives -1 exactly where every count is at most
  -- the other clock's and one is less, 1 exactly where it is the other way round, and 0 exactly
  -- where all counts agree or each clock is ahead in some id.
  pub compare_iff :
      (c o : Clock K)
      → Small c
      → Small o
      → ((compare c o ≡ negsuc 0) ↔ (Le c o × Less c o))
        × ((compare c o ≡ pos 1) ↔ (Le o c × Less o c))
        × ((compare c o ≡ pos 0) ↔ ((Le c o × Le o c) ⊎ (Less c o × Less o c)))
  unfolding compare
  compare_iff c o sc so =
      let keys = merge_keys (get_keys c) (get_keys o) in
      rw (compare_loop-flags c o keys false false sc so) (
        verdict_iff (some_less c o keys) (some_less o c keys)
          (some_less_cases c o keys λ k h. omega (arith, absent c o k h))
          (some_less_cases o c keys λ k h. omega (arith, absent c o k h))
          (λ (k, lt) le. absurd (omega (arith, le k))) (λ (k, lt) le. absurd (omega (arith, le k))))

  included_sound :
      (c o : Clock K) (k : K) (v : ℕ) → included c o ≡ true → find k c ≡ some v → find k o ≡ some v
  unfolding included find
  included_sound [] o k v h f = cc
  included_sound ((j, u) ∷ c) o k v h f = elim (Bool-cases (e.beq j k)) [
    | inl same ↦
        let at_j : find j o ≡ some u = ground arith in
        subst (λ i. find i o ≡ some v) ((e.beq_iff j k).0 same) (at_j ∙ (rw same at f))
    | inr other ↦ included_sound c o k v (ground arith) (rw other at f)
  ]

  included_complete :
      (c o : Clock K)
      → Distinct c
      → ((k : K) (v : ℕ) → find k c ≡ some v → find k o ≡ some v)
      → included c o ≡ true
  unfolding included find
  included_complete [] o d h = refl
  included_complete ((j, u) ∷ c) o d h =
      let at_j = h j u (rw ((e.beq_iff j j).1 refl)) in
      let rest = included_complete c o d.1 λ k v f. elim (Bool-cases (e.beq j k)) [
        | inl same ↦
            let gone = subst (λ i. find i c ≡ none) ((e.beq_iff j k).0 same) d.0 in cc (gone, f)
        | inr other ↦ h k v (rw other f)
      ] in
      rw (at_j, rest) (ground arith)

  -- For clocks with distinct ids, identical holds exactly where every look-up gives the same.
  pub identical_iff :
      (c o : Clock K) → Distinct c → Distinct o → (identical c o ≡ true) ↔ SameClock c o
  unfolding identical
  identical_iff c o dc do' = (
    (λ h k.
        same_of_some (find k c) (find k o) (λ v. included_sound c o k v (ground arith))
          (λ v. included_sound o c k v (ground arith))),
    (λ h. rw (
      included_complete c o dc (λ k v f. rw (← h k) f),
      included_complete o c do' (λ k v f. rw (h k) f),
    )),
  )
