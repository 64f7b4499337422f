-- ===== src/VClock/Clock.antt =====
-- util/vclock.hpp: `vclock` and `tracked_vclock`, over any type of ids that has an equality.
-- A std::map is the list of its bindings; size_t counts modulo 2^64.
use firestr.Prelude.{
  ℕ, ◌-◌, ◌^◌, max, Bool, true, false, not, ◌&&◌, ℤ, pos, negsuc, ◌-ℤ◌, ltb_ℤ, List, [], ◌∷◌, ◌++◌,
  map, Option, none, some, Eq, ltb, ◌==◌, if◌then◌else◌,
}
use firestr.Prelude.Maps.{find, assign}

abbrev pub Clock {ℓ} : Type ℓ → Type ℓ
Clock K = List (K × ℕ)

-- A missing id counts as 0.
abbrev pub or_zero : Option ℕ → ℕ
or_zero none = 0
or_zero (some n) = n

-- static_cast<ptrdiff_t>.
abbrev pub to_ptrdiff : ℕ → ℤ
to_ptrdiff n = if ltb n (2 ^ 63) then pos n else negsuc (2 ^ 64 - n - 1)

-- The last lines of `compare`.
unfoldable pub verdict : Bool × Bool → ℤ
verdict (l, g) = if l && g then pos 0 else if l then negsuc 0 else if g then pos 1 else pos 0

module _ {ℓ} {K : Type ℓ} ⦃e : Eq K⦄ where
  -- `_c[k]` where it is read: `operator[]` binds a missing id to 0 first.
  unfoldable pub count : K → Clock K → ℕ
  count k c = or_zero (find k c)

  -- `has`.
  unfoldable pub has : K → Clock K → Bool
  has k c = elim (find k c) [ none ↦ false | some _ ↦ true ]

  -- `empty`.
  unfoldable pub empty : Clock K → Bool
  empty [] = true
  empty (x ∷ c) = false

  -- `operator+=`: the loop over the other clock.
  unfoldable pub merge : Clock K → Clock K → Clock K
  merge c [] = c
  merge c ((k, v) ∷ o) = merge (assign k (max (count k c) v) c) o

  -- detail::get_keys and detail::merge_keys.
  unfoldable pub get_keys : Clock K → List K
  get_keys = map (λ p. p.0)

  unfoldable pub contains : K → List K → Bool
  contains k [] = false
  contains k (j ∷ ks) = if e.beq j k then true else contains k ks

  unfoldable pub merge_keys : List K → List K → List K
  unfolding contains
  merge_keys ks [] = ks
  merge_keys ks (k ∷ js) = merge_keys (if contains k ks then ks else ks ++ (k ∷ [])) js

  -- One round of the loop of `compare`, over the flags `l` and `g`.
  unfoldable pub compare_key : Clock K → Clock K → K → Bool × Bool → Bool × Bool
  compare_key c o k (l, g) =
      let diff = to_ptrdiff (count k c) -ℤ to_ptrdiff (count k o) in
      ((if ltb_ℤ diff (pos 0) then true else l), (if ltb_ℤ (pos 0) diff then true else g))

  unfoldable pub compare_loop : Clock K → Clock K → List K → Bool × Bool → Bool × Bool
  unfolding compare_key
  compare_loop c o [] flags = flags
  compare_loop c o (k ∷ ks) flags = compare_loop c o ks (compare_key c o k flags)

  unfoldable pub compare : Clock K → Clock K → ℤ
  unfolding compare_loop merge_keys get_keys verdict
  compare c o = verdict (compare_loop c o (merge_keys (get_keys c) (get_keys o)) (false, false))

  -- `_c == o._c`: the maps bind the same ids to the same counts.
  unfoldable pub included : Clock K → Clock K → Bool
  included [] o = true
  included ((k, v) ∷ c) o = (elim (find k o) [ none ↦ false | some u ↦ u == v ]) && included c o

  unfoldable pub identical : Clock K → Clock K → Bool
  unfolding included
  identical c o = included c o && included o c

  unfoldable pub concurrent : Clock K → Clock K → Bool
  unfolding compare
  concurrent c o = elim (compare c o) [ pos n ↦ n == 0 | negsuc n ↦ false ]

  unfoldable pub conflict : Clock K → Clock K → Bool
  unfolding concurrent identical
  conflict c o = concurrent c o && not (identical c o)
