-- ===== src/Prelude/Maps.antt =====
-- Maps as association lists: std::map and std::unordered_map, as far as the program uses them.
use mathlib.Core.Path.{◌≡◌, refl, sym, ◌∙◌}
use mathlib.Core.List.{List, [], ◌∷◌, ◌++◌}
use mathlib.Core.Option.{Option, none, some}
use mathlib.Core.Logic.{◌≢◌, inl, inr}
use native.Mathlib.Omega.{arith}
use firestr.Prelude.Tests.{Eq, if◌then◌else◌, Bool-cases}

module _ {ℓ κ} {K : Type ℓ} {V : Type κ} ⦃e : Eq K⦄ where
  -- `m.find(k)`, with `none` for `m.end()`.
  unfoldable pub find : K → List (K × V) → Option V
  find k [] = none
  find k ((j, v) ∷ m) = if e.beq j k then some v else find k m

  -- `m[k] = v`: a new key goes to the end.
  unfoldable pub assign : K → V → List (K × V) → List (K × V)
  assign k v [] = (k, v) ∷ []
  assign k v ((j, w) ∷ m) = if e.beq j k then (j, v) ∷ m else (j, w) ∷ assign k v m

  -- `m.erase(k)`.
  unfoldable pub erase : K → List (K × V) → List (K × V)
  erase k [] = []
  erase k ((j, w) ∷ m) = let rest = erase k m in if e.beq j k then rest else (j, w) ∷ rest

  pub find-assign :
      (k j : K) (v : V) (m : List (K × V))
      → find j (assign k v m) ≡ (if e.beq k j then some v else find j m)
  unfolding find assign
  find-assign k j v [] = refl
  find-assign k j v ((i, w) ∷ m) =
      ground (arith, e.beq_iff k j, e.beq_iff i k, e.beq_iff i j, find-assign k j v m)

  pub find-assign_same : (k : K) (v : V) (m : List (K × V)) → find k (assign k v m) ≡ some v
  find-assign_same k v m = find-assign k k v m ∙ rw ((e.beq_iff k k).1 refl) refl

  pub find-assign_other :
      (k : K) (v : V) (m : List (K × V)) (j : K) → j ≢ k → find j (assign k v m) ≡ find j m
  find-assign_other k v m j n = elim (Bool-cases (e.beq k j)) [
    | inl h ↦ absurd (n (sym ((e.beq_iff k j).0 h)))
    | inr h ↦ find-assign k j v m ∙ rw h refl
  ]

  pub find-erase :
      (k j : K) (m : List (K × V)) → find j (erase k m) ≡ (if e.beq k j then none else find j m)
  unfolding find erase
  find-erase k j [] = ground arith
  find-erase k j ((i, w) ∷ m) =
      ground (arith, e.beq_iff k j, e.beq_iff i k, e.beq_iff i j, find-erase k j m)

  -- The keys of the list are distinct, as those of a map are.
  abbrev pub Distinct : List (K × V) → Type (ℓ ⊔ κ)
  Distinct [] = Unit
  Distinct ((k, v) ∷ m) = (find k m ≡ none) × Distinct m

  pub assign-Distinct : (k : K) (v : V) (m : List (K × V)) → Distinct m → Distinct (assign k v m)
  unfolding assign find
  assign-Distinct k v [] d = (refl, tt)
  assign-Distinct k v ((j, w) ∷ m) d = elim (Bool-cases (e.beq j k)) [
    | inl h ↦ rw h d
    | inr h ↦ rw h (
      ground (arith, find-assign k j v m, e.beq_iff k j, e.beq_iff j k),
      assign-Distinct k v m d.1,
    )
  ]

  pub assign-fresh :
      (k : K) (v : V) (m : List (K × V)) → find k m ≡ none → assign k v m ≡ m ++ ((k, v) ∷ [])
  unfolding assign find
  assign-fresh k v [] h = refl
  assign-fresh k v ((j, w) ∷ m) h = elim (Bool-cases (e.beq j k)) [
    | inl same ↦ cc (rw same at h)
    | inr other ↦ rw (other, assign-fresh k v m (rw other at h))
  ]

  pub find-append :
      (k : K) (m n : List (K × V))
      → find k (m ++ n) ≡ (elim (find k m) [ none ↦ find k n | some v ↦ some v ])
  unfolding find
  find-append k [] n = refl
  find-append k ((j, w) ∷ m) n = ground (arith, find-append k m n)

  -- A key of the second part is not in the first.
  pub Distinct-middle :
      (k : K) (v : V) (m n : List (K × V)) → Distinct (m ++ ((k, v) ∷ n)) → find k m ≡ none
  unfolding find
  Distinct-middle k v [] n d = refl
  Distinct-middle k v ((j, w) ∷ m) n d = ground (
    arith,
    Distinct-middle k v m n d.1,
    find-append j m ((k, v) ∷ n),
    e.beq_iff j k,
    e.beq_iff k j,
  )
