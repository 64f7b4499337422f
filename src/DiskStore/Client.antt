-- ===== src/DiskStore/Client.antt =====
-- util/disk_store.cpp: any sequence of `set` and `remove`, and the store loaded again after it.
use firestr.Prelude.{
  ℕ, ◌+◌, ◌*◌, ◌≡◌, refl, sym, subst, true, false, List, [], ◌∷◌, Bytes, bytes_eq, bytes_eq_iff,
  Option, none, some, ok, arith, length, Bool-cases, Option-cases, inl, inr,
}
use mathlib.Core.Path.{fun_ext}
use firestr.Mencode.Value.{Value, dict, no_entries}
use firestr.Mencode.Lexical.{Lexical, IsFaithful}
use firestr.Mencode.Encode.{encode}
use firestr.Mencode.Encodable.{IsEncodable}
use firestr.DiskStore.Disk.{Drive, Disk, Exec, and_then}
use firestr.DiskStore.Store.{set, remove, load}
use firestr.DiskStore.Holds.{IsDrive, update, Holds, IsSaved}
use firestr.DiskStore.Refines.{IsKey, IsFresh, set_refines}
use firestr.DiskStore.Removal.{remove_refines}
use firestr.DiskStore.Reads.{load_lem}

-- A call of `set`, with the uuid that it may draw, or of `remove`.
pub data Call : Type 0 where
  setting : Bytes → Bytes → Value → Call
  removing : Bytes → Call

-- The calls on a map.
unfoldable pub replay : List Call → (Bytes → Option Value) → Bytes → Option Value
replay [] m = m
replay (setting id k v ∷ calls) m = replay calls (update m k (some v))
replay (removing k ∷ calls) m = replay calls (update m k none)

module _ (l : Lexical) (d : Drive) where
  unfoldable pub run : List Call → Exec (Unit {0})
  run [] s = (ok tt, s)
  run (setting id k v ∷ calls) s = and_then (set l d id k v) (λ _. run calls) s
  run (removing k ∷ calls) s = and_then (remove l d k) (λ _. run calls) s

  -- Keys and values that the format carries, and a uuid that no key has when it is drawn.
  abbrev pub Allowed : List Call → Disk → Type 0
  Allowed [] s = Unit
  Allowed (setting id k v ∷ calls) s =
      IsKey k × IsFresh s.index id × IsEncodable v × Allowed calls (set l d id k v s).1
  Allowed (removing k ∷ calls) s = Allowed calls (remove l d k s).1

  module _ (faithful : IsFaithful l) (drive : IsDrive d) where
    update-none : (m : Bytes → Option Value) (k : Bytes) → m k ≡ none → update m k none ≡ m
    update-none m k e = fun_ext λ j. elim (Bool-cases (bytes_eq k j)) [
      | inl eq ↦ rw eq (sym (subst (λ a. m a ≡ none) ((bytes_eq_iff k j).0 eq) e))
      | inr ne ↦ rw ne refl
    ]

    remove_missing :
        (s : Disk) (m : Bytes → Option Value) (k : Bytes)
        → Holds l d s m
        → m k ≡ none
        → remove l d k s ≡ (ok false, s)
    unfolding remove
    remove_missing s m k h e = rw (h.missing k e) refl

    run-Holds :
        (calls : List Call) (s : Disk) (m : Bytes → Option Value)
        → Holds l d s m
        → IsSaved l d s
        → Allowed calls s
        → (s' : Disk) × (run calls s ≡ (ok tt, s')) × Holds l d s' (replay calls m) × IsSaved l d s'
    unfolding run replay
    run-Holds [] s m h w a = (s, refl, h, w)
    run-Holds (setting id k v ∷ calls) s m h w (key, fresh, x, rest) =
        let (s', e, h', w') = set_refines l d drive s m id k v h key fresh x in
        let next = run-Holds calls s' (update m k (some v)) h' w' (rw e at rest) in
        (next.0, rw e next.1, next.2, next.3)
    run-Holds (removing k ∷ calls) s m h w rest = elim (Option-cases (m k)) [
      | inl e ↦
          let same = remove_missing s m k h e in
          let next =
            run-Holds calls s (update m k none)
              (subst (λ n. Holds l d s n) (sym (update-none m k e)) h) w (rw same at rest) in
          (next.0, rw same next.1, next.2, next.3)
      | inr (v, e) ↦
          let (s', g, h', w') = remove_refines l d drive s m k v h e in
          let next = run-Holds calls s' (update m k none) h' w' (rw g at rest) in
          (next.0, rw g next.1, next.2, next.3)
    ]

    -- With a faithful lexical_cast and a drive on which plain names are different files that can
    -- be written, a store that holds a map and whose index is on the disk, after any sequence of
    -- calls of set, each with a key and value that the format carries and a uuid that no key has,
    -- and of remove, holds the map after the same changes, with no call failing; and a new store
    -- that loads the directory afterwards, with fuel above three times the length of the index, is
    -- the same store.
    pub run_refines :
        (calls : List Call) (s : Disk) (m : Bytes → Option Value) (g : ℕ)
        → Holds l d s m
        → IsSaved l d s
        → Allowed calls s
        → (s' : Disk) × (run calls s ≡ (ok tt, s'))
          × Holds l d s' (replay calls m)
          × (load l d
                (3 * length (encode l (dict s'.index)) + 1 + g)
                true
                s'.path
                (record { path = []; index = no_entries; files = s'.files })
              ≡ (ok tt, s'))
    run_refines calls s m g h w a =
        let (s', e, h', w') = run-Holds calls s m h w a in
        (
          s',
          e,
          h',
          load_lem l d faithful s' (replay calls m) (3 * length (encode l (dict s'.index)) + 1 + g)
              h' w' (omega arith),
        )
