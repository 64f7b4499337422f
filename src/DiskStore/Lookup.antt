-- ===== src/DiskStore/Lookup.antt =====
-- Look-ups in a `dict` of util/mencode.cpp after a change.
use firestr.Prelude.{
  ◌<◌, ◌≡◌, refl, ◌∙◌, true, false, Bytes, bytes_eq, bytes_eq_iff, ok, thrown, arith, length,
  if◌then◌else◌, Bool-cases, inl, inr,
}
use firestr.Mencode.Value.{Value, Entries, no_entries, entry, at, has, assign, remove}
use firestr.Mencode.Lexical.{IsSize}
use firestr.Mencode.Encodable.{IsEncodable, AreEntries}

pub at-assign :
    (k j : Bytes) (v : Value) (d : Entries)
    → at j (assign k v d) ≡ (if bytes_eq k j then ok v else at j d)
unfolding at assign
at-assign k j v no_entries = refl
at-assign k j v (entry i w d) =
    ground (arith, bytes_eq_iff k j, bytes_eq_iff i j, bytes_eq_iff i k, at-assign k j v d)

pub has-assign :
    (k j : Bytes) (v : Value) (d : Entries)
    → has j (assign k v d) ≡ (if bytes_eq k j then true else has j d)
unfolding has assign
has-assign k j v no_entries = refl
has-assign k j v (entry i w d) =
    ground (arith, bytes_eq_iff k j, bytes_eq_iff i j, bytes_eq_iff i k, has-assign k j v d)

-- `has` and `operator[]` agree.
pub has-at : (k : Bytes) (v : Value) (d : Entries) → at k d ≡ ok v → has k d ≡ true
unfolding at has
has-at k v no_entries e = cc
has-at k v (entry j w d) e = ground (arith, has-at k v d)

pub at-missing : (k : Bytes) (d : Entries) → has k d ≡ false → at k d ≡ thrown
unfolding at has
at-missing k no_entries e = refl
at-missing k (entry j w d) e = ground (arith, at-missing k d)

pub at-there : (k : Bytes) (d : Entries) → has k d ≡ true → (v : Value) × (at k d ≡ ok v)
unfolding at has
at-there k no_entries e = cc
at-there k (entry j w d) e = elim (Bool-cases (bytes_eq j k)) [
  | inl h ↦ (w, rw h refl)
  | inr h ↦ let (v, p) = at-there k d (rw h at e) in (v, rw h p)
]

pub has-remove :
    (k j : Bytes) (d : Entries)
    → AreEntries d
    → has j (remove k d).1 ≡ (if bytes_eq k j then false else has j d)
unfolding has remove IsEncodable
has-remove k j no_entries h = ground arith
has-remove k j (entry i w d) (p, s, fresh, x, r) =
    ground (arith, bytes_eq_iff k j, bytes_eq_iff i j, bytes_eq_iff i k, has-remove k j d r)

pub at-remove :
    (k j : Bytes) (d : Entries)
    → AreEntries d
    → at j (remove k d).1 ≡ (if bytes_eq k j then thrown else at j d)
unfolding at remove IsEncodable has
at-remove k j no_entries h = ground arith
at-remove k j (entry i w d) (p, s, fresh, x, r) = ground (
  arith,
  bytes_eq_iff k j,
  bytes_eq_iff i j,
  bytes_eq_iff i k,
  at-remove k j d r,
  at-missing i d fresh,
)

pub assign-AreEntries :
    (k : Bytes) (v : Value) (d : Entries)
    → AreEntries d
    → 0 < length k
    → IsSize (length k)
    → IsEncodable v
    → AreEntries (assign k v d)
unfolding assign IsEncodable has
assign-AreEntries k v no_entries h p s x = (p, s, refl, x, tt)
assign-AreEntries k v (entry j w d) (q, t, fresh, y, r) p s x = elim (Bool-cases (bytes_eq j k)) [
  | inl h ↦ rw h (q, t, fresh, x, r)
  | inr h ↦ rw h (
    q,
    t,
    has-assign k j v d ∙ ground (arith, bytes_eq_iff j k, bytes_eq_iff k j),
    y,
    assign-AreEntries k v d r p s x,
  )
]

pub remove-AreEntries : (k : Bytes) (d : Entries) → AreEntries d → AreEntries (remove k d).1
unfolding remove IsEncodable has
remove-AreEntries k no_entries h = tt
remove-AreEntries k (entry j w d) (q, t, fresh, y, r) = elim (Bool-cases (bytes_eq j k)) [
  | inl h ↦ rw h r
  | inr h ↦ rw h (
    q,
    t,
    has-remove k j d r ∙ ground (arith, bytes_eq_iff j k, bytes_eq_iff k j),
    y,
    remove-AreEntries k d r,
  )
]
