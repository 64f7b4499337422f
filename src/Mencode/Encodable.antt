-- ===== src/Mencode/Encodable.antt =====
-- Which values the format of util/mencode.cpp carries, and what the loops of its decoders add up.
use firestr.Prelude.{
  ◌<◌, ◌≡◌, refl, ap, ◌∙◌, true, false, Bytes, arith, length, bytes_eq, bytes_eq_iff, if◌then◌else◌,
}
use firestr.Mencode.Value.{
  Value, Items, Entries, empty, boolean, int, size, real, blob, dict, array, no_items, item,
  no_entries, entry, assign, has, add,
}
use firestr.Mencode.Lexical.{IsInt64, IsSize, IsReal}

-- Numbers of their C++ types, and dictionaries with distinct keys, none of them empty.
unfoldable mutual
  pub IsEncodable : Value → Type 0
  IsEncodable empty = Unit {0}
  IsEncodable (boolean x) = Unit {0}
  IsEncodable (int n) = IsInt64 n
  IsEncodable (size n) = IsSize n
  IsEncodable (real x) = IsReal x
  IsEncodable (blob x) = IsSize (length x)
  IsEncodable (dict d) = AreEntries d
  IsEncodable (array a) = AreItems a

  pub AreItems : Items → Type 0
  AreItems no_items = Unit {0}
  AreItems (item v a) = IsEncodable v × AreItems a

  pub AreEntries : Entries → Type 0
  AreEntries no_entries = Unit {0}
  AreEntries (entry k v d) =
      (0 < length k) × IsSize (length k) × (has k d ≡ false) × IsEncodable v × AreEntries d

-- The loops add each entry to what they hold.
unfoldable pub extend_items : Items → Items → Items
extend_items acc no_items = acc
extend_items acc (item v a) = extend_items (add v acc) a

unfoldable pub extend : Entries → Entries → Entries
extend acc no_entries = acc
extend acc (entry k v d) = extend (assign k v acc) d

append_items : Items → Items → Items
append_items no_items a = a
append_items (item v b) a = item v (append_items b a)

append_entries : Entries → Entries → Entries
append_entries no_entries d = d
append_entries (entry k v b) d = entry k v (append_entries b d)

add-append : (v : Value) (b a : Items) → append_items (add v b) a ≡ append_items b (item v a)
unfolding add append_items
add-append v no_items a = refl
add-append v (item w b) a = ap (item w) (add-append v b a)

append_items-nil : (a : Items) → append_items a no_items ≡ a
unfolding append_items
append_items-nil no_items = refl
append_items-nil (item v a) = ap (item v) (append_items-nil a)

extend_items-append : (acc a : Items) → extend_items acc a ≡ append_items acc a
unfolding extend_items
extend_items-append acc no_items = rw append_items-nil
extend_items-append acc (item v a) = rw (extend_items-append (add v acc) a, add-append v acc a)

pub extend_items-nil : (a : Items) → extend_items no_items a ≡ a
unfolding append_items
extend_items-nil a = extend_items-append no_items a

append_entries-nil : (d : Entries) → append_entries d no_entries ≡ d
unfolding append_entries
append_entries-nil no_entries = refl
append_entries-nil (entry k v d) = ap (entry k v) (append_entries-nil d)

assign-append :
    (k : Bytes) (v : Value) (b d : Entries)
    → has k b ≡ false
    → append_entries (assign k v b) d ≡ append_entries b (entry k v d)
unfolding assign append_entries has
assign-append k v no_entries d h = refl
assign-append k v (entry j w b) d h = ground (arith, assign-append k v b d)

-- No key of `d` is in `acc`.
abbrev Apart : Entries → Entries → Type 0
Apart acc d = (j : Bytes) → has j d ≡ true → has j acc ≡ false

has-assign :
    (j k : Bytes) (v : Value) (d : Entries)
    → has j (assign k v d) ≡ (if bytes_eq k j then true else has j d)
unfolding has assign
has-assign j k v no_entries = refl
has-assign j k v (entry i w d) =
    ground (arith, bytes_eq_iff k j, bytes_eq_iff i j, bytes_eq_iff i k, has-assign j k v d)

Apart-assign :
    (acc d : Entries) (k : Bytes) (v : Value)
    → has k d ≡ false
    → Apart acc (entry k v d)
    → Apart (assign k v acc) d
unfolding has
Apart-assign acc d k v h apart j e = ground (arith, has-assign j k v acc, bytes_eq_iff k j, apart j)

-- With distinct keys the result is the entries as they stand.
extend-append : (acc d : Entries) → AreEntries d → Apart acc d → extend acc d ≡ append_entries acc d
unfolding extend IsEncodable has
extend-append acc no_entries h apart = rw append_entries-nil
extend-append acc (entry k v d) (p, s, fresh, x, r) apart =
    extend-append (assign k v acc) d r (Apart-assign acc d k v fresh apart)
    ∙ assign-append k v acc d (apart k (rw ((bytes_eq_iff k k).1 refl)))

pub extend-nil : (d : Entries) → AreEntries d → extend no_entries d ≡ d
unfolding append_entries has
extend-nil d h = extend-append no_entries d h (λ j e. refl)
