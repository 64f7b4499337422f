-- ===== src/Mencode/Value.antt =====
-- util/mencode.hpp and util/mencode.cpp: `value`, `dict` and `array`.
-- boost::any holds one of the types below; a `dict` is its entries in iteration order (an
-- unordered_map has some order, and equal keys cannot stand in it twice); a double is the number of
-- its IEEE 754 bits.
use firestr.Prelude.{
  ℕ, suc, Bool, true, false, ℤ, Bytes, bytes_eq, Outcome, ok, thrown, if◌then◌else◌,
}

mutual
  pub data Value : Type 0 where
    empty : Value
    boolean : Bool → Value
    int : ℤ → Value
    size : ℕ → Value
    real : ℕ → Value
    blob : Bytes → Value
    dict : Entries → Value
    array : Items → Value

  pub data Items : Type 0 where
    no_items : Items
    item : Value → Items → Items

  pub data Entries : Type 0 where
    no_entries : Entries
    entry : Bytes → Value → Entries → Entries

-- `value::as_…`: boost::any_cast, and a runtime_error at another type. `as_string` and `as_bytes`
-- read the same bytes.
unfoldable pub as_bool : Value → Outcome Bool
as_bool (boolean x) = ok x
as_bool _ = thrown

unfoldable pub as_int : Value → Outcome ℤ
as_int (int n) = ok n
as_int _ = thrown

unfoldable pub as_size : Value → Outcome ℕ
as_size (size n) = ok n
as_size _ = thrown

unfoldable pub as_double : Value → Outcome ℕ
as_double (real x) = ok x
as_double _ = thrown

unfoldable pub as_bytes : Value → Outcome Bytes
as_bytes (blob x) = ok x
as_bytes _ = thrown

unfoldable pub as_string : Value → Outcome Bytes
unfolding as_bytes
as_string v = as_bytes v

unfoldable pub as_dict : Value → Outcome Entries
as_dict (dict d) = ok d
as_dict _ = thrown

unfoldable pub as_array : Value → Outcome Items
as_array (array a) = ok a
as_array _ = thrown

-- `dict::operator[] const`: the value at a key, and a runtime_error where there is none.
unfoldable pub at : Bytes → Entries → Outcome Value
at k no_entries = thrown
at k (entry j v d) = if bytes_eq j k then ok v else at k d

-- `d[k] = v` through the other `dict::operator[]`.
unfoldable pub assign : Bytes → Value → Entries → Entries
assign k v no_entries = entry k v no_entries
assign k v (entry j w d) = if bytes_eq j k then entry j v d else entry j w (assign k v d)

-- `dict::has`.
unfoldable pub has : Bytes → Entries → Bool
has k no_entries = false
has k (entry j v d) = if bytes_eq j k then true else has k d

-- `dict::remove`: whether the key was there, and the entries without it.
unfoldable pub remove : Bytes → Entries → Bool × Entries
remove k no_entries = (false, no_entries)
remove k (entry j v d) =
    let (found, rest) = remove k d in if bytes_eq j k then (true, d) else (found, entry j v rest)

-- `dict::size`.
unfoldable pub size_dict : Entries → ℕ
size_dict no_entries = 0
size_dict (entry j v d) = suc (size_dict d)

-- `array::add` and `array::size`.
unfoldable pub add : Value → Items → Items
add v no_items = item v no_items
add v (item w a) = item w (add v a)

unfoldable pub size_array : Items → ℕ
size_array no_items = 0
size_array (item v a) = suc (size_array a)
