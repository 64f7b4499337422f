-- ===== src/Mencode/Decode.antt =====
-- util/mencode.cpp: the functions `decode_…`.
-- Each call of the three that call one another costs a unit of fuel.
use firestr.Prelude.{
  ℕ, zero, suc, Bool, true, false, not, ◌&&◌, ◌||◌, ℤ, pos, [], Bytes, Option, ok, thrown, aborted,
  out_of_fuel, ◌==◌, if◌then◌else◌,
}
use firestr.Mencode.Value.{
  Value, Items, Entries, empty, boolean, int, size, real, blob, dict, array, no_items, no_entries,
  assign, add,
}
use firestr.Mencode.Lexical.{Lexical}
use firestr.Mencode.Stream.{
  Decoder, ◌>>=◌, ◌>>◌, pure, throw, get, peek, is_char, is_digit, get_until, read_padded, set_s,
  set_b, get_s, get_b, or_stop, or_bad_cast,
}

-- `dec<t>`: `zero_value` is `t{}`.
unfoldable pub dec {ℓ} : {A : Type ℓ} → A → (Bytes → Option A) → ℕ → ℕ → Decoder A
dec zero_value cast b e = do
  c ← get
  or_stop zero_value
      (if is_char c b then (do get_until e; w ← get_s; or_bad_cast (cast w)) else throw)

unfoldable pub decode_bool : Decoder Bool
decode_bool = do
  c ← get
  or_stop false (if is_char c b'T' then pure true else if is_char c b'F' then pure false else throw)

unfoldable pub decode_empty : Decoder (Unit {0})
decode_empty = do c ← get; or_stop tt (if is_char c b'n' then pure tt else throw)

-- The end of `decode_dict` and `decode_array`: `c = i.get(); check(i); CHECK_EQUAL(c, ';');`.
unfoldable pub finish {ℓ} : {A : Type ℓ} → A → Decoder A
finish a = do
  c ← get
  λ st. if st.good then (if is_char c b';' then ok (a, st) else aborted) else thrown

module _ (l : Lexical) where
  unfoldable pub decode_int : Decoder ℤ
  decode_int = dec (pos 0) l.str_int b'i' b';'

  unfoldable pub decode_size : Decoder ℕ
  decode_size = dec 0 l.str_size b's' b';'

  unfoldable pub decode_double : Decoder ℕ
  decode_double = dec 0 l.str_real b'r' b';'

  -- Into `w.b`.
  unfoldable pub decode_bytes : Decoder (Unit {0})
  decode_bytes = do
    set_b []
    c ← peek
    or_stop tt (
        if is_digit c
        then (do
          get_until b':'
          w ← get_s
          n ← or_bad_cast (l.str_size w)
          if n == 0 then pure tt else (do x ← read_padded n; set_b x))
        else throw)

  -- Into `w.s`, where `get_until` has left the digits of the size.
  unfoldable pub decode_key : Decoder (Unit {0})
  decode_key = do
    c ← peek
    or_stop tt (
        if is_digit c
        then (do
          get_until b':'
          w ← get_s
          n ← or_bad_cast (l.str_size w)
          if n == 0 then pure tt else (do x ← read_padded n; set_s x))
        else throw)

  unfoldable mutual
    pub decode_value : ℕ → Decoder Value
    decode_value zero st = out_of_fuel
    decode_value (suc f) st =
        (do
          c ← peek
          or_stop empty (
              if is_char c b'F' || is_char c b'T'
              then (do x ← decode_bool; pure (boolean x))
              else if is_char c b'i'
              then (do x ← decode_int; pure (int x))
              else if is_char c b's'
              then (do x ← decode_size; pure (size x))
              else if is_char c b'r'
              then (do x ← decode_double; pure (real x))
              else if is_char c b'd'
              then (do x ← decode_dict f; pure (dict x))
              else if is_char c b'a'
              then (do x ← decode_array f; pure (array x))
              else if is_char c b'n'
              then (do decode_empty; pure empty)
              else if is_digit c
              then (do decode_bytes; x ← get_b; pure (blob x))
              else throw))
          st

    pub decode_dict : ℕ → Decoder Entries
    decode_dict zero st = out_of_fuel
    decode_dict (suc f) st =
        (do
          c ← get
          or_stop no_entries (
              if is_char c b'd'
              then (do c' ← peek; d ← dict_loop f c' no_entries; finish d)
              else throw))
          st

    -- `while(c != ';' && i.good())`
    pub dict_loop : ℕ → Option ℕ → Entries → Decoder Entries
    dict_loop zero c d st = out_of_fuel
    dict_loop (suc f) c d st =
        let round =
          (do decode_key; k ← get_s; v ← decode_value f; c' ← peek; dict_loop f c' (assign k v d))
            st in
        if not (is_char c b';') && st.good then round else ok (d, st)

    pub decode_array : ℕ → Decoder Items
    decode_array zero st = out_of_fuel
    decode_array (suc f) st =
        (do
          c ← get
          or_stop no_items (
              if is_char c b'a'
              then (do c' ← peek; a ← array_loop f c' no_items; finish a)
              else throw))
          st

    pub array_loop : ℕ → Option ℕ → Items → Decoder Items
    array_loop zero c a st = out_of_fuel
    array_loop (suc f) c a st =
        let round = (do v ← decode_value f; c' ← peek; array_loop f c' (add v a)) st in
        if not (is_char c b';') && st.good then round else ok (a, st)
