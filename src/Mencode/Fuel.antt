-- ===== src/Mencode/Fuel.antt =====
-- util/mencode.cpp: the decoders always end. Three times the bytes left is fuel enough, on any input.
use firestr.Prelude.{
  ℕ, zero, suc, ◌+◌, ◌-◌, ◌*◌, ◌<◌, ◌≤◌, ◌≡◌, Bool, true, false, not, ◌&&◌, ◌||◌, [], ◌∷◌, ◌++◌,
  Bytes, Option, some, ok, thrown, aborted, arith, length, length-drop, if◌then◌else◌, ◌==◌, inl,
  inr, Option-cases,
}
use firestr.Mencode.Value.{
  Items, Entries, empty, boolean, int, size, real, blob, dict, array, no_items, no_entries, assign,
  add,
}
use firestr.Mencode.Lexical.{Lexical}
use firestr.Mencode.Stream.{
  State, Decoder, ◌>>=◌, ◌>>◌, pure, throw, get, peek, is_char, is_digit, get_until, until_loop,
  read_padded, set_s, set_b, get_s, get_b, or_stop, or_bad_cast,
}
use firestr.Mencode.Decode.{
  dec, finish, decode_bool, decode_empty, decode_int, decode_size, decode_double, decode_bytes,
  decode_key, decode_value, decode_dict, dict_loop, decode_array, array_loop,
}
use firestr.Mencode.Within.{
  state, left, Ends, ends, throws, aborts, Within, Within-bind, Within-if, Within-or_stop,
  Within-pure, Within-throw, Within-or_bad_cast, Within-weaken,
}

get_run :
    {m : ℕ} (g : Bool) (r s b : Bytes)
    → left (state g r s b) ≤ m
    → Ends (m - 1) (get (state g r s b))
unfolding get
get_run true [] s b h = ends (omega arith)
get_run true (c ∷ r) s b h = ends (omega arith)
get_run false r s b h = ends (omega arith)

get-Within : {m : ℕ} → Within m (m - 1) get
get-Within = record { run = get_run }

peek_run :
    {m : ℕ} (g : Bool) (r s b : Bytes) → left (state g r s b) ≤ m → Ends m (peek (state g r s b))
unfolding peek
peek_run true [] s b h = ends (omega arith)
peek_run true (c ∷ r) s b h = ends (omega arith)
peek_run false r s b h = ends (omega arith)

peek-Within : {m : ℕ} → Within m m peek
peek-Within = record { run = peek_run }

length-until_loop :
    (e : ℕ) (acc xs w r : Bytes) → until_loop e acc xs ≡ some (w, r) → length r < length xs
unfolding until_loop
length-until_loop e acc [] w r h = cc
length-until_loop e acc (x ∷ xs) w r h =
    ground (arith, length-until_loop e (acc ++ (x ∷ [])) xs w r)

get_until_run :
    {m : ℕ} (e : ℕ) (g : Bool) (r s b : Bytes)
    → left (state g r s b) ≤ m
    → Ends (m - 1) (get_until e (state g r s b))
unfolding get_until
get_until_run e false r s b h = throws
get_until_run e true r s b h = elim (Option-cases (until_loop e [] r)) [
  | inl p ↦ rw p throws
  | inr ((w, r'), p) ↦ rw p (ends (omega (arith, length-until_loop e [] r w r' p)))
]

get_until-Within : {m : ℕ} (e : ℕ) → Within m (m - 1) (get_until e)
get_until-Within e = record { run = get_until_run e }

read_padded_run :
    {m : ℕ} (n : ℕ) (g : Bool) (r s b : Bytes)
    → left (state g r s b) ≤ m
    → Ends m (read_padded n (state g r s b))
unfolding read_padded
read_padded_run n true r s b h = ends (ground (arith, length-drop n r))
read_padded_run n false r s b h = ends (omega arith)

read_padded-Within : {m : ℕ} (n : ℕ) → Within m m (read_padded n)
read_padded-Within n = record { run = read_padded_run n }

get_s-Within : {m : ℕ} → Within m m get_s
get_s-Within = record { run = λ g r s b h. ends h }

get_b-Within : {m : ℕ} → Within m m get_b
get_b-Within = record { run = λ g r s b h. ends h }

set_s-Within : {m : ℕ} (x : Bytes) → Within m m (set_s x)
set_s-Within x = record { run = λ g r s b h. ends h }

set_b-Within : {m : ℕ} (x : Bytes) → Within m m (set_b x)
set_b-Within x = record { run = λ g r s b h. ends h }

dec-Within {ℓ} :
    {A : Type ℓ} {m : ℕ} (z : A) (cast : Bytes → Option A) (b e : ℕ)
    → Within m (m - 1) (dec z cast b e)
unfolding dec
dec-Within z cast b e = Within-bind get _ get-Within λ c. Within-or_stop z _ λ _.
    Within-if (is_char c b) _ throw
      (Within-bind (get_until e) _ (get_until-Within e)
        λ _. Within-bind get_s _ get_s-Within λ w. Within-or_bad_cast (cast w) (omega arith))
      Within-throw

decode_bool-Within : {m : ℕ} → Within m (m - 1) decode_bool
unfolding decode_bool
decode_bool-Within = Within-bind get _ get-Within λ c. Within-or_stop false _ λ _.
    Within-if (is_char c b'T') (pure true) _ (Within-pure true (omega arith))
      (Within-if (is_char c b'F') (pure false) throw (Within-pure false (omega arith)) Within-throw)

decode_empty-Within : {m : ℕ} → Within m (m - 1) decode_empty
unfolding decode_empty
decode_empty-Within = Within-bind get _ get-Within λ c.
    Within-or_stop tt _
      λ _. Within-if (is_char c b'n') (pure tt) throw (Within-pure tt (omega arith)) Within-throw

finish-Within {ℓ} : {A : Type ℓ} {m : ℕ} (a : A) → Within m (m - 1) (finish a)
unfolding finish
finish-Within a = Within-bind get _ get-Within λ c. record { run = by_good c }
  where
    last :
        {n : ℕ} (x : Bool) (st : State) → left st ≤ n → Ends n (if x then ok (a, st) else aborted)
    last true st h = ends h
    last false st h = aborts

    by_good :
        {n : ℕ} (c : Option ℕ) (g : Bool) (r s b : Bytes)
        → left (state g r s b) ≤ n
        → Ends n (if g then (if is_char c b';' then ok (a, state g r s b) else aborted) else thrown)
    by_good c true r s b h = last (is_char c b';') (state true r s b) h
    by_good c false r s b h = throws

-- `decode_bytes` and `decode_key` after their `peek`.
counted-Within :
    {m : ℕ} (c : Option ℕ) (cast : Bytes → Option ℕ) (store : Bytes → Decoder (Unit {0}))
    → ((x : Bytes) → Within (m - 1) (m - 1) (store x))
    → Within m (m - 1) (
        or_stop tt (
          if is_digit c
          then (do
            get_until b':'
            w ← get_s
            n ← or_bad_cast (cast w)
            if n == 0 then pure tt else (read_padded n >>= store))
          else throw))
counted-Within c cast store h = Within-or_stop tt _ λ _.
    Within-if (is_digit c) _ throw
      (Within-bind (get_until b':') _ (get_until-Within b':') λ _.
        Within-bind get_s _ get_s-Within λ w.
          Within-bind (or_bad_cast (cast w)) _ (Within-or_bad_cast (cast w) (omega arith)) λ n.
            Within-if (n == 0) (pure tt) _ (Within-pure tt (omega arith))
              (Within-bind (read_padded n) store (read_padded-Within n) h))
      Within-throw

-- The loops go on while the next character is no `;` and the stream is good.
loop_run {ℓ} :
    {A : Type ℓ} {m : ℕ} (stop : Bool) (x : A) (round : Decoder A)
    → (1 ≤ m → Within m m round)
    → (g : Bool) (r s b : Bytes) → left (state g r s b) ≤ m
    → Ends m (if not stop && g then round (state g r s b) else ok (x, state g r s b))
loop_run true x round h g r s b fits = ends (omega arith)
loop_run false x round h true r s b fits = (h (omega arith)).run true r s b fits
loop_run false x round h false r s b fits = ends (omega arith)

module _ (l : Lexical) where
  decode_bytes-Within : {m : ℕ} → Within m (m - 1) (decode_bytes l)
  unfolding decode_bytes
  decode_bytes-Within =
      Within-bind (set_b []) _ (set_b-Within [])
        λ _. Within-bind peek _ peek-Within λ c. counted-Within c l.str_size set_b set_b-Within

  decode_key-Within : {m : ℕ} → Within m (m - 1) (decode_key l)
  unfolding decode_key
  decode_key-Within =
      Within-bind peek _ peek-Within λ c. counted-Within c l.str_size set_s set_s-Within

  wrap {ℓ κ} :
      {A : Type ℓ} {B : Type κ} {m n : ℕ} (p : Decoder A) (f : A → B)
      → Within m n p
      → Within m n (do x ← p; pure (f x))
  wrap p f h = Within-bind p _ h λ x. Within-pure (f x) (omega arith)

  -- One induction on the fuel.
  mutual
    unfolding decode_value decode_int decode_size decode_double

    value_ends : (f m : ℕ) → 3 * m < f → Within m (m - 1) (decode_value l f)
    value_ends zero m h = absurd (omega arith)
    value_ends (suc f) m h = Within-bind peek _ peek-Within λ c. Within-or_stop empty _ λ good.
        Within-if (is_char c b'F' || is_char c b'T') _ _ (wrap _ boolean decode_bool-Within) (
          Within-if (is_char c b'i') _ _ (wrap _ int (dec-Within _ _ _ _)) (
            Within-if (is_char c b's') _ _ (wrap _ size (dec-Within _ _ _ _)) (
              Within-if (is_char c b'r') _ _ (wrap _ real (dec-Within _ _ _ _)) (
                Within-if (is_char c b'd') _ _ (wrap _ dict (dict_ends f m (omega arith))) (
                  Within-if (is_char c b'a') _ _ (wrap _ array (array_ends f m (omega arith))) (
                    Within-if (is_char c b'n') _ _
                      (Within-bind decode_empty _ decode_empty-Within
                        λ _. Within-pure empty (omega arith))
                      (Within-if (is_digit c) _ _
                        (Within-bind (decode_bytes l) _ decode_bytes-Within
                          λ _. wrap get_b blob get_b-Within)
                        Within-throw)))))))

    dict_ends : (f m : ℕ) → 3 * m - 1 < f → Within m (m - 1) (decode_dict l f)
    dict_ends zero m h = absurd (omega arith)
    dict_ends (suc f) m h = Within-bind get _ get-Within λ c. Within-or_stop no_entries _ λ good.
        Within-if (is_char c b'd') _ _
          (Within-bind peek _ peek-Within λ c'.
            Within-bind (dict_loop l f c' no_entries) _
              (dict_loop_ends f (m - 1) c' no_entries (omega arith))
              λ d. Within-weaken (omega arith) (finish-Within d))
          Within-throw

    dict_loop_ends :
        (f m : ℕ) (c : Option ℕ) (d : Entries) → 3 * m + 1 < f → Within m m (dict_loop l f c d)
    dict_loop_ends zero m c d h = absurd (omega arith)
    dict_loop_ends (suc f) m c d h = record {
      run = loop_run (is_char c b';') d _ λ good.
          Within-bind (decode_key l) _ decode_key-Within λ _. Within-bind get_s _ get_s-Within λ k.
            Within-bind (decode_value l f) _ (value_ends f (m - 1) (omega arith)) λ v.
              Within-bind peek _ peek-Within λ c'.
                Within-weaken (omega arith)
                  (dict_loop_ends f (m - 1 - 1) c' (assign k v d) (omega arith));
    }

    array_ends : (f m : ℕ) → 3 * m - 1 < f → Within m (m - 1) (decode_array l f)
    array_ends zero m h = absurd (omega arith)
    array_ends (suc f) m h = Within-bind get _ get-Within λ c. Within-or_stop no_items _ λ good.
        Within-if (is_char c b'a') _ _
          (Within-bind peek _ peek-Within λ c'.
            Within-bind (array_loop l f c' no_items) _
              (array_loop_ends f (m - 1) c' no_items (omega arith))
              λ a. Within-weaken (omega arith) (finish-Within a))
          Within-throw

    array_loop_ends :
        (f m : ℕ) (c : Option ℕ) (a : Items) → 3 * m + 1 < f → Within m m (array_loop l f c a)
    array_loop_ends zero m c a h = absurd (omega arith)
    array_loop_ends (suc f) m c a h = record {
      run = loop_run (is_char c b';') a _ λ good.
          Within-bind (decode_value l f) _ (value_ends f m (omega arith)) λ v.
            Within-bind peek _ peek-Within λ c'.
              Within-weaken (omega arith) (array_loop_ends f (m - 1) c' (add v a) (omega arith));
    }

  -- On any stream and work space, fuel above three times the bytes that are left is enough:
  -- decode_value returns, throws or fails a contract, and where it returns from a stream that was
  -- good it has taken at least one byte, or left the stream no longer good.
  pub decode_value-Ends :
      (f : ℕ) (st : State) → 3 * left st < f → Ends (left st - 1) (decode_value l f st)
  decode_value-Ends f st h = (value_ends f (left st) h).run st.good st.rest st.s st.b (omega arith)
