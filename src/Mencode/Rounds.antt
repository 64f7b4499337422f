-- ===== src/Mencode/Rounds.antt =====
-- util/mencode.cpp: each decoder on what `encode` writes, and each round of the loops.
use firestr.Prelude.{
  ℕ, zero, suc, ◌+◌, ◌*◌, ◌<◌, ◌≤◌, ◌≡◌, ◌≢◌, refl, ap, Bool, true, false, [], ◌∷◌, ◌++◌,
  append_assoc, Bytes, Option, ok, arith, length, All, ℤ, pos, length-append, ◌==◌, ◌^◌,
}
use firestr.Mencode.Value.{
  Value, Items, Entries, empty, boolean, int, size, real, blob, dict, array, no_items, item,
  no_entries, entry, assign, add,
}
use firestr.Mencode.Lexical.{Lexical, IsFaithful, IsDigit}
use firestr.Mencode.Encode.{
  enc, encode, encode_items, encode_entries, encode_b, encode_int, encode_size, encode_double,
  encode_bool, encode_empty,
}
use firestr.Mencode.Stream.{Decoder, is_char, get, peek, ◌>>=◌, ◌>>◌, get_b, pure}
use firestr.Mencode.Decode.{
  finish, decode_bool, decode_empty, decode_int, decode_size, decode_double, decode_bytes,
  decode_key, decode_value, decode_dict, dict_loop, decode_array, array_loop,
}
use firestr.Mencode.Reads.{on, front, peek-on, dec-on, decode_bytes-on, decode_key-on, digit-front}
use firestr.Mencode.Encodable.{
  IsEncodable, AreItems, AreEntries, extend, extend_items, extend-nil, extend_items-nil,
}

-- With fuel above `bound`, `p` reads `a` off `printed`, and leaves the stream good and what follows
-- in it.
abbrev pub Reads {ℓ} : {A : Type ℓ} → (ℕ → Decoder A) → ℕ → Bytes → A → Type ℓ
Reads p bound printed a =
    (rest s b : Bytes) (f : ℕ)
    → bound < f
    → (s' : Bytes) × (b' : Bytes) × (p f (on (printed ++ rest) s b) ≡ ok (a, on rest s' b'))

-- A loop stops before the `;`.
abbrev pub Loops {ℓ} : {A : Type ℓ} → (ℕ → Option ℕ → Decoder A) → ℕ → Bytes → A → Type ℓ
Loops p bound printed a =
    (rest s b : Bytes) (f : ℕ)
    → bound < f
    → (s' : Bytes) × (b' : Bytes) × (p f (front (printed ++ rest)) (on (printed ++ rest) s b)
        ≡ ok (a, on (b';' ∷ rest) s' b'))

-- A decoder with fuel to spare takes a step.
with_fuel {ℓ} : {m : ℕ} (Q : ℕ → Type ℓ) → ((g : ℕ) → m ≤ g → Q (suc g)) → (g : ℕ) → m < g → Q g
with_fuel Q go (suc g) lt = go g (omega arith)
with_fuel Q go zero lt = absurd (omega arith)

digits_no_semicolon : (xs : Bytes) → All IsDigit xs → All (λ c. c ≢ b';') xs
digits_no_semicolon [] h = tt
digits_no_semicolon (x ∷ xs) h = (omega arith, digits_no_semicolon xs h.1)

no_digit : (c x : ℕ) → c ≢ x → (c == x) ≡ false
no_digit c x h = ground arith

-- A round of a loop begins where the next character is no `;`.
front-append :
    (xs more : Bytes) {c : ℕ} {r : Bytes}
    → xs ≡ c ∷ r
    → (c == b';') ≡ false
    → is_char (front (xs ++ more)) b';' ≡ false
front-append xs more e n = rw e n

append-ne-nil : (xs ys : Bytes) → 0 < length xs → xs ++ ys ≢ []
append-ne-nil [] ys h = absurd (omega arith)
append-ne-nil (x ∷ xs) ys h = λ e. cc

module _ (l : Lexical) (w : IsFaithful l) where
  length-encode_items_pos : (a : Items) → 0 < length (encode_items l a)
  unfolding encode
  length-encode_items_pos no_items = omega arith
  length-encode_items_pos (item v a) =
      omega (arith, length-encode_items_pos a, length-append (encode l v) (encode_items l a))

  length-encode_entries_pos : (d : Entries) → 0 < length (encode_entries l d)
  unfolding encode
  length-encode_entries_pos no_entries = omega arith
  length-encode_entries_pos (entry k v d) = omega (
    arith,
    length-encode_entries_pos d,
    length-append (encode_b l k) (encode l v ++ encode_entries l d),
    length-append (encode l v) (encode_entries l d),
  )

  pub encode_b-front :
      (x : Bytes) → length x < 2 ^ 64 → (c : ℕ) × (r : Bytes) × (encode_b l x ≡ c ∷ r) × IsDigit c
  unfolding encode_b
  encode_b-front x h =
      digits_front (l.size_str (length x)) (w.size_nonempty _ h) (w.size_digits _ h)
    where
      digits_front :
          (ds : Bytes)
          → ds ≢ []
          → All IsDigit ds
          → (c : ℕ) × (r : Bytes) × (ds ++ (b':' ∷ x) ≡ c ∷ r) × IsDigit c
      digits_front [] ne h = absurd (ne refl)
      digits_front (d ∷ ds) ne h = (d, ds ++ (b':' ∷ x), refl, h.0)

  -- A printed value begins with a character that is no `;`.
  encode-front :
      (v : Value)
      → IsEncodable v
      → (c : ℕ) × (r : Bytes) × (encode l v ≡ c ∷ r) × ((c == b';') ≡ false)
  unfolding encode IsEncodable encode_int encode_size encode_double enc encode_bool encode_empty
  encode-front empty h = (b'n', [], refl, refl)
  encode-front (boolean true) h = (b'T', [], refl, refl)
  encode-front (boolean false) h = (b'F', [], refl, refl)
  encode-front (int n) h = (b'i', _, refl, refl)
  encode-front (size n) h = (b's', _, refl, refl)
  encode-front (real x) h = (b'r', _, refl, refl)
  encode-front (blob x) h = let (c, r, e, d) = encode_b-front x h in (c, r, e, ground arith)
  encode-front (dict d) h = (b'd', _, refl, refl)
  encode-front (array a) h = (b'a', _, refl, refl)

  abbrev ReadsValue : Value → Type 0
  ReadsValue v = IsEncodable v → Reads (decode_value l) (3 * length (encode l v)) (encode l v) v

  abbrev LoopsItems : Items → Type 0
  LoopsItems a =
      AreItems a
      → (acc : Items)
      → Loops (λ f c. array_loop l f c acc) (suc (3 * length (encode_items l a))) (encode_items l a)
          (extend_items acc a)

  abbrev LoopsEntries : Entries → Type 0
  LoopsEntries d =
      AreEntries d
      → (acc : Entries)
      → Loops (λ f c. dict_loop l f c acc) (suc (3 * length (encode_entries l d)))
          (encode_entries l d) (extend acc d)

  read_int : (n : ℤ) → ReadsValue (int n)
  unfolding IsEncodable encode decode_value peek encode_int decode_int enc
  read_int n h rest s b = with_fuel _ λ f p. (
    l.int_str n,
    b,
    rw (
        dec-on (pos 0) l.str_int b'i' b';' (l.int_str n) rest s b (w.int_clean n h)
          (w.int_round n h)),
  )

  read_boolean : (x : Bool) → ReadsValue (boolean x)
  unfolding IsEncodable encode decode_value peek encode_bool decode_bool get
  read_boolean true h rest s b = with_fuel _ λ f p. (s, b, refl)
  read_boolean false h rest s b = with_fuel _ λ f p. (s, b, refl)

  read_size : (n : ℕ) → ReadsValue (size n)
  unfolding IsEncodable encode decode_value peek encode_size decode_size enc
  read_size n h rest s b = with_fuel _ λ f p. (
    l.size_str n,
    b,
    rw (
        dec-on 0 l.str_size b's' b';' (l.size_str n) rest s b
          (digits_no_semicolon _ (w.size_digits n h)) (w.size_round n h)),
  )

  read_real : (x : ℕ) → ReadsValue (real x)
  unfolding IsEncodable encode decode_value peek encode_double decode_double enc
  read_real x h rest s b = with_fuel _ λ f p. (
    l.real_str x,
    b,
    rw (
        dec-on 0 l.str_real b'r' b';' (l.real_str x) rest s b (w.real_clean x h)
          (w.real_round x h)),
  )

  -- A byte string begins with a digit, which no other value does.
  pub decode_value-digit :
      (c : ℕ) (r s b : Bytes) (f : ℕ)
      → IsDigit c
      → decode_value l (suc f) (on (c ∷ r) s b)
        ≡ (decode_bytes l >> (get_b >>= λ x. pure (blob x))) (on (c ∷ r) s b)
  unfolding decode_value peek
  decode_value-digit c r s b f h =
      rw
        (
          no_digit c b'F' (omega arith),
          no_digit c b'T' (omega arith),
          no_digit c b'i' (omega arith),
          no_digit c b's' (omega arith),
          no_digit c b'r' (omega arith),
          no_digit c b'd' (omega arith),
          no_digit c b'a' (omega arith),
          no_digit c b'n' (omega arith),
          digit-front c h,
        )
        refl

  read_blob : (x : Bytes) → ReadsValue (blob x)
  unfolding IsEncodable encode
  read_blob x h rest s b = with_fuel _ λ f p.
      let (c, r, e, d) = encode_b-front x h in
      let start = decode_value-digit c (r ++ rest) s b f d in
      let bytes = decode_bytes-on l w x rest s b h in
      (l.size_str (length x), x, rw e (rw start (rw (rw e at bytes))))

  pub read_array :
      (a : Items)
      → LoopsItems a
      → AreItems a
      → Reads (decode_array l) (3 * length (encode_items l a) + 2) (b'a' ∷ encode_items l a) a
  unfolding decode_array get finish
  read_array a ih h rest s b = with_fuel _ λ f p.
      let (s', b', e) = ih h no_items rest s b f (omega arith) in
      let ne = append-ne-nil (encode_items l a) rest (length-encode_items_pos a) in
      (s', b', rw (peek-on (encode_items l a ++ rest) s b ne, e, extend_items-nil a))

  -- A dictionary is what its loop makes of the entries from nothing.
  pub read_dict_as :
      (d r : Entries)
      → Loops
          (λ f c. dict_loop l f c no_entries)
          (suc (3 * length (encode_entries l d)))
          (encode_entries l d)
          r
      → Reads (decode_dict l) (3 * length (encode_entries l d) + 2) (b'd' ∷ encode_entries l d) r
  unfolding decode_dict get finish
  read_dict_as d r ih rest s b = with_fuel _ λ f p.
      let (s', b', e) = ih rest s b f (omega arith) in
      let ne = append-ne-nil (encode_entries l d) rest (length-encode_entries_pos d) in
      (s', b', rw (peek-on (encode_entries l d ++ rest) s b ne, e))

  loop_item : (v : Value) (a : Items) → ReadsValue v → LoopsItems a → LoopsItems (item v a)
  unfolding IsEncodable encode array_loop extend_items
  loop_item v a ih ihs (hv, ha) acc rest s b = with_fuel _ λ f p.
      let (c, r, e, nc) = encode-front v hv in
      let total = length-append (encode l v) (encode_items l a) in
      let more = encode_items l a ++ rest in
      let (s₁, b₁, e₁) = ih hv more s b f (omega arith) in
      let (s₂, b₂, e₂) = ihs ha (add v acc) rest s₁ b₁ f (omega (arith, ap length e)) in
      let ne = append-ne-nil (encode_items l a) rest (length-encode_items_pos a) in
      (
        s₂,
        b₂,
        rw (
          append_assoc (encode l v) (encode_items l a) rest,
          front-append (encode l v) more e nc,
          e₁,
          peek-on more s₁ b₁ ne,
          e₂,
        ),
      )

  -- A round of `decode_dict`, where the key is read as `k'`.
  pub loop_entry_as :
      (k k' : Bytes) (v : Value) (d : Entries)
      → ((more s b : Bytes) → decode_key l (on (encode_b l k ++ more) s b) ≡ ok (tt, on more k' b))
      → length k < 2 ^ 64
      → Reads (decode_value l) (3 * length (encode l v)) (encode l v) v
      → ((acc : Entries)
          → Loops
              (λ f c. dict_loop l f c acc)
              (suc (3 * length (encode_entries l d)))
              (encode_entries l d)
              (extend acc d))
      → (acc : Entries)
      → Loops
          (λ f c. dict_loop l f c acc)
          (suc (3 * length (encode_entries l (entry k v d))))
          (encode_entries l (entry k v d))
          (extend (assign k' v acc) d)
  unfolding encode dict_loop
  loop_entry_as k k' v d key hk ih ihs acc rest s b = with_fuel _ λ f p.
      let (c, r, e, digit) = encode_b-front k hk in
      let value = encode l v in
      let total = length-append (encode_b l k) (value ++ encode_entries l d) in
      let total' = length-append value (encode_entries l d) in
      let more = encode_entries l d ++ rest in
      let (s₁, b₁, e₁) = ih more k' b f (omega arith) in
      let (s₂, b₂, e₂) = ihs (assign k' v acc) rest s₁ b₁ f (omega (arith, ap length e)) in
      let ne = append-ne-nil (encode_entries l d) rest (length-encode_entries_pos d) in
      let nc : (c == b';') ≡ false = ground arith in
      (
        s₂,
        b₂,
        rw (
          append_assoc (encode_b l k) (value ++ encode_entries l d) rest,
          append_assoc value (encode_entries l d) rest,
          front-append (encode_b l k) (value ++ more) e nc,
          key (value ++ more) s b,
          e₁,
          peek-on more s₁ b₁ ne,
          e₂,
        ),
      )

  loop_entry :
      (k : Bytes) (v : Value) (d : Entries)
      → ReadsValue v
      → LoopsEntries d
      → LoopsEntries (entry k v d)
  unfolding IsEncodable extend
  loop_entry k v d ih ihs (pk, hk, fresh, hv, hd) =
      loop_entry_as k k v d (λ more s b. decode_key-on l w k more s b hk pk) hk (ih hv) (ihs hd)

  pub decode_value-Reads : (v : Value) → ReadsValue v
  unfolding IsEncodable encode decode_value peek
  decode_value-Reads v = elim v as ReadsValue LoopsItems LoopsEntries [
    | empty ↦ λ h rest s b. with_fuel _ λ f p. (s, b, unfold decode_empty encode_empty get in refl)
    | boolean x ↦ read_boolean x
    | int n ↦ read_int n
    | size n ↦ read_size n
    | real x ↦ read_real x
    | blob x ↦ read_blob x
    | dict (d → ih) ↦ λ h rest s b. with_fuel _ λ f p.
        let (s', b', e) =
          read_dict_as d (extend no_entries d) (ih h no_entries) rest s b f (omega arith) in
        (s', b', rw e (ap (λ x. ok (dict x, on rest s' b')) (extend-nil d h)))
    | array (a → ih) ↦ λ h rest s b.
        with_fuel _
          λ f p. let (s', b', e) = read_array a ih h rest s b f (omega arith) in (s', b', rw e)
    | no_items ↦ λ h acc rest s b. with_fuel _ λ f p. (s, b, unfold array_loop extend_items in refl)
    | item (v → ih) (a → ihs) ↦ loop_item v a ih ihs
    | no_entries ↦ λ h acc rest s b. with_fuel _ λ f p. (s, b, unfold dict_loop extend in refl)
    | entry k (v → ih) (d → ihs) ↦ loop_entry k v d ih ihs
  ]

  pub dict_loop-Loops :
      (d : Entries)
      → AreEntries d
      → (acc : Entries)
      → Loops
          (λ f c. dict_loop l f c acc)
          (suc (3 * length (encode_entries l d)))
          (encode_entries l d)
          (extend acc d)
  unfolding IsEncodable
  dict_loop-Loops no_entries h =
      λ acc rest s b. with_fuel _ λ f p. (s, b, unfold dict_loop extend encode in refl)
  dict_loop-Loops (entry k v d) (pk, hk, fresh, hv, hd) =
      loop_entry k v d (decode_value-Reads v) (λ h. dict_loop-Loops d h) (pk, hk, fresh, hv, hd)

  pub array_loop-Loops : (a : Items) → LoopsItems a
  array_loop-Loops no_items =
      λ h acc rest s b. with_fuel _ λ f p. (s, b, unfold array_loop extend_items encode in refl)
  array_loop-Loops (item v a) = loop_item v a (decode_value-Reads v) (array_loop-Loops a)
