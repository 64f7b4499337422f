-- ===== src/Security/Rsa.antt =====
-- security/security.cpp: `public_key::encrypt` and `private_key::decrypt`, which cut a byte string
-- into blocks of the size that RSA takes, and write each as a byte string of util/mencode.cpp.
use firestr.Prelude.{
  drop_add, drop_all, subst, ℕ, zero, suc, ◌+◌, ◌-◌, ◌*◌, ◌≤◌, ◌<◌, min, ◌≡◌, ◌≢◌, refl, ap, ◌∙◌,
  [], ◌∷◌, ◌++◌, Bytes, none, some, Outcome, ok, thrown, aborted, out_of_fuel, ◌>>=◌, arith, length,
  take, drop, length-append, length-take, take-append-drop, ltb, if◌then◌else◌, Bool-cases, inl,
  inr,
}
use firestr.Mencode.Lexical.{Lexical, IsFaithful}
use firestr.Mencode.Encode.{encode_b}
use firestr.Mencode.Stream.{State, peek}
use firestr.Mencode.Decode.{decode_value}
use firestr.Mencode.Reads.{on}
use firestr.Envelope.{stream_of, read_bytes}
use firestr.Envelope.Carried.{read_bytes-encode, length-encode_b_lt}
use firestr.Security.Botan.{Botan, IsRsa}

module _ (l : Lexical) (b : Botan) where
  open b use {Private, Public, public_of, maximum_input_size, rsa_encrypt, rsa_decrypt}

  -- `while(advance < b.size())`
  unfoldable pub encrypt_blocks : ℕ → Public → ℕ → ℕ → Bytes → Outcome Bytes
  encrypt_blocks zero k n advance x = out_of_fuel
  encrypt_blocks (suc f) k n advance x =
      let size = min (maximum_input_size k) (length x - advance) in
      let more = (do
        rest ← encrypt_blocks f k (n + 1) (advance + size) x
        ok (encode_b l (rsa_encrypt k n (take size (drop advance x))) ++ rest)) in
      if ltb advance (length x) then more else ok []

  -- `public_key::encrypt`
  unfoldable pub encrypt_public : ℕ → Public → ℕ → Bytes → Outcome Bytes
  unfolding encrypt_blocks
  encrypt_public f k n x = encrypt_blocks f k n 0 x

  -- `while(!bs.empty())`
  unfoldable pub decrypt_blocks : ℕ → ℕ → Private → Bytes → State → Outcome Bytes
  decrypt_blocks w zero k bs st = out_of_fuel
  decrypt_blocks w (suc f) k bs st = elim bs [
    | [] ↦ ok []
    | c ∷ r ↦ elim (rsa_decrypt k (c ∷ r)) [
      | none ↦ thrown
      | some x ↦ do
        next ← read_bytes l w st
        rest ← decrypt_blocks w f k next.0 next.1
        ok (x ++ rest)
    ]
  ]

  -- `private_key::decrypt`
  unfoldable pub decrypt_private : ℕ → Private → Bytes → Outcome Bytes
  unfolding decrypt_blocks
  decrypt_private f k x = do
    first ← read_bytes l f (stream_of x)
    decrypt_blocks f f k first.0 first.1

  >>=_assoc :
      {A B C : Type 0} (m : Outcome A) (f : A → Outcome B) (g : B → Outcome C)
      → ((m >>= λ a. f a >>= g)) ≡ ((m >>= f) >>= g)
  >>=_assoc (ok a) f g = refl
  >>=_assoc thrown f g = refl
  >>=_assoc aborted f g = refl
  >>=_assoc out_of_fuel f g = refl

  module _ (faithful : IsFaithful l) (laws : IsRsa b) where
    -- From the stream on, one block after the other.
    decrypt_rest : ℕ → ℕ → Private → State → Outcome Bytes
    decrypt_rest w f k st = do first ← read_bytes l w st; decrypt_blocks w f k first.0 first.1

    abbrev Undone : Private → Bytes → Bytes → Type 0
    Undone k c x =
        (s t : Bytes) (w g : ℕ)
        → 3 * length c < w
        → length c < g
        → decrypt_rest w g k (on c s t) ≡ ok x

    Undone-nil : (k : Private) → Undone k [] []
    unfolding decrypt_rest decrypt_blocks read_bytes decode_value peek
    Undone-nil k s t zero g p q = absurd (omega arith)
    Undone-nil k s t (suc w) zero p q = absurd (omega arith)
    Undone-nil k s t (suc w) (suc g) p q = refl

    decrypt_block :
        (k : Private) (e x : Bytes) (w g : ℕ) (st : State)
        → e ≢ []
        → rsa_decrypt k e ≡ some x
        → decrypt_blocks w (suc g) k e st ≡ (decrypt_rest w g k st >>= λ rest. ok (x ++ rest))
    unfolding decrypt_rest decrypt_blocks
    decrypt_block k [] x w g st n d = absurd (n refl)
    decrypt_block k (c ∷ r) x w g st n d =
        rw (d, decrypt_blocks) (>>=_assoc (read_bytes l w st) _ _)

    Undone-cons :
        (k : Private) (n : ℕ) (x c y : Bytes)
        → length x ≤ maximum_input_size (public_of k)
        → Undone k c y
        → Undone k (encode_b l (rsa_encrypt (public_of k) n x) ++ c) (x ++ y)
    unfolding decrypt_rest
    Undone-cons k n x c y fits rest s t w zero p q = absurd (omega arith)
    Undone-cons k n x c y fits rest s t w (suc g) p q =
        let e = rsa_encrypt (public_of k) n x in
        let len = length-append (encode_b l e) c in
        let (s', t', r) =
          read_bytes-encode l faithful e (laws.rsa_size k n x fits) c s t w (omega (arith, p)) in
        let longer = length-encode_b_lt l faithful e in
        let undone = rest s' t' w g (omega (arith, p)) (omega (arith, q)) in
        rw r (
          decrypt_block k e x w g (on c s' t') (laws.rsa_nonempty k n x) (laws.rsa_round k n x fits)
          ∙ rw undone refl)

    encrypt_blocks-Undone :
        (k : Private) (f n advance : ℕ) (x : Bytes)
        → length x - advance < f
        → (c : Bytes) × (encrypt_blocks f (public_of k) n advance x ≡ ok c)
          × Undone k c (drop advance x)
    unfolding encrypt_blocks
    encrypt_blocks-Undone k zero n advance x h = absurd (omega arith)
    encrypt_blocks-Undone k (suc f) n advance x h =
        let size = min (maximum_input_size (public_of k)) (length x - advance) in
        let room = laws.room k in
        elim (Bool-cases (ltb advance (length x))) [
          | inl more ↦
              let inside : advance < length x = ground arith in
              let (c, e, u) = encrypt_blocks-Undone k f (n + 1) (advance + size) x (omega arith) in
              let block = take size (drop advance x) in
              (
                encode_b l (rsa_encrypt (public_of k) n block) ++ c,
                rw (more, e) refl,
                subst (Undone k (encode_b l (rsa_encrypt (public_of k) n block) ++ c))
                    (ap (◌++◌ block) (drop_add advance size x)
                      ∙ take-append-drop size (drop advance x))
                    (Undone-cons k n block c (drop (advance + size) x)
                      (omega (arith, length-take size (drop advance x))) u),
              )
          | inr done ↦ ([], rw done refl, rw (drop_all advance x (ground arith)) (Undone-nil k))
        ]

    -- With a faithful lexical_cast and an RSA that reads back the blocks it wrote,
    -- public_key::encrypt of any bytes returns, with fuel above their number, a text of which
    -- private_key::decrypt of the same key pair, with fuel above three times its length, gives
    -- these bytes.
    pub decrypt_private-encrypt :
        (k : Private) (n f g : ℕ) (x : Bytes)
        → length x < f
        → (c : Bytes) × (encrypt_public f (public_of k) n x ≡ ok c)
          × (decrypt_private (3 * length c + 1 + g) k c ≡ ok x)
    unfolding encrypt_public decrypt_private decrypt_rest
    decrypt_private-encrypt k n f g x h =
        let (c, e, u) = encrypt_blocks-Undone k f n 0 x (omega arith) in
        (c, e, u [] [] (3 * length c + 1 + g) (3 * length c + 1 + g) (omega arith) (omega arith))
