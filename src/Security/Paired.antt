-- ===== src/Security/Paired.antt =====
-- security/security_library.cpp: what one peer encrypts, the other decrypts.
use firestr.Prelude.{
  ℕ, suc, ◌+◌, ◌*◌, ◌<◌, ◌≡◌, ◌≢◌, refl, sym, ap, ◌∙◌, subst, false, [], ◌∷◌, Bytes, Option, none,
  some, ok, arith, length, inl, inr, Option-cases, bytes_key,
}
use firestr.Prelude.Maps.{find}
use firestr.Mencode.Lexical.{Lexical, IsFaithful}
use firestr.Mencode.Stream.{peek}
use firestr.Mencode.Decode.{decode_value}
use firestr.Envelope.{read_bytes}
use firestr.Post.Office.{is_empty}
use firestr.Security.Botan.{Botan, IsRsa, IsAes}
use firestr.Security.Rsa.{encrypt_public, decrypt_private, decrypt_blocks, decrypt_private-encrypt}
use firestr.Security.Secret.{Secret, ready, encrypt_secret, decrypt_secret, encrypt_key}
use firestr.Security.Channels.{
  Cipher, plain, symmetric, asymmetric, append_prefix, Channel, Channels, encrypt_plaintext,
  encrypt_symmetric, encrypt_asymmetric, encrypt_channel, encrypt_for, decrypt_symmetric,
  decrypt_from,
}

module _ (l : Lexical) (b : Botan) where
  -- The channel of peer a to peer z, which a calls j: it encrypts for the key of z, and if it has a
  -- symmetric key, then z's channel to a, which z calls i, has the same.
  pub record IsPaired (a z : Channels b) (j i : Bytes) : Type 0 where
    pub keyed :
        (c : Channel b)
        → find j a.s ≡ some c
        → (c.key.k ≡ some (b.public_of z.pk)) × (is_empty c.key.ks ≡ false)
    pub shared :
        (c : Channel b) (k : Bytes)
        → find j a.s ≡ some c
        → c.shared_secret.skey ≡ some k
        → (c' : Channel b) × (find i z.s ≡ some c') × (c'.shared_secret.skey ≡ some k)

  -- What `encrypt` chooses for a channel.
  abbrev pub chosen : Option (Channel b) → Cipher
  chosen none = plain
  chosen (some c) = elim c.shared_secret.skey [ none ↦ asymmetric | some k ↦ symmetric ]

  module _ (faithful : IsFaithful l) (rsa : IsRsa b) (aes : IsAes b) where
    encrypted_nonempty :
        (k : b.Private) (n f g : ℕ) (x : ℕ) (xs c : Bytes)
        → decrypt_private l b (suc g) k c ≡ ok (x ∷ xs)
        → c ≢ []
    unfolding decrypt_private decrypt_blocks read_bytes decode_value peek
    encrypted_nonempty k n f g x xs [] e = cc e
    encrypted_nonempty k n f g x xs (d ∷ c) e = cc

    decrypt_secret_there :
        (s : Secret b) (k c x : Bytes)
        → s.skey ≡ some k
        → b.aes_decrypt k c ≡ some x
        → decrypt_secret b s c ≡ ok x
    unfolding decrypt_secret
    decrypt_secret_there s k c x e d = rw (e, decrypt_secret) (rw (d, decrypt_secret) refl)

    decrypt_symmetric_there :
        (c : Channel b) (k y x : Bytes)
        → c.shared_secret.skey ≡ some k
        → b.aes_decrypt k y ≡ some x
        → decrypt_symmetric b (some c) y ≡ ok x
    unfolding decrypt_symmetric ready
    decrypt_symmetric_there c k y x e d =
        rw (decrypt_secret_there c.shared_secret k y x e d) (rw e refl)

    decrypt_from_symmetric :
        (f : ℕ) (z : Channels b) (i : Bytes) (c : Channel b) (k x y : Bytes) (et : Cipher)
        → find i z.s ≡ some c
        → c.shared_secret.skey ≡ some k
        → y ≢ []
        → b.aes_decrypt k y ≡ some x
        → decrypt_from b l f z i (b'S' ∷ y) et ≡ ok (x, symmetric)
    unfolding decrypt_from
    decrypt_from_symmetric f z i c k x [] et e s n d = absurd (n refl)
    decrypt_from_symmetric f z i c k x (y ∷ ys) et e s n d =
        rw (e, decrypt_symmetric_there c k (y ∷ ys) x s d) refl

    encrypt_symmetric_there :
        (n f : ℕ) (c : Channel b) (k x : Bytes)
        → c.shared_secret.skey ≡ some k
        → encrypt_channel b l f n (some c) x ≡ ok (b'S' ∷ b.aes_encrypt k x)
    unfolding encrypt_channel encrypt_symmetric ready encrypt_secret append_prefix
    encrypt_symmetric_there n f c k x e = rw (e, encrypt_secret) refl

    encrypt_asymmetric_there :
        (n f : ℕ) (c : Channel b) (p : b.Public) (x : ℕ) (xs es : Bytes)
        → c.shared_secret.skey ≡ none
        → c.key.k ≡ some p
        → is_empty c.key.ks ≡ false
        → encrypt_public l b f p n (x ∷ xs) ≡ ok es
        → encrypt_channel b l f n (some c) (x ∷ xs) ≡ ok (b'A' ∷ es)
    unfolding encrypt_channel encrypt_asymmetric ready encrypt_key append_prefix
    encrypt_asymmetric_there n f c p x xs es e k t h = rw e (rw (k, encrypt_key) (rw (t, h) refl))

    decrypt_from_asymmetric :
        (f : ℕ) (z : Channels b) (i c x : Bytes) (et : Cipher)
        → c ≢ []
        → decrypt_private l b f z.pk c ≡ ok x
        → decrypt_from b l f z i (b'A' ∷ c) et ≡ ok (x, asymmetric)
    unfolding decrypt_from
    decrypt_from_asymmetric f z i [] x et n e = absurd (n refl)
    decrypt_from_asymmetric f z i (y ∷ ys) x et n e = rw (e, decrypt_from) refl

    -- With a faithful lexical_cast, and RSA and AES that read back what they wrote, for a channel
    -- that is paired with the other peer's, and bytes that are not empty, encrypt returns, with
    -- fuel above the number of bytes, a text that the peer's decrypt turns into these bytes, with
    -- fuel above three times its length, and for which it gives the encryption that the channel
    -- has: none without a channel, symmetric once the secret is agreed, and asymmetric until then.
    pub decrypt_from-encrypt_for :
        (a z : Channels b) (j i : Bytes) (n f g : ℕ) (x : ℕ) (xs : Bytes) (et : Cipher)
        → IsPaired a z j i
        → length (x ∷ xs) < f
        → (c : Bytes) × (encrypt_for b l f n a j (x ∷ xs) ≡ ok c)
          × (decrypt_from b l (3 * length c + 1 + g) z i c et ≡ ok (x ∷ xs, chosen (find j a.s)))
    unfolding encrypt_for encrypt_channel encrypt_plaintext append_prefix decrypt_from
    decrypt_from-encrypt_for a z j i n f g x xs et p h = elim (Option-cases (find j a.s)) [
      | inl e ↦ (b'P' ∷ x ∷ xs, rw (e, encrypt_for) refl, rw e refl)
      | inr (ch, e) ↦ elim (Option-cases ch.shared_secret.skey) [
        | inl s ↦
            let (key, text) = p.keyed ch e in
            let (es, out, back) =
              decrypt_private-encrypt l b faithful rsa z.pk n f (g + 3) (x ∷ xs) h in
            let same : 3 * length es + 1 + (g + 3) ≡ 3 * length (b'A' ∷ es) + 1 + g = omega arith in
            let read : decrypt_private l b (3 * length (b'A' ∷ es) + 1 + g) z.pk es ≡ ok (x ∷ xs) =
              subst (λ w. decrypt_private l b w z.pk es ≡ ok (x ∷ xs)) same back in
            let some_fuel : 3 * length es + 1 + (g + 3) ≡ suc (3 * length es + (g + 3)) =
              omega arith in
            (
              b'A' ∷ es,
              rw (e, encrypt_for)
                  (encrypt_asymmetric_there n f ch (b.public_of z.pk) x xs es s key text out),
              rw e (
                  decrypt_from_asymmetric (3 * length (b'A' ∷ es) + 1 + g) z i es (x ∷ xs) et
                    (encrypted_nonempty z.pk n f (3 * length es + (g + 3)) x xs es
                      (subst (λ w. decrypt_private l b w z.pk es ≡ ok (x ∷ xs)) some_fuel back))
                    read
                  ∙ ap (λ o. ok (x ∷ xs, elim o [ none ↦ asymmetric | some k ↦ symmetric ]))
                      (sym s)),
            )
        | inr (k, s) ↦
            let (c', e', s') = p.shared ch k e s in
            let y = b.aes_encrypt k (x ∷ xs) in
            (
              b'S' ∷ y,
              rw (e, encrypt_for) (encrypt_symmetric_there n f ch k (x ∷ xs) s),
              rw e (
                  decrypt_from_symmetric (3 * length (b'S' ∷ y) + 1 + g) z i c' k (x ∷ xs) y et e'
                    s' (aes.aes_nonempty k (x ∷ xs)) (aes.aes_round k (x ∷ xs))
                  ∙ ap (λ o. ok (x ∷ xs, elim o [ none ↦ asymmetric | some k ↦ symmetric ]))
                      (sym s)),
            )
      ]
    ]
