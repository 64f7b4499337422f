-- ===== src/Security/Channels.antt =====
-- security/security_library.hpp and security/security_library.cpp: `encrypted_channels`. Each call
-- holds the mutex of the channels while it looks at them.
-- The loops of RSA take fuel, and the random generator is a number for each draw.
use firestr.Prelude.{
  ℕ, Bool, not, ◌&&◌, List, [], ◌∷◌, Bytes, bytes_eq, bytes_key, Option, none, some, Outcome, ok,
  aborted, ◌>>=◌, ◌>>◌, require, ◌==◌, if◌then◌else◌,
}
use firestr.Prelude.Maps.{find, assign, erase}
use firestr.Mencode.Lexical.{Lexical}
use firestr.Security.Botan.{Botan}
use firestr.Security.Rsa.{decrypt_private}
use firestr.Security.Secret.{
  Secret, PublicKey, new_secret, create_symmetric_key, ready, encrypt_secret, decrypt_secret,
  no_key, valid, copy_key, encrypt_key,
}

-- `encryption_type` of security/security_library.hpp.
pub data Cipher : Type 0 where
  plain symmetric asymmetric unknown : Cipher

abbrev pub prefix_of : Cipher → ℕ
prefix_of plain = b'P'
prefix_of symmetric = b'S'
prefix_of asymmetric = b'A'
prefix_of unknown = b'U'

unfoldable pub append_prefix : ℕ → Bytes → Bytes
append_prefix p bs = p ∷ bs

module _ (b : Botan) where
  pub record Channel : Type 0 where
    pub shared_secret : Secret b
    pub key : PublicKey b

  pub record Channels : Type 0 where
    pub s : List (Bytes × Channel)
    pub pk : b.Private

  unfoldable pub encrypt_plaintext : Bytes → Bytes
  unfolding append_prefix
  encrypt_plaintext bs = append_prefix b'P' bs

  -- With the channel that `find` gave.
  unfoldable pub encrypt_symmetric : Option Channel → Bytes → Outcome Bytes
  unfolding append_prefix
  encrypt_symmetric none bs = ok []
  encrypt_symmetric (some c) bs = do
    require (ready b c.shared_secret)
    es ← encrypt_secret b c.shared_secret bs
    ok (append_prefix b'S' es)

  unfoldable pub encrypt_asymmetric : Lexical → ℕ → ℕ → Option Channel → Bytes → Outcome Bytes
  unfolding append_prefix
  encrypt_asymmetric l f n c [] = ok []
  encrypt_asymmetric l f n none (x ∷ bs) = ok []
  encrypt_asymmetric l f n (some c) (x ∷ bs) = do
    es ← encrypt_key b l f c.key n (x ∷ bs)
    ok (append_prefix b'A' es)

  unfoldable pub encrypt_channel : Lexical → ℕ → ℕ → Option Channel → Bytes → Outcome Bytes
  unfolding encrypt_plaintext encrypt_symmetric encrypt_asymmetric
  encrypt_channel l f n none bs = ok (encrypt_plaintext bs)
  encrypt_channel l f n (some c) bs =
      if not (ready b c.shared_secret)
      then encrypt_asymmetric l f n (some c) bs
      else encrypt_symmetric (some c) bs

  -- `encrypt`
  unfoldable pub encrypt_for : Lexical → ℕ → ℕ → Channels → Bytes → Bytes → Outcome Bytes
  unfolding encrypt_channel
  encrypt_for l f n cs i bs = encrypt_channel l f n (find i cs.s) bs

  -- `decrypt`, for the rest of the bytes: with the channel of the sender.
  unfoldable pub decrypt_symmetric : Option Channel → Bytes → Outcome Bytes
  decrypt_symmetric none bs = ok []
  decrypt_symmetric (some c) bs =
      if not (ready b c.shared_secret) then ok [] else decrypt_secret b c.shared_secret bs

  -- `decrypt`, with the encryption type that the reference argument holds before and after.
  unfoldable pub decrypt_from :
      Lexical → ℕ → Channels → Bytes → Bytes → Cipher → Outcome (Bytes × Cipher)
  unfolding decrypt_symmetric
  decrypt_from l f cs i [] et = ok ([], et)
  decrypt_from l f cs i (p ∷ []) et = ok ([], et)
  decrypt_from l f cs i (p ∷ c ∷ bs) et =
      if p == b'P'
      then ok (c ∷ bs, plain)
      else if p == b'S'
      then (do ds ← decrypt_symmetric (find i cs.s) (c ∷ bs); ok (ds, symmetric))
      else if p == b'A'
      then (do ds ← decrypt_private l b f cs.pk (c ∷ bs); ok (ds, asymmetric))
      else ok ([], unknown)

  -- `_s[i]`: a new channel has no key and a new secret.
  unfoldable pub channel_at : ℕ → Channels → Bytes → Outcome Channel
  channel_at n cs i = elim (find i cs.s) [
    | some c ↦ ok c
    | none ↦ do secret ← new_secret b n; ok (record { shared_secret = secret; key = no_key b })
  ]

  abbrev pub same_key : PublicKey b → PublicKey b → Bool
  same_key k o = valid b k && bytes_eq k.ks o.ks

  abbrev pub with_channel : Bytes → Channel → Channels → Channels
  with_channel i c cs = record cs { s = assign i c cs.s }

  -- `create_channel(id, key)`
  unfoldable pub create_channel : ℕ → ℕ → Channels → Bytes → PublicKey b → Outcome Channels
  unfolding channel_at
  create_channel n n' cs i key = do
    require (valid b key)
    c ← channel_at n cs i
    if same_key c.key key then ok (with_channel i c cs) else do
      k ← copy_key b key
      secret ← new_secret b n'
      ok (with_channel i (record { shared_secret = secret; key = k }) cs)

  -- `create_channel(id, key, public_val)`
  unfoldable pub agree_channel : ℕ → Channels → Bytes → PublicKey b → Bytes → Outcome Channels
  unfolding channel_at
  agree_channel n cs i key pv = do
    require (valid b key)
    c ← channel_at n cs i
    k ← (if same_key c.key key then ok c.key else copy_key b key)
    ok (
        with_channel i
          (record { shared_secret = create_symmetric_key b pv c.shared_secret; key = k }) cs)

  unfoldable pub get_channel : Channels → Bytes → Outcome Channel
  get_channel cs i = elim (find i cs.s) [ none ↦ aborted | some c ↦ ok c ]

  unfoldable pub remove_channel : Channels → Bytes → Channels
  remove_channel cs i = record cs { s = erase i cs.s }
