-- ===== src/Security/Botan.antt =====
-- The part of Botan that security/security.cpp calls: a parameter, with what its documentation
-- says. `none` is an exception; a number beside the arguments is a draw of the random generator.
use firestr.Prelude.{ℕ, ◌≤◌, ◌<◌, ◌≡◌, ◌≢◌, [], Bytes, Option, some, length}
use firestr.Mencode.Lexical.{IsSize}

pub record Botan : Type 1 where
  pub Private : Type 0
  pub Public : Type 0
  pub Agreement : Type 0
  -- RSA, and the PEM texts of public keys.
  pub public_of : Private → Public
  pub load_key : Bytes → Option Public
  pub maximum_input_size : Public → ℕ
  pub rsa_encrypt : Public → ℕ → Bytes → Bytes
  pub rsa_decrypt : Private → Bytes → Option Bytes
  -- Diffie-Hellman.
  pub new_agreement : ℕ → Agreement
  pub public_value : Agreement → Bytes
  pub derive_key : Agreement → Bytes → Bytes
  -- AES in CBC mode.
  pub aes_encrypt : Bytes → Bytes → Bytes
  pub aes_decrypt : Bytes → Bytes → Option Bytes

-- RSA reads back what it wrote for the same key pair, in blocks that are not empty.
pub record IsRsa (b : Botan) : Type 0 where
  pub room : (k : b.Private) → 0 < b.maximum_input_size (b.public_of k)
  pub rsa_round :
      (k : b.Private) (n : ℕ) (x : Bytes)
      → length x ≤ b.maximum_input_size (b.public_of k)
      → b.rsa_decrypt k (b.rsa_encrypt (b.public_of k) n x) ≡ some x
  pub rsa_size :
      (k : b.Private) (n : ℕ) (x : Bytes)
      → length x ≤ b.maximum_input_size (b.public_of k)
      → IsSize (length (b.rsa_encrypt (b.public_of k) n x))
  pub rsa_nonempty : (k : b.Private) (n : ℕ) (x : Bytes) → b.rsa_encrypt (b.public_of k) n x ≢ []

-- The key agreement is symmetric, and AES reads back what it wrote, which is never empty.
pub record IsAes (b : Botan) : Type 0 where
  pub agreed :
      (s t : b.Agreement) → b.derive_key s (b.public_value t) ≡ b.derive_key t (b.public_value s)
  pub aes_round : (k x : Bytes) → b.aes_decrypt k (b.aes_encrypt k x) ≡ some x
  pub aes_nonempty : (k x : Bytes) → b.aes_encrypt k x ≢ []
