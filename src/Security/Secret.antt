-- ===== src/Security/Secret.antt =====
-- security/security.cpp: `dh_secret`, and the parts of `public_key` that hold a key.
use firestr.Prelude.{
  ℕ, Bool, not, [], Bytes, Option, none, some, Outcome, ok, thrown, aborted, ◌>>◌, require,
}
use firestr.Mencode.Lexical.{Lexical}
use firestr.Post.Office.{is_some, is_empty}
use firestr.Security.Botan.{Botan}
use firestr.Security.Rsa.{encrypt_public}

module _ (b : Botan) where
  open b use {
    Public, Agreement, load_key, new_agreement, public_value, derive_key, aes_encrypt, aes_decrypt,
  }

  pub record Secret : Type 0 where
    pub pkey : Agreement
    pub skey : Option Bytes
    pub pub_value : Bytes
    pub other_pub_value : Bytes

  -- `_ks`, the text, and `_k`, which is null in an invalid key.
  pub record PublicKey : Type 0 where
    pub ks : Bytes
    pub k : Option Public

  -- `dh_secret()`
  unfoldable pub new_secret : ℕ → Outcome Secret
  new_secret n = do
    require (not (is_empty (public_value (new_agreement n))))
    ok (record {
      pkey = new_agreement n;
      skey = none;
      pub_value = public_value (new_agreement n);
      other_pub_value = [];
    })

  unfoldable pub create_symmetric_key : Bytes → Secret → Secret
  create_symmetric_key pv s = record s { skey = some (derive_key s.pkey pv); other_pub_value = pv }

  unfoldable pub ready : Secret → Bool
  ready s = is_some s.skey

  -- `dh_secret::encrypt`, whose REQUIRE is the first test.
  unfoldable pub encrypt_secret : Secret → Bytes → Outcome Bytes
  encrypt_secret s bs = elim s.skey [ none ↦ aborted | some k ↦ ok (aes_encrypt k bs) ]

  unfoldable pub decrypt_secret : Secret → Bytes → Outcome Bytes
  decrypt_secret s bs = elim s.skey [
    | none ↦ aborted
    | some k ↦ elim (aes_decrypt k bs) [ none ↦ thrown | some x ↦ ok x ]
  ]

  -- `public_key()`
  abbrev pub no_key : PublicKey
  no_key = record { ks = []; k = none }

  unfoldable pub valid : PublicKey → Bool
  valid key = is_some key.k

  -- `public_key::operator=`
  unfoldable pub copy_key : PublicKey → Outcome PublicKey
  copy_key o = elim (load_key o.ks) [
    | none ↦ thrown
    | some k ↦ do require (not (is_empty o.ks)); ok (record { ks = o.ks; k = some k })
  ]

  -- `public_key::encrypt`
  unfoldable pub encrypt_key : Lexical → ℕ → PublicKey → ℕ → Bytes → Outcome Bytes
  encrypt_key l f key n bs = elim key.k [
    | none ↦ aborted
    | some k ↦ do require (not (is_empty key.ks)); encrypt_public l b f k n bs
  ]
