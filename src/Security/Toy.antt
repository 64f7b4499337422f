-- ===== src/Security/Toy.antt =====
-- Values of the parameters, to show that what is asked of them can be met: a cipher that puts a mark
-- before the text, and keys that are numbers.
use firestr.Prelude.{ℕ, ◌+◌, ◌≡◌, refl, ap, [], ◌∷◌, Bytes, Option, none, some, arith}
use firestr.Security.Botan.{Botan, IsRsa, IsAes}

abbrev unmark : Bytes → Option Bytes
unmark [] = none
unmark (c ∷ x) = some x

abbrev first_number : Bytes → Option ℕ
first_number [] = none
first_number (c ∷ x) = some c

abbrev shared_key : ℕ → Bytes → Bytes
shared_key s [] = []
shared_key s (c ∷ x) = (s + c) ∷ []

abbrev pub toy : Botan
toy = record {
  Private = ℕ;
  Public = ℕ;
  Agreement = ℕ;
  public_of = λ k. k;
  load_key = first_number;
  maximum_input_size = λ k. 100;
  rsa_encrypt = λ k n x. n ∷ x;
  rsa_decrypt = λ k x. unmark x;
  new_agreement = λ n. n;
  public_value = λ s. s ∷ [];
  derive_key = shared_key;
  aes_encrypt = λ k x. 1 ∷ x;
  aes_decrypt = λ k x. unmark x;
}

pub toy-IsRsa : IsRsa toy
toy-IsRsa = record {
  room = λ k. omega arith;
  rsa_round = λ k n x h. refl;
  rsa_size = λ k n x h. omega arith;
  rsa_nonempty = λ k n x e. cc;
}

pub toy-IsAes : IsAes toy
toy-IsAes = record {
  agreed = λ s t. let e : s + t ≡ t + s = omega arith in ap (λ (n : ℕ). n ∷ []) e;
  aes_round = λ k x. refl;
  aes_nonempty = λ k x e. cc;
}
