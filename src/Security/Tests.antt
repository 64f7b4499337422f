-- ===== src/Security/Tests.antt =====
-- Two peers that have each other's keys, with the parameters of Toy.
use firestr.Prelude.{
  ℕ, ◌+◌, ◌*◌, ◌≡◌, refl, [], ◌∷◌, Bytes, none, some, ok, arith, length, codes, bytes_key,
}
use firestr.Prelude.Maps.{find}
use firestr.Mencode.Decimal.{decimal, decimal-IsFaithful}
use firestr.Security.Toy.{toy, toy-IsRsa, toy-IsAes}
use firestr.Security.Rsa.{encrypt_public, decrypt_private, decrypt_private-encrypt}
use firestr.Security.Secret.{PublicKey}
use firestr.Security.Channels.{
  plain, Channel, Channels, with_channel, encrypt_for, decrypt_from, agree_channel,
}
use firestr.Security.Paired.{IsPaired, chosen, decrypt_from-encrypt_for}
use firestr.Security.Handshake.{IsKeyOf, IsLoaded, paired, agree_channel-IsPaired}

abbrev pub key : ℕ → PublicKey toy
key n = record { ks = n ∷ []; k = some n }

abbrev pub channel : ℕ → PublicKey toy → Channel toy
channel n k = record {
  shared_secret = record { pkey = n; skey = none; pub_value = n ∷ []; other_pub_value = [] };
  key = k;
}

-- Peers with the private keys 5 and 6; each has a channel to the other.
abbrev pub ann : Channels toy
ann = record { s = (codes "zoe", channel 7 (key 6)) ∷ []; pk = 5 }

abbrev pub zoe : Channels toy
zoe = record { s = (codes "ann", channel 8 (key 5)) ∷ []; pk = 6 }

key-IsKeyOf : (n : ℕ) → IsKeyOf toy n (key n)
key-IsKeyOf n = record { held = refl; loads = refl; nonempty = refl }

key-IsLoaded : (n : ℕ) → IsLoaded toy (key n)
key-IsLoaded n = record { loaded = λ p e. e }

abbrev pub ready_channel : ℕ → PublicKey toy → Channel toy
ready_channel n k = record {
  shared_secret = record {
    pkey = n;
    skey = some (9 ∷ []);
    pub_value = n ∷ [];
    other_pub_value = 1 ∷ [];
  };
  key = k;
}

abbrev pub ann' : Channels toy
ann' = with_channel toy (codes "zoe") (ready_channel 7 (key 6)) ann

abbrev pub zoe' : Channels toy
zoe' = with_channel toy (codes "ann") (ready_channel 8 (key 5)) zoe

pub ann'-IsPaired : IsPaired decimal toy ann' zoe' (codes "zoe") (codes "ann")
ann'-IsPaired =
    paired toy decimal ann zoe (codes "zoe") (codes "ann") (ready_channel 7 (key 6))
      (ready_channel 8 (key 5)) (9 ∷ []) (key-IsKeyOf 6) refl refl

decrypt_private-encrypt_example :
    (c : Bytes) × (encrypt_public decimal toy 20 5 0 (codes "hello") ≡ ok c)
    × (decrypt_private decimal toy (3 * length c + 1 + 0) 5 c ≡ ok (codes "hello"))
decrypt_private-encrypt_example =
    decrypt_private-encrypt decimal toy decimal-IsFaithful toy-IsRsa 5 0 20 0 (codes "hello")
      (omega arith)

decrypt_from-encrypt_for_example :
    (c : Bytes) × (encrypt_for toy decimal 20 0 ann' (codes "zoe") (codes "hello") ≡ ok c)
    × (decrypt_from toy decimal (3 * length c + 1 + 0) zoe' (codes "ann") c plain
        ≡ ok (codes "hello", chosen decimal toy (find (codes "zoe") ann'.s)))
decrypt_from-encrypt_for_example =
    decrypt_from-encrypt_for decimal toy decimal-IsFaithful toy-IsRsa toy-IsAes ann' zoe'
      (codes "zoe") (codes "ann") 0 20 0 b'h' (codes "ello") plain ann'-IsPaired (omega arith)

agree_channel-IsPaired_example :
    (a : Channels toy) × (z : Channels toy) × (agree_channel toy 0 ann
        (codes "zoe")
        (key 6)
        (8 ∷ [])
      ≡ ok a)
    × (agree_channel toy 1 zoe (codes "ann") (key 5) (7 ∷ []) ≡ ok z)
    × IsPaired decimal toy a z (codes "zoe") (codes "ann")
    × IsPaired decimal toy z a (codes "ann") (codes "zoe")
unfolding find
agree_channel-IsPaired_example =
    agree_channel-IsPaired toy decimal 0 1 ann zoe (codes "zoe") (codes "ann") (channel 7 (key 6))
      (channel 8 (key 5)) (key 5) (key 6) toy-IsAes refl refl (key-IsLoaded 6) (key-IsLoaded 5)
      (key-IsKeyOf 5) (key-IsKeyOf 6)
