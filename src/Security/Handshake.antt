-- ===== src/Security/Handshake.antt =====
-- security/security_library.cpp: `create_channel` with the public value of the other peer.
use firestr.Prelude.{
  ℕ, ◌≡◌, refl, sym, ap, ◌∙◌, true, false, Bytes, bytes_eq_iff, bytes_key, some, ok, inl, inr,
  Bool-cases, Option-cases, of_some, subst,
}
use firestr.Prelude.Maps.{find, find-assign_same}
use firestr.Mencode.Lexical.{Lexical}
use firestr.Post.Office.{is_empty}
use firestr.Security.Botan.{Botan, IsAes}
use firestr.Security.Secret.{PublicKey, valid, copy_key, create_symmetric_key}
use firestr.Security.Channels.{Channel, Channels, same_key, with_channel, channel_at, agree_channel}
use firestr.Security.Paired.{IsPaired}

module _ (b : Botan) where
  -- The key p in a text that loads as it.
  pub record IsKeyOf (p : b.Public) (key : PublicKey b) : Type 0 where
    pub held : key.k ≡ some p
    pub loads : b.load_key key.ks ≡ some p
    pub nonempty : is_empty key.ks ≡ false

  -- A key that was loaded from its text, if it is valid.
  pub record IsLoaded (key : PublicKey b) : Type 0 where
    pub loaded : (p : b.Public) → key.k ≡ some p → b.load_key key.ks ≡ some p

  copy_key_there :
      (p : b.Public) (key : PublicKey b)
      → IsKeyOf p key
      → copy_key b key ≡ ok (record { ks = key.ks; k = some p })
  unfolding copy_key
  copy_key_there p key h = rw (h.loads, copy_key) (rw h.nonempty refl)

  same_key_there :
      (p : b.Public) (k key : PublicKey b)
      → IsKeyOf p key
      → IsLoaded k
      → same_key b k key ≡ true
      → IsKeyOf p k
  unfolding valid
  same_key_there p k key h w e = elim (Option-cases k.k) [
    | inl f ↦ cc (rw f at e)
    | inr (q, f) ↦
        let text : k.ks ≡ key.ks = (bytes_eq_iff k.ks key.ks).0 (rw f at e) in
        let there : b.load_key k.ks ≡ some p = ap b.load_key text ∙ h.loads in
        let same : q ≡ p = of_some (λ r. q ≡ r) (sym (w.loaded q f) ∙ there) refl in
        record {
          held = f ∙ ap (λ r. some r) same;
          loads = there;
          nonempty = ap is_empty text ∙ h.nonempty;
        }
  ]

  channel_at_there :
      (n : ℕ) (cs : Channels b) (i : Bytes) (c : Channel b)
      → find i cs.s ≡ some c
      → channel_at b n cs i ≡ ok c
  unfolding channel_at
  channel_at_there n cs i c e = rw (e, channel_at) refl

  agree_there :
      (n : ℕ) (cs : Channels b) (i : Bytes) (c : Channel b) (key : PublicKey b) (pv : Bytes)
      (p : b.Public)
      → find i cs.s ≡ some c
      → IsKeyOf p key
      → IsLoaded c.key
      → (k : PublicKey b) × (agree_channel b n cs i key pv
          ≡ ok (
              with_channel b i
                (record { shared_secret = create_symmetric_key b pv c.shared_secret; key = k })
                cs))
        × IsKeyOf p k
  unfolding agree_channel valid
  agree_there n cs i c key pv p e h w = elim (Bool-cases (same_key b c.key key)) [
    | inl s ↦
        (c.key, rw (channel_at_there n cs i c e, s, h.held) refl, same_key_there p c.key key h w s)
    | inr s ↦
        let k : PublicKey b = record { ks = key.ks; k = some p } in
        (
          k,
          rw (channel_at_there n cs i c e, s, copy_key_there p key h, h.held) refl,
          record { held = refl; loads = h.loads; nonempty = h.nonempty },
        )
  ]

  -- The channel of a peer after its call, and what it needs of the other side.
  pub paired :
      (l : Lexical) (a z : Channels b) (j i : Bytes) (c d : Channel b) (secret : Bytes)
      → IsKeyOf (b.public_of z.pk) c.key
      → c.shared_secret.skey ≡ some secret
      → d.shared_secret.skey ≡ some secret
      → IsPaired l b (with_channel b j c a) (with_channel b i d z) j i
  paired l a z j i c d secret key mine theirs =
      let here = find-assign_same j c a.s in
      let there = find-assign_same i d z.s in
      record {
        keyed = λ c' e.
            let same : c ≡ c' = of_some (λ r. c ≡ r) (sym here ∙ e) refl in
            subst (λ r. (r.key.k ≡ some (b.public_of z.pk)) × (is_empty r.key.ks ≡ false)) same
              (key.held, key.nonempty);
        shared = λ c' k e f.
            let same : c ≡ c' = of_some (λ r. c ≡ r) (sym here ∙ e) refl in
            let kept : c.shared_secret.skey ≡ some k =
              subst (λ r. r.shared_secret.skey ≡ some k) (sym same) f in
            (d, there, theirs ∙ sym mine ∙ kept);
      }

  -- With AES and key agreement as documented, two peers with channels to each other whose keys
  -- were loaded from their texts, where each calls create_channel with the other's public key and
  -- the public value of the other's secret, have channels that are paired both ways, and no
  -- contract fails.
  pub agree_channel-IsPaired :
      (l : Lexical) (n n' : ℕ) (a z : Channels b) (j i : Bytes) (ca cz : Channel b)
      (key_a key_z : PublicKey b)
      → IsAes b
      → find j a.s ≡ some ca
      → find i z.s ≡ some cz
      → IsLoaded ca.key
      → IsLoaded cz.key
      → IsKeyOf (b.public_of a.pk) key_a
      → IsKeyOf (b.public_of z.pk) key_z
      → (a' : Channels b) × (z' : Channels b) × (agree_channel b n a j key_z
            (b.public_value cz.shared_secret.pkey)
          ≡ ok a')
        × (agree_channel b n' z i key_a (b.public_value ca.shared_secret.pkey) ≡ ok z')
        × IsPaired l b a' z' j i
        × IsPaired l b z' a' i j
  unfolding create_symmetric_key
  agree_channel-IsPaired l n n' a z j i ca cz key_a key_z aes ea ez wa wz ka kz =
      let sa = ca.shared_secret in
      let sz = cz.shared_secret in
      let pva = b.public_value sa.pkey in
      let pvz = b.public_value sz.pkey in
      let secret = b.derive_key sa.pkey pvz in
      let (k, e, h) = agree_there n a j ca key_z pvz (b.public_of z.pk) ea kz wa in
      let (k', e', h') = agree_there n' z i cz key_a pva (b.public_of a.pk) ez ka wz in
      let c : Channel b = record { shared_secret = create_symmetric_key b pvz sa; key = k } in
      let d : Channel b = record { shared_secret = create_symmetric_key b pva sz; key = k' } in
      let both : some (b.derive_key sz.pkey pva) ≡ some secret =
        ap (λ r. some r) (aes.agreed sz.pkey sa.pkey) in
      (
        with_channel b j c a,
        with_channel b i d z,
        e,
        e',
        paired l a z j i c d secret h refl both,
        paired l z a i j d c secret h' both refl,
      )
