-- ===== src/Post/Exchange.antt =====
-- message/master_post.cpp: what `out_thread` of one peer hands to the connections, `in_thread` of
-- the other reads and sends on.
use firestr.Prelude.{
  ℕ, ◌+◌, ◌*◌, ◌<◌, ◌≡◌, ◌≢◌, refl, ap, ap₂, ◌∙◌, subst, true, false, List, [], ◌∷◌, ◌++◌,
  append-nil, Bytes, Option, none, some, ok, arith, length, length-append, bytes_key,
}
use firestr.Prelude.Maps.{find}
use firestr.Mencode.Lexical.{Lexical, IsFaithful}
use firestr.Mencode.Encode.{encode_b}
use firestr.Mencode.Stream.{State}
use firestr.Mencode.Reads.{on}
use firestr.Envelope.{
  Message, conversation, remote, plaintext, symmetric, asymmetric, EncryptionType, stream_of,
  encode_message, encode_metadata, decode_message,
}
use firestr.Envelope.Carried.{IsMessage, carried, decode_message-encode, length-encode_b_lt}
use firestr.Security.Botan.{Botan, IsRsa, IsAes}
use firestr.Security.Channels.{Cipher, plain, Channels, encrypt_for, decrypt_from}
use firestr.Security.Channels
use firestr.Security.Paired.{IsPaired, chosen, decrypt_from-encrypt_for}
use firestr.Post.Office.{is_empty}
use firestr.Post.Master.{
  Endpoint, Wiring, make_address_str, uncompress_bytes, to_message_encryption_type, origin,
  encrypt_message, outside_address, out_message, in_message,
}

-- snappy reads back what it wrote, which is never empty.
pub record IsWiring (w : Wiring) : Type 0 where
  pub round : (x : Bytes) → w.uncompress (w.compress x) ≡ some x
  pub nonempty : (x : Bytes) → w.compress x ≢ []

-- The message as `in_thread` passes it on.
abbrev pub arrived : Endpoint → EncryptionType → List Bytes → Message → Message
arrived ep e to m = record m {
  meta = record m.meta {
    to = to;
    extra = origin ep m.meta.extra;
    source = remote;
    encryption = e;
    robust = true;
  };
}

abbrev pub type_of : Cipher → EncryptionType
type_of plain = plaintext
type_of Channels.symmetric = symmetric
type_of Channels.asymmetric = asymmetric
type_of Channels.unknown = plaintext

pub is_empty-false : (x : Bytes) → x ≢ [] → is_empty x ≡ false
is_empty-false [] n = absurd (n refl)
is_empty-false (c ∷ x) n = refl

module _ (l : Lexical) (b : Botan) (w : Wiring) where
  chosen-type_of :
      (o : Option (Channels.Channel b))
      → to_message_encryption_type (chosen l b o) ≡ ok (type_of (chosen l b o))
  unfolding to_message_encryption_type
  chosen-type_of none = refl
  chosen-type_of (some c) = by c.shared_secret.skey
    where
      by :
          (k : Option Bytes)
          → to_message_encryption_type
              (elim k [ none ↦ Channels.asymmetric | some _ ↦ Channels.symmetric ])
            ≡ ok (type_of (elim k [ none ↦ Channels.asymmetric | some _ ↦ Channels.symmetric ]))
      by none = refl
      by (some _) = refl

  encode_message_nonempty : (faithful : IsFaithful l) (m : Message) → encode_message l m ≢ []
  unfolding encode_message
  encode_message_nonempty faithful m e =
      let rest = encode_b l (encode_metadata l m.meta) ++ encode_b l m.content in
      absurd (
        omega (
          arith,
          ap length e,
          length-append (encode_b l m.meta.type) rest,
          length-encode_b_lt l faithful m.meta.type,
        ))

  uncompress_there : (x : Bytes) → IsWiring w → uncompress_bytes w (w.compress x) ≡ x
  unfolding uncompress_bytes
  uncompress_there x wiring = rw (wiring.round x, uncompress_bytes) refl

  -- The steps of `in_thread` after the decryption.
  in_message_read :
      (f : ℕ) (cs : Channels b) (ep : Endpoint) (bs : Bytes) (et kind : Cipher) (e : EncryptionType)
      (m : Message) (x : Bytes) (to : List Bytes) (text : Bytes) (st : State)
      → IsWiring w
      → decrypt_from b l f cs (make_address_str w ep) bs et ≡ ok (w.compress text, kind)
      → text ≢ []
      → decode_message l f (stream_of text) ≡ ok (carried m, st)
      → m.meta.to ≡ x ∷ to
      → to_message_encryption_type kind ≡ ok e
      → in_message l b w f cs ep bs et ≡ ok (some (arrived ep e to m))
  unfolding in_message
  in_message_read f cs ep bs et kind e m x to text st wiring d n r t k =
      rw
        (
          d,
          is_empty-false (w.compress text) (wiring.nonempty text),
          uncompress_there text wiring,
          is_empty-false text n,
          r,
        )
        (rw (t, k) refl)

  module _ (faithful : IsFaithful l) (rsa : IsRsa b) (aes : IsAes b) (wiring : IsWiring w) where
    out_message_there :
        (n f : ℕ) (a : Channels b) (m : Message) (x y c : Bytes) (from to : List Bytes)
        → m.meta.from ≡ y ∷ from
        → m.meta.to ≡ x ∷ to
        → m.meta.encryption ≡ conversation
        → encrypt_for b l f n a x (w.compress (encode_message l m)) ≡ ok c
        → out_message l b w f n a m ≡ ok (x, c, m.meta.robust)
    unfolding out_message
    out_message_there n f a m x y c from to fr t en e =
        let address : outside_address m.meta.from m.meta.to ≡ ok x =
          unfold outside_address in ap₂ outside_address fr t in
        let text = w.compress (encode_message l m) in
        let bytes : encrypt_message l b w m.meta.encryption f n a x text ≡ ok c =
          unfold encrypt_message in (ap (λ k. encrypt_message l b w k f n a x text) en ∙ e) in
        rw (address, bytes) refl

    encrypted :
        (a z : Channels b) (j i bs : Bytes) (n f g : ℕ) (et : Cipher)
        → IsPaired l b a z j i
        → bs ≢ []
        → length bs < f
        → (c : Bytes) × (encrypt_for b l f n a j bs ≡ ok c)
          × (decrypt_from b l (3 * length c + 1 + g) z i c et ≡ ok (bs, chosen l b (find j a.s)))
    encrypted a z j i [] n f g et p ne h = absurd (ne refl)
    encrypted a z j i (c ∷ cs) n f g et p ne h =
        decrypt_from-encrypt_for l b faithful rsa aes a z j i n f g c cs et p h

    -- A message that one peer writes, compresses and encrypts, another's `in_thread` reads.
    pub in_message-encrypt_for :
        (a z : Channels b) (j : Bytes) (ep : Endpoint) (m : Message) (x : Bytes) (to : List Bytes)
        (n f g : ℕ) (et : Cipher)
        → IsPaired l b a z j (make_address_str w ep)
        → IsMessage l faithful m
        → m.meta.to ≡ x ∷ to
        → length (w.compress (encode_message l m)) < f
        → let e = type_of (chosen l b (find j a.s)) in
          (c : Bytes) × (encrypt_for b l f n a j (w.compress (encode_message l m)) ≡ ok c)
          × (in_message l b w (3 * length c + 1 + (3 * length (encode_message l m) + g)) z ep c et
              ≡ ok (some (arrived ep e to m)))
    in_message-encrypt_for a z j ep m x to n f g et paired ok_m t h =
        let text = encode_message l m in
        let kind = chosen l b (find j a.s) in
        let (c, e, d) =
          encrypted a z j (make_address_str w ep) (w.compress text) n f (3 * length text + g) et
            paired (wiring.nonempty text) h in
        let fuel = 3 * length c + 1 + (3 * length text + g) in
        let (s', b', r) = decode_message-encode l faithful m [] [] [] fuel ok_m (omega arith) in
        let read : decode_message l fuel (stream_of text) ≡ ok (carried m, on [] s' b') =
          subst (λ t. decode_message l fuel (stream_of t) ≡ ok (carried m, on [] s' b'))
            (append-nil text) r in
        (
          c,
          e,
          in_message_read fuel z ep c et kind (type_of kind) m x to text (on [] s' b') wiring d
              (encode_message_nonempty faithful m) read t (chosen-type_of (find j a.s)),
        )

    -- What `out_thread` hands over, `in_thread` reads.
    pub in_message-out_message :
        (a z : Channels b) (x : Bytes) (ep : Endpoint) (m : Message) (y : Bytes)
        (from to : List Bytes) (n f g : ℕ) (et : Cipher)
        → IsPaired l b a z x (make_address_str w ep)
        → IsMessage l faithful m
        → m.meta.from ≡ y ∷ from
        → m.meta.to ≡ x ∷ to
        → m.meta.encryption ≡ conversation
        → length (w.compress (encode_message l m)) < f
        → let e = type_of (chosen l b (find x a.s)) in
          (c : Bytes) × (out_message l b w f n a m ≡ ok (x, c, m.meta.robust))
          × (in_message l b w (3 * length c + 1 + (3 * length (encode_message l m) + g)) z ep c et
              ≡ ok (some (arrived ep e to m)))
    in_message-out_message a z x ep m y from to n f g et paired ok_m fr t en h =
        let (c, e, into) = in_message-encrypt_for a z x ep m x to n f g et paired ok_m t h in
        (c, out_message_there n f a m x y c from to fr t en e, into)
