-- ===== src/Locator/Server.antt =====
-- firelocator/firelocator.cpp: the server. A handler gives its outcome and the server after it, since an exception is caught by
-- the loop of `main` and what was changed before it stays. `con` is the calls of its `send`, the
-- newest first, and what its `is_disconnected` answers.
use firestr.Prelude.{
  ℕ, Bool, true, false, not, List, [], ◌∷◌, Bytes, bytes_key, none, some, Outcome, ok, thrown,
  aborted, out_of_fuel, ◌>>=◌, ◌>>◌, require, if◌then◌else◌, codes,
}
use firestr.Mencode.Lexical.{Lexical}
use firestr.Envelope.{Message, stream_of, encode_message, decode_message}
use firestr.Security.Botan.{Botan}
use firestr.Security.Secret.{PublicKey}
use firestr.Security.Channels.{
  Cipher, plain, symmetric, asymmetric, unknown, Channels, encrypt_for, decrypt_from,
  create_channel, remove_channel,
}
use firestr.Post.Office.{is_empty}
use firestr.Post.Send.{address_as}
use firestr.Post.Master.{Endpoint, Wiring, make_address_str, uncompress_bytes}
use firestr.Messages.{
  GreetKeyRequest, GreetRegister, GreetFindRequest, GreetFindResponse, is_type, read_register,
  read_find_request, read_key_request, find_response_message, key_response_message,
}
use firestr.Locator.Users.{UserInfo, Users, put_user, find_tcp}

unfoldable pub response_to : Bytes → GreetFindResponse → UserInfo → Message
response_to address r u =
    let m = find_response_message r in
    address_as (address ∷ u.response_service_address ∷ []) m.meta.from m

abbrev pub response_about : UserInfo → GreetFindResponse
response_about i = record { found = true; id = i.id; local_ep = i.local_ep; ext = i.ext }

abbrev pub is_asymmetric_cipher : Cipher → Bool
is_asymmetric_cipher plain = false
is_asymmetric_cipher symmetric = false
is_asymmetric_cipher asymmetric = true
is_asymmetric_cipher unknown = false

module _ (b : Botan) where
  pub record Locator : Type 0 where
    pub users : Users
    pub sec : Channels b
    pub sent : List (Bytes × Bytes)

  abbrev pub Done : Type 0
  Done = Outcome (Unit {0}) × Locator

  -- `public_key(const std::string&)`
  unfoldable pub public_key : Bytes → Outcome (PublicKey b)
  public_key ks =
      require (not (is_empty ks))
      >> (elim (b.load_key ks) [ none ↦ thrown | some k ↦ ok (record { ks = ks; k = some k }) ])

  abbrev pub with_sec : Outcome (Channels b) → Locator → Done
  with_sec (ok cs) s = (ok tt, record s { sec = cs })
  with_sec thrown s = (thrown, s)
  with_sec aborted s = (aborted, s)
  with_sec out_of_fuel s = (out_of_fuel, s)

  -- `con.send(address, data)`, where the data is there.
  abbrev pub with_sent : Bytes → Outcome Bytes → Locator → Done
  with_sent a (ok bs) s = (ok tt, record s { sent = (a, bs) ∷ s.sent })
  with_sent a thrown s = (thrown, s)
  with_sent a aborted s = (aborted, s)
  with_sent a out_of_fuel s = (out_of_fuel, s)

  abbrev pub then_do : Done → (Locator → Done) → Done
  then_do (ok _, s) k = k s
  then_do (thrown, s) k = (thrown, s)
  then_do (aborted, s) k = (aborted, s)
  then_do (out_of_fuel, s) k = (out_of_fuel, s)

  module _ (l : Lexical) (w : Wiring) where
    -- n and n' are the draws of the two secrets that `create_channel` may make.
    unfoldable pub register_user : ℕ → ℕ → Endpoint → GreetRegister → Locator → Done
    unfolding put_user public_key
    register_user n n' ep r s =
        if is_empty r.id
        then (ok tt, s)
        else with_sec (public_key r.pub_key >>= create_channel b n n' s.sec (make_address_str w ep))
            (record s { users = put_user ep r s.users })

    -- Text, compressed and encrypted, to an address.
    unfoldable pub send_text : ℕ → ℕ → Bytes → Message → Locator → Done
    send_text f n address m s =
        with_sent address (encrypt_for b l f n s.sec address (w.compress (encode_message l m))) s

    unfoldable pub send_response : ℕ → ℕ → GreetFindResponse → UserInfo → Locator → Done
    unfolding send_text response_to
    send_response f n r u s =
        if is_empty u.tcp_ep.protocol
        then (aborted, s)
        else let address = make_address_str w u.tcp_ep in
          send_text f n address (response_to address r u) s

    unfoldable pub send_both : ℕ → ℕ → ℕ → UserInfo → UserInfo → Locator → Done
    unfolding send_response
    send_both f n n' from search s =
        then_do (send_response f n (response_about search) from s)
          (send_response f n' (response_about from) search)

    -- `if(is_disconnected_and_cleanup(addr, con, sec)) return;`
    unfoldable pub unless_disconnected : (Bytes → Bool) → Bytes → (Locator → Done) → Locator → Done
    unless_disconnected gone address go s =
        if gone address then (ok tt, record s { sec = remove_channel b s.sec address }) else go s

    unfoldable pub find_user : (Bytes → Bool) → ℕ → ℕ → ℕ → GreetFindRequest → Locator → Done
    unfolding find_tcp send_both unless_disconnected
    find_user gone f n n' r s = elim (find_tcp r.from_id s.users) [
      | none ↦ (ok tt, s)
      | some from ↦ elim (find_tcp r.search_id s.users) [
        | none ↦ (ok tt, s)
        | some search ↦
            unless_disconnected gone (make_address_str w from.tcp_ep)
              (unless_disconnected gone (make_address_str w search.tcp_ep)
                (send_both f n n' from search))
              s
      ]
    ]

    unfoldable pub send_pub_key : Bytes → ℕ → ℕ → Endpoint → GreetKeyRequest → Locator → Done
    unfolding send_text
    send_pub_key key f n ep r s =
        let address = make_address_str w ep in
        let m = key_response_message (record { host = []; port = 0; pub_key = key }) in
        send_text f n address (address_as (address ∷ r.response_service_address ∷ []) m.meta.from m)
          s

    abbrev pub with_read : {A : Type 0} → Outcome A → (A → Locator → Done) → Locator → Done
    with_read (ok a) k s = k a s
    with_read thrown k s = (thrown, s)
    with_read aborted k s = (aborted, s)
    with_read out_of_fuel k s = (out_of_fuel, s)

    -- The branches of `main` on the type of the message.
    unfoldable pub handle :
        Bytes → (Bytes → Bool) → ℕ → ℕ → ℕ → Endpoint → Cipher → Message → Locator → Done
    unfolding register_user find_user send_pub_key
    handle key gone f n n' ep et m s =
        if is_type (codes "greet_register") m
        then (if is_asymmetric_cipher et
            then with_read (read_register m) (register_user n n' ep) s
            else (ok tt, s))
        else if is_type (codes "greet_request") m
        then (if is_asymmetric_cipher et
            then with_read (read_find_request m) (find_user gone f n n') s
            else (ok tt, s))
        else if is_type (codes "greet_key_request") m
        then with_read (read_key_request m) (send_pub_key key f n ep) s
        else (ok tt, s)

    -- A turn of the loop of `main` with what `con.receive` gave.
    unfoldable pub turn :
        Bytes → (Bytes → Bool) → ℕ → ℕ → ℕ → Endpoint → Bytes → Cipher → Locator → Done
    unfolding handle
    turn key gone f n n' ep bs et s =
        with_read
          (do
            clear ← decrypt_from b l f s.sec (make_address_str w ep) bs et
            read ← decode_message l f (stream_of (uncompress_bytes w clear.0))
            ok (read.0, clear.1))
          (λ (m, e). handle key gone f n n' ep e m) s
