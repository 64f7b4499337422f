-- ===== src/Locator/Introduce.antt =====
-- firelocator/firelocator.cpp: `find_user` after a number of registrations, and the rounds of
-- `in_thread` (message/master_post.cpp) of the two users that get an answer.
use firestr.Prelude.{
  ℕ, ◌+◌, ◌*◌, ◌<◌, ◌≡◌, ◌≢◌, refl, ◌∙◌, Bool, false, List, [], ◌∷◌, Bytes, bytes_key, some, ok,
  length,
}
use firestr.Prelude.Maps.{find}
use firestr.Mencode.Lexical.{Lexical, IsFaithful}
use firestr.Envelope.{Message, encode_message}
use firestr.Envelope.Carried.{IsMessage}
use firestr.Security.Botan.{Botan, IsRsa, IsAes}
use firestr.Security.Channels.{Cipher, Channels, encrypt_for}
use firestr.Security.Paired.{IsPaired, chosen}
use firestr.Post.Office.{is_empty}
use firestr.Post.Master.{Endpoint, Wiring, make_address_str, in_message}
use firestr.Post.Exchange.{IsWiring, arrived, type_of, in_message-encrypt_for}
use firestr.Messages.{GreetFindRequest, find_response_message}
use firestr.Locator.Users.{UserInfo, Users, find_tcp}
use firestr.Locator.Server.{
  Locator, find_user, send_both, send_response, send_text, response_to, response_about,
  unless_disconnected,
}
use firestr.Locator.Directory.{Registration, mine, profile, after, registered_lem}

find_tcp_there :
    (k : Bytes) (users : Users) (u : UserInfo)
    → find k users ≡ some u
    → is_empty u.tcp_ep.protocol ≡ false
    → find_tcp k users ≡ some u
unfolding find_tcp
find_tcp_there k users u e n = rw (e, find_tcp) (rw n refl)

module _ (b : Botan) (l : Lexical) (w : Wiring) where
  -- What is sent to one user about another.
  abbrev pub answer : UserInfo → UserInfo → Message
  answer to about = response_to (make_address_str w to.tcp_ep) (response_about about) to

  -- A user that is there, with a TCP endpoint that is connected.
  pub record IsReached (gone : Bytes → Bool) (u : UserInfo) : Type 0 where
    pub tcp : is_empty u.tcp_ep.protocol ≡ false
    pub connected : gone (make_address_str w u.tcp_ep) ≡ false

  send_response_there :
      (f n : ℕ) (u i : UserInfo) (s : Locator b) (c : Bytes)
      → is_empty u.tcp_ep.protocol ≡ false
      → encrypt_for b l f n s.sec
          (make_address_str w u.tcp_ep)
          (w.compress (encode_message l (answer u i)))
        ≡ ok c
      → send_response b l w f n (response_about i) u s
        ≡ (ok tt, record s { sent = (make_address_str w u.tcp_ep, c) ∷ s.sent })
  unfolding send_response send_text
  send_response_there f n u i s c t e = rw (t, e) refl

  find_user_there :
      (gone : Bytes → Bool) (f n n' : ℕ) (r : GreetFindRequest) (s : Locator b) (u i : UserInfo)
      (c c' : Bytes)
      → find r.from_id s.users ≡ some u
      → find r.search_id s.users ≡ some i
      → IsReached gone u
      → IsReached gone i
      → encrypt_for b l f n s.sec
          (make_address_str w u.tcp_ep)
          (w.compress (encode_message l (answer u i)))
        ≡ ok c
      → encrypt_for b l f n' s.sec
          (make_address_str w i.tcp_ep)
          (w.compress (encode_message l (answer i u)))
        ≡ ok c'
      → find_user b l w gone f n n' r s ≡ (
        ok tt,
        record s {
          sent = (make_address_str w i.tcp_ep, c') ∷ (make_address_str w u.tcp_ep, c) ∷ s.sent;
        },
      )
  unfolding find_user unless_disconnected send_both
  find_user_there gone f n n' r s u i c c' fu fi ru ri e e' =
      let there = find_tcp_there r.from_id s.users u fu ru.tcp in
      let found = find_tcp_there r.search_id s.users i fi ri.tcp in
      let first = send_response_there f n u i s c ru.tcp e in
      let second =
        send_response_there f n' i u (record s { sent = (make_address_str w u.tcp_ep, c) ∷ s.sent })
          c' ri.tcp e' in
      rw (there, found, find_user) (rw (ru.connected, ri.connected, first) second)

  module _ (faithful : IsFaithful l) (rsa : IsRsa b) (aes : IsAes b) (wiring : IsWiring w) where
    -- What the client of a user needs to read an answer: channels that are paired with the
    -- server's, which it knows by the endpoint.
    pub record IsClient (cs z : Channels b) (ep : Endpoint) (f : ℕ) (u i : UserInfo) : Type 0 where
      pub paired : IsPaired l b cs z (make_address_str w u.tcp_ep) (make_address_str w ep)
      pub sizes : IsMessage l faithful (answer u i)
      pub fuel : length (w.compress (encode_message l (answer u i))) < f

    abbrev pub fuel_for : Bytes → UserInfo → UserInfo → ℕ → ℕ
    fuel_for c u i g = 3 * length c + 1 + (3 * length (encode_message l (answer u i)) + g)

    -- What arrives at the service of a user that asked or was looked for.
    abbrev pub told : Channels b → Endpoint → UserInfo → UserInfo → Message
    told cs ep u i =
        arrived ep (type_of (chosen l b (find (make_address_str w u.tcp_ep) cs.s)))
          (u.response_service_address ∷ []) (find_response_message (response_about i))

    answer_read :
        (cs z : Channels b) (ep : Endpoint) (f n g : ℕ) (et : Cipher) (u i : UserInfo)
        → IsClient cs z ep f u i
        → (c : Bytes) × (encrypt_for b l f n cs
              (make_address_str w u.tcp_ep)
              (w.compress (encode_message l (answer u i)))
            ≡ ok c)
          × (in_message l b w (fuel_for c u i g) z ep c et ≡ ok (some (told cs ep u i)))
    unfolding response_to find_response_message
    answer_read cs z ep f n g et u i client =
        in_message-encrypt_for l b w faithful rsa aes wiring cs z (make_address_str w u.tcp_ep) ep
          (answer u i) (make_address_str w u.tcp_ep) (u.response_service_address ∷ []) n f g et
          client.paired client.sizes refl client.fuel

    -- With faithful parameters, after any registrations at a locator that began with no users:
    -- where both ids of a find request have registered, have a TCP endpoint that is connected, and
    -- have clients whose channels are paired with the locator's, find_user sends two messages: to
    -- the TCP endpoint of the one that asks, and to that of the one looked for. A round of
    -- in_thread of the first client gives a message for its response service that has the other's
    -- id, its last local endpoint and its outside endpoint, and of the second client the same of
    -- the one that asks.
    pub find_user_introduces :
        (h : List Registration) (s : Locator b) (gone : Bytes → Bool) (r : GreetFindRequest)
        (x y : Registration) (hx hy : List Registration) (a z : Channels b) (ep ep' : Endpoint)
        (f n n' g g' : ℕ) (et et' : Cipher)
        → s.users ≡ []
        → r.from_id ≢ []
        → r.search_id ≢ []
        → mine r.from_id h ≡ x ∷ hx
        → mine r.search_id h ≡ y ∷ hy
        → IsReached gone (profile r.from_id x hx)
        → IsReached gone (profile r.search_id y hy)
        → IsClient (after b l w h s).sec a ep f (profile r.from_id x hx) (profile r.search_id y hy)
        → IsClient (after b l w h s).sec z ep' f (profile r.search_id y hy) (profile r.from_id x hx)
        → let u = profile r.from_id x hx in
          let i = profile r.search_id y hy in
          let s' = after b l w h s in
          (c c' : Bytes) × (find_user b l w gone f n n' r s' ≡ (
            ok tt,
            record s' {
              sent = (make_address_str w i.tcp_ep, c') ∷ (make_address_str w u.tcp_ep, c) ∷ s'.sent;
            },
          ))
          × (in_message l b w (fuel_for c u i g) a ep c et ≡ ok (some (told s'.sec ep u i)))
          × (in_message l b w (fuel_for c' i u g') z ep' c' et' ≡ ok (some (told s'.sec ep' i u)))
    find_user_introduces h s gone r x y hx hy a z ep ep' f n n' g g' et et' none_yet k j mx my ru ri
          cu ci =
        let u = profile r.from_id x hx in
        let i = profile r.search_id y hy in
        let s' = after b l w h s in
        let (c, e, read) = answer_read s'.sec a ep f n g et u i cu in
        let (c', e', read') = answer_read s'.sec z ep' f n' g' et' i u ci in
        let fu : find r.from_id s'.users ≡ some u =
          registered_lem b l w h s r.from_id none_yet k ∙ rw mx refl in
        let fi : find r.search_id s'.users ≡ some i =
          registered_lem b l w h s r.search_id none_yet j ∙ rw my refl in
        (c, c', find_user_there gone f n n' r s' u i c c' fu fi ru ri e e', read, read')
