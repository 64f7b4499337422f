-- ===== src/Locator/Tests.antt =====
-- Two users that register, one of them over TCP and UDP, and are introduced.
use firestr.Prelude.{
  ℕ, ◌+◌, ◌<◌, ◌≡◌, refl, false, [], ◌∷◌, List, Bytes, Option, none, some, ok, arith, codes, sym,
  ap, ◌∙◌, of_some, length, bytes_key, nat_eq,
}
use firestr.Prelude.Maps.{find}
use firestr.Prelude.Maps
use firestr.Mencode.Decimal.{decimal, decimal-IsFaithful}
use firestr.Security.Toy.{toy, toy-IsRsa, toy-IsAes}
use firestr.Security.Channels.{plain, Channels}
use firestr.Post.Master.{Endpoint, Wiring, make_address_str, in_message}
use firestr.Post.Exchange.{IsWiring}
use firestr.Messages.{GreetRegister, GreetFindRequest}
use firestr.Security.Secret.{new_secret, copy_key, valid}
use firestr.Security.Channels.{Channel, create_channel, channel_at}
use firestr.Security.Paired.{IsPaired}
use firestr.Post.Office.{is_empty}
use firestr.Mencode.Value.{assign, has}
use firestr.Mencode.Encode.{encode, encode_b, encode_size, enc, encode_int}
use firestr.Mencode.Encodable.{IsEncodable}
use firestr.Mencode.Decimal.{print, print_int}
use firestr.Envelope.{items_of, encode_metadata, encode_message}
use firestr.Envelope.Carried.{IsMessage}
use firestr.Messages.{find_response_message}
use firestr.Locator.Users.{UserInfo, put_user}
use firestr.Locator.Server.{Locator, find_user, register_user, public_key, response_to}
use firestr.Locator.Directory.{Registration, profile, after, registered_lem}
use firestr.Locator.Introduce.{IsReached, IsClient, fuel_for, told, answer, find_user_introduces}

abbrev unmark : Bytes → Option Bytes
unmark [] = none
unmark (c ∷ x) = some x

abbrev wires : Wiring
wires = record { compress = λ x. 3 ∷ x; uncompress = unmark; port_str = λ n. n ∷ [] }

wires-IsWiring : IsWiring wires
wires-IsWiring = record { round = λ x. refl; nonempty = λ x e. cc }

abbrev at_port : Bytes → Bytes → ℕ → Endpoint
at_port protocol address port = record { protocol = protocol; address = address; port = port }

abbrev register : Bytes → ℕ → GreetRegister
register id key = record {
  id = id;
  local_ep = record { ip = codes "192.168.0.2"; port = 6060 };
  pub_key = key ∷ [];
  response_service_address = codes "users";
}

abbrev ann_tcp : Registration
ann_tcp = record {
  ep = at_port (codes "tcp") (codes "1.2.3.4") 70;
  r = register (codes "ann") 5;
  n = 0;
  n' = 1;
}

abbrev ann_udp : Registration
ann_udp = record {
  ep = at_port (codes "udp") (codes "1.2.3.4") 71;
  r = register (codes "ann") 5;
  n = 2;
  n' = 3;
}

abbrev bob_tcp : Registration
bob_tcp = record {
  ep = at_port (codes "tcp") (codes "5.6.7.8") 72;
  r = register (codes "bob") 6;
  n = 4;
  n' = 5;
}

abbrev history : List Registration
history = ann_udp ∷ bob_tcp ∷ ann_tcp ∷ []

abbrev start : Locator toy
start = record { users = []; sec = record { s = []; pk = 9 }; sent = [] }

abbrev ann : UserInfo
ann = profile (codes "ann") ann_udp (ann_tcp ∷ [])

abbrev bob : UserInfo
bob = profile (codes "bob") bob_tcp []

registered_lem_example : find (codes "ann") (after toy decimal wires history start).users ≡ some ann
registered_lem_example = registered_lem toy decimal wires history start (codes "ann") refl (λ e. cc)

abbrev server : Endpoint
server = at_port (codes "tcp") (codes "9.9.9.9") 80

abbrev client : ℕ → Channels toy
client k = record { s = []; pk = k }

ann-IsReached : IsReached toy decimal wires (λ a. false) ann
ann-IsReached = record { tcp = refl; connected = refl }

bob-IsReached : IsReached toy decimal wires (λ a. false) bob
bob-IsReached = record { tcp = refl; connected = refl }

unshared :
    (a z : Channels toy) (j i : Bytes)
    → (c : Channel toy) × (find j a.s ≡ some c)
      × (c.key ≡ record { ks = z.pk ∷ []; k = some z.pk })
      × (c.shared_secret.skey ≡ none)
    → IsPaired decimal toy a z j i
unshared a z j i (ch, there, key, none_yet) = record {
  keyed = λ c e.
      of_some (λ c. (c.key.k ≡ some z.pk) × (is_empty c.key.ks ≡ false)) (sym there ∙ e)
        (ap (λ k. k.k) key, ap (λ k. is_empty k.ks) key);
  shared = λ c k e h.
      let no : c.shared_secret.skey ≡ none =
        of_some (λ c. c.shared_secret.skey ≡ none) (sym there ∙ e) none_yet in
      cc;
}

abbrev ann_seeks_bob : GreetFindRequest
ann_seeks_bob = record { from_id = codes "ann"; search_id = codes "bob" }

abbrev fresh_channel : ℕ → ℕ → Channel toy
fresh_channel n k = record {
  shared_secret = record { pkey = n; skey = none; pub_value = n ∷ []; other_pub_value = [] };
  key = record { ks = k ∷ []; k = some k };
}

ann_channel :
    find (make_address_str wires ann_tcp.ep) (after toy decimal wires history start).sec.s
    ≡ some (fresh_channel 1 5)
unfolding find Maps.assign register_user public_key create_channel channel_at new_secret copy_key
    valid make_address_str put_user
ann_channel = refl

bob_channel :
    find (make_address_str wires bob_tcp.ep) (after toy decimal wires history start).sec.s
    ≡ some (fresh_channel 5 6)
unfolding find Maps.assign register_user public_key create_channel channel_at new_secret copy_key
    valid make_address_str put_user
bob_channel = refl

answer_sizes : IsMessage decimal decimal-IsFaithful (answer toy decimal wires ann bob)
unfolding encode_metadata encode encode_b encode_size enc items_of print print_int encode_int
    IsEncodable has response_to find_response_message assign make_address_str
answer_sizes = record {
  type = omega arith;
  inner = omega arith;
  content = omega arith;
  to = (omega arith, (omega arith, tt));
  from = tt;
  extra = (
    omega arith,
    omega arith,
    refl,
    omega arith,
    (
      omega arith,
      omega arith,
      refl,
      omega arith,
      (
        omega arith,
        omega arith,
        refl,
        (omega arith, omega arith),
        (
          omega arith,
          omega arith,
          refl,
          omega arith,
          (
            omega arith,
            omega arith,
            refl,
            (omega arith, omega arith),
            (omega arith, omega arith, refl, (omega arith, omega arith), tt),
          ),
        ),
      ),
    ),
  );
}

answer_text : length (encode_message decimal (answer toy decimal wires ann bob)) + 1 < 400
unfolding encode_message encode_metadata encode encode_b encode_size enc items_of print print_int
    encode_int response_to find_response_message assign make_address_str
answer_text = omega arith

ann-IsClient :
    IsClient toy decimal wires decimal-IsFaithful toy-IsRsa toy-IsAes wires-IsWiring
      (after toy decimal wires history start).sec
      (client 5)
      server
      400
      ann
      bob
ann-IsClient = record {
  paired =
      unshared (after toy decimal wires history start).sec (client 5)
        (make_address_str wires ann_tcp.ep) (make_address_str wires server)
        (fresh_channel 1 5, ann_channel, refl, refl);
  sizes = answer_sizes;
  fuel = omega (arith, answer_text);
}

reply_sizes : IsMessage decimal decimal-IsFaithful (answer toy decimal wires bob ann)
unfolding encode_metadata encode encode_b encode_size enc items_of print print_int encode_int
    IsEncodable has response_to find_response_message assign make_address_str
reply_sizes = record {
  type = omega arith;
  inner = omega arith;
  content = omega arith;
  to = (omega arith, (omega arith, tt));
  from = tt;
  extra = (
    omega arith,
    omega arith,
    refl,
    omega arith,
    (
      omega arith,
      omega arith,
      refl,
      omega arith,
      (
        omega arith,
        omega arith,
        refl,
        (omega arith, omega arith),
        (
          omega arith,
          omega arith,
          refl,
          omega arith,
          (
            omega arith,
            omega arith,
            refl,
            (omega arith, omega arith),
            (omega arith, omega arith, refl, (omega arith, omega arith), tt),
          ),
        ),
      ),
    ),
  );
}

reply_text : length (encode_message decimal (answer toy decimal wires bob ann)) + 1 < 400
unfolding encode_message encode_metadata encode encode_b encode_size enc items_of print print_int
    encode_int response_to find_response_message assign make_address_str
reply_text = omega arith

bob-IsClient :
    IsClient toy decimal wires decimal-IsFaithful toy-IsRsa toy-IsAes wires-IsWiring
      (after toy decimal wires history start).sec
      (client 6)
      server
      400
      bob
      ann
bob-IsClient = record {
  paired =
      unshared (after toy decimal wires history start).sec (client 6)
        (make_address_str wires bob_tcp.ep) (make_address_str wires server)
        (fresh_channel 5 6, bob_channel, refl, refl);
  sizes = reply_sizes;
  fuel = omega (arith, reply_text);
}

find_user_introduces_example :
    let s' = after toy decimal wires history start in
    (c c' : Bytes) × (find_user toy decimal wires (λ a. false) 400 7 8 ann_seeks_bob s' ≡ (
      ok tt,
      record s' {
        sent =
            (make_address_str wires bob.tcp_ep, c')
            ∷ (make_address_str wires ann.tcp_ep, c)
            ∷ s'.sent;
      },
    ))
    × (in_message decimal toy wires
          (fuel_for toy decimal wires decimal-IsFaithful toy-IsRsa toy-IsAes wires-IsWiring c ann
            bob 0)
          (client 5)
          server
          c
          plain
        ≡ ok (
            some (
              told toy decimal wires decimal-IsFaithful toy-IsRsa toy-IsAes wires-IsWiring s'.sec
                server ann bob)))
    × (in_message decimal toy wires
          (fuel_for toy decimal wires decimal-IsFaithful toy-IsRsa toy-IsAes wires-IsWiring c' bob
            ann 0)
          (client 6)
          server
          c'
          plain
        ≡ ok (
            some (
              told toy decimal wires decimal-IsFaithful toy-IsRsa toy-IsAes wires-IsWiring s'.sec
                server bob ann)))
find_user_introduces_example =
    find_user_introduces toy decimal wires decimal-IsFaithful toy-IsRsa toy-IsAes wires-IsWiring
      history start (λ a. false) ann_seeks_bob ann_udp bob_tcp (ann_tcp ∷ []) [] (client 5)
      (client 6) server server 400 7 8 0 0 plain plain refl (λ e. cc) (λ e. cc) refl refl
      ann-IsReached bob-IsReached ann-IsClient bob-IsClient
