-- ===== src/Messages.antt =====
-- messages/greeter.cpp, messages/new_app.cpp and messages/pinhole.cpp: structures and the messages
-- that stand for them. `m.meta.extra` is read through the const operator[], which throws.
use firestr.Prelude.{
  ℕ, ◌+◌, ◌-◌, ◌%◌, ◌^◌, Bool, true, false, ℤ, pos, negsuc, [], Bytes, bytes_eq, Outcome, ok,
  aborted, ◌>>=◌, ◌>>◌, require, ◌==◌, if◌then◌else◌, codes,
}
use firestr.Mencode.Value.{Entries, int, blob, no_entries, assign, at, as_int, as_string}
use firestr.Envelope.{Message, local, conversation}
pub mod Sender
pub mod Arrival
mod Tests

-- A `message` with a type, extra metadata and data, and the rest as its constructor leaves it.
abbrev pub new_message : Bytes → Entries → Bytes → Message
new_message type extra content = record {
  meta = record {
    type = type;
    to = [];
    from = [];
    extra = extra;
    source = local;
    encryption = conversation;
    robust = true;
  };
  content = content;
}

-- An int64_t that is assigned to an unsigned short.
unfoldable pub port_of : ℤ → ℕ
port_of (pos n) = n % 2 ^ 16
port_of (negsuc n) = 2 ^ 16 - 1 - n % 2 ^ 16

unfoldable pub text_at : Bytes → Entries → Outcome Bytes
text_at k d = do v ← at k d; as_string v

unfoldable pub port_at : Bytes → Entries → Outcome ℕ
port_at k d = do v ← at k d; n ← as_int v; ok (port_of n)

-- `REQUIRE_EQUAL(m.meta.type, type)`
abbrev pub is_type : Bytes → Message → Bool
is_type type m = bytes_eq m.meta.type type

pub record GreetEndpoint : Type 0 where
  pub ip : Bytes
  pub port : ℕ

pub record GreetKeyRequest : Type 0 where
  pub response_service_address : Bytes

pub record GreetKeyResponse : Type 0 where
  pub host : Bytes
  pub port : ℕ
  pub pub_key : Bytes

pub record GreetRegister : Type 0 where
  pub id : Bytes
  pub local_ep : GreetEndpoint
  pub pub_key : Bytes
  pub response_service_address : Bytes

pub record GreetFindRequest : Type 0 where
  pub from_id : Bytes
  pub search_id : Bytes

pub record GreetFindResponse : Type 0 where
  pub found : Bool
  pub id : Bytes
  pub local_ep : GreetEndpoint
  pub ext : GreetEndpoint

pub record NewApp : Type 0 where
  pub id : Bytes
  pub type : Bytes
  pub from_id : Bytes
  pub content : Bytes

pub record RequestApp : Type 0 where
  pub app_address : Bytes
  pub conversation_id : Bytes
  pub from_id : Bytes

unfoldable pub key_request_message : GreetKeyRequest → Message
key_request_message r =
    new_message (codes "greet_key_request")
      (assign (codes "response_address") (blob r.response_service_address) no_entries) []

unfoldable pub read_key_request : Message → Outcome GreetKeyRequest
unfolding text_at
read_key_request m = do
  require (is_type (codes "greet_key_request") m)
  a ← text_at (codes "response_address") m.meta.extra
  ok (record { response_service_address = a })

unfoldable pub key_response_message : GreetKeyResponse → Message
key_response_message r =
    new_message (codes "greet_key_response") (assign (codes "pub_key") (blob r.pub_key) no_entries)
      []

unfoldable pub read_key_response : Message → Outcome GreetKeyResponse
unfolding text_at port_at
read_key_response m = do
  require (is_type (codes "greet_key_response") m)
  k ← text_at (codes "pub_key") m.meta.extra
  h ← text_at (codes "from_ip") m.meta.extra
  p ← port_at (codes "from_port") m.meta.extra
  ok (record { host = h; port = p; pub_key = k })

unfoldable pub register_message : GreetRegister → Message
register_message r =
    new_message (codes "greet_register")
      (assign (codes "response_address") (blob r.response_service_address) (
        assign (codes "pub_key") (blob r.pub_key) (
          assign (codes "loc_port") (int (pos r.local_ep.port)) (
            assign (codes "loc_ip") (blob r.local_ep.ip)
              (assign (codes "from_id") (blob r.id) no_entries)))))
      []

unfoldable pub read_register : Message → Outcome GreetRegister
unfolding text_at port_at
read_register m = do
  require (is_type (codes "greet_register") m)
  i ← text_at (codes "from_id") m.meta.extra
  h ← text_at (codes "loc_ip") m.meta.extra
  p ← port_at (codes "loc_port") m.meta.extra
  k ← text_at (codes "pub_key") m.meta.extra
  a ← text_at (codes "response_address") m.meta.extra
  ok (record {
    id = i;
    local_ep = record { ip = h; port = p };
    pub_key = k;
    response_service_address = a;
  })

unfoldable pub find_request_message : GreetFindRequest → Message
find_request_message r =
    new_message (codes "greet_request")
      (assign (codes "search_id") (blob r.search_id)
        (assign (codes "from_id") (blob r.from_id) no_entries))
      []

unfoldable pub read_find_request : Message → Outcome GreetFindRequest
unfolding text_at
read_find_request m = do
  require (is_type (codes "greet_request") m)
  i ← text_at (codes "from_id") m.meta.extra
  s ← text_at (codes "search_id") m.meta.extra
  ok (record { from_id = i; search_id = s })

unfoldable pub find_response_message : GreetFindResponse → Message
find_response_message r =
    new_message (codes "greet_response")
      (assign (codes "found") (int (pos (if r.found then 1 else 0))) (
        assign (codes "ext_port") (int (pos r.ext.port)) (
          assign (codes "ext_ip") (blob r.ext.ip) (
            assign (codes "loc_port") (int (pos r.local_ep.port)) (
              assign (codes "loc_ip") (blob r.local_ep.ip)
                (assign (codes "search_id") (blob r.id) no_entries))))))
      []

-- `m.meta.extra["found"].as_int() == 1`
unfoldable pub is_one : ℤ → Bool
is_one (pos n) = n == 1
is_one (negsuc n) = false

unfoldable pub read_find_response : Message → Outcome GreetFindResponse
unfolding text_at port_at is_one
read_find_response m = do
  require (is_type (codes "greet_response") m)
  i ← text_at (codes "search_id") m.meta.extra
  h ← text_at (codes "loc_ip") m.meta.extra
  p ← port_at (codes "loc_port") m.meta.extra
  e ← text_at (codes "ext_ip") m.meta.extra
  q ← port_at (codes "ext_port") m.meta.extra
  v ← at (codes "found") m.meta.extra
  n ← as_int v
  ok (record {
    found = is_one n;
    id = i;
    local_ep = record { ip = h; port = p };
    ext = record { ip = e; port = q };
  })

-- messages/new_app.cpp
unfoldable pub new_app_message : NewApp → Message
new_app_message r =
    new_message (codes "new_app")
      (assign (codes "app_type") (blob r.type) (assign (codes "app_id") (blob r.id) no_entries))
      r.content

unfoldable pub read_new_app : Message → Outcome NewApp
unfolding text_at
read_new_app m = do
  require (is_type (codes "new_app") m)
  i ← text_at (codes "app_id") m.meta.extra
  t ← text_at (codes "app_type") m.meta.extra
  f ← text_at (codes "from_id") m.meta.extra
  ok (record { id = i; type = t; from_id = f; content = m.content })

unfoldable pub request_app_message : RequestApp → Message
request_app_message r =
    new_message (codes "req_app")
      (assign (codes "conv_id") (blob r.conversation_id)
        (assign (codes "app_addr") (blob r.app_address) no_entries))
      []

unfoldable pub read_request_app : Message → Outcome RequestApp
unfolding text_at
read_request_app m = do
  require (is_type (codes "req_app") m)
  a ← text_at (codes "app_addr") m.meta.extra
  c ← text_at (codes "conv_id") m.meta.extra
  f ← text_at (codes "from_id") m.meta.extra
  ok (record { app_address = a; conversation_id = c; from_id = f })

-- messages/pinhole.cpp, whose structure has no fields.
unfoldable pub pinhole_message : Message
pinhole_message = new_message (codes "pinhole") no_entries []

unfoldable pub read_pinhole : Message → Outcome (Unit {0})
read_pinhole m = do require (is_type (codes "pinhole") m); ok tt
