-- ===== src/Locator/Users.antt =====
-- firelocator/firelocator.cpp: the users that the server knows, and what a registration does to them.
use firestr.Prelude.{
  Bool, true, false, not, ◌&&◌, List, [], Bytes, bytes_eq, bytes_key, Option, none, some, ◌==◌,
  if◌then◌else◌, codes,
}
use firestr.Prelude.Maps.{find, assign}
use firestr.Post.Office.{is_empty}
use firestr.Post.Master.{Endpoint}
use firestr.Messages.{GreetEndpoint, GreetRegister}

pub record UserInfo : Type 0 where
  pub id : Bytes
  pub local_ep : GreetEndpoint
  pub ext : GreetEndpoint
  pub response_service_address : Bytes
  pub tcp_ep : Endpoint
  pub udp_ep : Endpoint

abbrev pub Users : Type 0
Users = List (Bytes × UserInfo)

-- `n::endpoint e;`, whose port is not set, nor read while the protocol is empty.
abbrev pub no_endpoint : Endpoint
no_endpoint = record { protocol = []; address = []; port = 0 }

-- The operators `==` of greet_endpoint and of endpoint.
unfoldable pub greet_endpoint_eq : GreetEndpoint → GreetEndpoint → Bool
greet_endpoint_eq a b = bytes_eq a.ip b.ip && (a.port == b.port)

unfoldable pub endpoint_eq : Endpoint → Endpoint → Bool
endpoint_eq a b =
    bytes_eq a.protocol b.protocol && (bytes_eq a.address b.address && (a.port == b.port))

-- The three steps of `update_address`.
unfoldable pub update_local : GreetEndpoint → UserInfo → UserInfo
update_local e i = if not (greet_endpoint_eq i.local_ep e) then record i { local_ep = e } else i

unfoldable pub update_ext : GreetEndpoint → Bool → UserInfo → UserInfo
update_ext e is_udp i =
    if not (greet_endpoint_eq i.ext e)
    then (if is_udp
        then record i { ext = e }
        else if is_empty i.udp_ep.protocol
        then record i { ext = e }
        else i)
    else i

unfoldable pub update_ep : Endpoint → Bool → UserInfo → UserInfo
update_ep ep true i = if not (endpoint_eq i.udp_ep ep) then record i { udp_ep = ep } else i
update_ep ep false i = if not (endpoint_eq i.tcp_ep ep) then record i { tcp_ep = ep } else i

unfoldable pub update_address :
    UserInfo → GreetEndpoint → GreetEndpoint → Endpoint → Bool → UserInfo
unfolding update_local update_ext update_ep
update_address i e ext ep is_udp = update_ep ep is_udp (update_ext ext is_udp (update_local e i))

unfoldable pub new_user : GreetRegister → GreetEndpoint → Endpoint → Bool → UserInfo
new_user r ext ep is_udp = record {
  id = r.id;
  local_ep = r.local_ep;
  ext = ext;
  response_service_address = r.response_service_address;
  tcp_ep = if is_udp then no_endpoint else ep;
  udp_ep = if is_udp then ep else no_endpoint;
}

-- `register_user` up to the channel, for an id that is not empty.
unfoldable pub put_user : Endpoint → GreetRegister → Users → Users
unfolding update_address new_user
put_user ep r users =
    let ext : GreetEndpoint = record { ip = ep.address; port = ep.port } in
    let is_udp = bytes_eq ep.protocol (codes "udp") in
    elim (find r.id users) [
      | some i ↦ assign r.id (update_address i r.local_ep ext ep is_udp) users
      | none ↦ assign r.id (new_user r ext ep is_udp) users
    ]

-- What `users.find` gives, if it has a TCP endpoint.
unfoldable pub find_tcp : Bytes → Users → Option UserInfo
find_tcp k users = elim (find k users) [
  | none ↦ none
  | some u ↦ if is_empty u.tcp_ep.protocol then none else some u
]
