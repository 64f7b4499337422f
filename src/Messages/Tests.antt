-- ===== src/Messages/Tests.antt =====
-- A message of each kind, from a peer behind a UDP endpoint.
use firestr.Prelude.{◌≡◌, true, [], ok, arith, codes}
use firestr.Envelope.{plaintext}
use firestr.Post.Master.{Endpoint}
use firestr.Post.Exchange.{arrived}
use firestr.Messages.{
  GreetEndpoint, GreetKeyRequest, GreetKeyResponse, GreetRegister, GreetFindRequest,
  GreetFindResponse, NewApp, RequestApp, key_request_message, read_key_request,
  key_response_message, read_key_response, register_message, read_register, find_request_message,
  read_find_request, find_response_message, read_find_response, new_app_message, read_new_app,
  request_app_message, read_request_app,
}
use firestr.Messages.Sender.{signed}
use firestr.Messages.Arrival.{messages_arrive}

abbrev source : Endpoint
source = record { protocol = codes "udp"; address = codes "1.2.3.4"; port = 65535 }

abbrev home : GreetEndpoint
home = record { ip = codes "192.168.0.2"; port = 6060 }

abbrev key_request : GreetKeyRequest
key_request = record { response_service_address = codes "users" }

abbrev key_response : GreetKeyResponse
key_response = record { host = []; port = 0; pub_key = codes "key" }

abbrev registration : GreetRegister
registration = record {
  id = codes "ann";
  local_ep = home;
  pub_key = codes "key";
  response_service_address = codes "users";
}

abbrev find_request : GreetFindRequest
find_request = record { from_id = codes "ann"; search_id = codes "bob" }

abbrev find_response : GreetFindResponse
find_response = record {
  found = true;
  id = codes "bob";
  local_ep = home;
  ext = record { ip = codes "5.6.7.8"; port = 72 };
}

abbrev app : NewApp
app = record { id = codes "1"; type = codes "chat"; from_id = []; content = codes "code" }

abbrev app_request : RequestApp
app_request = record { app_address = codes "app"; conversation_id = codes "2"; from_id = [] }

messages_arrive_example :
    (read_key_request (arrived source plaintext [] (key_request_message key_request))
      ≡ ok key_request)
    × (read_key_response (arrived source plaintext [] (key_response_message key_response))
        ≡ ok (record { host = codes "1.2.3.4"; port = 65535; pub_key = codes "key" }))
    × (read_register (arrived source plaintext [] (register_message registration))
        ≡ ok registration)
    × (read_find_request (arrived source plaintext [] (find_request_message find_request))
        ≡ ok find_request)
    × (read_find_response (arrived source plaintext [] (find_response_message find_response))
        ≡ ok find_response)
    × (read_new_app (arrived source plaintext [] (signed (codes "ann") [] (new_app_message app)))
        ≡ ok (record app { from_id = codes "ann" }))
    × (read_request_app
          (arrived source plaintext [] (signed (codes "ann") [] (request_app_message app_request)))
        ≡ ok (record app_request { from_id = codes "ann" }))
messages_arrive_example =
    messages_arrive source plaintext [] key_request key_response registration find_request
      find_response app app_request (codes "ann") [] (omega arith) (omega arith) (omega arith)
      (omega arith)
