-- ===== src/Messages/Arrival.antt =====
-- messages/greeter.cpp and messages/new_app.cpp, with message/master_post.cpp: what the structures
-- are read as when their messages arrive.
use firestr.Prelude.{
  ℕ, ◌^◌, ◌<◌, ◌≡◌, refl, ap, Bool, true, false, pos, List, Bytes, ok, arith, if◌then◌else◌,
}
use firestr.Mencode.Value.{assign, at, as_int, as_bytes, as_string}
use firestr.Envelope.{EncryptionType}
use firestr.Post.Master.{Endpoint, origin}
use firestr.Post.Exchange.{arrived}
use firestr.Messages.Sender.{signed}
use firestr.Messages.{
  GreetKeyRequest, GreetKeyResponse, GreetRegister, GreetFindRequest, GreetFindResponse, NewApp,
  RequestApp, port_of, text_at, port_at, is_one, key_request_message, read_key_request,
  key_response_message, read_key_response, register_message, read_register, find_request_message,
  read_find_request, find_response_message, read_find_response, new_app_message, read_new_app,
  request_app_message, read_request_app,
}

port_of-small : (n : ℕ) → n < 2 ^ 16 → port_of (pos n) ≡ n
unfolding port_of
port_of-small n h = omega arith

module _ (ep : Endpoint) (e : EncryptionType) (to : List Bytes) where
  key_request_arrives :
      (r : GreetKeyRequest) → read_key_request (arrived ep e to (key_request_message r)) ≡ ok r
  unfolding read_key_request key_request_message text_at at assign origin as_string as_bytes
  key_request_arrives r = refl

  key_response_arrives :
      (r : GreetKeyResponse)
      → ep.port < 2 ^ 16
      → read_key_response (arrived ep e to (key_response_message r))
        ≡ ok (record { host = ep.address; port = ep.port; pub_key = r.pub_key })
  unfolding read_key_response key_response_message text_at port_at at assign origin as_string
      as_bytes as_int
  key_response_arrives r h = rw (port_of-small ep.port h) refl

  register_arrives :
      (r : GreetRegister)
      → r.local_ep.port < 2 ^ 16
      → read_register (arrived ep e to (register_message r)) ≡ ok r
  unfolding read_register register_message text_at port_at at assign origin as_string as_bytes
      as_int
  register_arrives r h =
      ap (λ p. ok (record r { local_ep = record r.local_ep { port = p } }))
        (port_of-small r.local_ep.port h)

  find_request_arrives :
      (r : GreetFindRequest) → read_find_request (arrived ep e to (find_request_message r)) ≡ ok r
  unfolding read_find_request find_request_message text_at at assign origin as_string as_bytes
  find_request_arrives r = refl

  is_one-if : (b : Bool) → is_one (pos (if b then 1 else 0)) ≡ b
  unfolding is_one
  is_one-if true = refl
  is_one-if false = refl

  find_response_arrives :
      (r : GreetFindResponse)
      → r.local_ep.port < 2 ^ 16
      → r.ext.port < 2 ^ 16
      → read_find_response (arrived ep e to (find_response_message r)) ≡ ok r
  unfolding read_find_response find_response_message text_at port_at at assign origin as_string
      as_bytes as_int
  find_response_arrives r h k =
      rw (port_of-small r.local_ep.port h, port_of-small r.ext.port k, is_one-if r.found) refl

  -- With `from_id` as messages/sender.cpp sets it.
  new_app_arrives :
      (my_id : Bytes) (path : List Bytes) (r : NewApp)
      → read_new_app (arrived ep e to (signed my_id path (new_app_message r)))
        ≡ ok (record r { from_id = my_id })
  unfolding read_new_app new_app_message text_at at assign origin as_string as_bytes
  new_app_arrives my_id path r = refl

  request_app_arrives :
      (my_id : Bytes) (path : List Bytes) (r : RequestApp)
      → read_request_app (arrived ep e to (signed my_id path (request_app_message r)))
        ≡ ok (record r { from_id = my_id })
  unfolding read_request_app request_app_message text_at at assign origin as_string as_bytes
  request_app_arrives my_id path r = refl

  -- With ports below 2^16, each message of the greeter and of new_app.cpp, with what in_thread of
  -- the receiver writes into its metadata, is read as what it was written from: the key response
  -- with the address and port of the endpoint it came from as its host and port, and the two
  -- messages about applications with the id of the user that sent them.
  pub messages_arrive :
      (a : GreetKeyRequest) (b : GreetKeyResponse) (c : GreetRegister) (d : GreetFindRequest)
      (g : GreetFindResponse) (i : NewApp) (j : RequestApp) (my_id : Bytes) (path : List Bytes)
      → ep.port < 2 ^ 16
      → c.local_ep.port < 2 ^ 16
      → g.local_ep.port < 2 ^ 16
      → g.ext.port < 2 ^ 16
      → (read_key_request (arrived ep e to (key_request_message a)) ≡ ok a)
        × (read_key_response (arrived ep e to (key_response_message b))
            ≡ ok (record { host = ep.address; port = ep.port; pub_key = b.pub_key }))
        × (read_register (arrived ep e to (register_message c)) ≡ ok c)
        × (read_find_request (arrived ep e to (find_request_message d)) ≡ ok d)
        × (read_find_response (arrived ep e to (find_response_message g)) ≡ ok g)
        × (read_new_app (arrived ep e to (signed my_id path (new_app_message i)))
            ≡ ok (record i { from_id = my_id }))
        × (read_request_app (arrived ep e to (signed my_id path (request_app_message j)))
            ≡ ok (record j { from_id = my_id }))
  messages_arrive a b c d g i j my_id path p q s t = (
    key_request_arrives a,
    key_response_arrives b p,
    register_arrives c q,
    find_request_arrives d,
    find_response_arrives g s t,
    new_app_arrives my_id path i,
    request_app_arrives my_id path j,
  )
