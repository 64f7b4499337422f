-- ===== src/Messages/Sender.antt =====
-- messages/sender.cpp: how a conversation's applications send. The user's id and the contact that
-- `contacts().by_id(to)` gives, as its address, are arguments.
use firestr.Prelude.{Bool, true, false, [], ◌∷◌, List, Bytes, Option, none, some, codes}
use firestr.Mencode.Value.{blob, assign}
use firestr.Envelope.{Message}
use firestr.Mail.Mailbox.{Mailbox, push_outbox}

-- The assignments to `m.meta` that both operations begin with.
abbrev pub signed : Bytes → List Bytes → Message → Message
signed my_id to m = record m {
  meta = record m.meta { to = to; extra = assign (codes "from_id") (blob my_id) m.meta.extra };
}

unfoldable pub send_to_contact :
    Bytes → Option Bytes → Message → Mailbox Message → Bool × Mailbox Message
send_to_contact my_id none m mail = (false, mail)
send_to_contact my_id (some contact) m mail =
    (true, push_outbox (signed my_id (contact ∷ mail.address ∷ []) m) mail)

unfoldable pub send_to_local_app :
    Bytes → Bytes → Message → Mailbox Message → Bool × Mailbox Message
send_to_local_app my_id address m mail =
    let m' = signed my_id (address ∷ []) m in
    let m'' : Message = record m' {
      meta = record m'.meta {
        extra = assign (codes "local_app_id") (blob mail.address) m'.meta.extra;
      };
    } in
    (true, push_outbox m'' mail)
