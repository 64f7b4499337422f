-- ===== src/Mail/Mailbox.antt =====
-- util/mailbox.hpp and message/mailbox.cpp: a mailbox and its counters, which are size_t.
use firestr.Prelude.{ℕ, ◌+◌, ◌%◌, ◌^◌, Bool, false, Bytes, if◌then◌else◌}
use firestr.Mail.Queue.{Queue, taken, refused, waits, empty_queue, push, pop, size, done}

pub record MailboxStats : Type 0 where
  pub in_push_count : ℕ
  pub in_pop_count : ℕ
  pub out_push_count : ℕ
  pub out_pop_count : ℕ
  pub on : Bool

pub record Mailbox {ℓ} (A : Type ℓ) : Type ℓ where
  pub address : Bytes
  pub inbox : Queue A
  pub outbox : Queue A
  pub stats : MailboxStats

abbrev pub no_stats : MailboxStats
no_stats = record {
  in_push_count = 0;
  in_pop_count = 0;
  out_push_count = 0;
  out_pop_count = 0;
  on = false;
}

unfoldable pub reset : MailboxStats → MailboxStats
reset s = record s { in_push_count = 0; out_push_count = 0; in_pop_count = 0; out_pop_count = 0 }

-- The answer of `pop_inbox` and `pop_outbox`, with the mailbox.
pub data Letter {ℓ} (A : Type ℓ) : Type ℓ where
  received : A → Mailbox A → Letter A
  nothing waiting : Letter A

module _ {ℓ} {A : Type ℓ} where
  unfoldable pub create : Bytes → Mailbox A
  create a = record { address = a; inbox = empty_queue; outbox = empty_queue; stats = no_stats }

  unfoldable pub set_address : Bytes → Mailbox A → Mailbox A
  set_address a m = record m { address = a }

  unfoldable pub push_inbox : A → Mailbox A → Mailbox A
  push_inbox v m = record m {
    inbox = push v m.inbox;
    stats =
        if m.stats.on
        then record m.stats { in_push_count = (m.stats.in_push_count + 1) % 2 ^ 64 }
        else m.stats;
  }

  unfoldable pub pop_inbox : Bool → Mailbox A → Letter A
  pop_inbox wait m = elim (pop wait m.inbox) [
    | taken v q ↦ received v (record m {
      inbox = q;
      stats =
          if m.stats.on
          then record m.stats { in_pop_count = (m.stats.in_pop_count + 1) % 2 ^ 64 }
          else m.stats;
    })
    | refused ↦ nothing
    | waits ↦ waiting
  ]

  unfoldable pub push_outbox : A → Mailbox A → Mailbox A
  push_outbox v m = record m {
    outbox = push v m.outbox;
    stats =
        if m.stats.on
        then record m.stats { out_push_count = (m.stats.out_push_count + 1) % 2 ^ 64 }
        else m.stats;
  }

  unfoldable pub pop_outbox : Bool → Mailbox A → Letter A
  pop_outbox wait m = elim (pop wait m.outbox) [
    | taken v q ↦ received v (record m {
      outbox = q;
      stats =
          if m.stats.on
          then record m.stats { out_pop_count = (m.stats.out_pop_count + 1) % 2 ^ 64 }
          else m.stats;
    })
    | refused ↦ nothing
    | waits ↦ waiting
  ]

  unfoldable pub in_size : Mailbox A → ℕ
  in_size m = size m.inbox

  unfoldable pub out_size : Mailbox A → ℕ
  out_size m = size m.outbox

  -- `stats(bool)`.
  unfoldable pub set_on : Bool → Mailbox A → Mailbox A
  set_on b m = record m { stats = record m.stats { on = b } }

  unfoldable pub done_both : Mailbox A → Mailbox A
  done_both m = record m { inbox = done m.inbox; outbox = done m.outbox }
