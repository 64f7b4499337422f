-- ===== src/Mail/Balance.antt =====
-- message/mailbox.cpp: while the counters are on, they agree with the boxes.
use firestr.Prelude.{
  ◌+◌, ◌%◌, ◌^◌, Bool, true, false, List, [], ◌∷◌, Bytes, ◌≡◌, ◌⊎◌, inl, inr, refl, length-append,
  arith, Bool-cases, List-cases,
}
use firestr.Mail.Queue.{Queue, taken, refused, waits, push, pop, size, done}
use firestr.Mail.Mailbox.{
  Mailbox, Letter, received, create, push_inbox, pop_inbox, push_outbox, pop_outbox, in_size,
  out_size, set_on, done_both,
}

-- One use of a mailbox whose counters are on.
pub data Use {ℓ} (A : Type ℓ) : Type ℓ where
  in_push out_push : A → Use A
  in_pop out_pop : Bool → Use A
  finishes : Use A

module _ {ℓ} {A : Type ℓ} where
  abbrev or_same : Mailbox A → Letter A → Mailbox A
  or_same m (received v m') = m'
  or_same m _ = m

  unfoldable pub use_mailbox : Use A → Mailbox A → Mailbox A
  use_mailbox (in_push v) m = push_inbox v m
  use_mailbox (out_push v) m = push_outbox v m
  use_mailbox (in_pop wait) m = or_same m (pop_inbox wait m)
  use_mailbox (out_pop wait) m = or_same m (pop_outbox wait m)
  use_mailbox finishes m = done_both m

  unfoldable pub uses : List (Use A) → Mailbox A → Mailbox A
  uses [] m = m
  uses (u ∷ us) m = uses us (use_mailbox u m)

  pub record IsBalanced (m : Mailbox A) : Type ℓ where
    pub on : m.stats.on ≡ true
    pub inbox : m.stats.in_push_count ≡ (m.stats.in_pop_count + in_size m) % 2 ^ 64
    pub outbox : m.stats.out_push_count ≡ (m.stats.out_pop_count + out_size m) % 2 ^ 64

  size-push : (v : A) (q : Queue A) → size (push v q) ≡ size q + 1
  unfolding size push
  size-push v q = omega (arith, length-append q.items (v ∷ []))

  size-done : (q : Queue A) → size (done q) ≡ size q
  unfolding size done
  size-done q = refl

  -- What `pop` leaves, if it takes something.
  pop-cases :
      (wait : Bool) (q : Queue A)
      → (pop wait q ≡ refused)
        ⊎ (pop wait q ≡ waits)
        ⊎ ((v : A) × (q' : Queue A) × (pop wait q ≡ taken v q') × (size q ≡ size q' + 1))
  unfolding pop size
  pop-cases true q = elim (List-cases q.items) [
    | inl e ↦ elim (Bool-cases q.is_done) [
      | inl d ↦ inl (rw (e, d, pop) refl)
      | inr d ↦ inr (inl (rw (e, d, pop) refl))
    ]
    | inr (v, vs, e) ↦ elim (Bool-cases q.is_done) [
      | inl d ↦ inl (rw (e, d, pop) refl)
      | inr d ↦ inr (inr (v, record q { items = vs }, rw (e, d, pop) refl, rw e (omega arith)))
    ]
  ]
  pop-cases false q = elim (List-cases q.items) [
    | inl e ↦ inl (rw (e, pop) refl)
    | inr (v, vs, e) ↦ inr (inr (v, record q { items = vs }, rw (e, pop) refl, rw e (omega arith)))
  ]

  use_mailbox-IsBalanced : (u : Use A) (m : Mailbox A) → IsBalanced m → IsBalanced (use_mailbox u m)
  unfolding use_mailbox push_inbox push_outbox pop_inbox pop_outbox in_size out_size done_both
  use_mailbox-IsBalanced (in_push v) m h =
      rw h.on (record {
        on = refl;
        inbox = omega (arith, h.inbox, size-push v m.inbox);
        outbox = h.outbox;
      })
  use_mailbox-IsBalanced (out_push v) m h = rw h.on (record {
    on = refl;
    inbox = h.inbox;
    outbox = omega (arith, h.outbox, size-push v m.outbox);
  })
  use_mailbox-IsBalanced (in_pop wait) m h = elim (pop-cases wait m.inbox) [
    | inl e ↦ rw (e, pop_inbox) h
    | inr (inl e) ↦ rw (e, pop_inbox) h
    | inr (inr (v, q, e, s)) ↦
        rw (e, h.on, pop_inbox)
          (record { on = refl; inbox = omega (arith, h.inbox, s); outbox = h.outbox })
  ]
  use_mailbox-IsBalanced (out_pop wait) m h = elim (pop-cases wait m.outbox) [
    | inl e ↦ rw (e, pop_outbox) h
    | inr (inl e) ↦ rw (e, pop_outbox) h
    | inr (inr (v, q, e, s)) ↦
        rw (e, h.on, pop_outbox)
          (record { on = refl; inbox = h.inbox; outbox = omega (arith, h.outbox, s) })
  ]
  use_mailbox-IsBalanced finishes m h = record {
    on = h.on;
    inbox = rw (size-done m.inbox) h.inbox;
    outbox = rw (size-done m.outbox) h.outbox;
  }

  uses_from-IsBalanced : (us : List (Use A)) (m : Mailbox A) → IsBalanced m → IsBalanced (uses us m)
  unfolding uses
  uses_from-IsBalanced [] m h = h
  uses_from-IsBalanced (u ∷ us) m h =
      uses_from-IsBalanced us (use_mailbox u m) (use_mailbox-IsBalanced u m h)

  -- From an empty mailbox whose counters are on, after any uses of its two boxes, the pushes
  -- counted for each box are the pops counted plus the letters in the box, up to the wrap of a
  -- size_t.
  pub uses-IsBalanced :
      (a : Bytes) (us : List (Use A)) → IsBalanced (uses us (set_on true (create a)))
  unfolding set_on create in_size out_size size
  uses-IsBalanced a us =
      uses_from-IsBalanced us (set_on true (create a))
        (record { on = refl; inbox = omega arith; outbox = omega arith })
