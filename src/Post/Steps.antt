-- ===== src/Post/Steps.antt =====
-- message/post_office.cpp: one call of `send`, by the branch that it takes.
use firestr.Prelude.{
  ℕ, suc, ◌≡◌, refl, ap, true, false, List, [], ◌∷◌, Option, none, some, Bytes, bytes_eq, bytes_key,
  nat_eq,
}
use firestr.Prelude.Maps.{find, assign}
use firestr.Envelope.{Message}
use firestr.Mail.Queue.{Queue, push}
use firestr.Mail.Mailbox.{Mailbox, push_inbox}
use firestr.Post.Office.{Office, World, with_office}
use firestr.Post.Send.{
  Posted, Sender, answered, address_as, push_from, pop_own, holds, live_child, deliver, out_counted,
  send_outside, send_up, unless_sent, send_on, send,
}

-- The world after a message is put into a mailbox.
abbrev pub with_letter : ℕ → Mailbox Message → Message → World → World
with_letter p box m w = record w { mailboxes = assign p (push_inbox m box) w.mailboxes }

pub deliver_there :
    (w : World) (office : Office) (x : Bytes) (m : Message) (p : ℕ) (box : Mailbox Message)
    → find x office.boxes ≡ some p
    → find p w.mailboxes ≡ some box
    → deliver w office x m ≡ answered (with_letter p box m w) true
unfolding deliver
deliver_there w office x m p box e g = rw (e, deliver) (rw (g, deliver) refl)

pub send_near :
    (f : ℕ) (w : World) (held : List ℕ) (o : ℕ) (office : Office) (m : Message) (x : Bytes)
    → find o w.posts ≡ some office
    → m.meta.to ≡ x ∷ []
    → send (suc f) w held o m ≡ deliver w office x (address_as (x ∷ []) m.meta.from m)
unfolding send pop_own
send_near f w held o office m x e t = rw (e, send) (rw (t, send) refl)

pub send_far :
    (f : ℕ) (w : World) (held : List ℕ) (o : ℕ) (office : Office) (m : Message) (a y : Bytes)
    (to : List Bytes)
    → find o w.posts ≡ some office
    → pop_own office.address m.meta.to ≡ a ∷ y ∷ to
    → send (suc f) w held o m ≡ send_on (send f) w held o office m a (y ∷ to)
unfolding send
send_far f w held o office m a y to e t = rw (e, send) (rw (t, send) refl)

module _ (again : Sender) (w : World) (held : List ℕ) (o : ℕ) (office : Office) (m : Message)
    (a : Bytes) (rest : List Bytes) (free : holds o held ≡ false) where
  pub send_on_down :
      (c : ℕ)
      → live_child w office a ≡ some c
      → send_on again w held o office m a rest
        ≡ unless_sent
            (again w (o ∷ held) c (address_as rest (office.address ∷ m.meta.from) m))
            (λ w'. send_up again w' held o (address_as (a ∷ rest) m.meta.from m))
  unfolding send_on
  send_on_down c e = rw (free, send_on) (rw (e, send_on) refl)

  pub send_on_up :
      live_child w office a ≡ none
      → send_on again w held o office m a rest
        ≡ send_up again w held o (address_as (a ∷ rest) m.meta.from m)
  unfolding send_on
  send_on_up e = rw (free, send_on) (rw (e, send_on) refl)

module _ (again : Sender) (w : World) (held : List ℕ) (o : ℕ) (office : Office) (m : Message)
    (there : find o w.posts ≡ some office) where
  pub send_up_parent :
      (p : ℕ)
      → office.parent ≡ some p
      → send_up again w held o m ≡ again w held p (push_from office.address m)
  unfolding send_up
  send_up_parent p e = rw (there, send_up) (rw (e, send_up) refl)

  pub send_up_top :
      office.parent ≡ none
      → send_up again w held o m ≡ send_outside w o office (push_from office.address m)
  unfolding send_up
  send_up_top e =
      let m' = push_from office.address m in
      let by : Option ℕ → Posted =
        λ q. elim q [ none ↦ send_outside w o office m' | some p ↦ again w held p m' ] in
      rw (there, send_up) (ap by e)

pub send_outside_there :
    (w : World) (o : ℕ) (office : Office) (m : Message) (q : Queue Message)
    → office.out ≡ some q
    → send_outside w o office m
      ≡ answered
          (with_office o
            (record office {
              out = some (push m q);
              outside_stats = out_counted office.outside_stats;
            })
            w)
          true
unfolding send_outside
send_outside_there w o office m q e = rw (e, send_outside) refl

pub pop_own_other :
    (a x y : Bytes) (to : List Bytes) → bytes_eq x a ≡ false → pop_own a (x ∷ y ∷ to) ≡ x ∷ y ∷ to
unfolding pop_own
pop_own_other a x y to e = rw e refl
