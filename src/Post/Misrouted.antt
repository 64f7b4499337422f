-- ===== src/Post/Misrouted.antt =====
-- message/post_office.cpp: what becomes of a message that a child office cannot deliver.
use firestr.Prelude.{
  ℕ, suc, ◌≡◌, refl, sym, ◌∙◌, ap, true, false, List, [], ◌∷◌, none, some, Bytes, bytes_eq,
  bytes_key, nat_eq, ◌==◌, ==_iff,
}
use firestr.Prelude.Maps.{find}
use firestr.Envelope.{Message}
use firestr.Mail.Queue.{Queue, push}
use firestr.Post.Office.{Office, World, with_office}
use firestr.Post.Send.{
  Posted, answered, relocked, address_as, push_from, pop_own, holds, live_child, deliver,
  out_counted, unless_sent, send_up, send_on, send,
}
use firestr.Post.Steps.{
  pop_own_other, send_near, send_far, send_on_down, send_on_up, send_up_parent, send_up_top,
  send_outside_there,
}

send_on_relocked :
    (f : ℕ) (w : World) (held : List ℕ) (o : ℕ) (office : Office) (m : Message) (a : Bytes)
    (rest : List Bytes)
    → holds o held ≡ true
    → send_on (send f) w held o office m a rest ≡ relocked
unfolding send_on
send_on_relocked f w held o office m a rest h = rw (h, send_on) refl

unless_sent-false : (w : World) (up : World → Posted) → unless_sent (answered w false) up ≡ up w
unfolding unless_sent
unless_sent-false w up = refl

unless_sent_relocked : (up : World → Posted) → unless_sent relocked up ≡ relocked
unfolding unless_sent
unless_sent_relocked up = refl

holds_head : (o : ℕ) (held : List ℕ) → holds o (o ∷ held) ≡ true
holds_head o held = rw ((==_iff o o).1 refl) refl

-- An office and a child that has it as its parent.
pub record Below (w : World) (o c : ℕ) (office child : Office) (a : Bytes) : Type 0 where
  pub there : find o w.posts ≡ some office
  pub child_there : find c w.posts ≡ some child
  pub known : live_child w office a ≡ some c
  pub up : child.parent ≡ some o
  pub not_own : bytes_eq a office.address ≡ false
  pub apart : (o == c) ≡ false

module _ (w : World) (o c : ℕ) (office child : Office) (a : Bytes)
    (near : Below w o c office child a) where
  -- A message whose first address is a child office that has this office as its parent, and whose
  -- second address, with more behind it, is neither of the two offices' own address nor a child of
  -- the child, makes send lock the mutex of this office while its thread holds it: the child
  -- passes the message up to the office that is waiting for the child's answer.
  pub send_relocks :
      (f : ℕ) (m : Message) (y z : Bytes) (to : List Bytes)
      → m.meta.to ≡ a ∷ y ∷ z ∷ to
      → bytes_eq y office.address ≡ false
      → bytes_eq y child.address ≡ false
      → live_child w child y ≡ none
      → send (suc (suc (suc f))) w [] o m ≡ relocked
  send_relocks f m y z to t n k s =
      let cp = address_as (y ∷ z ∷ to) (office.address ∷ m.meta.from) m in
      let up = push_from child.address cp in
      let m' = address_as (a ∷ y ∷ z ∷ to) m.meta.from m in
      send_far (suc (suc f)) w [] o office m a y (z ∷ to) near.there
        (ap (pop_own office.address) t ∙ pop_own_other office.address a y (z ∷ to) near.not_own)
      ∙ send_on_down (send (suc (suc f))) w [] o office m a (y ∷ z ∷ to) refl c near.known
      ∙ ap (λ r. unless_sent r (λ w'. send_up (send (suc (suc f))) w' [] o m'))
          (send_far (suc f) w (o ∷ []) c child cp y z to near.child_there
              (pop_own_other child.address y z to k)
            ∙ send_on_up (send (suc f)) w (o ∷ []) c child cp y (z ∷ to) (rw near.apart refl) s
            ∙ send_up_parent (send (suc f)) w (o ∷ []) c child cp near.child_there o near.up
            ∙ send_far f w (o ∷ []) o office up y z to near.there
                (pop_own_other office.address y z to n)
            ∙ send_on_relocked f w (o ∷ []) o office up y (z ∷ to) (holds_head o []))
      ∙ unless_sent_relocked _

  -- A message for a mailbox that a child of a master post does not have is answered true: it is
  -- put behind the queue to the outside, addressed to the child's name as if that were a peer.
  pub send_missing :
      (f : ℕ) (m : Message) (x : Bytes) (q : Queue Message)
      → m.meta.to ≡ a ∷ x ∷ []
      → find x child.boxes ≡ none
      → office.parent ≡ none
      → office.out ≡ some q
      → send (suc (suc f)) w [] o m
        ≡ answered
            (with_office o
              (record office {
                out = some (push (push_from office.address m) q);
                outside_stats = out_counted office.outside_stats;
              })
              w)
            true
  unfolding deliver
  send_missing f m x q t n top out =
      let cp = address_as (x ∷ []) (office.address ∷ m.meta.from) m in
      let m' = address_as (a ∷ x ∷ []) m.meta.from m in
      send_far (suc f) w [] o office m a x [] near.there
        (ap (pop_own office.address) t ∙ pop_own_other office.address a x [] near.not_own)
      ∙ send_on_down (send (suc f)) w [] o office m a (x ∷ []) refl c near.known
      ∙ ap (λ r. unless_sent r (λ w'. send_up (send (suc f)) w' [] o m'))
          (send_near f w (o ∷ []) c child cp x near.child_there refl ∙ rw (n, deliver) refl)
      ∙ unless_sent-false _ _
      ∙ send_up_top (send (suc f)) w [] o office m' near.there top
      ∙ send_outside_there w o office (push_from office.address m') q out
      ∙ ap
          (λ to.
            answered
              (with_office o
                (record office {
                  out = some (push (push_from office.address (address_as to m.meta.from m)) q);
                  outside_stats = out_counted office.outside_stats;
                })
                w)
              true)
          (sym t)
