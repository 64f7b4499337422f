-- ===== src/Post/Replies.antt =====
-- message/post_office.cpp: a message between the mailboxes of two child offices, and the answer to
-- the address that it signed.
use firestr.Prelude.{
  ℕ, suc, ◌≡◌, refl, ◌∙◌, ap, true, false, [], ◌∷◌, none, some, Bytes, bytes_eq, bytes_key, nat_eq,
  ◌==◌, bytes_eq_iff, Bool-cases, inl, inr,
}
use firestr.Prelude.Maps.{find, find-assign}
use firestr.Envelope.{Message}
use firestr.Mail.Mailbox.{Mailbox, push_inbox}
use firestr.Post.Office.{Office, World}
use firestr.Post.Send.{
  answered, address_as, push_from, pop_own, live_child, unless_sent, send_up, send,
}
use firestr.Post.Routes.{unless_sent-true}
use firestr.Post.Steps.{
  pop_own_other, with_letter, deliver_there, send_near, send_far, send_on_down, send_on_up,
  send_up_parent,
}

-- Two offices below one, none of the three mistaken for another on the way.
pub record Siblings (w : World) (q o₁ o₂ : ℕ) (top first second : Office) : Type 0 where
  pub top_there : find q w.posts ≡ some top
  pub first_there : find o₁ w.posts ≡ some first
  pub second_there : find o₂ w.posts ≡ some second
  pub first_up : first.parent ≡ some q
  pub second_up : second.parent ≡ some q
  pub first_child : live_child w top first.address ≡ some o₁
  pub second_child : live_child w top second.address ≡ some o₂
  pub second_stranger : live_child w first second.address ≡ none
  pub top_stranger : live_child w second top.address ≡ none
  pub second_not_first : bytes_eq second.address first.address ≡ false
  pub second_not_top : bytes_eq second.address top.address ≡ false
  pub top_not_second : bytes_eq top.address second.address ≡ false

-- From the office above, down to a mailbox of its child.
send_from_top :
    (w : World) (q c : ℕ) (top child : Office)
    → find q w.posts ≡ some top
    → find c w.posts ≡ some child
    → live_child w top child.address ≡ some c
    → (f p : ℕ) (x : Bytes) (box : Mailbox Message) (m : Message) → find x child.boxes ≡ some p
    → find p w.mailboxes ≡ some box
    → pop_own top.address m.meta.to ≡ child.address ∷ x ∷ []
    → send (suc (suc f)) w [] q m
      ≡ answered (with_letter p box (address_as (x ∷ []) (top.address ∷ m.meta.from) m) w) true
send_from_top w q c top child there below known f p x box m b g t =
    let cp = address_as (x ∷ []) (top.address ∷ m.meta.from) m in
    let m' = address_as (child.address ∷ x ∷ []) m.meta.from m in
    send_far (suc f) w [] q top m child.address x [] there t
    ∙ send_on_down (send (suc f)) w [] q top m child.address (x ∷ []) refl c known
    ∙ ap (λ r. unless_sent r (λ w'. send_up (send (suc f)) w' [] q m'))
        (send_near f w (q ∷ []) c child cp x below refl ∙ deliver_there w child x cp p box b g)
    ∙ unless_sent-true _ _

module _ (w : World) (q o₁ o₂ : ℕ) (top first second : Office)
    (near : Siblings w q o₁ o₂ top first second) where
  -- From one office to its neighbour.
  send_beside :
      (f p : ℕ) (x : Bytes) (box : Mailbox Message) (m : Message)
      → find x second.boxes ≡ some p
      → find p w.mailboxes ≡ some box
      → m.meta.to ≡ second.address ∷ x ∷ []
      → send (suc (suc (suc f))) w [] o₁ m
        ≡ answered
            (with_letter p box
              (address_as (x ∷ []) (top.address ∷ first.address ∷ m.meta.from) m)
              w)
            true
  send_beside f p x box m b g t =
      let m' = address_as (second.address ∷ x ∷ []) m.meta.from m in
      send_far (suc (suc f)) w [] o₁ first m second.address x [] near.first_there (
        ap (pop_own first.address) t
        ∙ pop_own_other first.address second.address x [] near.second_not_first)
      ∙ send_on_up (send (suc (suc f))) w [] o₁ first m second.address (x ∷ []) refl
          near.second_stranger
      ∙ send_up_parent (send (suc (suc f))) w [] o₁ first m' near.first_there q near.first_up
      ∙ send_from_top w q o₂ top second near.top_there near.second_there near.second_child f p x box
          (push_from first.address m') b g
          (pop_own_other top.address second.address x [] near.second_not_top)

  -- From the second office to where the first signed.
  send_back :
      (f p : ℕ) (x : Bytes) (box : Mailbox Message) (m : Message)
      → find x first.boxes ≡ some p
      → find p w.mailboxes ≡ some box
      → m.meta.to ≡ top.address ∷ first.address ∷ x ∷ []
      → send (suc (suc (suc f))) w [] o₂ m
        ≡ answered
            (with_letter p box
              (address_as (x ∷ []) (top.address ∷ second.address ∷ m.meta.from) m)
              w)
            true
  unfolding pop_own
  send_back f p x box m b g t =
      let to = first.address ∷ x ∷ [] in
      let m' = address_as (top.address ∷ to) m.meta.from m in
      send_far (suc (suc f)) w [] o₂ second m top.address first.address (x ∷ []) near.second_there
        (ap (pop_own second.address) t ∙ rw (near.top_not_second) refl)
      ∙ send_on_up (send (suc (suc f))) w [] o₂ second m top.address to refl near.top_stranger
      ∙ send_up_parent (send (suc (suc f))) w [] o₂ second m' near.second_there q near.second_up
      ∙ send_from_top w q o₁ top first near.top_there near.first_there near.first_child f p x box
          (push_from second.address m') b g
          (rw ((bytes_eq_iff top.address top.address).1 refl) refl)

Siblings-with_letter :
    (w : World) (q o₁ o₂ : ℕ) (top first second : Office) (p : ℕ) (box : Mailbox Message)
    (m : Message)
    → Siblings w q o₁ o₂ top first second
    → Siblings (with_letter p box m w) q o₁ o₂ top first second
unfolding live_child
Siblings-with_letter w q o₁ o₂ top first second p box m near = record {
  top_there = near.top_there;
  first_there = near.first_there;
  second_there = near.second_there;
  first_up = near.first_up;
  second_up = near.second_up;
  first_child = near.first_child;
  second_child = near.second_child;
  second_stranger = near.second_stranger;
  top_stranger = near.top_stranger;
  second_not_first = near.second_not_first;
  second_not_top = near.second_not_top;
  top_not_second = near.top_not_second;
}

-- A mailbox is still there after a message was put into one.
still_there :
    (w : World) (p₁ p₂ : ℕ) (box₁ box₂ : Mailbox Message) (m : Message)
    → find p₁ w.mailboxes ≡ some box₁
    → (box : Mailbox Message) × (find p₁ (with_letter p₂ box₂ m w).mailboxes ≡ some box)
still_there w p₁ p₂ box₁ box₂ m e =
    let law = find-assign p₂ p₁ (push_inbox m box₂) w.mailboxes in
    elim (Bool-cases (p₂ == p₁)) [
      | inl h ↦ (push_inbox m box₂, law ∙ rw h refl)
      | inr h ↦ (box₁, law ∙ rw h e)
    ]

-- Of two child offices of one office, none of the three addresses mistaken for another on the way,
-- a message from a mailbox of the first to a mailbox of the second arrives signed with the
-- addresses of the office above, the first office and the mailbox; and whatever message goes from
-- the second office to just those addresses arrives in the first mailbox.
pub reply_arrives :
    (w : World) (q o₁ o₂ : ℕ) (top first second : Office) (f p₁ p₂ : ℕ) (x₁ x₂ : Bytes)
    (box₁ box₂ : Mailbox Message) (m n : Message)
    → Siblings w q o₁ o₂ top first second
    → find x₁ first.boxes ≡ some p₁
    → find p₁ w.mailboxes ≡ some box₁
    → find x₂ second.boxes ≡ some p₂
    → find p₂ w.mailboxes ≡ some box₂
    → m.meta.to ≡ second.address ∷ x₂ ∷ []
    → m.meta.from ≡ x₁ ∷ []
    → n.meta.to ≡ top.address ∷ first.address ∷ m.meta.from
    → let got = address_as (x₂ ∷ []) (top.address ∷ first.address ∷ m.meta.from) m in
      let w' = with_letter p₂ box₂ got w in
      (send (suc (suc (suc f))) w [] o₁ m ≡ answered w' true)
      × ((box : Mailbox Message) × (find p₁ w'.mailboxes ≡ some box)
          × (send (suc (suc (suc f))) w' [] o₂ n
              ≡ answered
                  (with_letter p₁ box
                    (address_as (x₁ ∷ []) (top.address ∷ second.address ∷ n.meta.from) n)
                    w')
                  true))
reply_arrives w q o₁ o₂ top first second f p₁ p₂ x₁ x₂ box₁ box₂ m n near b₁ g₁ b₂ g₂ t r a =
    let got = address_as (x₂ ∷ []) (top.address ∷ first.address ∷ m.meta.from) m in
    let (box, here) = still_there w p₁ p₂ box₁ box₂ got g₁ in
    (
      send_beside w q o₁ o₂ top first second near f p₂ x₂ box₂ m b₂ g₂ t,
      (
        box,
        here,
        send_back (with_letter p₂ box₂ got w) q o₁ o₂ top first second
            (Siblings-with_letter w q o₁ o₂ top first second p₂ box₂ got near) f p₁ x₁ box n b₁ here
            (a ∙ ap (λ s. top.address ∷ first.address ∷ s) r),
      ),
    )
