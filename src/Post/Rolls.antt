-- ===== src/Post/Rolls.antt =====
-- message/post_office.cpp: what an office knows after `add`.
use firestr.Prelude.{
  ℕ, ◌≡◌, refl, ◌∙◌, subst, Bool, true, false, not, List, [], ◌∷◌, Option, none, some, inl, inr,
  Bytes, bytes_eq, bytes_eq_iff, bytes_key, nat_eq, arith, ◌==◌, if◌then◌else◌, ok, Bool-cases,
  Option-cases,
}
use firestr.Prelude.Maps.{find, assign, erase, find-assign, find-assign_same, find-erase, Distinct}
use firestr.Envelope.{Message}
use firestr.Mail.Mailbox.{Mailbox}
use firestr.Post.Office.{
  Office, World, with_office, is_some, is_empty, to_be_deleted, erase_all, clean_mailboxes,
  add_mailbox, has_mailbox, set_parent, add_office,
}
use firestr.Post.Send.{live_child}
use firestr.Post.Misrouted.{Below}

-- A pointer that is not expired.
abbrev pub alive : World → Option ℕ → Option ℕ
alive w none = none
alive w (some p) = if is_some (find p w.mailboxes) then some p else none

member : Bytes → List Bytes → Bool
member a [] = false
member a (b ∷ bs) = if bytes_eq b a then true else member a bs

find-erase_all :
    (a : Bytes) (bs : List Bytes) (boxes : List (Bytes × ℕ))
    → find a (erase_all bs boxes) ≡ (if member a bs then none else find a boxes)
unfolding erase_all member
find-erase_all a [] boxes = refl
find-erase_all a (b ∷ bs) boxes =
    ground (arith, find-erase_all a bs (erase b boxes), find-erase b a boxes)

expired : World → Option ℕ → Bool
expired w none = false
expired w (some p) = not (is_some (find p w.mailboxes))

member-to_be_deleted :
    (w : World) (a : Bytes) (boxes : List (Bytes × ℕ))
    → Distinct boxes
    → member a (to_be_deleted w boxes) ≡ expired w (find a boxes)
unfolding member to_be_deleted expired find
member-to_be_deleted w a [] d = refl
member-to_be_deleted w a ((b, p) ∷ boxes) d =
    let ih = member-to_be_deleted w a boxes d.1 in
    elim (Bool-cases (bytes_eq b a)) [
      | inl same ↦
          let here : b ≡ a = (bytes_eq_iff b a).0 same in
          let gone : find a boxes ≡ none = subst (λ k. find k boxes ≡ none) here d.0 in
          elim (Bool-cases (is_some (find p w.mailboxes))) [
            | inl l ↦ rw (same, l) (ih ∙ rw (gone, expired) refl)
            | inr l ↦ rw (same, l) (rw (same, member) refl)
          ]
      | inr other ↦ elim (Bool-cases (is_some (find p w.mailboxes))) [
        | inl l ↦ rw (other, l) ih
        | inr l ↦ rw (other, l) (rw (other, member) ih)
      ]
    ]

find-clean_mailboxes :
    (w : World) (office : Office) (a : Bytes)
    → Distinct office.boxes
    → find a (clean_mailboxes w office).boxes ≡ alive w (find a office.boxes)
unfolding clean_mailboxes expired
find-clean_mailboxes w office a d =
    find-erase_all a (to_be_deleted w office.boxes) office.boxes
    ∙ rw (member-to_be_deleted w a office.boxes d) (elim (Option-cases (find a office.boxes)) [
      | inl e ↦ rw e refl
      | inr (p, e) ↦ rw e (elim (Bool-cases (is_some (find p w.mailboxes))) [
        | inl l ↦ rw l refl
        | inr l ↦ rw l refl
      ])
    ])

-- For an office with distinct names and a mailbox that is there and has a name, add answers true
-- and changes that office only, which has the mailbox afterwards: its name leads to it, and every
-- other name leads where it led before if the mailbox there still exists, and nowhere otherwise.
pub add_mailbox_lem :
    (w : World) (o p : ℕ) (office : Office) (box : Mailbox Message)
    → find o w.posts ≡ some office
    → find p w.mailboxes ≡ some box
    → is_empty box.address ≡ false
    → Distinct office.boxes
    → (office' : Office) × (add_mailbox w o p ≡ ok (with_office o office' w, true))
      × (has_mailbox (with_office o office' w) o p ≡ true)
      × ((a : Bytes)
          → find a office'.boxes
            ≡ (if bytes_eq box.address a then some p else alive w (find a office.boxes)))
unfolding add_mailbox has_mailbox
add_mailbox_lem w o p office box e g n d =
    let cleaned = clean_mailboxes w office in
    let office' : Office = record cleaned { boxes = assign box.address p cleaned.boxes } in
    (
      office',
      rw (g, add_mailbox) (rw (n, e) refl),
      rw (g, has_mailbox)
          (rw (find-assign_same o office' w.posts, find-assign_same box.address p cleaned.boxes)
            refl),
      λ a. find-assign box.address a p cleaned.boxes ∙ rw (find-clean_mailboxes w office a d) refl,
    )

live_child_there :
    (w : World) (office child : Office) (a : Bytes) (c : ℕ)
    → find a office.offices ≡ some c
    → find c w.posts ≡ some child
    → live_child w office a ≡ some c
unfolding live_child
live_child_there w office child a c e g = rw (e, live_child) (rw (g, live_child) refl)

-- An office that `add` takes in has this one as its parent, and is known to it by its address.
pub add_office-Below :
    (w : World) (o p : ℕ) (office child : Office)
    → find o w.posts ≡ some office
    → find p w.posts ≡ some child
    → (o == p) ≡ false
    → is_empty child.address ≡ false
    → find child.address office.offices ≡ none
    → bytes_eq child.address office.address ≡ false
    → (w' : World) × (office' : Office) × (child' : Office) × (add_office w o p ≡ ok (w', true))
      × Below w' o p office' child' child.address
      × (w'.mailboxes ≡ w.mailboxes)
unfolding add_office set_parent
add_office-Below w o p office child e g ne n fresh other =
    let swapped : (p == o) ≡ false = ground arith in
    let child' : Office = record child { parent = some o } in
    let office' : Office = record office { offices = assign child.address p office.offices } in
    let w₁ = with_office p child' w in
    let e₁ : find o w₁.posts ≡ some office = find-assign p o child' w.posts ∙ rw swapped e in
    let w₂ = with_office o office' w₁ in
    let e₂ : find o w₂.posts ≡ some office' = find-assign_same o office' w₁.posts in
    let g₂ : find p w₂.posts ≡ some child' =
      find-assign o p office' w₁.posts ∙ rw ne (find-assign_same p child' w.posts) in
    (
      w₂,
      office',
      child',
      rw (g, add_office) (rw (swapped, n) (rw e (rw fresh (rw ne (rw g (rw e₁ refl)))))),
      record {
        there = e₂;
        child_there = g₂;
        known =
            live_child_there w₂ office' child' child.address p
              (find-assign_same child.address p office.offices) g₂;
        up = refl;
        not_own = other;
        apart = ne;
      },
      refl,
    )
