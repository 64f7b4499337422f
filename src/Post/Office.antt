-- ===== src/Post/Office.antt =====
-- message/post_office.hpp and message/post_office.cpp: an office, and what the pointers between
-- offices and mailboxes lead to. A pointer is a number; a weak pointer is expired when the world
-- has no object of that number. `out` is the queue of a master_post_office (message/master_post.hpp),
-- and `none` in the base class.
use firestr.Prelude.{
  ℕ, Bool, true, false, not, List, [], ◌∷◌, Option, none, some, Bytes, bytes_key, nat_eq, Outcome,
  ok, ◌>>=◌, ◌>>◌, require, ◌==◌, if◌then◌else◌,
}
use firestr.Prelude.Maps.{find, assign, erase}
use firestr.Envelope.{Message}
use firestr.Mail.Queue.{Queue}
use firestr.Mail.Mailbox.{Mailbox, MailboxStats, no_stats}

pub record Office : Type 0 where
  pub address : Bytes
  pub boxes : List (Bytes × ℕ)
  pub offices : List (Bytes × ℕ)
  pub parent : Option ℕ
  pub outside_stats : MailboxStats
  pub out : Option (Queue Message)

pub record World : Type 0 where
  pub mailboxes : List (ℕ × Mailbox Message)
  pub posts : List (ℕ × Office)

-- `post_office(const std::string&)`.
abbrev pub new_office : Bytes → Office
new_office a = record {
  address = a;
  boxes = [];
  offices = [];
  parent = none;
  outside_stats = no_stats;
  out = none;
}

abbrev pub with_office : ℕ → Office → World → World
with_office o office w = record w { posts = assign o office w.posts }

-- `p.lock()` is not null.
abbrev pub is_some {ℓ} : {A : Type ℓ} → Option A → Bool
is_some none = false
is_some (some _) = true

-- What each method does with the office that it is called on; a pointer to no office is not
-- followed.
abbrev pub on_office {ℓ} : {A : Type ℓ} → A → (Office → A) → Option Office → A
on_office a f none = a
on_office a f (some office) = f office

-- The loop of `clean_mailboxes` that collects.
unfoldable pub to_be_deleted : World → List (Bytes × ℕ) → List Bytes
to_be_deleted w [] = []
to_be_deleted w ((a, p) ∷ boxes) =
    let rest = to_be_deleted w boxes in if is_some (find p w.mailboxes) then rest else a ∷ rest

-- The loop of `clean_mailboxes` that erases.
unfoldable pub erase_all : List Bytes → List (Bytes × ℕ) → List (Bytes × ℕ)
erase_all [] boxes = boxes
erase_all (a ∷ rest) boxes = erase_all rest (erase a boxes)

unfoldable pub clean_mailboxes : World → Office → Office
unfolding to_be_deleted erase_all
clean_mailboxes w office = record office {
  boxes = erase_all (to_be_deleted w office.boxes) office.boxes;
}

-- `std::string::empty`.
abbrev pub is_empty : Bytes → Bool
is_empty [] = true
is_empty (c ∷ cs) = false

-- `add(mailbox_wptr)`
unfoldable pub add_mailbox : World → ℕ → ℕ → Outcome (World × Bool)
unfolding clean_mailboxes
add_mailbox w o p = elim (find p w.mailboxes) [
  | none ↦ ok (w, false)
  | some box ↦ do
    require (not (is_empty box.address))
    ok (
      on_office w
          (λ office.
            let cleaned = clean_mailboxes w office in
            with_office o (record cleaned { boxes = assign box.address p cleaned.boxes }) w)
          (find o w.posts),
      true,
    )
]

-- `has(mailbox_wptr)`
unfoldable pub has_mailbox : World → ℕ → ℕ → Bool
has_mailbox w o p = elim (find p w.mailboxes) [
  | none ↦ false
  | some box ↦ on_office false (λ office. is_some (find box.address office.boxes)) (find o w.posts)
]

unfoldable pub remove_mailbox : Bytes → World → ℕ → World
remove_mailbox n w o =
    on_office w (λ office. with_office o (record office { boxes = erase n office.boxes }) w)
      (find o w.posts)

-- `parent(post_office*)`, with the pointer not null.
unfoldable pub set_parent : ℕ → World → ℕ → Outcome World
set_parent p w o = do
  require (not (p == o))
  ok (on_office w (λ office. with_office o (record office { parent = some p }) w) (find o w.posts))

abbrev pub enter : Bytes → ℕ → World → ℕ → World
enter a p w o =
    on_office w (λ office. with_office o (record office { offices = assign a p office.offices }) w)
      (find o w.posts)

-- `add(post_office_wptr)`
unfoldable pub add_office : World → ℕ → ℕ → Outcome (World × Bool)
unfolding set_parent
add_office w o p = elim (find p w.posts) [
  | none ↦ ok (w, false)
  | some child ↦ do
    require (not (p == o))
    require (not (is_empty child.address))
    require (
        on_office true (λ office. not (is_some (find child.address office.offices)))
          (find o w.posts))
    w' ← set_parent o w p
    ok (enter child.address p w' o, true)
]

-- `has(post_office_wptr)`
unfoldable pub has_office : World → ℕ → ℕ → Bool
has_office w o p = elim (find p w.posts) [
  | none ↦ false
  | some child ↦
      on_office false (λ office. is_some (find child.address office.offices)) (find o w.posts)
]

unfoldable pub remove_post_office : Bytes → World → ℕ → World
remove_post_office n w o =
    on_office w (λ office. with_office o (record office { offices = erase n office.offices }) w)
      (find o w.posts)
