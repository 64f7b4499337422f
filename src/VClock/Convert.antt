-- ===== src/VClock/Convert.antt =====
-- util/vclock.cpp: clocks as dictionaries of util/mencode.cpp. Their ids are strings.
use firestr.Prelude.{
  ℕ, ◌≡◌, refl, sym, ap, ◌∙◌, subst, [], ◌∷◌, ◌++◌, append_assoc, append-nil, Bytes, bytes_eq,
  bytes_key, none, Outcome, ok, ◌>>=◌, codes, Bool-cases, inl, inr,
}
use firestr.Prelude.Maps
use firestr.Prelude.Maps.{find, Distinct, assign-fresh, Distinct-middle}
use firestr.Mencode.Value.{
  Entries, size, blob, dict, no_entries, entry, assign, at, as_size, as_string, as_dict, as_bytes,
}
use firestr.VClock.Clock.{Clock}
use firestr.VClock.Tracked.{Tracked, IsTracked, create_from}

-- The loops of `to_dict` and `to_sclock`.
unfoldable pub put_counts : Entries → Clock Bytes → Entries
put_counts d [] = d
put_counts d ((k, n) ∷ c) = put_counts (assign k (size n) d) c

unfoldable pub to_dict : Clock Bytes → Entries
unfolding put_counts
to_dict c = put_counts no_entries c

unfoldable pub take_counts : Clock Bytes → Entries → Outcome (Clock Bytes)
take_counts c no_entries = ok c
take_counts c (entry k v d) = do n ← as_size v; take_counts (Maps.assign k n c) d

unfoldable pub to_sclock : Entries → Outcome (Clock Bytes)
unfolding take_counts
to_sclock d = take_counts [] d

unfoldable pub to_tracked_dict : Tracked Bytes → Entries
unfolding to_dict
to_tracked_dict t =
    assign (codes "v") (dict (to_dict t.clock)) (assign (codes "i") (blob t.id) no_entries)

unfoldable pub to_tracked_sclock : Entries → Outcome (Tracked Bytes)
unfolding to_sclock
to_tracked_sclock d = do
  first ← at (codes "i") d
  unused ← as_string first
  again ← at (codes "i") d
  id ← as_string again
  v ← at (codes "v") d
  e ← as_dict v
  c ← to_sclock e
  ok (create_from id c)

entries_of : Clock Bytes → Entries
entries_of [] = no_entries
entries_of ((k, n) ∷ c) = entry k (size n) (entries_of c)

assign-entries_of :
    (k : Bytes) (n : ℕ) (c : Clock Bytes)
    → find k c ≡ none
    → assign k (size n) (entries_of c) ≡ entries_of (c ++ ((k, n) ∷ []))
unfolding assign entries_of find
assign-entries_of k n [] e = refl
assign-entries_of k n ((j, m) ∷ c) e = elim (Bool-cases (bytes_eq j k)) [
  | inl same ↦ cc (rw same at e)
  | inr other ↦ rw (other, assign-entries_of k n c (rw other at e)) refl
]

put_counts-entries_of :
    (a c : Clock Bytes) → Distinct (a ++ c) → put_counts (entries_of a) c ≡ entries_of (a ++ c)
unfolding put_counts
put_counts-entries_of a [] d = rw (append-nil a) refl
put_counts-entries_of a ((k, n) ∷ c) d =
    let e : (a ++ ((k, n) ∷ [])) ++ c ≡ a ++ ((k, n) ∷ c) = append_assoc a ((k, n) ∷ []) c in
    rw (assign-entries_of k n a (Distinct-middle k n a c d))
      (put_counts-entries_of (a ++ ((k, n) ∷ [])) c (subst Distinct (sym e) d) ∙ ap entries_of e)

take_counts-entries_of :
    (a c : Clock Bytes) → Distinct (a ++ c) → take_counts a (entries_of c) ≡ ok (a ++ c)
unfolding take_counts entries_of as_size
take_counts-entries_of a [] d = rw (append-nil a) refl
take_counts-entries_of a ((k, n) ∷ c) d =
    let e : (a ++ ((k, n) ∷ [])) ++ c ≡ a ++ ((k, n) ∷ c) = append_assoc a ((k, n) ∷ []) c in
    rw (assign-fresh k n a (Distinct-middle k n a c d))
      (take_counts-entries_of (a ++ ((k, n) ∷ [])) c (subst Distinct (sym e) d) ∙ ap (λ r. ok r) e)

pub to_sclock-to_dict : (c : Clock Bytes) → Distinct c → to_sclock (to_dict c) ≡ ok c
unfolding to_sclock to_dict entries_of
to_sclock-to_dict c d = rw (put_counts-entries_of [] c d) (take_counts-entries_of [] c d)

-- A tracked clock that has its own id and distinct ids, written into a dictionary by to_dict, is
-- read back by to_tracked_sclock as it was.
pub to_tracked_sclock-to_tracked_dict :
    (t : Tracked Bytes) → IsTracked t → to_tracked_sclock (to_tracked_dict t) ≡ ok t
unfolding to_tracked_sclock to_tracked_dict at assign as_string as_bytes as_dict create_from
to_tracked_sclock-to_tracked_dict t w =
    rw (to_sclock-to_dict t.clock w.distinct) (rw w.counted refl)
