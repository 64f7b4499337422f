-- ===== src/DiskStore/Tests.antt =====
-- A store in a directory whose names are joined by `/`.
use firestr.Prelude.{
  ◌+◌, ◌*◌, ◌<◌, ◌≡◌, refl, true, false, List, [], ◌∷◌, ◌++◌, Bytes, bytes_eq, bytes_eq_iff,
  bytes_key, none, ok, thrown, arith, length, codes, Bool-cases, inl, inr,
}
use firestr.Prelude.Maps.{find}
use firestr.Mencode.Value.{Value, Entries, empty, size, blob, dict, no_entries, entry, at, has}
use firestr.Mencode.Value
use firestr.Mencode.Encode.{encode, encode_size, enc}
use firestr.Mencode.Encodable.{IsEncodable}
use firestr.Mencode.Decimal.{decimal, decimal-IsFaithful, print}
use firestr.Post.Office.{is_empty}
use firestr.DiskStore.Disk.{Drive, Disk, get_index_file}
use firestr.DiskStore.Store.{get, set, load}
use firestr.DiskStore.Holds.{IsName, IsDrive, Holds, IsSaved, Names, written}
use firestr.DiskStore.Refines.{IsFresh}
use firestr.DiskStore.Reads.{get_missing}
use firestr.DiskStore.Client.{Call, setting, removing, replay, run, Allowed, run_refines}

abbrev slashes : Drive
slashes = record { join = λ dir a. dir ++ (b'/' ∷ a); writable = λ name. true }

join_cancel : (dir a b : Bytes) → dir ++ (b'/' ∷ a) ≡ dir ++ (b'/' ∷ b) → a ≡ b
join_cancel [] a b e = cc e
join_cancel (c ∷ dir) a b e = join_cancel dir a b (cc e)

join_nonempty : (dir a : Bytes) → is_empty (dir ++ (b'/' ∷ a)) ≡ false
join_nonempty [] a = refl
join_nonempty (c ∷ dir) a = refl

slashes-IsDrive : IsDrive slashes
slashes-IsDrive = record {
  apart = λ dir a b p q e. join_cancel dir a b e;
  named = join_nonempty;
  opens = λ name. refl;
}

abbrev fresh_store : Disk
fresh_store = record {
  path = codes "/data";
  index = no_entries;
  files = (codes "/data/index", codes "d;") ∷ [];
}

fresh_store-Holds : Holds decimal slashes fresh_store (λ _. none)
unfolding IsEncodable has at
fresh_store-Holds = record {
  pathed = refl;
  entries = tt;
  missing = λ k e. refl;
  there = λ k v e. cc;
  separate = λ j k id e f. cc;
}

fresh_store-IsSaved : IsSaved decimal slashes fresh_store
unfolding find get_index_file encode
fresh_store-IsSaved = record { saved = refl }

f1-IsName : IsName (codes "f1")
f1-IsName = record {
  nonempty = refl;
  sized = omega arith;
  plain = (omega arith, (omega arith, tt));
  no_index = λ e. cc;
}

f1-IsFresh : IsFresh no_entries (codes "f1")
unfolding at
f1-IsFresh = record { name = f1-IsName; new = λ j e. cc }

abbrev calls : List Call
calls = setting (codes "f1") (codes "n") (size 3) ∷ removing (codes "n") ∷ []

calls-Allowed : Allowed decimal slashes calls fresh_store
unfolding IsEncodable
calls-Allowed = ((omega arith, omega arith), f1-IsFresh, omega arith, tt)

run_refines_example :
    (s : Disk) × (run decimal slashes calls fresh_store ≡ (ok tt, s))
    × Holds decimal slashes s (replay calls (λ _. none))
    × (load decimal slashes
          (3 * length (encode decimal (dict s.index)) + 1 + 0)
          true
          s.path
          (record { path = []; index = no_entries; files = s.files })
        ≡ (ok tt, s))
run_refines_example =
    run_refines decimal slashes decimal-IsFaithful slashes-IsDrive calls fresh_store (λ _. none) 0
      fresh_store-Holds fresh_store-IsSaved calls-Allowed

-- The store with one value.
abbrev one_index : Entries
one_index = entry (codes "n") (blob (codes "f1")) no_entries

one-Names : Names decimal slashes slashes-IsDrive one_index no_entries (codes "n") (codes "f1")
unfolding at has IsEncodable
one-Names = record {
  ordered = (omega arith, omega arith, refl, omega arith, tt);
  here = refl;
  name = f1-IsName;
  same_at = λ j ne. rw ne refl;
  same_has = λ j ne. rw ne refl;
  unused = λ j e. elim (Bool-cases (bytes_eq (codes "n") j)) [
    | inl eq ↦ (bytes_eq_iff (codes "n") j).0 eq
    | inr ne ↦ cc (rw ne at e)
  ];
}

abbrev one_store : Disk
one_store = record fresh_store {
  index = one_index;
  files =
      written decimal slashes slashes-IsDrive (codes "/data") (codes "f1") (size 3) one_index
        fresh_store.files;
}

three_text : 3 * length (encode decimal (size 3)) < 20
unfolding encode encode_size enc print
three_text = omega arith

get_missing_example :
    let s' : Disk = record fresh_store { index = Value.assign (codes "n") empty no_entries } in
    (get decimal slashes 20 (codes "n") fresh_store ≡ (thrown, s'))
    × (has (codes "n") s'.index ≡ true)
    × (set decimal slashes (codes "f1") (codes "n") (size 3) s' ≡ (thrown, s'))
unfolding has
get_missing_example =
    get_missing decimal slashes fresh_store (codes "n") (codes "f1") (size 3) 20 refl refl
