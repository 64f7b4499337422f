-- ===== src/DiskStore/Refines.antt =====
-- util/disk_store.cpp: the operations of a store change the map that it holds.
use firestr.Prelude.{
  ◌<◌, ◌≡◌, ◌≢◌, refl, sym, ap, ◌∙◌, false, Bytes, bytes_eq, bytes_eq_iff, bytes_key, Option, some,
  ok, length, Bool-cases, Option-cases, inl, inr,
}
use firestr.Prelude.Maps.{assign, find-assign_same}
use firestr.Mencode.Value.{Value, Entries, empty, blob, dict, at, has, as_string}
use firestr.Mencode.Value
use firestr.Mencode.Lexical.{Lexical, IsSize}
use firestr.Mencode.Encode.{encode}
use firestr.Mencode.Encodable.{IsEncodable}
use firestr.Post.Office.{is_empty}
use firestr.DiskStore.Disk.{Drive, Disk, get_index_file, get_value_file, save_to_file}
use firestr.DiskStore.Store.{index_value, id_of, save_index, choose_id, set_intern, set}
use firestr.DiskStore.Lookup.{at-assign, has-assign, assign-AreEntries}
use firestr.DiskStore.Holds.{IsName, IsDrive, update, Holds, IsSaved, Names, written, written-Holds}

-- A key that the format carries.
abbrev pub IsKey : Bytes → Type 0
IsKey k = (0 < length k) × IsSize (length k)

-- The name that uuid draws, which no key has.
pub record IsFresh (index : Entries) (id : Bytes) : Type 0 where
  pub name : IsName id
  pub new : (j : Bytes) → at j index ≢ ok (blob id)

pub index_value_there :
    (k : Bytes) (v : Value) (e : Entries) → at k e ≡ ok v → index_value k e ≡ (v, e)
unfolding index_value
index_value_there k v e h = rw (h, index_value) refl

pub id_of_there : (k id : Bytes) (s : Disk) → at k s.index ≡ ok (blob id) → id_of k s ≡ (ok id, s)
unfolding id_of as_string
id_of_there k id s e =
    ap (λ p. (as_string p.0, record s { index = p.1 })) (index_value_there k (blob id) s.index e)

module _ (l : Lexical) (d : Drive) (drive : IsDrive d) where
  choose_id-Names :
      (s : Disk) (m : Bytes → Option Value) (new k : Bytes)
      → Holds l d s m
      → IsKey k
      → IsFresh s.index new
      → (index : Entries) × (id : Bytes) × (choose_id l d new k s
          ≡ (ok id, record s { index = index }))
        × Names l d drive index s.index k id
  unfolding choose_id
  choose_id-Names s m new k h key fresh = elim (Bool-cases (has k s.index)) [
    | inl old ↦ elim (Option-cases (m k)) [
      | inl e ↦ cc (h.missing k e, old)
      | inr (v, e) ↦
          let (id, a, name, f, x) = h.there k v e in
          (
            s.index,
            id,
            rw old (id_of_there k id s a),
            record {
              ordered = h.entries;
              here = a;
              name = name;
              same_at = λ j ne. refl;
              same_has = λ j ne. refl;
              unused = λ j e'. h.separate k j id a e';
            },
          )
    ]
    | inr none_yet ↦ (
      Value.assign k (blob new) s.index,
      new,
      rw none_yet refl,
      record {
        ordered =
            assign-AreEntries k (blob new) s.index h.entries key.0 key.1
              (unfold IsEncodable in fresh.name.sized);
        here = at-assign k k (blob new) s.index ∙ rw ((bytes_eq_iff k k).1 refl) refl;
        name = fresh.name;
        same_at = λ j ne. at-assign k j (blob new) s.index ∙ rw ne refl;
        same_has = λ j ne. has-assign k j (blob new) s.index ∙ rw ne refl;
        unused = λ j e. elim (Bool-cases (bytes_eq k j)) [
          | inl eq ↦ (bytes_eq_iff k j).0 eq
          | inr ne ↦ absurd (fresh.new j (sym (at-assign k j (blob new) s.index ∙ rw ne refl) ∙ e))
        ];
      },
    )
  ]

  save_to_file_there :
      (name : Bytes) (v : Value) (s : Disk)
      → save_to_file l d name v s ≡ (ok tt, record s { files = assign name (encode l v) s.files })
  unfolding save_to_file
  save_to_file_there name v s = rw (drive.opens name) refl

  pub save_index_there :
      (s : Disk)
      → is_empty s.path ≡ false
      → save_index l d s ≡ (
        ok tt,
        record s { files = assign (get_index_file l d s.path) (encode l (dict s.index)) s.files },
      )
  unfolding save_index
  save_index_there s e = rw e (save_to_file_there _ _ s)

  set_there :
      (s : Disk) (index : Entries) (new k id : Bytes) (v : Value)
      → choose_id l d new k s ≡ (ok id, record s { index = index })
      → is_empty id ≡ false
      → is_empty s.path ≡ false
      → set l d new k v s
        ≡ (ok tt, record s { index = index; files = written l d drive s.path id v index s.files })
  unfolding set set_intern
  set_there s index new k id v e n p =
      rw (e, n, save_to_file_there (get_value_file l d s.path id) v (record s { index = index }))
        (save_index_there
          (record s {
            index = index;
            files = assign (get_value_file l d s.path id) (encode l v) s.files;
          })
          p)

  -- x
  pub set_refines :
      (s : Disk) (m : Bytes → Option Value) (new k : Bytes) (v : Value)
      → Holds l d s m
      → IsKey k
      → IsFresh s.index new
      → IsEncodable v
      → (s' : Disk) × (set l d new k v s ≡ (ok tt, s'))
        × Holds l d s' (update m k (some v))
        × IsSaved l d s'
  set_refines s m new k v h key fresh x =
      let (index, id, e, n) = choose_id-Names s m new k h key fresh in
      (
        record s { index = index; files = written l d drive s.path id v index s.files },
        set_there s index new k id v e n.name.nonempty h.pathed,
        written-Holds l d drive s m index k id v h n x,
        record { saved = find-assign_same _ _ _ },
      )
