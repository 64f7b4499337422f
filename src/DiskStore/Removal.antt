-- ===== src/DiskStore/Removal.antt =====
-- util/disk_store.cpp: `remove` takes one key out of the map that a store holds.
use firestr.Prelude.{
  ◌≡◌, ◌≢◌, refl, sym, ◌∙◌, subst, true, false, Bytes, bytes_eq, bytes_eq_iff, bytes_key, Option,
  none, some, ok, Bool-cases, inl, inr,
}
use firestr.Prelude.Maps.{find, assign, erase, find-assign, find-assign_same, find-erase}
use firestr.Mencode.Value.{Value, Entries, blob, dict, at, has}
use firestr.Mencode.Value
use firestr.Mencode.Lexical.{Lexical}
use firestr.Mencode.Encode.{encode}
use firestr.Post.Office.{is_empty}
use firestr.DiskStore.Disk.{
  Drive, Files, Disk, index_name, get_index_file, get_value_file, delete_file,
}
use firestr.DiskStore.Store.{remove_known, remove}
use firestr.DiskStore.Lookup.{at-remove, has-remove, remove-AreEntries, has-at}
use firestr.DiskStore.Holds.{
  IsName, IsDrive, update, Holds, IsSaved, index_name-IsPlain, files_apart,
}
use firestr.DiskStore.Refines.{id_of_there, save_index_there}

module _ (l : Lexical) (d : Drive) (drive : IsDrive d) where
  abbrev without : Bytes → Entries → Entries
  without k index = (Value.remove k index).1

  -- The files after a value is deleted and the index is written.
  abbrev cleared : Bytes → Bytes → Entries → Files → Files
  cleared dir id index files =
      assign (get_index_file l d dir) (encode l (dict index))
        (erase (get_value_file l d dir id) files)

  find-cleared :
      (dir id other : Bytes) (index : Entries) (files : Files)
      → IsName id
      → IsName other
      → id ≢ other
      → find (get_value_file l d dir other) (cleared dir id index files)
        ≡ find (get_value_file l d dir other) files
  unfolding get_value_file get_index_file
  find-cleared dir id other index files n m ne =
      let no_index : bytes_eq (d.join dir index_name) (d.join dir other) ≡ false =
        files_apart l d drive dir index_name other (index_name-IsPlain l d drive) m.plain
          (λ e. m.no_index (sym e)) in
      let no_value : bytes_eq (d.join dir id) (d.join dir other) ≡ false =
        files_apart l d drive dir id other n.plain m.plain ne in
      find-assign (d.join dir index_name) (d.join dir other) (encode l (dict index))
        (erase (d.join dir id) files)
      ∙ rw no_index (find-erase (d.join dir id) (d.join dir other) files ∙ rw no_value refl)

  kept :
      (k j : Bytes) (s : Disk) (m : Bytes → Option Value) (v : Value)
      → Holds l d s m
      → at j (without k s.index) ≡ ok v
      → at j s.index ≡ ok v
  kept k j s m v h e = elim (Bool-cases (bytes_eq k j)) [
    | inl eq ↦ cc (rw eq at (at-remove k j s.index h.entries), e)
    | inr ne ↦ sym (rw ne at (at-remove k j s.index h.entries)) ∙ e
  ]

  removed-Holds :
      (s : Disk) (m : Bytes → Option Value) (k id : Bytes)
      → Holds l d s m
      → at k s.index ≡ ok (blob id)
      → IsName id
      → Holds l d
          (record s {
            index = without k s.index;
            files = cleared s.path id (without k s.index) s.files;
          })
          (update m k none)
  removed-Holds s m k id h a n = record {
    pathed = h.pathed;
    entries = remove-AreEntries k s.index h.entries;
    missing = λ j e. elim (Bool-cases (bytes_eq k j)) [
      | inl eq ↦ has-remove k j s.index h.entries ∙ rw eq refl
      | inr ne ↦ has-remove k j s.index h.entries ∙ rw ne (h.missing j (rw ne at e))
    ];
    there = λ j w e. elim (Bool-cases (bytes_eq k j)) [
      | inl eq ↦ cc (rw eq at e)
      | inr ne ↦
          let (id', b, name, f, y) = h.there j w (rw ne at e) in
          (
            id',
            at-remove k j s.index h.entries ∙ rw ne b,
            name,
            find-cleared s.path id id' (without k s.index) s.files n name (λ q. cc (
              (bytes_eq_iff k j).1
                  (h.separate k j id a (subst (λ u. at j s.index ≡ ok (blob u)) (sym q) b)),
              ne,
            ))
                ∙ f,
            y,
          )
    ];
    separate = λ i j file e f.
        h.separate i j file (kept k i s m (blob file) h e) (kept k j s m (blob file) h f);
  }

  delete_file_there :
      (name text : Bytes) (s : Disk)
      → is_empty name ≡ false
      → find name s.files ≡ some text
      → delete_file l d name s ≡ (ok true, record s { files = erase name s.files })
  unfolding delete_file
  delete_file_there name text s e f = rw (e, f) refl

  -- x
  pub remove_refines :
      (s : Disk) (m : Bytes → Option Value) (k : Bytes) (v : Value)
      → Holds l d s m
      → m k ≡ some v
      → (s' : Disk) × (remove l d k s ≡ (ok true, s'))
        × Holds l d s' (update m k none)
        × IsSaved l d s'
  unfolding remove remove_known get_value_file
  remove_refines s m k v h e =
      let (id, a, n, f, x) = h.there k v e in
      let file = d.join s.path id in
      let s₁ : Disk = record s { index = without k s.index; files = erase file s.files } in
      (
        record s {
          index = without k s.index;
          files = cleared s.path id (without k s.index) s.files;
        },
        rw
            (
              has-at k (blob id) s.index a,
              id_of_there k id s a,
              delete_file_there file (encode l v) s (drive.named s.path id) f,
              save_index_there l d drive s₁ h.pathed,
            )
            refl,
        removed-Holds s m k id h a n,
        record { saved = find-assign_same _ _ _ },
      )
