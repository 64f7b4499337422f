-- ===== src/DiskStore/Store.antt =====
-- util/disk_store.cpp: the operations of `disk_store`. Each holds the mutex from its first to its
-- last access. An id is an argument where the code draws a uuid.
use firestr.Prelude.{
  ℕ, Bool, true, false, not, List, [], ◌∷◌, Bytes, ok, thrown, aborted, out_of_fuel, if◌then◌else◌,
}
use firestr.Mencode.Value.{
  Value, Entries, empty, blob, dict, no_entries, entry, as_string, at, has, size_dict,
}
use firestr.Mencode.Value
use firestr.Mencode.Lexical.{Lexical}
use firestr.Post.Office.{is_empty}
use firestr.DiskStore.Disk.{
  Drive, Disk, Exec, and_then, get_index_file, get_value_file, load_value, load_dict, save_to_file,
  delete_file,
}

-- `(*_index)[key].as_string()`. `_index` points to a dictionary that is not const, so the operator
-- is the one that inserts an empty value for a missing key.
unfoldable pub index_value : Bytes → Entries → Value × Entries
index_value k d = elim (at k d) [
  | ok v ↦ (v, d)
  | thrown ↦ (empty, Value.assign k empty d)
  | aborted ↦ (empty, d)
  | out_of_fuel ↦ (empty, d)
]

unfoldable pub id_of : Bytes → Exec Bytes
unfolding index_value
id_of k s = (as_string (index_value k s.index).0, record s { index = (index_value k s.index).1 })

module _ (l : Lexical) (d : Drive) where
  -- `get_value`
  unfoldable pub get_value : ℕ → Bytes → Exec Value
  get_value f k =
      and_then (id_of k) (λ id s. (load_value l d f s.files (get_value_file l d s.path id), s))

  unfoldable pub get : ℕ → Bytes → Exec Value
  unfolding get_value
  get f k s = if is_empty s.path then (aborted, s) else get_value f k s

  unfoldable pub save_index : Exec (Unit {0})
  save_index s =
      if is_empty s.path
      then (aborted, s)
      else save_to_file l d (get_index_file l d s.path) (dict s.index) s

  -- The id of a key: the one it has, or a new one that is put into the index.
  unfoldable pub choose_id : Bytes → Bytes → Exec Bytes
  choose_id new k s =
      if has k s.index
      then id_of k s
      else (ok new, record s { index = Value.assign k (blob new) s.index })

  unfoldable pub set_intern : Bytes → Bytes → Value → Exec (Unit {0})
  unfolding choose_id
  set_intern new k v = and_then (choose_id new k) (λ id s.
      if is_empty id then (aborted, s) else save_to_file l d (get_value_file l d s.path id) v s)

  unfoldable pub set : Bytes → Bytes → Value → Exec (Unit {0})
  unfolding set_intern save_index
  set new k v = and_then (set_intern new k v) (λ _. save_index)

  -- `remove_intern` where the index has the key.
  unfoldable pub remove_known : Bytes → Exec Bool
  unfolding save_index
  remove_known k = and_then (id_of k) (λ id s.
      and_then (delete_file l d (get_value_file l d s.path id))
        (λ _ s'.
          and_then save_index (λ _ s''. (ok true, s''))
            (record s' { index = (Value.remove k s'.index).1 }))
        s)

  unfoldable pub remove : Bytes → Exec Bool
  unfolding remove_known
  remove k s = if not (has k s.index) then (ok false, s) else remove_known k s

  -- The keys of the index, and the loop of `clear` over them.
  unfoldable pub keys_of : Entries → List Bytes
  keys_of no_entries = []
  keys_of (entry k v e) = k ∷ keys_of e

  unfoldable pub remove_all : List Bytes → Exec (Unit {0})
  unfolding remove
  remove_all [] s = (ok tt, s)
  remove_all (k ∷ ks) s = and_then (remove k) (λ _. remove_all ks) s

  unfoldable pub clear : Exec (Unit {0})
  unfolding keys_of remove_all
  clear s = remove_all (keys_of s.index) s

  unfoldable pub size : Disk → ℕ
  size s = size_dict s.index

  unfoldable pub loaded : Disk → Bool
  loaded s = not (is_empty s.path)

  -- `load`, given whether the directory exists.
  unfoldable pub load : ℕ → Bool → Bytes → Exec (Unit {0})
  load f exists path s =
      if is_empty path
      then (aborted, s)
      else if not exists
      then (thrown, s)
      else (elim (load_dict l d f s.files (get_index_file l d path) s.index) [
        | ok e ↦ (ok tt, record s { path = path; index = e })
        | thrown ↦ (thrown, record s { path = path })
        | aborted ↦ (aborted, s)
        | out_of_fuel ↦ (out_of_fuel, s)
      ])

  -- The loops of `import_from` and `export_to`. `import_from` takes an id for each entry.
  unfoldable pub import_entries : List Bytes → Entries → Exec (Unit {0})
  unfolding set_intern
  import_entries ids no_entries s = (ok tt, s)
  import_entries [] (entry k v e) s = (out_of_fuel, s)
  import_entries (id ∷ ids) (entry k v e) s =
      and_then (set_intern id k v) (λ _. import_entries ids e) s

  unfoldable pub import_from : List Bytes → Entries → Exec (Unit {0})
  unfolding import_entries save_index
  import_from ids e = and_then (import_entries ids e) (λ _. save_index)

  unfoldable pub export_entries : ℕ → List Bytes → Entries → Exec Entries
  unfolding get_value
  export_entries f [] out s = (ok out, s)
  export_entries f (k ∷ ks) out s =
      and_then (get_value f k) (λ v. export_entries f ks (Value.assign k v out)) s

  unfoldable pub export_to : ℕ → Entries → Exec Entries
  unfolding export_entries keys_of
  export_to f out s = export_entries f (keys_of s.index) out s
