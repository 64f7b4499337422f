-- ===== src/DiskStore/Reads.antt =====
-- util/disk_store.cpp: what `get` and `load` read, and what `get` of a missing key leaves behind.
use firestr.Prelude.{
  ℕ, ◌<◌, ◌*◌, ◌≡◌, refl, ap, ◌∙◌, subst, true, false, [], Bytes, bytes_key, Option, some, ok,
  thrown, length, append-nil, bytes_eq_iff,
}
use firestr.Prelude.Maps.{find}
use firestr.Mencode.Value.{
  Value, Entries, empty, blob, dict, no_entries, at, has, as_string, as_bytes,
}
use firestr.Mencode.Value
use firestr.Mencode.Lexical.{Lexical, IsFaithful}
use firestr.Mencode.Encode.{encode}
use firestr.Mencode.Decode.{decode_value, decode_dict}
use firestr.Mencode.Reads.{on}
use firestr.Mencode.Encodable.{IsEncodable, AreEntries}
use firestr.Mencode.RoundTrip.{decode_value-encode, decode_dict-encode}
use firestr.Envelope.{stream_of}
use firestr.Post.Office.{is_empty}
use firestr.DiskStore.Disk.{
  Drive, Files, Disk, get_index_file, get_value_file, load_value, load_dict,
}
use firestr.DiskStore.Store.{index_value, id_of, get_value, get, choose_id, set_intern, set, load}
use firestr.DiskStore.Lookup.{at-missing, at-assign, has-assign}
use firestr.DiskStore.Holds.{Holds, IsSaved}
use firestr.DiskStore.Refines.{id_of_there, index_value_there}

module _ (l : Lexical) (d : Drive) (faithful : IsFaithful l) where
  load_value_there :
      (f : ℕ) (files : Files) (name : Bytes) (v : Value)
      → find name files ≡ some (encode l v)
      → IsEncodable v
      → 3 * length (encode l v) < f
      → load_value l d f files name ≡ ok v
  unfolding load_value
  load_value_there f files name v e x h =
      let (s', b', r) = decode_value-encode l faithful v [] [] [] f x h in
      let read : decode_value l f (stream_of (encode l v)) ≡ ok (v, on [] s' b') =
        subst (λ t. decode_value l f (stream_of t) ≡ ok (v, on [] s' b')) (append-nil (encode l v))
          r in
      rw (e, load_value) (rw read refl)

  load_dict_there :
      (f : ℕ) (files : Files) (name : Bytes) (index old : Entries)
      → find name files ≡ some (encode l (dict index))
      → AreEntries index
      → 3 * length (encode l (dict index)) < f
      → load_dict l d f files name old ≡ ok index
  unfolding load_dict
  load_dict_there f files name index old e x h =
      let (s', b', r) = decode_dict-encode l faithful index x [] [] [] f h in
      let read : decode_dict l f (stream_of (encode l (dict index))) ≡ ok (index, on [] s' b') =
        subst (λ t. decode_dict l f (stream_of t) ≡ ok (index, on [] s' b'))
          (append-nil (encode l (dict index))) r in
      rw (e, load_dict) (rw read refl)

  -- With a faithful lexical_cast and fuel above three times the length of the value's text, get of
  -- a key that the map of the store binds returns the value and leaves the store as it was.
  pub get_lem :
      (s : Disk) (m : Bytes → Option Value) (k : Bytes) (v : Value) (f : ℕ)
      → Holds l d s m
      → m k ≡ some v
      → 3 * length (encode l v) < f
      → get l d f k s ≡ (ok v, s)
  unfolding get get_value
  get_lem s m k v f h e p =
      let (id, a, n, file, x) = h.there k v e in
      rw
        (
          h.pathed,
          id_of_there k id s a,
          load_value_there f s.files (get_value_file l d s.path id) v file x p,
        )
        refl

  -- x
  pub load_lem :
      (s : Disk) (m : Bytes → Option Value) (f : ℕ)
      → Holds l d s m
      → IsSaved l d s
      → 3 * length (encode l (dict s.index)) < f
      → load l d f true s.path (record { path = []; index = no_entries; files = s.files })
        ≡ (ok tt, s)
  unfolding load
  load_lem s m f h w p =
      rw
        (
          h.pathed,
          load_dict_there f s.files (get_index_file l d s.path) s.index no_entries w.saved h.entries
              p,
        )
        refl

module _ (l : Lexical) (d : Drive) where
  index_value_missing :
      (k : Bytes) (e : Entries)
      → has k e ≡ false
      → index_value k e ≡ (empty, Value.assign k empty e)
  unfolding index_value
  index_value_missing k e h = rw (at-missing k e h, index_value) refl

  id_of-empty :
      (k : Bytes) (s : Disk) (index : Entries)
      → index_value k s.index ≡ (empty, index)
      → id_of k s ≡ (thrown, record s { index = index })
  unfolding id_of as_string as_bytes
  id_of-empty k s index e = ap (λ p. (as_string p.0, record s { index = p.1 })) e

  -- get of a key that a loaded store does not have throws and leaves an empty value in the index:
  -- has answers true for the key afterwards, and every set of the key throws and changes nothing.
  pub get_missing :
      (s : Disk) (k new : Bytes) (v : Value) (f : ℕ)
      → is_empty s.path ≡ false
      → has k s.index ≡ false
      → let s' : Disk = record s { index = Value.assign k empty s.index } in
        (get l d f k s ≡ (thrown, s'))
        × (has k s'.index ≡ true)
        × (set l d new k v s' ≡ (thrown, s'))
  unfolding get get_value set set_intern choose_id
  get_missing s k new v f p h =
      let index = Value.assign k empty s.index in
      let s' : Disk = record s { index = index } in
      let self = (bytes_eq_iff k k).1 refl in
      let there : has k index ≡ true = has-assign k k empty s.index ∙ rw self refl in
      let value : at k index ≡ ok empty = at-assign k k empty s.index ∙ rw self refl in
      let again : id_of k s' ≡ (thrown, s') =
        id_of-empty k s' index (index_value_there k empty index value) in
      (
        rw (p, id_of-empty k s index (index_value_missing k s.index h)) refl,
        there,
        rw (there, again) refl,
      )
