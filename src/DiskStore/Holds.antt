-- ===== src/DiskStore/Holds.antt =====
-- util/disk_store.cpp: what it means that a store on disk holds a map from keys to values.
use firestr.Prelude.{
  ◌≡◌, ◌≢◌, refl, sym, ap, ◌∙◌, subst, true, false, Bytes, bytes_eq, bytes_eq_iff, bytes_key,
  Option, none, some, ok, arith, length, if◌then◌else◌, All, of_some, Bool-cases, inl, inr,
}
use firestr.Prelude.Maps.{find, assign, find-assign}
use firestr.Mencode.Value.{Value, Entries, blob, dict, at, has}
use firestr.Mencode.Lexical.{Lexical, IsSize}
use firestr.Mencode.Encode.{encode}
use firestr.Mencode.Encodable.{IsEncodable, AreEntries}
use firestr.Post.Office.{is_empty}
use firestr.DiskStore.Disk.{Drive, Files, Disk, index_name, get_index_file, get_value_file}

-- A name of a file in the directory of a store.
abbrev pub IsPlain : Bytes → Type 0
IsPlain = All (λ c. c ≢ b'/')

-- The name of a value's file: the index has one of its own.
pub record IsName (id : Bytes) : Type 0 where
  pub nonempty : is_empty id ≡ false
  pub sized : IsSize (length id)
  pub plain : IsPlain id
  pub no_index : id ≢ index_name

-- Plain names in a directory stand for different files, and every file can be written.
pub record IsDrive (d : Drive) : Type 0 where
  pub apart : (dir a b : Bytes) → IsPlain a → IsPlain b → d.join dir a ≡ d.join dir b → a ≡ b
  pub named : (dir a : Bytes) → is_empty (d.join dir a) ≡ false
  pub opens : (name : Bytes) → d.writable name ≡ true

-- The map with one key changed.
abbrev pub update : (Bytes → Option Value) → Bytes → Option Value → Bytes → Option Value
update m k o j = if bytes_eq k j then o else m j

module _ (l : Lexical) (d : Drive) where
  -- The index has exactly the keys of the map, each with the name of a file of its own, which has
  -- the value's text.
  pub record Holds (s : Disk) (m : Bytes → Option Value) : Type 0 where
    pub pathed : is_empty s.path ≡ false
    pub entries : AreEntries s.index
    pub missing : (k : Bytes) → m k ≡ none → has k s.index ≡ false
    pub there :
        (k : Bytes) (v : Value)
        → m k ≡ some v
        → (id : Bytes) × (at k s.index ≡ ok (blob id))
          × IsName id
          × (find (get_value_file l d s.path id) s.files ≡ some (encode l v))
          × IsEncodable v
    pub separate :
        (j k id : Bytes) → at j s.index ≡ ok (blob id) → at k s.index ≡ ok (blob id) → j ≡ k

  -- The index is on the disk as it is in memory.
  pub record IsSaved (s : Disk) : Type 0 where
    pub saved : find (get_index_file l d s.path) s.files ≡ some (encode l (dict s.index))

  module _ (drive : IsDrive d) where
    pub index_name-IsPlain : IsPlain index_name
    index_name-IsPlain =
        (omega arith, (omega arith, (omega arith, (omega arith, (omega arith, tt)))))

    pub files_apart :
        (dir a b : Bytes)
        → IsPlain a
        → IsPlain b
        → a ≢ b
        → bytes_eq (d.join dir a) (d.join dir b) ≡ false
    files_apart dir a b p q n = elim (Bool-cases (bytes_eq (d.join dir a) (d.join dir b))) [
      | inl e ↦ absurd (n (drive.apart dir a b p q ((bytes_eq_iff _ _).0 e)))
      | inr e ↦ e
    ]

    -- The files after a value and the index are written.
    abbrev pub written : Bytes → Bytes → Value → Entries → Files → Files
    written dir id v index files =
        assign (get_index_file l d dir) (encode l (dict index))
          (assign (get_value_file l d dir id) (encode l v) files)

    find-written_self :
        (dir id : Bytes) (v : Value) (index : Entries) (files : Files)
        → IsName id
        → find (get_value_file l d dir id) (written dir id v index files) ≡ some (encode l v)
    unfolding get_value_file get_index_file
    find-written_self dir id v index files n =
        let other : bytes_eq (d.join dir index_name) (d.join dir id) ≡ false =
          files_apart dir index_name id index_name-IsPlain n.plain (λ e. n.no_index (sym e)) in
        find-assign (d.join dir index_name) (d.join dir id) (encode l (dict index))
          (assign (d.join dir id) (encode l v) files)
        ∙ rw other (
            find-assign (d.join dir id) (d.join dir id) (encode l v) files
            ∙ rw ((bytes_eq_iff (d.join dir id) (d.join dir id)).1 refl) refl)

    find-written_other :
        (dir id other : Bytes) (v : Value) (index : Entries) (files : Files)
        → IsName id
        → IsName other
        → id ≢ other
        → find (get_value_file l d dir other) (written dir id v index files)
          ≡ find (get_value_file l d dir other) files
    unfolding get_value_file get_index_file
    find-written_other dir id other v index files n m ne =
        let no_index : bytes_eq (d.join dir index_name) (d.join dir other) ≡ false =
          files_apart dir index_name other index_name-IsPlain m.plain (λ e. m.no_index (sym e)) in
        let no_value : bytes_eq (d.join dir id) (d.join dir other) ≡ false =
          files_apart dir id other n.plain m.plain ne in
        find-assign (d.join dir index_name) (d.join dir other) (encode l (dict index))
          (assign (d.join dir id) (encode l v) files)
        ∙ rw no_index
            (find-assign (d.join dir id) (d.join dir other) (encode l v) files ∙ rw no_value refl)

    -- An index that gives one key the name of a file that no other key has.
    pub record Names (index old : Entries) (k id : Bytes) : Type 0 where
      pub ordered : AreEntries index
      pub here : at k index ≡ ok (blob id)
      pub name : IsName id
      pub same_at : (j : Bytes) → bytes_eq k j ≡ false → at j index ≡ at j old
      pub same_has : (j : Bytes) → bytes_eq k j ≡ false → has j index ≡ has j old
      pub unused : (j : Bytes) → at j index ≡ ok (blob id) → k ≡ j

    -- Who shares a file with the key is the key.
    only_key :
        (index old : Entries) (k id i j file : Bytes)
        → Names index old k id
        → bytes_eq k i ≡ true
        → at i index ≡ ok (blob file)
        → at j index ≡ ok (blob file)
        → i ≡ j
    only_key index old k id i j file n eq e f =
        let ki : k ≡ i = (bytes_eq_iff k i).0 eq in
        let mine : at i index ≡ ok (blob id) = subst (λ a. at a index ≡ ok (blob id)) ki n.here in
        let same : file ≡ id = cc (e, mine) in
        sym ki ∙ n.unused j (subst (λ x. at j index ≡ ok (blob x)) same f)

    pub written-Holds :
        (s : Disk) (m : Bytes → Option Value) (index : Entries) (k id : Bytes) (v : Value)
        → Holds s m
        → Names index s.index k id
        → IsEncodable v
        → Holds
            (record s { index = index; files = written s.path id v index s.files })
            (update m k (some v))
    written-Holds s m index k id v h n x = record {
      pathed = h.pathed;
      entries = n.ordered;
      missing = λ j e. elim (Bool-cases (bytes_eq k j)) [
        | inl eq ↦ cc (rw eq at e)
        | inr ne ↦ n.same_has j ne ∙ h.missing j (rw ne at e)
      ];
      there = λ j w e. elim (Bool-cases (bytes_eq k j)) [
        | inl eq ↦
            let kj : k ≡ j = (bytes_eq_iff k j).0 eq in
            let vw : v ≡ w = of_some (λ u. v ≡ u) (rw eq at e) refl in
            (
              id,
              subst (λ i. at i index ≡ ok (blob id)) kj n.here,
              n.name,
              find-written_self s.path id v index s.files n.name ∙ ap (λ u. some (encode l u)) vw,
              subst IsEncodable vw x,
            )
        | inr ne ↦
            let (id', a, name, f, y) = h.there j w (rw ne at e) in
            let now = n.same_at j ne ∙ a in
            (
              id',
              now,
              name,
              find-written_other s.path id id' v index s.files n.name name (λ q. cc (
                (bytes_eq_iff k j).1
                    (n.unused j (subst (λ u. at j index ≡ ok (blob u)) (sym q) now)),
                ne,
              ))
                  ∙ f,
              y,
            )
      ];
      separate = λ i j file e f. elim (Bool-cases (bytes_eq k i)) [
        | inl eq ↦ only_key index s.index k id i j file n eq e f
        | inr ne ↦ elim (Bool-cases (bytes_eq k j)) [
          | inl eq ↦ sym (only_key index s.index k id j i file n eq f e)
          | inr ne' ↦ h.separate i j file (sym (n.same_at i ne) ∙ e) (sym (n.same_at j ne') ∙ f)
        ]
      ];
    }
