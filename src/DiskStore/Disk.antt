-- ===== src/DiskStore/Disk.antt =====
-- The files under a store, and load_from_file and save_to_file of util/mencode.hpp and delete_file
-- of util/filesystem.cpp. A call gives its outcome and the state after it, since what was changed
-- before an exception stays changed.
use firestr.Prelude.{
  ℕ, Bool, true, false, List, Bytes, bytes_key, none, some, Outcome, ok, thrown, aborted,
  out_of_fuel, ◌>>=◌, if◌then◌else◌, codes,
}
use firestr.Prelude.Maps.{find, assign, erase}
use firestr.Mencode.Value.{Value, Entries, empty}
use firestr.Mencode.Lexical.{Lexical}
use firestr.Mencode.Encode.{encode}
use firestr.Mencode.Decode.{decode_value, decode_dict}
use firestr.Envelope.{stream_of}
use firestr.Post.Office.{is_empty}

-- boost::filesystem: `p /= name`, and whether a file can be written.
pub record Drive : Type 0 where
  pub join : Bytes → Bytes → Bytes
  pub writable : Bytes → Bool

abbrev pub Files : Type 0
Files = List (Bytes × Bytes)

-- A `disk_store`, with the files of its drive.
pub record Disk : Type 0 where
  pub path : Bytes
  pub index : Entries
  pub files : Files

abbrev pub Exec {ℓ} : Type ℓ → Type ℓ
Exec A = Disk → Outcome A × Disk

module _ {ℓ κ} {A : Type ℓ} {B : Type κ} where
  abbrev pub continue : Outcome A → (A → Exec B) → Exec B
  continue (ok a) f s = f a s
  continue thrown f s = (thrown, s)
  continue aborted f s = (aborted, s)
  continue out_of_fuel f s = (out_of_fuel, s)

  abbrev pub and_then : Exec A → (A → Exec B) → Exec B
  and_then m f s = let (r, s') = m s in continue r f s'

abbrev pub index_name : Bytes
index_name = codes "index"

module _ (l : Lexical) (d : Drive) where
  -- `get_index_file` and `get_value_file`.
  unfoldable pub get_index_file : Bytes → Bytes
  get_index_file dir = d.join dir index_name

  unfoldable pub get_value_file : Bytes → Bytes → Bytes
  get_value_file dir id = d.join dir id

  -- `load_from_file` into an empty value: a file that cannot be read leaves it empty.
  unfoldable pub load_value : ℕ → Files → Bytes → Outcome Value
  load_value f files name = elim (find name files) [
    | none ↦ ok empty
    | some text ↦ do read ← decode_value l f (stream_of text); ok read.0
  ]

  -- `load_from_file` into a dictionary.
  unfoldable pub load_dict : ℕ → Files → Bytes → Entries → Outcome Entries
  load_dict f files name old = elim (find name files) [
    | none ↦ ok old
    | some text ↦ do read ← decode_dict l f (stream_of text); ok read.0
  ]

  unfoldable pub save_to_file : Bytes → Value → Exec (Unit {0})
  save_to_file name v s =
      if d.writable name
      then (ok tt, record s { files = assign name (encode l v) s.files })
      else (thrown, s)

  unfoldable pub delete_file : Bytes → Exec Bool
  delete_file name s = if is_empty name then (aborted, s) else (elim (find name s.files) [
    | none ↦ (ok false, s)
    | some _ ↦ (ok true, record s { files = erase name s.files })
  ])
