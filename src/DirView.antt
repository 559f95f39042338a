-- ===== src/DirView.antt =====
-- Names on the backend and the listing of an encrypted directory: src/dir_view.rs, and the plain
-- entries of src/worker.rs. The lower case of a name, a table of Unicode, is an argument.
pub mod Sorting
pub mod Listing
pub mod OnDisk
use rabbit_storage_explorer.Base.{
  ℕ, suc, min, Bool, true, false, ◌&&◌, not, Option, none, some, List, [], ◌∷◌, ◌++◌, take, length,
  map, Text, text, text_lt, if◌then◌else◌, Result, ok, err, ◌>>=◌,
}
use rabbit_storage_explorer.Base.Dict
use rabbit_storage_explorer.Paths.{leaf_of, map_segments}
use rabbit_storage_explorer.Crypto.Primitives.{Primitives}
use rabbit_storage_explorer.Crypto.Stream.{VaultKeys}
use rabbit_storage_explorer.Crypto.Names.{encrypt_name, decrypt_name}
use rabbit_storage_explorer.Manifest.Defs.{
  FileEntry, FolderEntry, Manifest, hash_entry, is_manifest_key, looks_like_hash, name_for,
}
use rabbit_storage_explorer.Manifest.Ops.{is_some}
use rabbit_storage_explorer.Storage.{RawObject, RemoteEntry}

pub data EntryKind : Type 0 where
  known orphan foreign : EntryKind

pub record DirListing : Type 0 where
  pub entries : List RemoteEntry
  pub orphan_count : ℕ

-- `unwrap_or`
abbrev pub unwrap_or {ℓ} : {A : Type ℓ} → Option A → A → A
unwrap_or none a = a
unwrap_or (some b) a = b

abbrev pub bool_eq : Bool → Bool → Bool
bool_eq a b = if a then b else not b

-- The comparison of `sort_by` is `Less`: folders come first, then the names in lower case.
unfoldable pub precedes : (Text → Text) → RemoteEntry → RemoteEntry → Bool
precedes lower a b =
    if bool_eq a.is_dir b.is_dir then text_lt (lower a.name) (lower b.name) else a.is_dir

-- A stable sort: an entry goes before the first that does not precede it.
unfoldable pub insert_sorted : (Text → Text) → RemoteEntry → List RemoteEntry → List RemoteEntry
insert_sorted lower x [] = x ∷ []
insert_sorted lower x (y ∷ ys) =
    let rest = insert_sorted lower x ys in if precedes lower y x then y ∷ rest else x ∷ y ∷ ys

unfoldable pub sort_entries : (Text → Text) → List RemoteEntry → List RemoteEntry
sort_entries lower [] = []
sort_entries lower (x ∷ xs) = insert_sorted lower x (sort_entries lower xs)

abbrev pub counted : EntryKind → ℕ → ℕ
counted orphan n = suc n
counted known n = n
counted foreign n = n

module _ {J : Type 0} where
  unfoldable pub kind_of : Manifest J → Text → EntryKind
  kind_of manifest leaf =
      if is_some (name_for manifest leaf)
      then known
      else if looks_like_hash leaf
      then orphan
      else foreign

  abbrev pub folder_size : Option (FolderEntry J) → ℕ
  folder_size none = 0
  folder_size (some f) = unwrap_or f.size 0

  abbrev pub file_size : Option (FileEntry J) → ℕ → ℕ
  file_size none raw = raw
  file_size (some f) raw = f.size

  unfoldable pub size_of : Manifest J → RawObject → Text → ℕ
  size_of manifest o leaf =
      if o.is_prefix
      then folder_size (Dict.get manifest.folders leaf)
      else file_size (Dict.get manifest.files leaf) o.size

  -- The name, the size and the mark of an entry of each kind.
  unfoldable pub shown : Manifest J → RawObject → Text → EntryKind → Text × ℕ × Option Bool
  unfolding size_of
  shown manifest o leaf known =
      (unwrap_or (name_for manifest leaf) leaf, size_of manifest o leaf, some true)
  shown manifest o leaf orphan =
      (text "[unrecovered] " ++ take (min 16 (length leaf)) leaf, o.size, some false)
  shown manifest o leaf foreign = (leaf, o.size, some false)

  unfoldable pub listed : Manifest J → RawObject → RemoteEntry
  unfolding shown kind_of
  listed manifest o =
      let leaf = leaf_of o.key in
      let (name, size, encrypted) = shown manifest o leaf (kind_of manifest leaf) in
      record {
        key = o.key;
        name = name;
        is_dir = o.is_prefix;
        size = size;
        modified = o.modified;
        encrypted = encrypted;
      }

  -- The loop over the raw entries.
  unfoldable pub list_all : Manifest J → List RawObject → List RemoteEntry × ℕ
  list_all manifest [] = ([], 0)
  list_all manifest (o ∷ raw) =
      let (entries, orphans) = list_all manifest raw in
      if is_manifest_key (leaf_of o.key)
      then (entries, orphans)
      else (listed manifest o ∷ entries, counted (kind_of manifest (leaf_of o.key)) orphans)

  unfoldable pub build_listing : (Text → Text) → List RawObject → Manifest J → DirListing
  unfolding list_all sort_entries
  build_listing lower raw manifest =
      let (entries, orphans) = list_all manifest raw in
      record { entries = sort_entries lower entries; orphan_count = orphans }

module _ (P : Primitives) (keys : VaultKeys) where
  unfoldable pub on_disk_segment : Text → Result Text
  on_disk_segment name = do encrypted ← encrypt_name P keys name; ok (hash_entry P encrypted)

  unfoldable pub on_disk_path : Text → Result Text
  unfolding on_disk_segment
  on_disk_path path = map_segments path on_disk_segment

-- `raw_to_entry` of src/worker.rs.
abbrev pub plain_name : Primitives → Option VaultKeys → Text → Text × Option Bool
plain_name P none raw_name = (raw_name, none)
plain_name P (some k) raw_name = elim (decrypt_name P k raw_name) [
  | ok n ↦ (n, some true)
  | err e ↦ (raw_name, some false)
]

unfoldable pub raw_to_entry : Primitives → RawObject → Option VaultKeys → RemoteEntry
raw_to_entry P o keys =
    let (name, encrypted) = plain_name P keys (leaf_of o.key) in
    record {
      key = o.key;
      name = name;
      is_dir = o.is_prefix;
      size = o.size;
      modified = o.modified;
      encrypted = encrypted;
    }
