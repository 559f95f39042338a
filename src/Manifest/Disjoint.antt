-- ===== src/Manifest/Disjoint.antt =====
-- Every operation keeps a name from being a file and a folder, and a move between two manifests
-- loses nothing.
use rabbit_storage_explorer.Base.{
  ℕ, ◌≡◌, none, some, Text, text_eq, text_eq_iff, if◌then◌else◌, arith, [],
}
use rabbit_storage_explorer.Base.Dict.{get, get-insert, get-remove}
use rabbit_storage_explorer.Crypto.Primitives.{Primitives}
use rabbit_storage_explorer.Manifest.Defs.{FileEntry, Entry, file, folder, Manifest, hash_entry}
use rabbit_storage_explorer.Manifest.Ops.{
  named, upsert_file, upsert_folder, remove, take_file, take_folder, insert_file_entry,
  insert_folder_entry, take_entry, insert_entry,
}
use rabbit_storage_explorer.Manifest.View.{
  entry_at, IsDisjoint, entry_at-take_entry, entry_at-insert_entry,
}

module _ {J : Type 0} (P : Primitives) {m : Manifest J} (h : IsDisjoint m) where
  pub upsert_file-IsDisjoint :
      (enc name : Text) (size : ℕ)
      → get m.folders (hash_entry P enc) ≡ none
      → IsDisjoint (upsert_file P m enc name size)
  unfolding upsert_file
  upsert_file-IsDisjoint enc name size no_folder = record {
    at_key = λ k.
        let key = hash_entry P enc in
        let e : FileEntry J = record { name = name; size = size; extra = [] } in
        ground (arith, no_folder, h.at_key k, get-insert m.files key k e, text_eq_iff key k);
  }

  pub upsert_folder-IsDisjoint :
      (enc name : Text)
      → get m.files (hash_entry P enc) ≡ none
      → IsDisjoint (upsert_folder P m enc name)
  unfolding upsert_folder
  upsert_folder-IsDisjoint enc name no_file = record {
    at_key = λ k.
        let key = hash_entry P enc in
        ground (
          arith,
          no_file,
          h.at_key k,
          get-insert m.folders key k (named (get m.folders key) name),
          text_eq_iff key k,
        );
  }

  pub remove-IsDisjoint : (enc : Text) → IsDisjoint (remove P m enc).1
  unfolding remove
  remove-IsDisjoint enc = record {
    at_key = λ k.
        let key = hash_entry P enc in
        ground (arith, h.at_key k, get-remove m.files key k, get-remove m.folders key k);
  }

  pub take_entry-IsDisjoint : (enc : Text) → IsDisjoint (take_entry P m enc).1
  unfolding take_entry take_file take_folder
  take_entry-IsDisjoint enc = record {
    at_key = λ k.
        let key = hash_entry P enc in
        ground (arith, h.at_key k, get-remove m.files key k, get-remove m.folders key k);
  }

  pub insert_entry-IsDisjoint :
      (enc : Text) (e : Entry J)
      → entry_at m (hash_entry P enc) ≡ none
      → IsDisjoint (insert_entry P m enc e)
  unfolding insert_entry insert_file_entry insert_folder_entry entry_at
  insert_entry-IsDisjoint enc (file f) free = record {
    at_key = λ k.
        let key = hash_entry P enc in
        ground (arith, free, h.at_key k, get-insert m.files key k f, text_eq_iff key k);
  }
  insert_entry-IsDisjoint enc (folder d) free = record {
    at_key = λ k.
        let key = hash_entry P enc in
        ground (arith, free, h.at_key k, get-insert m.folders key k d, text_eq_iff key k);
  }

-- Taking an entry out of a manifest in which no name is a file and a folder, and inserting it under
-- the same encrypted name into another that has none there: the destination then has exactly what
-- the source had, the source has nothing there, and all other names of both are as they were.
pub insert_entry-take_entry :
    {J : Type 0} (P : Primitives) (src dest : Manifest J) (enc : Text) (e : Entry J)
    → IsDisjoint src
    → entry_at dest (hash_entry P enc) ≡ none
    → entry_at src (hash_entry P enc) ≡ some e
    → ((take_entry P src enc).0 ≡ some e)
      × ((k : Text)
          → entry_at (insert_entry P dest enc e) k
            ≡ (if text_eq (hash_entry P enc) k then entry_at src k else entry_at dest k))
      × ((k : Text)
          → entry_at (take_entry P src enc).1 k
            ≡ (if text_eq (hash_entry P enc) k then none else entry_at src k))
insert_entry-take_entry P src dest enc e h free here =
    let key = hash_entry P enc in
    (
      ground (arith, (entry_at-take_entry P src h enc key).0, here),
      λ k. ground (arith, entry_at-insert_entry P dest enc k e free, here, text_eq_iff key k),
      λ k. (entry_at-take_entry P src h enc k).1,
    )
