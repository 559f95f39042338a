-- ===== src/Manifest/Ops.antt =====
-- The operations of `Manifest` that change it: each returns the new manifest beside its result.
use rabbit_storage_explorer.Base.{ℕ, ℤ, Bool, true, false, ◌||◌, Option, none, some, [], Text}
use rabbit_storage_explorer.Base.Dict
use rabbit_storage_explorer.Crypto.Primitives.{Primitives}
use rabbit_storage_explorer.Manifest.Defs.{
  FileEntry, FolderEntry, Entry, file, folder, Manifest, hash_entry,
}

abbrev pub is_some {ℓ} : {A : Type ℓ} → Option A → Bool
is_some none = false
is_some (some a) = true

module _ {J : Type 0} where
  -- A folder that the caller puts in: its name anew, or an entry with no sizes.
  abbrev pub named : Option (FolderEntry J) → Text → FolderEntry J
  named (some existing) name = record existing { name = name }
  named none name = record { name = name; size = none; esize = none; computed = none; extra = [] }

  unfoldable pub upsert_file : Primitives → Manifest J → Text → Text → ℕ → Manifest J
  upsert_file P m encrypted_segment name size =
      let entry : FileEntry J = record { name = name; size = size; extra = [] } in
      record m { files = Dict.insert m.files (hash_entry P encrypted_segment) entry }

  unfoldable pub upsert_folder : Primitives → Manifest J → Text → Text → Manifest J
  upsert_folder P m encrypted_segment name =
      let key = hash_entry P encrypted_segment in
      record m { folders = Dict.insert m.folders key (named (Dict.get m.folders key) name) }

  unfoldable pub set_folder_size : Primitives → Manifest J → Text → ℕ → ℕ → ℤ → Manifest J
  set_folder_size P m encrypted_segment plaintext_total encrypted_total computed_ms =
      let key = hash_entry P encrypted_segment in
      elim (Dict.get m.folders key) [
        | none ↦ m
        | some d ↦
            let sized : FolderEntry J = record d {
              size = some plaintext_total;
              esize = some encrypted_total;
              computed = some computed_ms;
            } in
            record m { folders = Dict.insert m.folders key sized }
      ]

  -- Both maps are tried: `|` does not stop at the first.
  unfoldable pub remove : Primitives → Manifest J → Text → Bool × Manifest J
  remove P m encrypted_segment =
      let key = hash_entry P encrypted_segment in
      (
        is_some (Dict.get m.files key) || is_some (Dict.get m.folders key),
        record m { files = Dict.remove m.files key; folders = Dict.remove m.folders key },
      )

  unfoldable pub rename_entry : Primitives → Manifest J → Text → Text → Text → Bool × Manifest J
  rename_entry P m old_encrypted new_encrypted new_name =
      let old_key = hash_entry P old_encrypted in
      let new_key = hash_entry P new_encrypted in
      elim (Dict.get m.files old_key) [
        | some f ↦
            let renamed : FileEntry J = record f { name = new_name } in
            (true, record m { files = Dict.insert (Dict.remove m.files old_key) new_key renamed })
        | none ↦ elim (Dict.get m.folders old_key) [
          | some d ↦
              let renamed : FolderEntry J = record d { name = new_name } in
              (
                true,
                record m { folders = Dict.insert (Dict.remove m.folders old_key) new_key renamed },
              )
          | none ↦ (false, m)
        ]
      ]

  unfoldable pub take_file : Primitives → Manifest J → Text → Option (FileEntry J) × Manifest J
  take_file P m encrypted_segment =
      let key = hash_entry P encrypted_segment in
      (Dict.get m.files key, record m { files = Dict.remove m.files key })

  unfoldable pub take_folder : Primitives → Manifest J → Text → Option (FolderEntry J) × Manifest J
  take_folder P m encrypted_segment =
      let key = hash_entry P encrypted_segment in
      (Dict.get m.folders key, record m { folders = Dict.remove m.folders key })

  unfoldable pub insert_file_entry : Primitives → Manifest J → Text → FileEntry J → Manifest J
  insert_file_entry P m encrypted_segment entry = record m {
    files = Dict.insert m.files (hash_entry P encrypted_segment) entry;
  }

  unfoldable pub insert_folder_entry : Primitives → Manifest J → Text → FolderEntry J → Manifest J
  insert_folder_entry P m encrypted_segment entry = record m {
    folders = Dict.insert m.folders (hash_entry P encrypted_segment) entry;
  }

  -- The file if there is one, else what `take_folder` finds in the manifest that is left.
  abbrev folder_of : Option (FolderEntry J) × Manifest J → Option (Entry J) × Manifest J
  folder_of (some d, m) = (some (folder d), m)
  folder_of (none, m) = (none, m)

  abbrev file_or_folder :
      Primitives → Text → Option (FileEntry J) × Manifest J → Option (Entry J) × Manifest J
  file_or_folder P encrypted_segment (some f, m) = (some (file f), m)
  file_or_folder P encrypted_segment (none, m) = folder_of (take_folder P m encrypted_segment)

  unfoldable pub take_entry : Primitives → Manifest J → Text → Option (Entry J) × Manifest J
  take_entry P m encrypted_segment =
      file_or_folder P encrypted_segment (take_file P m encrypted_segment)

  unfoldable pub insert_entry : Primitives → Manifest J → Text → Entry J → Manifest J
  insert_entry P m encrypted_segment (file f) = insert_file_entry P m encrypted_segment f
  insert_entry P m encrypted_segment (folder d) = insert_folder_entry P m encrypted_segment d
