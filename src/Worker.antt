-- ===== src/Worker.antt =====
-- The operations of src/worker.rs on folders and items: creating, deleting, moving and renaming, over a
-- backend and the buffer of manifests. One operation runs at a time; the keys are those of the
-- session, none if it is not encrypted.
pub mod Moves
pub mod Rename
pub mod Sizes
pub mod Folders
pub mod Stale
use rabbit_storage_explorer.Base.{
  ℕ, ◌+◌, Bool, true, false, ◌||◌, Option, none, some, List, [], ◌∷◌, ◌++◌, map, length, Bytes,
  Text, text, text_eq, slash, ◌==◌, if◌then◌else◌, Result, ok, err,
}
use rabbit_storage_explorer.Base.Exec.{Exec, ◌>>=◌, pure, lift, ignoring, outcome}
use rabbit_storage_explorer.Paths.{leaf_of, parent_prefix, trim_slashes}
use rabbit_storage_explorer.Storage.{StorageBackend, RemoteEntry, RawObject}
use rabbit_storage_explorer.Crypto.Primitives.{Primitives}
use rabbit_storage_explorer.Crypto.Stream.{VaultKeys}
use rabbit_storage_explorer.Crypto.Names.{encrypt_name}
use rabbit_storage_explorer.Manifest.Defs.{Entry, Manifest, hash_entry}
use rabbit_storage_explorer.Manifest.Ops
use rabbit_storage_explorer.Manifest.Blob.{Codec}
use rabbit_storage_explorer.ManifestStore.Plan.{forced}
use rabbit_storage_explorer.ManifestStore.State.{World}
use rabbit_storage_explorer.ManifestStore.Ops.{
  remotely, edit, flush, forget, take_entry, insert_entry,
}

-- `starts_with`: the first text begins with the second.
unfoldable pub starts_with : Text → Text → Bool
starts_with s [] = true
starts_with [] (b ∷ t) = false
starts_with (a ∷ s) (b ∷ t) = let rest = starts_with s t in if a == b then rest else false

unfoldable pub ends_with_slash : Text → Bool
ends_with_slash [] = false
ends_with_slash (c ∷ []) = c == slash
ends_with_slash (c ∷ d ∷ s) = ends_with_slash (d ∷ s)

-- The keys of a move from and to, or `none` where it is skipped: the item is there already, or is a
-- folder that would go into itself or below.
unfoldable pub move_target : Text → RemoteEntry → Option (Text × Text)
move_target dest_prefix item =
    let leaf = leaf_of item.key in
    let from = if ends_with_slash item.key then item.key else item.key ++ (slash ∷ []) in
    let folder_to = dest_prefix ++ (leaf ++ (slash ∷ [])) in
    let file_to = dest_prefix ++ leaf in
    if item.is_dir
    then (if text_eq folder_to from || starts_with dest_prefix from
        then none
        else some (from, folder_to))
    else if text_eq file_to item.key
    then none
    else some (item.key, file_to)

module _ {J : Type 0} (P : Primitives) (C : Codec J) (B : StorageBackend) (draw : ℕ → Bytes)
    (session_keys : Option VaultKeys) where
  -- `let _ = flush(..)` of an encrypted session.
  unfoldable pub final_flush : Option VaultKeys → Exec (World B.State J) (Unit {0})
  final_flush none = pure tt
  final_flush (some keys) = ignoring (flush P C B draw keys forced) (pure tt)

  -- `if let Ok(Some(entry))`
  unfoldable pub put_entry :
      VaultKeys → Text → Text → Result (Option (Entry J)) → Exec (World B.State J) (Unit {0})
  put_entry keys dest enc (ok (some entry)) =
      ignoring (insert_entry P C B draw keys dest enc entry) (pure tt)
  put_entry keys dest enc (ok none) = pure tt
  put_entry keys dest enc (err e) = pure tt

  unfoldable pub move_record :
      Option VaultKeys → Text → RemoteEntry → Exec (World B.State J) (Unit {0})
  unfolding put_entry
  move_record none dest_prefix item = pure tt
  move_record (some keys) dest_prefix item = elim (encrypt_name P keys item.name) [
    | err e ↦ pure tt
    | ok enc ↦ do
      taken ← outcome (take_entry P C B draw keys (parent_prefix item.key) enc)
      put_entry keys dest_prefix enc taken
  ]

  unfoldable pub move_items : Text → List RemoteEntry → ℕ → Exec (World B.State J) ℕ
  unfolding move_record
  move_items dest_prefix [] moved = pure moved
  move_items dest_prefix (item ∷ items) moved = elim (move_target dest_prefix item) [
    | none ↦ move_items dest_prefix items moved
    | some (from, to) ↦ do
      _ ← remotely (B.rename from to)
      _ ← move_record session_keys dest_prefix item
      move_items dest_prefix items (moved + 1)
  ]

  unfoldable pub run_move : List RemoteEntry → Text → Exec (World B.State J) ℕ
  unfolding move_items final_flush
  run_move items dest_prefix = do
    moved ← move_items dest_prefix items 0
    _ ← final_flush session_keys
    pure moved

  -- The keys to delete: of a folder all that stands below it, and its marker.
  unfoldable pub collect_keys : List RemoteEntry → Exec (World B.State J) (List Text)
  collect_keys [] = pure []
  collect_keys (item ∷ items) =
      if item.is_dir
      then (do
        below ← remotely (B.list_recursive item.key)
        rest ← collect_keys items
        pure (map (λ o. o.key) below ++ (item.key ∷ rest)))
      else (do rest ← collect_keys items; pure (item.key ∷ rest))

  -- The call of `edit` that drops the record of an item, its error dropped.
  unfoldable pub drop_record : VaultKeys → RemoteEntry → Exec (World B.State J) (Unit {0})
  drop_record keys item = elim (encrypt_name P keys item.name) [
    | err e ↦ pure tt
    | ok enc ↦
        ignoring (edit P C B draw keys (parent_prefix item.key) (λ m. (Ops.remove P m enc).1))
          (pure tt)
  ]

  -- The buffered manifest of a folder is dropped under its key without the final slash.
  unfoldable pub forget_folder : RemoteEntry → Exec (World B.State J) (Unit {0})
  forget_folder item w =
      (ok tt, if item.is_dir then forget P C B draw (trim_slashes item.key) w else w)

  unfoldable pub drop_records : VaultKeys → List RemoteEntry → Exec (World B.State J) (Unit {0})
  unfolding drop_record forget_folder
  drop_records keys [] = pure tt
  drop_records keys (item ∷ items) = do
    _ ← drop_record keys item
    _ ← forget_folder item
    drop_records keys items

  unfoldable pub delete_records :
      Option VaultKeys → List RemoteEntry → Exec (World B.State J) (Unit {0})
  unfolding drop_records
  delete_records none items = pure tt
  delete_records (some keys) items = do _ ← drop_records keys items; final_flush (some keys)

  unfoldable pub run_delete : List RemoteEntry → Exec (World B.State J) ℕ
  unfolding collect_keys delete_records
  run_delete items = do
    ks ← collect_keys items
    _ ← remotely (B.delete ks)
    _ ← delete_records session_keys items
    pure (length ks)

  -- The segment on the backend, and the encrypted name of an encrypted session.
  unfoldable pub folder_segment : Option VaultKeys → Text → Result (Text × Option Text)
  folder_segment none name = ok (name, none)
  folder_segment (some keys) name = elim (encrypt_name P keys name) [
    | err e ↦ err e
    | ok enc ↦ ok (hash_entry P enc, some enc)
  ]

  unfoldable pub record_folder :
      Option VaultKeys → Option Text → Text → Text → Exec (World B.State J) (Unit {0})
  record_folder (some keys) (some enc) prefix name = do
    _ ← edit P C B draw keys prefix (λ m. Ops.upsert_folder P m enc name)
    _ ← flush P C B draw keys forced
    pure tt
  record_folder (some keys) none prefix name = pure tt
  record_folder none enc prefix name = pure tt

  -- `is_s3`: the profile is of the kind S3, where a folder is an empty object.
  unfoldable pub create_folder : Bool → Text → Text → Exec (World B.State J) (Unit {0})
  unfolding folder_segment record_folder
  create_folder is_s3 prefix name = do
    (segment, enc) ← lift (folder_segment session_keys name)
    let key = prefix ++ (segment ++ (slash ∷ []))
    _ ← if is_s3 then remotely (B.put key []) else remotely (B.prepare_parents (key ++ text "x"))
    record_folder session_keys enc prefix name
