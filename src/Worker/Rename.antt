-- ===== src/Worker/Rename.antt =====
-- `run_rename` of src/worker.rs. Whether a text is blank, by Unicode's white space, is an argument.
use rabbit_storage_explorer.Base.{
  ℕ, Bool, false, ◌||◌, Option, none, some, [], ◌∷◌, ◌++◌, Bytes, Text, text_eq, slash, ◌==◌,
  if◌then◌else◌, ok, invalid_name, already_exists,
}
use rabbit_storage_explorer.Base.Exec.{Exec, ◌>>=◌, pure, fail, lift}
use rabbit_storage_explorer.Paths.{parent_prefix, trim_slashes}
use rabbit_storage_explorer.Storage.{StorageBackend}
use rabbit_storage_explorer.Crypto.Primitives.{Primitives}
use rabbit_storage_explorer.Crypto.Stream.{VaultKeys}
use rabbit_storage_explorer.Crypto.Names.{encrypt_name}
use rabbit_storage_explorer.Manifest.Defs.{hash_entry, name_for}
use rabbit_storage_explorer.Manifest.Ops
use rabbit_storage_explorer.Manifest.Ops.{is_some}
use rabbit_storage_explorer.Manifest.Blob.{Codec}
use rabbit_storage_explorer.ManifestStore.Plan.{forced}
use rabbit_storage_explorer.ManifestStore.State.{World}
use rabbit_storage_explorer.ManifestStore.Ops.{remotely, load, edit, flush, forget}
use rabbit_storage_explorer.Worker.{ends_with_slash}

-- `contains('/')`
unfoldable pub has_slash : Text → Bool
has_slash [] = false
has_slash (c ∷ s) = c == slash || has_slash s

-- The keys of a rename from and to.
unfoldable pub rename_target : Text → Bool → Text → Text × Text
rename_target key is_dir new_segment =
    let parent = parent_prefix key in
    let from = if ends_with_slash key then key else key ++ (slash ∷ []) in
    if is_dir then (from, parent ++ (new_segment ++ (slash ∷ []))) else (key, parent ++ new_segment)

module _ {J : Type 0} (P : Primitives) (C : Codec J) (B : StorageBackend) (draw : ℕ → Bytes)
    (is_blank : Text → Bool) where
  -- A rename of the object in place, unless it has the name already.
  unfoldable pub rename_plain : Text → Bool → Text → Exec (World B.State J) (Unit {0})
  rename_plain key is_dir new_name =
      let (from, to) = rename_target key is_dir new_name in
      if text_eq to from then pure tt else remotely (B.rename from to)

  -- The buffered manifest of a folder is dropped under its key without the final slash.
  unfoldable pub forget_renamed : Bool → Text → Exec (World B.State J) (Unit {0})
  forget_renamed is_dir from w =
      (ok tt, if is_dir then forget P C B draw (trim_slashes from) w else w)

  -- What follows the collision guard.
  unfoldable pub rename_recorded :
      VaultKeys → Text → Bool → Text → Text → Text → Exec (World B.State J) (Unit {0})
  unfolding forget_renamed
  rename_recorded keys key is_dir old_enc new_enc new_name = do
    let (from, to) = rename_target key is_dir (hash_entry P new_enc)
    _ ← remotely (B.rename from to)
    _ ← forget_renamed is_dir from
    _ ←
        edit P C B draw keys (parent_prefix key)
          (λ m. (Ops.rename_entry P m old_enc new_enc new_name).1)
    _ ← flush P C B draw keys forced
    pure tt

  -- Nothing is done for the same hashed name, and a name that is taken is refused.
  unfoldable pub guarded_rename :
      VaultKeys → Text → Bool → Text → Text → Text → Exec (World B.State J) (Unit {0})
  unfolding rename_recorded
  guarded_rename keys key is_dir old_enc new_enc new_name =
      let new_hash = hash_entry P new_enc in
      if text_eq (hash_entry P old_enc) new_hash
      then pure tt
      else load P C B draw keys (parent_prefix key) >>= λ existing.
          if is_some (name_for existing new_hash)
          then fail already_exists
          else rename_recorded keys key is_dir old_enc new_enc new_name

  unfoldable pub rename_encrypted :
      VaultKeys → Text → Bool → Text → Text → Exec (World B.State J) (Unit {0})
  unfolding guarded_rename
  rename_encrypted keys key is_dir old_name new_name = do
    old_enc ← lift (encrypt_name P keys old_name)
    new_enc ← lift (encrypt_name P keys new_name)
    guarded_rename keys key is_dir old_enc new_enc new_name

  unfoldable pub run_rename :
      Option VaultKeys → Text → Bool → Text → Text → Bool → Exec (World B.State J) (Unit {0})
  unfolding rename_encrypted rename_plain
  run_rename session_keys key is_dir old_name new_name encrypted =
      if is_blank new_name || has_slash new_name then fail invalid_name else elim session_keys [
        | none ↦ rename_plain key is_dir new_name
        | some keys ↦
            if encrypted
            then rename_encrypted keys key is_dir old_name new_name
            else rename_plain key is_dir new_name
      ]
