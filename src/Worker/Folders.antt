-- ===== src/Worker/Folders.antt =====
-- `expand_folder` of src/worker.rs, over the stack of directories that are left. Its walk is on fuel:
-- the depth of a tree on the backend has no bound of its own.
use rabbit_storage_explorer.Base.{
  ℕ, zero, suc, ◌||◌, Option, none, some, List, [], ◌∷◌, ◌++◌, Bytes, Text, slash, if◌then◌else◌,
  Result, ok, err, out_of_fuel,
}
use rabbit_storage_explorer.Base.Dict
use rabbit_storage_explorer.Base.Exec.{Exec, ◌>>=◌, pure, fail, outcome}
use rabbit_storage_explorer.Paths.{leaf_of, parent_prefix, trim_slashes}
use rabbit_storage_explorer.Storage.{StorageBackend, RemoteEntry, RawObject}
use rabbit_storage_explorer.Crypto.Primitives.{Primitives}
use rabbit_storage_explorer.Crypto.Layout.{plaintext_of_ciphertext}
use rabbit_storage_explorer.Crypto.Stream.{VaultKeys}
use rabbit_storage_explorer.Manifest.Defs.{Manifest, FileEntry, default, name_for}
use rabbit_storage_explorer.Manifest.Blob.{Codec}
use rabbit_storage_explorer.ManifestStore.State.{World}
use rabbit_storage_explorer.ManifestStore.Ops.{remotely, load}
use rabbit_storage_explorer.DirView.{unwrap_or}
use rabbit_storage_explorer.Worker.{starts_with, ends_with_slash}
use rabbit_storage_explorer.Worker.Sizes.{is_metadata}

-- A target: its key, its path below the folder that was picked, and its plaintext size.
abbrev pub Target : Type 0
Target = Text × Text × ℕ

abbrev after_prefix : Text → Text → Text
after_prefix s [] = s
after_prefix [] (b ∷ t) = []
after_prefix (a ∷ s) (b ∷ t) = after_prefix s t

-- `strip_prefix(..).unwrap_or(..)`
abbrev pub stripped : Text → Text → Text
stripped s t = if starts_with s t then after_prefix s t else s

unfoldable pub plain_targets : Text → List RawObject → List Target
unfolding is_metadata
plain_targets parent [] = []
plain_targets parent (o ∷ os) =
    let rest = plain_targets parent os in
    if ends_with_slash o.key || is_metadata o
    then rest
    else (o.key, stripped o.key parent, o.size) ∷ rest

module _ {J : Type 0} where
  abbrev size_or : Option (FileEntry J) → ℕ → ℕ
  size_or none size = plaintext_of_ciphertext size
  size_or (some f) size = f.size

  -- What a directory adds: targets, and directories to the stack, the last one on top.
  unfoldable pub sort_out :
      Manifest J
      → Text
      → Text
      → List RawObject
      → List Target
      → List (Text × Text)
      → List Target × List (Text × Text)
  unfolding is_metadata
  sort_out m dir rel_base [] out stack = (out, stack)
  sort_out m dir rel_base (o ∷ os) out stack =
      let leaf = leaf_of o.key in
      let named = rel_base ++ (slash ∷ unwrap_or (name_for m leaf) leaf) in
      let next : List Target × List (Text × Text) =
        if is_metadata o
        then (out, stack)
        else if o.is_prefix
        then (out, (dir ++ (leaf ++ (slash ∷ [])), named) ∷ stack)
        else (out ++ ((o.key, named, size_or (Dict.get m.files leaf) o.size) ∷ []), stack) in
      sort_out m dir rel_base os next.0 next.1

module _ {J : Type 0} (P : Primitives) (C : Codec J) (B : StorageBackend) (draw : ℕ → Bytes) where
  abbrev or_default : Result (Manifest J) → Manifest J
  or_default (ok m) = m
  or_default (err e) = default

  unfoldable pub walk :
      VaultKeys → ℕ → List (Text × Text) → List Target → Exec (World B.State J) (List Target)
  unfolding sort_out
  walk keys fuel [] out = pure out
  walk keys zero (d ∷ stack) out = fail out_of_fuel
  walk keys (suc fuel) (d ∷ stack) out = do
    manifest ← outcome (load P C B draw keys d.0)
    objects ← remotely (B.list d.0)
    let sorted = sort_out (or_default manifest) d.0 d.1 objects out stack
    walk keys fuel sorted.1 sorted.0

  unfoldable pub expand_folder :
      Option VaultKeys → ℕ → RemoteEntry → Exec (World B.State J) (List Target)
  unfolding plain_targets walk
  expand_folder none fuel item = do
    objects ← remotely (B.list_recursive item.key)
    pure (plain_targets (parent_prefix item.key) objects)
  expand_folder (some keys) fuel item =
      walk keys fuel ((trim_slashes item.key ++ (slash ∷ []), item.name) ∷ []) []
