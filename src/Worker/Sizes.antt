-- ===== src/Worker/Sizes.antt =====
-- Listing a directory and adding up a folder: `list` and `run_calculate_size` of src/worker.rs, and the
-- records of an upload, `record_upload`.
pub mod Totals
use rabbit_storage_explorer.Base.{
  ℕ, ℤ, ◌+◌, ◌-◌, min, Bool, true, false, ◌||◌, not, Option, none, some, List, [], ◌∷◌, ◌++◌, Bytes,
  Text, text, text_eq, slash, if◌then◌else◌, Result, ok, err, u64_mod, map,
}
use rabbit_storage_explorer.Base.Exec.{Exec, ◌>>=◌, pure, lift, ignoring, outcome}
use rabbit_storage_explorer.Paths.{leaf_of, parent_prefix, is_empty, split_slash}
use rabbit_storage_explorer.Storage.{StorageBackend, RemoteEntry, RawObject}
use rabbit_storage_explorer.Crypto.Primitives.{Primitives}
use rabbit_storage_explorer.Crypto.Layout.{plaintext_of_ciphertext}
use rabbit_storage_explorer.Crypto.Stream.{VaultKeys}
use rabbit_storage_explorer.Crypto.Names.{encrypt_name}
use rabbit_storage_explorer.Manifest.Defs.{Manifest, hash_entry, is_manifest_key}
use rabbit_storage_explorer.Manifest.Ops
use rabbit_storage_explorer.Manifest.Blob.{Codec}
use rabbit_storage_explorer.ManifestStore.Plan.{forced}
use rabbit_storage_explorer.ManifestStore.State.{World}
use rabbit_storage_explorer.ManifestStore.Ops.{remotely, load, edit, flush}
use rabbit_storage_explorer.DirView.{build_listing, raw_to_entry, sort_entries}

-- VAULT_KEY
abbrev pub vault_key : Text
vault_key = text ".rse-vault"

-- What stands beside the user's objects.
unfoldable pub is_metadata : RawObject → Bool
is_metadata o = is_manifest_key (leaf_of o.key) || text_eq (leaf_of o.key) vault_key

-- `saturating_add` on u64.
abbrev pub add_saturating : ℕ → ℕ → ℕ
add_saturating a b = min (a + b) (u64_mod - 1)

abbrev pub plain_size : Option VaultKeys → ℕ → ℕ
plain_size none size = size
plain_size (some keys) size = plaintext_of_ciphertext size

-- The loop over the objects: the plaintext and the encrypted total.
unfoldable pub add_sizes : Option VaultKeys → List RawObject → ℕ → ℕ → ℕ × ℕ
unfolding is_metadata
add_sizes keys [] plain enc = (plain, enc)
add_sizes keys (o ∷ os) plain enc =
    let sums : ℕ × ℕ =
      if is_metadata o
      then (plain, enc)
      else (add_saturating plain (plain_size keys o.size), add_saturating enc o.size) in
    add_sizes keys os sums.0 sums.1

unfoldable pub without_vault : List RawObject → List RawObject
without_vault [] = []
without_vault (o ∷ os) =
    let rest = without_vault os in if text_eq (leaf_of o.key) vault_key then rest else o ∷ rest

abbrev pub no_more : List Text → Bool
no_more [] = true
no_more (s ∷ ss) = false

-- The segments that are not empty.
abbrev pub not_empty : List Text → List Text
not_empty [] = []
not_empty (s ∷ ss) = let rest = not_empty ss in if is_empty s then rest else s ∷ rest

abbrev pub go_on : {S : Type 0} → Result (Unit {0}) → Exec S (Unit {0}) → Exec S (Unit {0})
go_on (err e) rest = pure tt
go_on (ok done) rest = rest

module _ {J : Type 0} (P : Primitives) (C : Codec J) (B : StorageBackend) (draw : ℕ → Bytes)
    (session_keys : Option VaultKeys) where
  -- The sizes kept with the folder, errors dropped.
  unfoldable pub record_sizes :
      Option VaultKeys → Bool → Text → Text → ℤ → ℕ × ℕ → Exec (World B.State J) (Unit {0})
  record_sizes none encrypted key name now_ms totals = pure tt
  record_sizes (some keys) false key name now_ms totals = pure tt
  record_sizes (some keys) true key name now_ms totals = elim (encrypt_name P keys name) [
    | err e ↦ pure tt
    | ok enc ↦
        ignoring
          (edit P C B draw keys (parent_prefix key)
            (λ m. Ops.set_folder_size P m enc totals.0 totals.1 now_ms))
          (ignoring (flush P C B draw keys forced) (pure tt))
  ]

  unfoldable pub run_calculate_size : Text → Text → Bool → ℤ → Exec (World B.State J) (ℕ × ℕ)
  unfolding add_sizes record_sizes
  run_calculate_size key name encrypted now_ms = do
    objects ← remotely (B.list_recursive key)
    let totals = add_sizes session_keys objects 0 0
    _ ← record_sizes session_keys encrypted key name now_ms totals
    pure totals

  -- The listing, and the number of orphans that the window is told of.
  unfoldable pub list_entries :
      (Text → Text)
      → Option VaultKeys
      → Text
      → List RawObject
      → Exec (World B.State J) (List RemoteEntry × ℕ)
  list_entries lower none prefix raw =
      pure (sort_entries lower (map (λ o. raw_to_entry P o none) raw), 0)
  list_entries lower (some keys) prefix raw = do
    manifest ← load P C B draw keys prefix
    let listing = build_listing lower raw manifest
    pure (listing.entries, listing.orphan_count)

  unfoldable pub list : (Text → Text) → Text → Exec (World B.State J) (List RemoteEntry × ℕ)
  unfolding without_vault list_entries
  list lower prefix = do
    raw ← remotely (B.list prefix)
    list_entries lower session_keys prefix (without_vault raw)

  -- The change of a manifest for a segment of an uploaded path.
  abbrev pub upserted : Bool → Text → Text → ℕ → Manifest J → Manifest J
  upserted true enc name size m = Ops.upsert_file P m enc name size
  upserted false enc name size m = Ops.upsert_folder P m enc name

  -- The loop over the segments: it ends at the first error.
  unfoldable pub record_segments :
      VaultKeys → Text → List Text → ℕ → Exec (World B.State J) (Unit {0})
  record_segments keys prefix [] size = pure tt
  record_segments keys prefix (segment ∷ segments) size = elim (encrypt_name P keys segment) [
    | err e ↦ pure tt
    | ok enc ↦ do
      result ← outcome (edit P C B draw keys prefix (upserted (no_more segments) enc segment size))
      go_on result
          (record_segments keys (prefix ++ (hash_entry P enc ++ (slash ∷ []))) segments size)
  ]

  unfoldable pub record_upload :
      Option VaultKeys → Text → Text → ℕ → Exec (World B.State J) (Unit {0})
  unfolding record_segments
  record_upload none dest_prefix rel size = pure tt
  record_upload (some keys) dest_prefix rel size =
      record_segments keys dest_prefix (not_empty (split_slash rel)) size
