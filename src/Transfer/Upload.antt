-- ===== src/Transfer/Upload.antt =====
-- `upload_small` and an attempt of `upload_one` of src/worker.rs. A local file is the length that its
-- metadata gives and its content, or none if it does not open. The ticks of a multipart upload are
-- the backend's own.
use rabbit_storage_explorer.Base.{
  ℕ, ◌*◌, ◌%◌, Bool, true, Option, none, some, ◌++◌, leb, u64_mod, if◌then◌else◌, Bytes, Text,
  Result, ok, err, reading_local_file,
}
use rabbit_storage_explorer.Base.Exec.{Exec, ◌>>=◌, fail, lift}
use rabbit_storage_explorer.Storage.{StorageBackend}
use rabbit_storage_explorer.Crypto.Primitives.{Primitives}
use rabbit_storage_explorer.Crypto.Stream.{VaultKeys, encrypt_bytes}
use rabbit_storage_explorer.DirView.{on_disk_path}
use rabbit_storage_explorer.Transfer.Progress.{Float, Progress, upload, file_start, tick}
use rabbit_storage_explorer.Transfer.Multipart.{upload_multipart}
use rabbit_storage_explorer.Transfer.Retry.{retry}

-- The backend and the progress of the batch.
pub record Sending (S : Type 0) (F : Float) : Type 0 where
  pub remote : S
  pub progress : Progress F

module _ {S : Type 0} {F : Float} where
  abbrev pub through : {X : Type 0} → Exec S X → Exec (Sending S F) X
  through call u = let (r, s) = call u.remote in (r, record u { remote = s })

-- The key of a file, by the relative path that it was picked with.
unfoldable pub upload_key : Primitives → Option VaultKeys → Text → Text → Result Text
upload_key P none dest_prefix rel = ok (dest_prefix ++ rel)
upload_key P (some keys) dest_prefix rel = elim (on_disk_path P keys rel) [
  | err e ↦ err e
  | ok path ↦ ok (dest_prefix ++ path)
]

abbrev pub body_of : Primitives → Option VaultKeys → Bytes → Bytes → Result Bytes
body_of P none prefix content = ok content
body_of P (some keys) prefix content = encrypt_bytes P keys prefix content

abbrev pub content_of : Option (ℕ × Bytes) → Option Bytes
content_of none = none
content_of (some (n, content)) = some content

module _ (P : Primitives) (B : StorageBackend) {F : Float} where
  abbrev ticked : ℕ → ℕ → ℕ → Exec (Sending B.State F) (Unit {0})
  ticked now id n u = (ok tt, record u { progress = (tick now id n u.progress).0 })

  unfoldable pub upload_small :
      Option VaultKeys
      → Bytes
      → ℕ
      → Option Bytes
      → Text
      → ℕ
      → ℕ
      → Exec (Sending B.State F) (Unit {0})
  upload_small keys prefix now none key id plain_len = fail reading_local_file
  upload_small keys prefix now (some content) key id plain_len = do
    body ← lift (body_of P keys prefix content)
    _ ← through (B.put_throttled key body)
    ticked now id plain_len

  -- `op` of an attempt: the file's row starts again, and it goes up whole or in parts.
  unfoldable pub upload_attempt :
      (ℕ → Bool)
      → Option VaultKeys
      → Bytes
      → ℕ
      → ℕ
      → ℕ
      → Option (ℕ × Bytes)
      → Text
      → ℕ
      → Text
      → ℕ
      → Exec (Sending B.State F) (Unit {0})
  unfolding upload_small
  upload_attempt asked keys prefix threshold_mib part_size_mib now file key id rel plain_len u =
      (do
        _ ← through (B.prepare_parents key)
        if leb plain_len (threshold_mib * 1048576 % u64_mod)
            then upload_small keys prefix now (content_of file) key id plain_len
            else through (upload_multipart P B asked keys prefix part_size_mib file key))
        (record u { progress = file_start now id upload rel plain_len u.progress })

  -- `plain_len` is that of the metadata, read once; each attempt has its own answers of the token,
  -- random prefix, clock and reading of the file.
  unfoldable pub upload_one :
      (Sending B.State F → Sending B.State F)
      → (Sending B.State F → Sending B.State F)
      → (ℕ → Bool)
      → (ℕ → ℕ → Bool)
      → Option VaultKeys
      → (ℕ → Bytes)
      → ℕ
      → ℕ
      → ℕ
      → (ℕ → ℕ)
      → (ℕ → Option (ℕ × Bytes))
      → Text
      → ℕ
      → Text
      → ℕ
      → Exec (Sending B.State F) (Unit {0})
  unfolding upload_attempt upload_key
  upload_one force_reconnect wait_until_healthy between asked keys prefixes threshold_mib
        part_size_mib retries clock files dest_prefix id rel plain_len =
      do
        key ← lift (upload_key P keys dest_prefix rel)
        retry force_reconnect wait_until_healthy true between
            (λ n.
              upload_attempt (asked n) keys (prefixes n) threshold_mib part_size_mib (clock n)
                (files n) key id rel plain_len)
            retries 0 0
