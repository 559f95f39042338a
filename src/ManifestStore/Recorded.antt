-- ===== src/ManifestStore/Recorded.antt =====
-- What recording a write, the third phase of a flush in src/manifest_store.rs, does to the buffer.
use rabbit_storage_explorer.Base.{ℕ, ◌≡◌, ap, ◌∙◌, false, some, Bytes, Text, ok, arith}
use rabbit_storage_explorer.Base.Dict
use rabbit_storage_explorer.Base.Dict.{Dict, get-insert_same, get-insert_other, get-remove}
use rabbit_storage_explorer.Storage.{StorageBackend}
use rabbit_storage_explorer.Crypto.Primitives.{Primitives}
use rabbit_storage_explorer.Manifest.Blob.{Codec, fingerprint}
use rabbit_storage_explorer.ManifestStore.State.{DirState, World}
use rabbit_storage_explorer.ManifestStore.Ops.{recorded, record_write}

module _ {J : Type 0} (P : Primitives) (C : Codec J) (B : StorageBackend) (draw : ℕ → Bytes) where
  get-record_write :
      (dir : Text) (fp : ℕ) (w : World B.State J) (state : DirState J)
      → Dict.get w.store.inner dir ≡ some state
      → Dict.get (record_write P C B draw dir fp w).store.inner dir
        ≡ some (recorded P C B draw fp state)
  unfolding record_write
  get-record_write dir fp w state e =
      rw (record_write, e) (get-insert_same w.store.inner dir (recorded P C B draw fp state))

  recorded-recorded :
      (current other : ℕ) (state : DirState J)
      → fingerprint C state.manifest ≡ ok current
      → recorded P C B draw other (recorded P C B draw current state)
        ≡ record state { written_fingerprint = some other; dirty = false }
  unfolding recorded
  recorded-recorded current other state f = rw f (ground arith)

  -- If the write of the current manifest of a directory is recorded, and after it the write of another
  -- manifest, the directory is clean afterwards, with the other one's fingerprint as written.
  pub record_write-record_write :
      (dir : Text) (current other : ℕ) (w : World B.State J) (state : DirState J)
      → Dict.get w.store.inner dir ≡ some state
      → fingerprint C state.manifest ≡ ok current
      → Dict.get
          (record_write P C B draw dir other (record_write P C B draw dir current w)).store.inner
          dir
        ≡ some (record state { written_fingerprint = some other; dirty = false })
  record_write-record_write dir current other w state e f =
      let w' = record_write P C B draw dir current w in
      get-record_write dir other w' (recorded P C B draw current state)
        (get-record_write dir current w state e)
      ∙ ap some (recorded-recorded current other state f)
