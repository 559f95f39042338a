-- ===== src/ManifestStore/Session.antt =====
-- A session: the calls of the buffer of src/manifest_store.rs in any order, with other calls between
-- the writes of a flush, which are made without the lock.
use rabbit_storage_explorer.Base.{
  ℕ, ◌+◌, ◌≡◌, refl, List, [], ◌∷◌, Bytes, Text, Result, Error, ok, err, arith,
}
use rabbit_storage_explorer.Base.Dict
use rabbit_storage_explorer.Base.Exec.{>>=-preserves, and_then}
use rabbit_storage_explorer.Storage.{StorageBackend}
use rabbit_storage_explorer.Crypto.Primitives.{Primitives}
use rabbit_storage_explorer.Crypto.Stream.{VaultKeys}
use rabbit_storage_explorer.Manifest.Defs.{Manifest, Entry}
use rabbit_storage_explorer.Manifest.Blob.{Codec}
use rabbit_storage_explorer.ManifestStore.Plan.{FlushReason}
use rabbit_storage_explorer.ManifestStore.State.{World, new, manifest_object_key}
use rabbit_storage_explorer.ManifestStore.Ops.{
  load, edit, flush, collect, write_all, record_write, forget, take_entry, take_from, insert_entry,
}
use rabbit_storage_explorer.ManifestStore.Written.{IsSynced, remove-IsSynced}
use rabbit_storage_explorer.ManifestStore.Pending.{
  IsAway, IsFlushing, Flushing, load-Flushing, edit-Flushing, take_from-Flushing, remove-AllPending,
  record_write-IsFlushing,
}
use rabbit_storage_explorer.ManifestStore.Flush.{buffered, collect-AllPending}

module _ {J : Type 0} (P : Primitives) (C : Codec J) (B : StorageBackend) (draw : ℕ → Bytes)
    (keys : VaultKeys) where
  -- The world, and the writes that the flush which is under way still has to make. One flush begins
  -- when the one before has ended, and no directory is forgotten while a write to it is awaited.
  pub data Run : World B.State J → List (Text × Bytes × ℕ) → Type 0 where
    begun :
        (remote : B.State) (ms now : ℕ)
        → Run (record { remote = remote; store = new ms; now = now; draws = 0 }) []
    loaded :
        {w : World B.State J} {out : List (Text × Bytes × ℕ)} (dir : Text)
        → Run w out
        → Run (load P C B draw keys dir w).1 out
    edited :
        {w : World B.State J} {out : List (Text × Bytes × ℕ)} (dir : Text)
        (f : Manifest J → Manifest J)
        → Run w out
        → Run (edit P C B draw keys dir f w).1 out
    taken :
        {w : World B.State J} {out : List (Text × Bytes × ℕ)} (dir segment : Text)
        → Run w out
        → Run (take_entry P C B draw keys dir segment w).1 out
    inserted :
        {w : World B.State J} {out : List (Text × Bytes × ℕ)} (dir segment : Text) (entry : Entry J)
        → Run w out
        → Run (insert_entry P C B draw keys dir segment entry w).1 out
    waited :
        {w : World B.State J} {out : List (Text × Bytes × ℕ)} (ms : ℕ)
        → Run w out
        → Run (record w { now = w.now + ms }) out
    forgotten :
        {w : World B.State J} {out : List (Text × Bytes × ℕ)} (dir : Text)
        → IsAway P C B draw dir out
        → Run w out
        → Run (forget P C B draw dir w) out
    collected :
        {w : World B.State J} (reason : FlushReason)
        → Run w []
        → Run (collect P C B draw keys reason w).1 (collect P C B draw keys reason w).0
    written :
        {w : World B.State J} {dir : Text} {blob : Bytes} {fp : ℕ} {out : List (Text × Bytes × ℕ)}
        (remote : B.State)
        → B.put (manifest_object_key dir) blob w.remote ≡ (ok tt, remote)
        → Run w ((dir, blob, fp) ∷ out)
        → Run (record_write P C B draw dir fp (record w { remote = remote })) out
    failed :
        {w : World B.State J} {dir : Text} {blob : Bytes} {fp : ℕ} {out : List (Text × Bytes × ℕ)}
        (e : Error) (remote : B.State)
        → B.put (manifest_object_key dir) blob w.remote ≡ (err e, remote)
        → Run w ((dir, blob, fp) ∷ out)
        → Run (record w { remote = remote }) []

  abbrev Kept : World B.State J → List (Text × Bytes × ℕ) → Type 0
  Kept w out = (want : Text → ℕ) × IsFlushing P C B draw want out w.store.inner

  Run-Kept : {w : World B.State J} {out : List (Text × Bytes × ℕ)} → Run w out → Kept w out
  unfolding new Dict.get take_entry insert_entry forget collect
  Run-Kept (begun remote ms now) =
      (λ dir. 0, record { synced = record { at_dir = λ dir state h. ground arith }; pending = tt })
  Run-Kept {out = out} (loaded {w = w} dir r) =
      let (want, I) = Run-Kept r in (want, load-Flushing P C B draw want out keys dir w I)
  Run-Kept {out = out} (edited {w = w} dir f r) =
      let (want, I) = Run-Kept r in (want, edit-Flushing P C B draw want out keys dir f w I)
  Run-Kept {out = out} (taken {w = w} dir segment r) =
      let (want, I) = Run-Kept r in
      (
        want,
        >>=-preserves (Flushing P C B draw want out) (load P C B draw keys dir)
            (λ found. take_from P C B draw dir segment) (load-Flushing P C B draw want out keys dir)
            (λ found. take_from-Flushing P C B draw want out dir segment) w I,
      )
  Run-Kept {out = out} (inserted {w = w} dir segment entry r) =
      let (want, I) = Run-Kept r in (want, edit-Flushing P C B draw want out keys dir _ w I)
  Run-Kept (waited ms r) = Run-Kept r
  Run-Kept {out = out} (forgotten {w = w} dir away r) =
      let (want, I) = Run-Kept r in
      (
        want,
        record {
          synced = remove-IsSynced P C B draw w.store.inner dir I.synced;
          pending = remove-AllPending P C B draw want w.store.inner dir out away I.pending;
        },
      )
  Run-Kept (collected {w = w} reason r) =
      let (want, I) = Run-Kept r in
      (
        buffered P C B draw w.store.inner,
        record { synced = I.synced; pending = collect-AllPending P C B draw keys reason w },
      )
  Run-Kept {out = out} (written {w = w} {dir} {blob} {fp} remote put r) =
      let (want, I) = Run-Kept r in
      (
        want,
        record_write-IsFlushing P C B draw want dir blob fp out (record w { remote = remote }) I,
      )
  Run-Kept (failed e remote put r) =
      let (want, I) = Run-Kept r in (want, record { synced = I.synced; pending = tt })

  -- In every session that starts with an empty buffer, whatever its calls, the answers of the backend
  -- and the course of time, and with other calls between the writes of a flush, where one flush runs
  -- at a time and no directory is forgotten while a write to it is awaited: a buffered directory that
  -- is not marked dirty, and whose manifest has a fingerprint, has that fingerprint as the one last
  -- written.
  pub Run-IsSynced :
      {w : World B.State J} {out : List (Text × Bytes × ℕ)}
      → Run w out
      → IsSynced P C B draw w.store.inner
  Run-IsSynced r = (Run-Kept r).1.synced

  write_all-Run :
      (out : List (Text × Bytes × ℕ)) (n : ℕ) (w : World B.State J)
      → Run w out
      → Run (write_all P C B draw out n w).1 []
  unfolding write_all
  write_all-Run [] n w r = r
  write_all-Run ((dir, blob, fp) ∷ out) n w r =
      after (B.put (manifest_object_key dir) blob w.remote) refl (λ remote put.
        write_all-Run out (n + 1) (record_write P C B draw dir fp (record w { remote = remote }))
          (written remote put r))
    where
      after :
          (p : Result (Unit {0}) × B.State)
          → B.put (manifest_object_key dir) blob w.remote ≡ p
          → ((remote : B.State)
              → B.put (manifest_object_key dir) blob w.remote ≡ (ok tt, remote)
              → Run
                  (write_all P C B draw out
                    (n + 1)
                    (record_write P C B draw dir fp (record w { remote = remote }))).1
                  [])
          → Run
              (and_then
                (λ _ w'. write_all P C B draw out (n + 1) (record_write P C B draw dir fp w'))
                (p.0, record w { remote = p.1 })).1
              []
      after (err e, remote) put k = failed e remote put r
      after (ok done, remote) put k = k remote put

  -- A whole flush is made of the steps of a session.
  pub flush-Run :
      (reason : FlushReason) (w : World B.State J)
      → Run w []
      → Run (flush P C B draw keys reason w).1 []
  unfolding flush
  flush-Run reason w r =
      let (out, w') = collect P C B draw keys reason w in
      write_all-Run out 0 w' (collected reason r)
