-- ===== src/ManifestStore/Buffer.antt =====
-- What the operations of the buffer, src/manifest_store.rs, do to it and to what is loaded from it.
use rabbit_storage_explorer.Base.{
  ℕ, ◌≡◌, refl, ap, subst, ◌∙◌, false, some, inl, inr, Bytes, Text, text_eq, ok, Option-cases,
}
use rabbit_storage_explorer.Base.Dict
use rabbit_storage_explorer.Base.Dict.{Dict, get-insert_same, get-insert_other, dict_laws}
use rabbit_storage_explorer.Base.Exec.{Ensures, >>=-Ensures}
use rabbit_storage_explorer.Storage.{StorageBackend}
use rabbit_storage_explorer.Crypto.Primitives.{Primitives}
use rabbit_storage_explorer.Crypto.Stream.{VaultKeys}
use rabbit_storage_explorer.Manifest.Defs.{Manifest}
use rabbit_storage_explorer.Manifest.Blob.{Codec}
use rabbit_storage_explorer.ManifestStore.State.{DirState, World}
use rabbit_storage_explorer.ManifestStore.Ops.{
  load, edit, fresh, edited, with_inner, fetch, or_insert, change,
}

module _ {J : Type 0} (P : Primitives) (C : Codec J) (B : StorageBackend) (draw : ℕ → Bytes)
    (keys : VaultKeys) where
  -- Where a directory is buffered, its manifest is loaded from the buffer and nothing changes.
  pub load-buffered :
      (dir : Text) (w : World B.State J) (state : DirState J)
      → Dict.get w.store.inner dir ≡ some state
      → load P C B draw keys dir w ≡ (ok state.manifest, w)
  unfolding load
  load-buffered dir w state h = rw (load, h) refl

  -- The directory is buffered with this manifest.
  abbrev IsStored : Text → Manifest J → World B.State J → Type 0
  IsStored dir m w =
      (state : DirState J) × (Dict.get w.store.inner dir ≡ some state) × (state.manifest ≡ m)

  or_insert-IsStored :
      (dir : Text) (manifest : Manifest J) (w : World B.State J)
      → Ensures (IsStored dir) (or_insert P C B draw dir manifest w)
  unfolding or_insert
  or_insert-IsStored dir manifest w = elim (Option-cases (Dict.get w.store.inner dir)) [
    | inl e ↦
        let state = fresh P C B draw manifest w.now in
        rw (or_insert, e) (state, get-insert_same w.store.inner dir state, refl)
    | inr (state, e) ↦ rw (or_insert, e) (state, e, refl)
  ]

  load-IsStored :
      (dir : Text) (w : World B.State J) → Ensures (IsStored dir) (load P C B draw keys dir w)
  unfolding load
  load-IsStored dir w = elim (Option-cases (Dict.get w.store.inner dir)) [
    | inl e ↦
        rw (load, e)
          (>>=-Ensures (IsStored dir) (fetch P C B draw keys dir) (or_insert P C B draw dir) w
            (or_insert-IsStored dir))
    | inr (state, e) ↦ rw (load, e) (state, e, refl)
  ]

  -- After a load that returns a manifest, the directory is buffered: loading it again returns the
  -- same manifest, with no call of the backend and no change.
  pub load-load :
      (dir : Text) (w w' : World B.State J) (m : Manifest J)
      → load P C B draw keys dir w ≡ (ok m, w')
      → load P C B draw keys dir w' ≡ (ok m, w')
  load-load dir w w' m h =
      let (state, at, same) = subst (Ensures (IsStored dir)) h (load-IsStored dir w) in
      load-buffered dir w' state at ∙ ap (λ x. (ok x, w')) same

  -- After a load that returned a manifest, an edit of the directory succeeds and leaves the backend as
  -- the load left it; loading the directory then returns the image of the manifest and changes
  -- nothing, and every other directory is buffered as it was.
  pub edit-load :
      (dir : Text) (f : Manifest J → Manifest J) (w w' : World B.State J) (m : Manifest J)
      → load P C B draw keys dir w ≡ (ok m, w')
      → let (r, after) = edit P C B draw keys dir f w in
        (r ≡ ok tt)
        × (after.remote ≡ w'.remote)
        × (load P C B draw keys dir after ≡ (ok (f m), after))
        × ((other : Text)
            → text_eq dir other ≡ false
            → Dict.get after.store.inner other ≡ Dict.get w'.store.inner other)
  unfolding edit change
  edit-load dir f w w' m h =
      let (state, at, same) = subst (Ensures (IsStored dir)) h (load-IsStored dir w) in
      let new = edited P C B draw f w'.now state in
      let there = get-insert_same w'.store.inner dir new in
      rw (edit, h, change, at)
        (
          refl,
          refl,
          load-buffered dir (with_inner w' (Dict.insert w'.store.inner dir new)) new there
              ∙ ap (λ x. (ok (f x), with_inner w' (Dict.insert w'.store.inner dir new))) same,
          λ other differ. get-insert_other w'.store.inner dir other new differ,
        )
