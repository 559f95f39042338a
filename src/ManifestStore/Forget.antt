-- ===== src/ManifestStore/Forget.antt =====
-- What `forget` of src/manifest_store.rs does with a key whose slashes were trimmed, as run_delete
-- and run_rename of src/worker.rs call it.
use rabbit_storage_explorer.Base.{
  ℕ, ◌≡◌, ◌≢◌, refl, ◌∙◌, ◌&&◌, [], ◌∷◌, ◌++◌, ◌==◌, arith, Text, slash, inl, inr, Bool-cases,
  text_eq, text_eq_iff, if◌then◌else◌, Bytes,
}
use rabbit_storage_explorer.Base.Dict
use rabbit_storage_explorer.Base.Dict.{get-remove}
use rabbit_storage_explorer.Paths.{trim_slashes, is_empty}
use rabbit_storage_explorer.Crypto.Primitives.{Primitives}
use rabbit_storage_explorer.Storage.{StorageBackend}
use rabbit_storage_explorer.Manifest.Blob.{Codec}
use rabbit_storage_explorer.ManifestStore.State.{World}
use rabbit_storage_explorer.ManifestStore.Ops.{forget}

trimmed_step : (c : ℕ) (t : Text) → (if is_empty t && c == slash then [] else c ∷ t) ≢ slash ∷ []
trimmed_step c [] h = ground arith
trimmed_step c (d ∷ t) h = cc

trim_slashes-end : (key s : Text) → trim_slashes key ≢ s ++ (slash ∷ [])
unfolding trim_slashes
trim_slashes-end [] [] h = cc
trim_slashes-end [] (d ∷ s) h = cc
trim_slashes-end (c ∷ key) [] h = trimmed_step c (trim_slashes key) h
trim_slashes-end (c ∷ key) (d ∷ s) h = ground (arith, trim_slashes-end key s)

-- Forgetting the key of a folder without its final slashes leaves what is buffered for every
-- directory prefix that ends in a slash as it was.
pub forget-trim_slashes :
    {J : Type 0} (P : Primitives) (C : Codec J) (B : StorageBackend) (draw : ℕ → Bytes)
    (key s : Text) (w : World B.State J)
    → let dir = s ++ (slash ∷ []) in
      Dict.get (forget P C B draw (trim_slashes key) w).store.inner dir ≡ Dict.get w.store.inner dir
unfolding forget
forget-trim_slashes P C B draw key s w =
    let dir = s ++ (slash ∷ []) in
    elim (Bool-cases (text_eq (trim_slashes key) dir)) [
      | inl e ↦ absurd (trim_slashes-end key s ((text_eq_iff (trim_slashes key) dir).0 e))
      | inr n ↦ get-remove w.store.inner (trim_slashes key) dir ∙ rw n refl
    ]
