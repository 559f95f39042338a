-- ===== src/ManifestStore/Written.antt =====
-- That the buffer of src/manifest_store.rs forgets no change: a directory which is not dirty is the
-- one that was last written.
use mathlib.Core.Option.{some-injective}
use rabbit_storage_explorer.Base.{
  ℕ, ◌≡◌, refl, sym, subst, ◌∙◌, false, some, inl, inr, Bytes, Text, text_eq, text_eq_iff, ok,
  arith, Bool-cases,
}
use rabbit_storage_explorer.Base.Dict
use rabbit_storage_explorer.Base.Dict.{Dict, get-insert_same, get-insert_other, get-remove}
use rabbit_storage_explorer.Storage.{StorageBackend}
use rabbit_storage_explorer.Crypto.Primitives.{Primitives}
use rabbit_storage_explorer.Manifest.Defs.{Manifest}
use rabbit_storage_explorer.Manifest.Blob.{Codec, fingerprint}
use rabbit_storage_explorer.ManifestStore.State.{DirState}
use rabbit_storage_explorer.ManifestStore.Ops.{fresh}

module _ {J : Type 0} (P : Primitives) (C : Codec J) (B : StorageBackend) (draw : ℕ → Bytes) where
  -- If the directory is clean and its manifest has a fingerprint, that one was written.
  abbrev pub IsKept : DirState J → Type 0
  IsKept state =
      state.dirty ≡ false
      → (fp : ℕ) → fingerprint C state.manifest ≡ ok fp
      → state.written_fingerprint ≡ some fp

  pub record IsSynced (m : Dict (DirState J)) : Type 0 where
    pub at_dir : (dir : Text) (state : DirState J) → Dict.get m dir ≡ some state → IsKept state

  pub insert-IsSynced :
      (m : Dict (DirState J)) (dir : Text) (state : DirState J)
      → IsSynced m
      → IsKept state
      → IsSynced (Dict.insert m dir state)
  insert-IsSynced m dir state I kept = record {
    at_dir = λ other s at. elim (Bool-cases (text_eq dir other)) [
      | inl e ↦
          let there =
            subst (λ d. Dict.get (Dict.insert m dir state) d ≡ some s)
              (sym ((text_eq_iff dir other).0 e)) at in
          subst IsKept (some-injective _ _ (sym (get-insert_same m dir state) ∙ there)) kept
      | inr n ↦ I.at_dir other s (sym (get-insert_other m dir other state n) ∙ at)
    ];
  }

  pub remove-IsSynced :
      (m : Dict (DirState J)) (dir : Text) → IsSynced m → IsSynced (Dict.remove m dir)
  remove-IsSynced m dir I = record {
    at_dir = λ other s at. I.at_dir other s (ground (arith, get-remove m dir other));
  }

  pub fresh-IsKept : (manifest : Manifest J) (now : ℕ) → IsKept (fresh P C B draw manifest now)
  fresh-IsKept manifest now = λ clean fp h. rw h refl
