-- ===== src/ManifestStore/Pending.antt =====
-- The writes of a flush of src/manifest_store.rs that are still to be made, while the buffer is
-- changed.
use mathlib.Core.Option.{some-injective}
use rabbit_storage_explorer.Base.{
  ℕ, Bool, ◌≡◌, refl, sym, ap, subst, ◌∙◌, ◌⊎◌, true, false, some, inl, inr, List, [], ◌∷◌, Bytes,
  Text, text_eq, text_eq_iff, ok, ok-injective, arith, Option-cases, Bool-cases, Result-cases, ◌||◌,
}
use rabbit_storage_explorer.Base.Dict
use rabbit_storage_explorer.Base.Dict.{Dict, get-insert_same, get-insert_other, get-remove}
use rabbit_storage_explorer.Base.Exec.{>>=-preserves, lift}
use rabbit_storage_explorer.Storage.{StorageBackend}
use rabbit_storage_explorer.Crypto.Primitives.{Primitives}
use rabbit_storage_explorer.Crypto.Stream.{VaultKeys}
use rabbit_storage_explorer.Manifest.Defs.{Manifest}
use rabbit_storage_explorer.Manifest.Ops
use rabbit_storage_explorer.Manifest.Ops.{is_some}
use rabbit_storage_explorer.Manifest.Blob.{Codec, fingerprint}
use rabbit_storage_explorer.Manifest.View.{take_entry_none}
use rabbit_storage_explorer.ManifestStore.State.{DirState, World, manifest_object_key}
use rabbit_storage_explorer.ManifestStore.Ops.{
  recorded, record_write, load, fetch, or_insert, change, edit, edited, take_from, decoded,
  remotely, fresh,
}
use rabbit_storage_explorer.ManifestStore.Written.{IsKept, IsSynced, insert-IsSynced, fresh-IsKept}

module _ {J : Type 0} (P : Primitives) (C : Codec J) (B : StorageBackend) (draw : ℕ → Bytes) where
  -- What is buffered is what is about to be written, or is marked as changed.
  abbrev pub IsPending : DirState J → ℕ → Type 0
  IsPending state fp = (state.dirty ≡ true) ⊎ (fingerprint C state.manifest ≡ ok fp)

  -- The writes, each of the fingerprint that `want` has for its directory, which is buffered.
  abbrev pub AllPending : (Text → ℕ) → Dict (DirState J) → List (Text × Bytes × ℕ) → Type 0
  AllPending want m [] = Unit
  AllPending want m ((dir, blob, fp) ∷ out) =
      (fp ≡ want dir)
      × ((state : DirState J) × (Dict.get m dir ≡ some state) × IsPending state (want dir))
      × AllPending want m out

  insert-AllPending :
      (want : Text → ℕ) (m : Dict (DirState J)) (at : Text) (new : DirState J)
      (out : List (Text × Bytes × ℕ))
      → ((old : DirState J)
          → Dict.get m at ≡ some old
          → IsPending old (want at)
          → IsPending new (want at))
      → AllPending want m out
      → AllPending want (Dict.insert m at new) out
  insert-AllPending want m at new [] keeps all = tt
  insert-AllPending want m at new ((dir, blob, fp) ∷ out) keeps
        (same, (state, there, pending), all) =
      let rest = insert-AllPending want m at new out keeps all in
      elim (Bool-cases (text_eq at dir)) [
        | inl e ↦
            let eq = (text_eq_iff at dir).0 e in
            let was : Dict.get m at ≡ some state =
              subst (λ d. Dict.get m d ≡ some state) (sym eq) there in
            let held : IsPending new (want at) =
              keeps state was (subst (λ d. IsPending state (want d)) (sym eq) pending) in
            (
              same,
              (
                new,
                subst (λ d. Dict.get (Dict.insert m at new) d ≡ some new) eq
                    (get-insert_same m at new),
                subst (λ d. IsPending new (want d)) eq held,
              ),
              rest,
            )
        | inr n ↦ (same, (state, get-insert_other m at dir new n ∙ there, pending), rest)
      ]

  -- No write to the directory is still to be made.
  abbrev pub IsAway : Text → List (Text × Bytes × ℕ) → Type 0
  IsAway at [] = Unit
  IsAway at ((dir, blob, fp) ∷ out) = (text_eq at dir ≡ false) × IsAway at out

  pub remove-AllPending :
      (want : Text → ℕ) (m : Dict (DirState J)) (at : Text) (out : List (Text × Bytes × ℕ))
      → IsAway at out
      → AllPending want m out
      → AllPending want (Dict.remove m at) out
  remove-AllPending want m at [] away all = tt
  remove-AllPending want m at ((dir, blob, fp) ∷ out) (n, away)
        (same, (state, there, pending), all) =
      (
        same,
        (state, rw (get-remove m at dir, n) there, pending),
        remove-AllPending want m at out away all,
      )

  recorded-IsPending :
      (fp : ℕ) (state : DirState J)
      → IsPending state fp
      → IsPending (recorded P C B draw fp state) fp
  unfolding recorded
  recorded-IsPending fp state (inr h) = inr h
  recorded-IsPending fp state (inl dirty) = elim (Result-cases (fingerprint C state.manifest)) [
    | inr (x, f) ↦ inl (rw f dirty)
    | inl (fp', f) ↦ ground (arith, f, dirty)
  ]

  recorded-IsKept :
      (fp : ℕ) (state : DirState J)
      → IsPending state fp
      → IsKept P C B draw (recorded P C B draw fp state)
  unfolding recorded
  recorded-IsKept fp state (inr h) = λ clean fp' h'. ap some (ok-injective (sym h ∙ h'))
  recorded-IsKept fp state (inl dirty) = λ clean fp' h'. ground (arith, h', dirty, clean)

  -- What a flush keeps while other calls go on: the buffer loses no change, and what is still to be
  -- written is what is buffered, or is marked.
  pub record IsFlushing (want : Text → ℕ) (out : List (Text × Bytes × ℕ)) (m : Dict (DirState J))
      : Type 0 where
    pub synced : IsSynced P C B draw m
    pub pending : AllPending want m out

  insert-IsFlushing :
      (want : Text → ℕ) (m : Dict (DirState J)) (at : Text) (new : DirState J)
      (out : List (Text × Bytes × ℕ))
      → IsFlushing want out m
      → IsKept P C B draw new
      → ((old : DirState J)
          → Dict.get m at ≡ some old
          → IsPending old (want at)
          → IsPending new (want at))
      → IsFlushing want out (Dict.insert m at new)
  insert-IsFlushing want m at new out I kept keeps = record {
    synced = insert-IsSynced P C B draw m at new I.synced kept;
    pending = insert-AllPending want m at new out keeps I.pending;
  }

  neither : (a b : Bool) → a || b ≡ false → (a ≡ false) × (b ≡ false)
  neither a b h = ground arith

  either : (a b : Bool) → a ≡ true → a || b ≡ true
  either a b h = ground arith

  module _ (want : Text → ℕ) (out : List (Text × Bytes × ℕ)) where
    abbrev pub Flushing : World B.State J → Type 0
    Flushing w = IsFlushing want out w.store.inner

    or_insert-Flushing :
        (dir : Text) (manifest : Manifest J) (w : World B.State J)
        → Flushing w
        → Flushing (or_insert P C B draw dir manifest w).1
    unfolding or_insert
    or_insert-Flushing dir manifest w I = elim (Option-cases (Dict.get w.store.inner dir)) [
      | inl e ↦
          rw (or_insert, e)
            (insert-IsFlushing want w.store.inner dir (fresh P C B draw manifest w.now) out I
              (fresh-IsKept P C B draw manifest w.now)
              (λ old at. absurd (let no_old = sym e ∙ at in cc)))
      | inr (state, e) ↦ rw (or_insert, e) I
    ]

    fetch-Flushing :
        (keys : VaultKeys) (dir : Text) (w : World B.State J)
        → Flushing w
        → Flushing (fetch P C B draw keys dir w).1
    unfolding fetch
    fetch-Flushing keys dir w I =
        >>=-preserves Flushing (remotely (B.get (manifest_object_key dir)))
          (λ fetched. lift (decoded P C B draw keys fetched)) (λ x i. i) (λ fetched x i. i) w I

    pub load-Flushing :
        (keys : VaultKeys) (dir : Text) (w : World B.State J)
        → Flushing w
        → Flushing (load P C B draw keys dir w).1
    unfolding load
    load-Flushing keys dir w I = elim (Option-cases (Dict.get w.store.inner dir)) [
      | inl e ↦
          rw (load, e)
            (>>=-preserves Flushing (fetch P C B draw keys dir) (or_insert P C B draw dir)
              (fetch-Flushing keys dir) (or_insert-Flushing dir) w I)
      | inr (state, e) ↦ rw (load, e) I
    ]

    change-Flushing :
        (dir : Text) (f : Manifest J → Manifest J) (w : World B.State J)
        → Flushing w
        → Flushing (change P C B draw dir f w).1
    unfolding change
    change-Flushing dir f w I = elim (Option-cases (Dict.get w.store.inner dir)) [
      | inl e ↦ rw (change, e) I
      | inr (state, e) ↦
          rw (change, e)
            (insert-IsFlushing want w.store.inner dir (edited P C B draw f w.now state) out I
              (λ clean. ground arith) (λ old at h. inl refl))
    ]

    pub edit-Flushing :
        (keys : VaultKeys) (dir : Text) (f : Manifest J → Manifest J) (w : World B.State J)
        → Flushing w
        → Flushing (edit P C B draw keys dir f w).1
    unfolding edit
    edit-Flushing keys dir f w I =
        >>=-preserves Flushing (load P C B draw keys dir) (λ loaded. change P C B draw dir f)
          (load-Flushing keys dir) (λ loaded. change-Flushing dir f) w I

    pub take_from-Flushing :
        (dir segment : Text) (w : World B.State J)
        → Flushing w
        → Flushing (take_from P C B draw dir segment w).1
    unfolding take_from
    take_from-Flushing dir segment w I = elim (Option-cases (Dict.get w.store.inner dir)) [
      | inl e ↦ rw (take_from, e) I
      | inr (state, e) ↦
          let taken = Ops.take_entry P state.manifest segment in
          rw (take_from, e)
            (insert-IsFlushing want w.store.inner dir _ out I
              (λ clean fp h.
                let (was, nothing) = neither state.dirty (is_some taken.0) clean in
                I.synced.at_dir dir state e was fp (
                  subst (λ x. fingerprint C x ≡ ok fp)
                    (take_entry_none P state.manifest segment nothing) h))
              (λ old at h.
                let same : old ≡ state = some-injective _ _ (sym at ∙ e) in
                still_pending state taken.1 (is_some taken.0)
                  (take_entry_none P state.manifest segment) (want dir)
                  (subst (λ o. IsPending o (want dir)) same h)))
    ]
      where
        still_pending :
            (state : DirState J) (m : Manifest J) (found : Bool)
            → (found ≡ false → m ≡ state.manifest)
            → (fp : ℕ) → IsPending state fp
            → (state.dirty || found ≡ true) ⊎ (fingerprint C m ≡ ok fp)
        still_pending state m found none fp (inl dirty) = inl (either state.dirty found dirty)
        still_pending state m true none fp (inr h) = inl (ground arith)
        still_pending state m false none fp (inr h) = inr (ap (fingerprint C) (none refl) ∙ h)

  -- The first of the writes is made and recorded.
  pub record_write-IsFlushing :
      (want : Text → ℕ) (dir : Text) (blob : Bytes) (fp : ℕ) (out : List (Text × Bytes × ℕ))
      (w : World B.State J)
      → IsFlushing want ((dir, blob, fp) ∷ out) w.store.inner
      → IsFlushing want out (record_write P C B draw dir fp w).store.inner
  unfolding record_write
  record_write-IsFlushing want dir blob fp out w I =
      let (same, (state, e, pending), all) = I.pending in
      let mine : IsPending state fp = subst (IsPending state) (sym same) pending in
      rw (record_write, e)
        (insert-IsFlushing want w.store.inner dir (recorded P C B draw fp state) out
          (record { synced = I.synced; pending = all }) (recorded-IsKept fp state mine)
          (λ old at h.
            subst (IsPending (recorded P C B draw fp state)) same
              (recorded-IsPending fp state mine)))
