-- ===== src/ManifestStore/Flush.antt =====
-- What the first phase of a flush of src/manifest_store.rs collects: writes of what is buffered.
use rabbit_storage_explorer.Base.{
  ℕ, ◌+◌, ◌≡◌, refl, sym, ap, ◌∙◌, some, none, inl, inr, List, [], ◌∷◌, map, Bytes, Text, ok, err,
  Option-cases, Bool-cases, Result-cases,
}
use rabbit_storage_explorer.Base.Dict
use rabbit_storage_explorer.Base.Dict.{Dict}
use rabbit_storage_explorer.Storage.{StorageBackend}
use rabbit_storage_explorer.Crypto.Primitives.{Primitives}
use rabbit_storage_explorer.Crypto.Stream.{VaultKeys}
use rabbit_storage_explorer.Manifest.Blob.{Codec, fingerprint, encrypt}
use rabbit_storage_explorer.ManifestStore.Plan.{FlushReason, FlushCandidate, select}
use rabbit_storage_explorer.ManifestStore.State.{DirState, World, interval}
use rabbit_storage_explorer.ManifestStore.Ops.{collect, candidates, snapshot, contains}
use rabbit_storage_explorer.ManifestStore.Pending.{AllPending}

module _ {J : Type 0} (P : Primitives) (C : Codec J) (B : StorageBackend) (draw : ℕ → Bytes) where
  -- The fingerprint of what is buffered for a directory, and 0 where there is none.
  abbrev pub buffered : Dict (DirState J) → Text → ℕ
  buffered m dir = elim (Dict.get m dir) [
    | none ↦ 0
    | some state ↦ elim (fingerprint C state.manifest) [ err e ↦ 0 | ok fp ↦ fp ]
  ]

  abbrev AllBuffered : Dict (DirState J) → List FlushCandidate → Type 0
  AllBuffered m [] = Unit
  AllBuffered m (c ∷ cs) =
      ((state : DirState J) × (Dict.get m c.dir ≡ some state)
        × (fingerprint C state.manifest ≡ ok c.fingerprint))
      × AllBuffered m cs

  candidates-AllBuffered :
      (now : ℕ) (m : Dict (DirState J)) (dirs : List Text)
      → AllBuffered m (candidates P C B draw now m dirs)
  unfolding candidates
  candidates-AllBuffered now m [] = tt
  candidates-AllBuffered now m (dir ∷ dirs) =
      let rest = candidates-AllBuffered now m dirs in
      elim (Option-cases (Dict.get m dir)) [
        | inl e ↦ rw (candidates, e) rest
        | inr (s, e) ↦ elim (Result-cases (fingerprint C s.manifest)) [
          | inr (x, f) ↦ rw (candidates, e, f) rest
          | inl (fp, f) ↦ elim (Bool-cases s.dirty) [
            | inr clean ↦ rw (candidates, e, f, clean) rest
            | inl dirty ↦ rw (candidates, e, f, dirty) ((s, e, f), rest)
          ]
        ]
      ]

  snapshot-AllPending :
      (keys : VaultKeys) (m : Dict (DirState J)) (chosen : List Text) (cs : List FlushCandidate)
      (n : ℕ)
      → AllBuffered m cs
      → AllPending P C B draw (buffered m) m (snapshot P C B draw keys m chosen cs n)
  unfolding snapshot
  snapshot-AllPending keys m chosen [] n all = tt
  snapshot-AllPending keys m chosen (c ∷ cs) n ((s, e, f), all) =
      let rest = snapshot-AllPending keys m chosen cs (n + 1) all in
      let same : buffered m c.dir ≡ c.fingerprint = rw (buffered, e, f) refl in
      elim (Result-cases (encrypt P C s.manifest keys (draw n))) [
        | inr (x, g) ↦ rw (snapshot, e, g) rest
        | inl (blob, g) ↦ elim (Bool-cases (contains chosen c.dir)) [
          | inr left ↦ rw (snapshot, e, g, left) rest
          | inl taken ↦
              rw (snapshot, e, g, taken) (sym same, (s, e, inr (f ∙ ap ok (sym same))), rest)
        ]
      ]

  pub collect-AllPending :
      (keys : VaultKeys) (reason : FlushReason) (w : World B.State J)
      → let m = w.store.inner in
        AllPending P C B draw (buffered m) m (collect P C B draw keys reason w).0
  unfolding collect
  collect-AllPending keys reason w =
      let m = w.store.inner in
      let cs = candidates P C B draw w.now m (map (λ e. e.0) m) in
      snapshot-AllPending keys m (select reason (interval w.store) cs) cs w.draws
        (candidates-AllBuffered w.now m (map (λ e. e.0) m))
