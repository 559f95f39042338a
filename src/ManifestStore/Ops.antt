-- ===== src/ManifestStore/Ops.antt =====
-- The operations of `ManifestStore` on a session's world.
use rabbit_storage_explorer.Base.{
  ℕ, ◌+◌, ◌-◌, Bool, true, false, Option, none, some, List, [], ◌∷◌, map, length, Bytes, Text,
  text_eq, if◌then◌else◌, Result, ok, err, ◌||◌,
}
use rabbit_storage_explorer.Base.Dict
use rabbit_storage_explorer.Base.Dict.{Dict}
use rabbit_storage_explorer.Base.Exec.{Exec, and_then, ◌>>=◌, lift}
use rabbit_storage_explorer.Storage.{StorageBackend}
use rabbit_storage_explorer.Crypto.Primitives.{Primitives}
use rabbit_storage_explorer.Crypto.Stream.{VaultKeys}
use rabbit_storage_explorer.Manifest.Defs.{Manifest, Entry, default}
use rabbit_storage_explorer.Manifest.Ops
use rabbit_storage_explorer.Manifest.Ops.{is_some}
use rabbit_storage_explorer.Manifest.Blob.{Codec, encrypt, decrypt, fingerprint}
use rabbit_storage_explorer.ManifestStore.Plan.{FlushReason, FlushCandidate, changed, select}
use rabbit_storage_explorer.ManifestStore.State.{DirState, World, interval, manifest_object_key}

-- `.ok()`
abbrev pub to_option {ℓ} : {A : Type ℓ} → Result A → Option A
to_option (ok a) = some a
to_option (err e) = none

abbrev pub contains : List Text → Text → Bool
contains [] k = false
contains (j ∷ js) k = text_eq j k || contains js k

module _ {R J : Type 0} where
  abbrev pub with_inner : World R J → Dict (DirState J) → World R J
  with_inner w inner = record w { store = record w.store { inner = inner } }

  -- A call of the backend.
  abbrev pub remotely : {X : Type 0} → Exec R X → Exec (World R J) X
  remotely call w = let (r, remote) = call w.remote in (r, record w { remote = remote })

-- Everything that a session is made of: the crates, the JSON codec, the backend, the keys and the
-- source of random file prefixes.
module _ {J : Type 0} (P : Primitives) (C : Codec J) (B : StorageBackend) (draw : ℕ → Bytes) where
  -- The manifest of a fetched object, or an empty one if there is none.
  unfoldable pub decoded : VaultKeys → Option Bytes → Result (Manifest J)
  decoded keys none = ok default
  decoded keys (some blob) = decrypt P C keys blob

  -- The state of a manifest that was just loaded: written, and clean.
  abbrev pub fresh : Manifest J → ℕ → DirState J
  fresh manifest now = record {
    manifest = manifest;
    written_fingerprint = to_option (fingerprint C manifest);
    last_change = now;
    dirty = false;
  }

  -- `entry(dir).or_insert_with(..)`, and the manifest that then stands there.
  unfoldable pub or_insert : Text → Manifest J → Exec (World B.State J) (Manifest J)
  or_insert dir manifest w = elim (Dict.get w.store.inner dir) [
    | some state ↦ (ok state.manifest, w)
    | none ↦ (ok manifest, with_inner w (Dict.insert w.store.inner dir (fresh manifest w.now)))
  ]

  unfoldable pub fetch : VaultKeys → Text → Exec (World B.State J) (Manifest J)
  fetch keys dir = do
    fetched ← remotely (B.get (manifest_object_key dir))
    lift (decoded keys fetched)

  unfoldable pub load : VaultKeys → Text → Exec (World B.State J) (Manifest J)
  unfolding fetch decoded or_insert
  load keys dir w = elim (Dict.get w.store.inner dir) [
    | some state ↦ (ok state.manifest, w)
    | none ↦ (fetch keys dir >>= or_insert dir) w
  ]

  abbrev pub edited : (Manifest J → Manifest J) → ℕ → DirState J → DirState J
  edited f now state = record state { manifest = f state.manifest; last_change = now; dirty = true }

  -- `get_mut(dir)` and the change, where the directory is buffered.
  unfoldable pub change : Text → (Manifest J → Manifest J) → Exec (World B.State J) (Unit {0})
  change dir f w = elim (Dict.get w.store.inner dir) [
    | none ↦ (ok tt, w)
    | some state ↦ (ok tt, with_inner w (Dict.insert w.store.inner dir (edited f w.now state)))
  ]

  unfoldable pub edit :
      VaultKeys → Text → (Manifest J → Manifest J) → Exec (World B.State J) (Unit {0})
  unfolding load change
  edit keys dir f = do _ ← load keys dir; change dir f

  -- The dirty directories whose manifest has a fingerprint. `iter` is modelled by the keys and what
  -- stands under each.
  unfoldable pub candidates : ℕ → Dict (DirState J) → List Text → List FlushCandidate
  candidates now m [] = []
  candidates now m (dir ∷ dirs) =
      let rest = candidates now m dirs in
      elim (Dict.get m dir) [
        | none ↦ rest
        | some s ↦ elim (fingerprint C s.manifest) [
          | err e ↦ rest
          | ok fp ↦
              if s.dirty
              then record {
                dir = dir;
                fingerprint = fp;
                written_fingerprint = s.written_fingerprint;
                since_change = now - s.last_change;
              }
                ∷ rest
              else rest
        ]
      ]

  -- The blobs of the chosen candidates, each under a fresh random prefix; one that does not encrypt
  -- is left out.
  unfoldable pub snapshot :
      VaultKeys → Dict (DirState J) → List Text → List FlushCandidate → ℕ → List (Text × Bytes × ℕ)
  snapshot keys m chosen [] n = []
  snapshot keys m chosen (c ∷ cs) n =
      let rest = snapshot keys m chosen cs (n + 1) in
      elim (Dict.get m c.dir) [
        | none ↦ rest
        | some state ↦ elim (encrypt P C state.manifest keys (draw n)) [
          | err e ↦ rest
          | ok blob ↦ if contains chosen c.dir then (c.dir, blob, c.fingerprint) ∷ rest else rest
        ]
      ]

  -- The written fingerprint, and clean if the manifest still has it.
  unfoldable pub recorded : ℕ → DirState J → DirState J
  recorded fp state = record state {
    written_fingerprint = some fp;
    dirty = if changed fp (to_option (fingerprint C state.manifest)) then state.dirty else false;
  }

  unfoldable pub record_write : Text → ℕ → World B.State J → World B.State J
  record_write dir fp w = elim (Dict.get w.store.inner dir) [
    | none ↦ w
    | some state ↦ with_inner w (Dict.insert w.store.inner dir (recorded fp state))
  ]

  -- The first write that fails ends the flush.
  unfoldable pub write_all : List (Text × Bytes × ℕ) → ℕ → Exec (World B.State J) ℕ
  write_all [] written w = (ok written, w)
  write_all ((dir, blob, fp) ∷ rest) written w =
      and_then (λ _ w'. write_all rest (written + 1) (record_write dir fp w'))
        (remotely (B.put (manifest_object_key dir) blob) w)

  -- The first phase of a flush: what is to be written, with one draw for each candidate.
  unfoldable pub collect :
      VaultKeys → FlushReason → World B.State J → List (Text × Bytes × ℕ) × World B.State J
  unfolding candidates snapshot
  collect keys reason w =
      let m = w.store.inner in
      let cs = candidates w.now m (map (λ e. e.0) m) in
      let chosen = select reason (interval w.store) cs in
      (snapshot keys m chosen cs w.draws, record w { draws = w.draws + length cs })

  unfoldable pub flush : VaultKeys → FlushReason → Exec (World B.State J) ℕ
  unfolding collect write_all record_write recorded
  flush keys reason w = let (out, w') = collect keys reason w in write_all out 0 w'

  unfoldable pub forget : Text → World B.State J → World B.State J
  forget dir w = with_inner w (Dict.remove w.store.inner dir)

  -- The entry that `take_entry` of the manifest finds, and the directory dirty if there is one.
  unfoldable pub take_from : Text → Text → Exec (World B.State J) (Option (Entry J))
  take_from dir encrypted_segment w = elim (Dict.get w.store.inner dir) [
    | none ↦ (ok none, w)
    | some state ↦
        let (e, m) = Ops.take_entry P state.manifest encrypted_segment in
        let left : DirState J = record state {
          manifest = m;
          last_change = if is_some e then w.now else state.last_change;
          dirty = state.dirty || is_some e;
        } in
        (ok e, with_inner w (Dict.insert w.store.inner dir left))
  ]

  unfoldable pub take_entry : VaultKeys → Text → Text → Exec (World B.State J) (Option (Entry J))
  unfolding take_from
  take_entry keys dir encrypted_segment = do _ ← load keys dir; take_from dir encrypted_segment

  unfoldable pub insert_entry :
      VaultKeys → Text → Text → Entry J → Exec (World B.State J) (Unit {0})
  insert_entry keys dir encrypted_segment entry =
      edit keys dir (λ m. Ops.insert_entry P m encrypted_segment entry)
