-- ===== src/Worker/Stale.antt =====
-- What run_delete of src/worker.rs leaves of the buffered manifests of folders.
use mathlib.Core.Option.{some-injective}
use rabbit_storage_explorer.Base.{
  ℕ, ◌+◌, ◌≡◌, refl, sym, ap, subst, ◌∙◌, false, Option, some, none, inl, inr, List, [], ◌∷◌, ◌++◌,
  Bytes, Text, slash, map, length, text_eq, text_eq_iff, ok, Option-cases, Bool-cases, Result-cases,
}
use rabbit_storage_explorer.Base.Dict
use rabbit_storage_explorer.Base.Dict.{get-insert_same, get-insert_other}
use rabbit_storage_explorer.Base.Exec.{>>=-preserves, lift, pure, ◌>>=◌}
use rabbit_storage_explorer.Paths.{parent_prefix}
use rabbit_storage_explorer.Storage.{StorageBackend, RemoteEntry}
use rabbit_storage_explorer.Crypto.Primitives.{Primitives}
use rabbit_storage_explorer.Crypto.Stream.{VaultKeys}
use rabbit_storage_explorer.Crypto.Names.{encrypt_name}
use rabbit_storage_explorer.Manifest.Defs.{Manifest}
use rabbit_storage_explorer.Manifest.Ops
use rabbit_storage_explorer.Manifest.Blob.{Codec}
use rabbit_storage_explorer.ManifestStore.Plan.{FlushReason, forced}
use rabbit_storage_explorer.ManifestStore.State.{DirState, World, manifest_object_key}
use rabbit_storage_explorer.ManifestStore.Ops.{
  load, fetch, or_insert, change, edit, edited, fresh, decoded, remotely, flush, collect, write_all,
  record_write, recorded,
}
use rabbit_storage_explorer.ManifestStore.Forget.{forget-trim_slashes}
use rabbit_storage_explorer.Worker.{
  run_delete, collect_keys, delete_records, drop_records, drop_record, forget_folder, final_flush,
}

module _ {J : Type 0} (P : Primitives) (C : Codec J) (B : StorageBackend) (draw : ℕ → Bytes)
    (dir : Text) (m : Manifest J) where
  -- The manifest is buffered for the directory.
  abbrev Holds : World B.State J → Type 0
  Holds w = (state : DirState J) × (Dict.get w.store.inner dir ≡ some state) × (state.manifest ≡ m)

  insert-Holds :
      (other : Text) (new : DirState J) (w : World B.State J)
      → text_eq other dir ≡ false
      → Holds w
      → Holds (record w { store = record w.store { inner = Dict.insert w.store.inner other new } })
  insert-Holds other new w n (state, e, same) =
      (state, get-insert_other w.store.inner other dir new n ∙ e, same)

  record_write-Holds :
      (other : Text) (fp : ℕ) (w : World B.State J)
      → Holds w
      → Holds (record_write P C B draw other fp w)
  unfolding record_write recorded
  record_write-Holds other fp w (state, e, same) =
      elim (Option-cases (Dict.get w.store.inner other)) [
        | inl none_there ↦ rw (record_write, none_there) (state, e, same)
        | inr (s, there) ↦ elim (Bool-cases (text_eq other dir)) [
          | inr n ↦
              rw (record_write, there)
                (insert-Holds other (recorded P C B draw fp s) w n (state, e, same))
          | inl is ↦
              let eq = (text_eq_iff other dir).0 is in
              let held : ◌≡◌ {A = Option (DirState J)} (some s) (some state) =
                sym there ∙ ap (Dict.get w.store.inner) eq ∙ e in
              rw (record_write, there)
                (
                  recorded P C B draw fp s,
                  subst
                      (λ d.
                        Dict.get (Dict.insert w.store.inner other (recorded P C B draw fp s)) d
                        ≡ some (recorded P C B draw fp s))
                      eq (get-insert_same w.store.inner other (recorded P C B draw fp s)),
                  ap (λ x. x.manifest) (some-injective _ _ held) ∙ same,
                )
        ]
      ]

  write_all-Holds :
      (out : List (Text × Bytes × ℕ)) (n : ℕ) (w : World B.State J)
      → Holds w
      → Holds (write_all P C B draw out n w).1
  unfolding write_all
  write_all-Holds [] n w h = h
  write_all-Holds ((other, blob, fp) ∷ out) n w h =
      >>=-preserves Holds (remotely (B.put (manifest_object_key other) blob))
        (λ done w'. write_all P C B draw out (n + 1) (record_write P C B draw other fp w'))
        (λ x i. i)
        (λ done x i.
          write_all-Holds out (n + 1) (record_write P C B draw other fp x)
            (record_write-Holds other fp x i))
        w h

  flush-Holds :
      (keys : VaultKeys) (reason : FlushReason) (w : World B.State J)
      → Holds w
      → Holds (flush P C B draw keys reason w).1
  unfolding flush collect
  flush-Holds keys reason w h =
      let (out, w') = collect P C B draw keys reason w in write_all-Holds out 0 w' h

  module _ (other : Text) (n : text_eq other dir ≡ false) where
    or_insert-Holds :
        (manifest : Manifest J) (w : World B.State J)
        → Holds w
        → Holds (or_insert P C B draw other manifest w).1
    unfolding or_insert
    or_insert-Holds manifest w h = elim (Option-cases (Dict.get w.store.inner other)) [
      | inl e ↦ rw (or_insert, e) (insert-Holds other (fresh P C B draw manifest w.now) w n h)
      | inr (state, e) ↦ rw (or_insert, e) h
    ]

    load-Holds :
        (keys : VaultKeys) (w : World B.State J) → Holds w → Holds (load P C B draw keys other w).1
    unfolding load fetch
    load-Holds keys w h = elim (Option-cases (Dict.get w.store.inner other)) [
      | inl e ↦
          rw (load, e)
            (>>=-preserves Holds (fetch P C B draw keys other) (or_insert P C B draw other)
              (>>=-preserves Holds (remotely (B.get (manifest_object_key other)))
                (λ fetched. lift (decoded P C B draw keys fetched)) (λ x i. i) (λ fetched x i. i))
              or_insert-Holds w h)
      | inr (state, e) ↦ rw (load, e) h
    ]

    change-Holds :
        (f : Manifest J → Manifest J) (w : World B.State J)
        → Holds w
        → Holds (change P C B draw other f w).1
    unfolding change
    change-Holds f w h = elim (Option-cases (Dict.get w.store.inner other)) [
      | inl e ↦ rw (change, e) h
      | inr (state, e) ↦ rw (change, e) (insert-Holds other (edited P C B draw f w.now state) w n h)
    ]

    edit-Holds :
        (keys : VaultKeys) (f : Manifest J → Manifest J) (w : World B.State J)
        → Holds w
        → Holds (edit P C B draw keys other f w).1
    unfolding edit
    edit-Holds keys f w h =
        >>=-preserves Holds (load P C B draw keys other) (λ loaded. change P C B draw other f)
          (load-Holds keys) (λ loaded. change-Holds f) w h

-- No item lies directly in the directory.
abbrev pub AllElsewhere : Text → List RemoteEntry → Type 0
AllElsewhere dir [] = Unit
AllElsewhere dir (item ∷ items) =
    (text_eq (parent_prefix item.key) dir ≡ false) × AllElsewhere dir items

module _ {J : Type 0} (P : Primitives) (C : Codec J) (B : StorageBackend) (draw : ℕ → Bytes)
    (s : Text) (m : Manifest J) where
  abbrev HoldsFolder : World B.State J → Type 0
  HoldsFolder w = Holds P C B draw (s ++ (slash ∷ [])) m w

  collect_keys-Holds :
      (session_keys : Option VaultKeys) (items : List RemoteEntry) (w : World B.State J)
      → HoldsFolder w
      → HoldsFolder (collect_keys P C B draw session_keys items w).1
  unfolding collect_keys
  collect_keys-Holds session_keys [] w h = h
  collect_keys-Holds session_keys (item ∷ items) w h =
      let rest = collect_keys-Holds session_keys items in
      elim (Bool-cases item.is_dir) [
        | inl e ↦ rw e (
            >>=-preserves HoldsFolder (remotely (B.list_recursive item.key))
              (λ below. collect_keys P C B draw session_keys items >>= λ ks.
                pure (map (λ o. o.key) below ++ (item.key ∷ ks)))
              (λ x i. i)
              (λ below.
                >>=-preserves HoldsFolder (collect_keys P C B draw session_keys items)
                  (λ ks. pure (map (λ o. o.key) below ++ (item.key ∷ ks))) rest (λ ks x i. i))
              w h)
        | inr n ↦ rw n (
            >>=-preserves HoldsFolder (collect_keys P C B draw session_keys items)
              (λ ks. pure (item.key ∷ ks)) rest (λ ks x i. i) w h)
      ]

  drop_record-Holds :
      (session_keys : Option VaultKeys) (keys : VaultKeys) (item : RemoteEntry)
      (w : World B.State J)
      → text_eq (parent_prefix item.key) (s ++ (slash ∷ [])) ≡ false
      → HoldsFolder w
      → HoldsFolder (drop_record P C B draw session_keys keys item w).1
  unfolding drop_record
  drop_record-Holds session_keys keys item w n h =
      elim (Result-cases (encrypt_name P keys item.name)) [
        | inr (x, e) ↦ rw (drop_record, e) h
        | inl (enc, e) ↦
            rw (drop_record, e)
              (edit-Holds P C B draw (s ++ (slash ∷ [])) m (parent_prefix item.key) n keys
                (λ x. (Ops.remove P x enc).1) w h)
      ]

  forget_folder-Holds :
      (session_keys : Option VaultKeys) (item : RemoteEntry) (w : World B.State J)
      → HoldsFolder w
      → HoldsFolder (forget_folder P C B draw session_keys item w).1
  unfolding forget_folder
  forget_folder-Holds session_keys item w (state, e, same) = elim (Bool-cases item.is_dir) [
    | inl d ↦ rw (forget_folder, d) (state, forget-trim_slashes P C B draw item.key s w ∙ e, same)
    | inr f ↦ rw (forget_folder, f) (state, e, same)
  ]

  drop_records-Holds :
      (session_keys : Option VaultKeys) (keys : VaultKeys) (items : List RemoteEntry)
      (w : World B.State J)
      → AllElsewhere (s ++ (slash ∷ [])) items
      → HoldsFolder w
      → HoldsFolder (drop_records P C B draw session_keys keys items w).1
  unfolding drop_records
  drop_records-Holds session_keys keys [] w all h = h
  drop_records-Holds session_keys keys (item ∷ items) w (n, all) h =
      >>=-preserves HoldsFolder (drop_record P C B draw session_keys keys item)
        (λ x. forget_folder P C B draw session_keys item >>= λ y.
          drop_records P C B draw session_keys keys items)
        (λ x. drop_record-Holds session_keys keys item x n)
        (λ x.
          >>=-preserves HoldsFolder (forget_folder P C B draw session_keys item)
            (λ y. drop_records P C B draw session_keys keys items)
            (forget_folder-Holds session_keys item)
            (λ y z. drop_records-Holds session_keys keys items z all))
        w h

  delete_records-Holds :
      (session_keys keys : Option VaultKeys) (items : List RemoteEntry) (w : World B.State J)
      → AllElsewhere (s ++ (slash ∷ [])) items
      → HoldsFolder w
      → HoldsFolder (delete_records P C B draw session_keys keys items w).1
  unfolding delete_records final_flush
  delete_records-Holds session_keys none items w all h = h
  delete_records-Holds session_keys (some keys) items w all h =
      >>=-preserves HoldsFolder (drop_records P C B draw session_keys keys items)
        (λ x. final_flush P C B draw session_keys (some keys))
        (λ x. drop_records-Holds session_keys keys items x all)
        (λ x y. flush-Holds P C B draw (s ++ (slash ∷ [])) m keys forced y) w h

  run_delete-Holds :
      (session_keys : Option VaultKeys) (items : List RemoteEntry) (w : World B.State J)
      → AllElsewhere (s ++ (slash ∷ [])) items
      → HoldsFolder w
      → HoldsFolder (run_delete P C B draw session_keys items w).1
  unfolding run_delete
  run_delete-Holds session_keys items w all h =
      >>=-preserves HoldsFolder (collect_keys P C B draw session_keys items)
        (λ ks. remotely (B.delete ks) >>= λ x.
          delete_records P C B draw session_keys session_keys items >>= λ y. pure (length ks))
        (collect_keys-Holds session_keys items)
        (λ ks.
          >>=-preserves HoldsFolder (remotely (B.delete ks))
            (λ x.
              delete_records P C B draw session_keys session_keys items >>= λ y. pure (length ks))
            (λ x i. i)
            (λ x.
              >>=-preserves HoldsFolder (delete_records P C B draw session_keys session_keys items)
                (λ y. pure (length ks))
                (λ z. delete_records-Holds session_keys session_keys items z all) (λ y z i. i)))
        w h

  -- Whatever items are deleted, the folder itself among them, and whatever the backend answers: if
  -- none lies directly in the folder, and its manifest `m` is buffered, then loading the folder
  -- afterwards still returns `m`, and asks the backend for nothing.
  pub load-run_delete :
      (session_keys : Option VaultKeys) (keys : VaultKeys) (items : List RemoteEntry)
      (state : DirState J) (w : World B.State J)
      → Dict.get w.store.inner (s ++ (slash ∷ [])) ≡ some state
      → state.manifest ≡ m
      → AllElsewhere (s ++ (slash ∷ [])) items
      → let after = (run_delete P C B draw session_keys items w).1 in
        load P C B draw keys (s ++ (slash ∷ [])) after ≡ (ok m, after)
  unfolding load
  load-run_delete session_keys keys items state w at is all =
      let (left, there, same) = run_delete-Holds session_keys items w all (state, at, is) in
      rw (load, there) (rw same refl)
