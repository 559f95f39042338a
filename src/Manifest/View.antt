-- ===== src/Manifest/View.antt =====
-- The two maps of a manifest, seen as one map from names on the backend to entries, and what each
-- operation does to that map.
use rabbit_storage_explorer.Base.{
  ℕ, ℤ, ◌≡◌, ◌≢◌, ◌⊎◌, inl, inr, Option, none, some, Text, text_eq, text_eq_iff, if◌then◌else◌,
  arith, refl, Option-cases, [], true, false,
}
use rabbit_storage_explorer.Base.Dict
use rabbit_storage_explorer.Base.Dict.{
  get, insert, get-insert, get-remove, remove_absent, dict_laws,
}
use rabbit_storage_explorer.Crypto.Primitives.{Primitives}
use rabbit_storage_explorer.Manifest.Defs.{
  FileEntry, FolderEntry, Entry, file, folder, Manifest, hash_entry, name_for,
}
use rabbit_storage_explorer.Manifest.Ops.{
  is_some, named, upsert_file, upsert_folder, set_folder_size, remove, rename_entry, take_file,
  take_folder, insert_file_entry, insert_folder_entry, take_entry, insert_entry,
}

module _ {J : Type 0} where
  abbrev pub either : Option (FileEntry J) → Option (FolderEntry J) → Option (Entry J)
  either (some f) d = some (file f)
  either none (some d) = some (folder d)
  either none none = none

  -- The entry of a name, a file before a folder.
  unfoldable pub entry_at : Manifest J → Text → Option (Entry J)
  entry_at m k = either (Dict.get m.files k) (Dict.get m.folders k)

  abbrev pub entry_name : Entry J → Text
  entry_name (file f) = f.name
  entry_name (folder d) = d.name

  -- The entry under another display name, with its sizes and extra fields.
  abbrev pub renamed : Text → Entry J → Entry J
  renamed name (file f) = file (record f { name = name })
  renamed name (folder d) = folder (record d { name = name })

  abbrev pub map_entry : {B : Type 0} → (Entry J → B) → Option (Entry J) → Option B
  map_entry f none = none
  map_entry f (some e) = some (f e)

  -- No name is a file and a folder.
  pub record IsDisjoint (m : Manifest J) : Type 0 where
    pub at_key : (k : Text) → (get m.files k ≡ none) ⊎ (get m.folders k ≡ none)

  -- `name_for` is the name of the entry.
  name_for-eq : (m : Manifest J) (k : Text) → name_for m k ≡ map_entry entry_name (entry_at m k)
  unfolding name_for entry_at
  name_for-eq m k = ground arith

  module _ (P : Primitives) (m : Manifest J) where
    pub entry_at-upsert_file :
        (enc name k : Text) (size : ℕ)
        → entry_at (upsert_file P m enc name size) k ≡ (
            if text_eq (hash_entry P enc) k
            then some (file (record { name = name; size = size; extra = [] }))
            else entry_at m k)
    unfolding entry_at upsert_file
    entry_at-upsert_file enc name k size = simp get-insert (ground arith)

    pub entry_at-remove :
        (enc k : Text)
        → ((remove P m enc).0 ≡ is_some (entry_at m (hash_entry P enc)))
          × (entry_at (remove P m enc).1 k
              ≡ (if text_eq (hash_entry P enc) k then none else entry_at m k))
    unfolding entry_at remove
    entry_at-remove enc k = (ground arith, simp get-remove (ground arith))

    pub entry_at-take_entry :
        IsDisjoint m
        → (enc k : Text)
        → ((take_entry P m enc).0 ≡ entry_at m (hash_entry P enc))
          × (entry_at (take_entry P m enc).1 k
              ≡ (if text_eq (hash_entry P enc) k then none else entry_at m k))
    unfolding entry_at take_entry take_file take_folder
    entry_at-take_entry h enc k = ground (
      arith,
      h.at_key (hash_entry P enc),
      get-remove m.files (hash_entry P enc) k,
      get-remove m.folders (hash_entry P enc) k,
      text_eq_iff (hash_entry P enc) k,
    )

    pub entry_at-insert_entry :
        (enc k : Text) (e : Entry J)
        → entry_at m (hash_entry P enc) ≡ none
        → entry_at (insert_entry P m enc e) k
          ≡ (if text_eq (hash_entry P enc) k then some e else entry_at m k)
    unfolding entry_at insert_entry insert_file_entry insert_folder_entry
    entry_at-insert_entry enc k (file f) h = simp get-insert (ground arith)
    entry_at-insert_entry enc k (folder d) h =
        simp get-insert (ground (arith, text_eq_iff (hash_entry P enc) k))

    -- From a manifest in which no name is a file and a folder, and in which the new name is free and
    -- another than the old: renaming moves the entry of the old name, under the new display name, to
    -- the new one, leaves every other name alone, and reports whether there was an entry.
    pub entry_at-rename_entry :
        (old new name k : Text)
        → IsDisjoint m
        → entry_at m (hash_entry P new) ≡ none
        → hash_entry P old ≢ hash_entry P new
        → ((rename_entry P m old new name).0 ≡ is_some (entry_at m (hash_entry P old)))
          × (entry_at (rename_entry P m old new name).1 k ≡ (
              if text_eq (hash_entry P new) k
              then map_entry (renamed name) (entry_at m (hash_entry P old))
              else if text_eq (hash_entry P old) k
              then none
              else entry_at m k))
    unfolding entry_at rename_entry
    entry_at-rename_entry old new name k d free other =
        let o = hash_entry P old in
        let n = hash_entry P new in
        elim (Option-cases (get m.files o)) [
          | inr (f, at_file) ↦
              let g : FileEntry J = record f { name = name } in
              ground (
                arith,
                at_file,
                d.at_key o,
                get-insert (Dict.remove m.files o) n k g,
                get-remove m.files o k,
                text_eq_iff n k,
                text_eq_iff o k,
              )
          | inl no_file ↦ elim (Option-cases (get m.folders o)) [
            | inr (f, at_folder) ↦
                let g : FolderEntry J = record f { name = name } in
                ground (
                  arith,
                  no_file,
                  at_folder,
                  get-insert (Dict.remove m.folders o) n k g,
                  get-remove m.folders o k,
                  text_eq_iff n k,
                  text_eq_iff o k,
                )
            | inl no_folder ↦ ground (arith, no_file, no_folder, text_eq_iff n k, text_eq_iff o k)
          ]
        ]

    -- What `upsert_folder` leaves at its own name: the old entry under the display name, or a folder
    -- whose sizes are unknown.
    abbrev pub upserted : Text → Option (Entry J) → Entry J
    upserted name (some e) = renamed name e
    upserted name none = folder (named none name)

    pub entry_at-upsert_folder :
        (enc name k : Text)
        → get m.files (hash_entry P enc) ≡ none
        → entry_at (upsert_folder P m enc name) k ≡ (
            if text_eq (hash_entry P enc) k
            then some (upserted name (entry_at m (hash_entry P enc)))
            else entry_at m k)
    unfolding entry_at upsert_folder
    entry_at-upsert_folder enc name k no_file =
        simp get-insert (ground (arith, no_file, text_eq_iff (hash_entry P enc) k))

    -- The sizes that `set_folder_size` stores; a file keeps its own.
    abbrev pub sized : ℕ → ℕ → ℤ → Entry J → Entry J
    sized plain cipher time (file f) = file f
    sized plain cipher time (folder d) =
        folder (record d { size = some plain; esize = some cipher; computed = some time })

    pub entry_at-set_folder_size :
        IsDisjoint m
        → (enc k : Text) (plain cipher : ℕ) (time : ℤ)
        → entry_at (set_folder_size P m enc plain cipher time) k ≡ (
            if text_eq (hash_entry P enc) k
            then map_entry (sized plain cipher time) (entry_at m (hash_entry P enc))
            else entry_at m k)
    unfolding entry_at set_folder_size
    entry_at-set_folder_size h enc k plain cipher time =
        let key = hash_entry P enc in
        elim (Option-cases (get m.folders key)) [
          | inr (d, at) ↦
              let e : FolderEntry J = record d {
                size = some plain;
                esize = some cipher;
                computed = some time;
              } in
              ground (arith, at, h.at_key key, get-insert m.folders key k e, text_eq_iff key k)
          | inl none_at ↦ ground (arith, none_at, h.at_key key, text_eq_iff key k)
        ]

-- Where there is nothing to take, the manifest stays as it is.
pub take_entry_none :
    {J : Type 0} (P : Primitives) (m : Manifest J) (enc : Text)
    → is_some ((take_entry P m enc).0) ≡ false
    → (take_entry P m enc).1 ≡ m
unfolding take_entry take_file take_folder
take_entry_none P m enc h = elim (Option-cases (get m.files (hash_entry P enc))) [
  | inr (f, e) ↦ (let bad : true ≡ false = rw (take_entry, e) at h in cc)
  | inl e ↦ elim (Option-cases (get m.folders (hash_entry P enc))) [
    | inr (d, g) ↦ (let bad : true ≡ false = rw (take_entry, e, g) at h in cc)
    | inl g ↦
        rw
          (
            take_entry,
            e,
            g,
            remove_absent m.files (hash_entry P enc) e,
            remove_absent m.folders (hash_entry P enc) g,
          )
          refl
  ]
]
