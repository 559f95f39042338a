-- ===== src/DirView/Listing.antt =====
-- What the listing of src/dir_view.rs shows of a directory.
use mathlib.Core.List.{Perm}
use rabbit_storage_explorer.Base.{
  ℕ, suc, ◌≡◌, refl, sym, ap, ◌∙◌, Bool, true, false, not, subst, ◌&&◌, Option, none, some, inl,
  inr, List, [], ◌∷◌, ◌++◌, map, arith, Text, if◌then◌else◌, Bool-cases,
}
use rabbit_storage_explorer.Base.Dict
use rabbit_storage_explorer.Base.Dict.{get-insert_same}
use rabbit_storage_explorer.Crypto.Primitives.{Primitives, IsDigest}
use rabbit_storage_explorer.Manifest.Defs.{
  FileEntry, Manifest, hash_entry, is_manifest_key, looks_like_hash, name_for,
}
use rabbit_storage_explorer.Manifest.Ops.{is_some, upsert_file}
use rabbit_storage_explorer.Manifest.Hash.{is_manifest_key-hash_entry}
use rabbit_storage_explorer.Paths.{leaf_of}
use rabbit_storage_explorer.Paths.Laws.{IsDir, leaf_of-append}
use rabbit_storage_explorer.Storage.{RawObject, RemoteEntry}
use rabbit_storage_explorer.DirView.{
  kind_of, size_of, shown, listed, list_all, build_listing, counted, insert_sorted, sort_entries,
}
use rabbit_storage_explorer.DirView.Sorting.{IsSorted, sort_entries-IsSorted, map-sort_entries-Perm}

-- The keys of the objects that are not a manifest.
abbrev pub visible_keys : List RawObject → List Text
visible_keys [] = []
visible_keys (o ∷ raw) =
    let rest = visible_keys raw in if is_manifest_key (leaf_of o.key) then rest else o.key ∷ rest

abbrev pub is_marked : Option Bool → Bool
is_marked none = false
is_marked (some b) = b

-- An entry that is hash-named and not marked as encrypted.
abbrev pub is_orphan : RemoteEntry → Bool
is_orphan e = not (is_marked e.encrypted) && looks_like_hash (leaf_of e.key)

abbrev pub count : (RemoteEntry → Bool) → List RemoteEntry → ℕ
count p [] = 0
count p (e ∷ es) = let rest = count p es in if p e then suc rest else rest

count-insert_sorted :
    (lower : Text → Text) (p : RemoteEntry → Bool) (x : RemoteEntry) (ys : List RemoteEntry)
    → count p (insert_sorted lower x ys) ≡ count p (x ∷ ys)
unfolding insert_sorted
count-insert_sorted lower p x [] = refl
count-insert_sorted lower p x (y ∷ ys) = ground (arith, count-insert_sorted lower p x ys)

count-sort_entries :
    (lower : Text → Text) (p : RemoteEntry → Bool) (xs : List RemoteEntry)
    → count p (sort_entries lower xs) ≡ count p xs
unfolding sort_entries
count-sort_entries lower p [] = refl
count-sort_entries lower p (x ∷ xs) =
    count-insert_sorted lower p x (sort_entries lower xs)
    ∙ ground (arith, count-sort_entries lower p xs)

module _ {J : Type 0} (manifest : Manifest J) where
  listed-key : (o : RawObject) → (listed manifest o).key ≡ o.key
  unfolding listed
  listed-key o = refl

  list_all-keys :
      (raw : List RawObject) → map (λ e. e.key) ((list_all manifest raw).0) ≡ visible_keys raw
  unfolding list_all listed
  list_all-keys [] = refl
  list_all-keys (o ∷ raw) = elim (Bool-cases (is_manifest_key (leaf_of o.key))) [
    | inl e ↦ rw e (list_all-keys raw)
    | inr n ↦ rw n (ap (λ ks. o.key ∷ ks) (list_all-keys raw))
  ]

  -- A listing has exactly one entry for each object of the directory that is not the manifest, under
  -- the key of that object, and none for the manifest; folders stand before files, and among each
  -- the names in lower case ascend, byte by byte.
  pub build_listing-Perm :
      (lower : Text → Text) (raw : List RawObject)
      → let entries = (build_listing lower raw manifest).entries in
        Perm (map (λ e. e.key) entries) (visible_keys raw) × IsSorted lower entries
  unfolding build_listing
  build_listing-Perm lower raw = (
    subst (Perm (map (λ e. e.key) (sort_entries lower ((list_all manifest raw).0))))
        (list_all-keys raw) (map-sort_entries-Perm lower (λ e. e.key) ((list_all manifest raw).0)),
    sort_entries-IsSorted lower ((list_all manifest raw).0),
  )

  counted-kind_of :
      (o : RawObject) (n : ℕ)
      → counted (kind_of manifest (leaf_of o.key)) n
        ≡ (if is_orphan (listed manifest o) then suc n else n)
  unfolding listed kind_of shown
  counted-kind_of o n = elim (Bool-cases (is_some (name_for manifest (leaf_of o.key)))) [
    | inl e ↦ rw e refl
    | inr u ↦ elim (Bool-cases (looks_like_hash (leaf_of o.key))) [
      | inl e ↦ rw u (rw e refl)
      | inr m ↦ rw u (rw m refl)
    ]
  ]

  list_all-orphans :
      (raw : List RawObject)
      → (list_all manifest raw).1 ≡ count is_orphan ((list_all manifest raw).0)
  unfolding list_all
  list_all-orphans [] = refl
  list_all-orphans (o ∷ raw) = elim (Bool-cases (is_manifest_key (leaf_of o.key))) [
    | inl e ↦ rw e (list_all-orphans raw)
    | inr n ↦ rw n (
        counted-kind_of o ((list_all manifest raw).1)
        ∙ ap (λ k. if is_orphan (listed manifest o) then suc k else k) (list_all-orphans raw))
  ]

  -- The orphan count of a listing is the number of its entries that have the shape of a hashed name
  -- and are not marked as encrypted.
  pub build_listing-orphan_count :
      (lower : Text → Text) (raw : List RawObject)
      → let listing = build_listing lower raw manifest in
        listing.orphan_count ≡ count is_orphan listing.entries
  unfolding build_listing
  build_listing-orphan_count lower raw =
      list_all-orphans raw ∙ sym (count-sort_entries lower is_orphan ((list_all manifest raw).0))

-- An object whose name is that of a file in the manifest.
listed-eq :
    {J : Type 0} (manifest : Manifest J) (o : RawObject) (f : FileEntry J)
    → o.is_prefix ≡ false
    → Dict.get manifest.files (leaf_of o.key) ≡ some f
    → listed manifest o ≡ record {
      key = o.key;
      name = f.name;
      is_dir = false;
      size = f.size;
      modified = o.modified;
      encrypted = some true;
    }
unfolding listed kind_of shown size_of name_for
listed-eq manifest o f file at =
    let named : name_for manifest (leaf_of o.key) ≡ some f.name = rw (name_for, at) refl in
    rw (file, named) (rw (named, at) refl)

-- Under a lawful digest, once a file is recorded in the manifest, the object of its hashed name below
-- a directory prefix, if it is not a prefix itself, is listed under its display name, with its plain
-- size and as encrypted.
pub listed-upsert_file :
    {J : Type 0} (P : Primitives) (manifest : Manifest J) (dir enc name : Text) (size : ℕ)
    (o : RawObject)
    → IsDigest P
    → IsDir dir
    → o.key ≡ dir ++ hash_entry P enc
    → o.is_prefix ≡ false
    → listed (upsert_file P manifest enc name size) o ≡ record {
      key = o.key;
      name = name;
      is_dir = false;
      size = size;
      modified = o.modified;
      encrypted = some true;
    }
unfolding upsert_file
listed-upsert_file {J} P manifest dir enc name size o D is at file =
    let new : FileEntry J = record { name = name; size = size; extra = [] } in
    let leaf : leaf_of o.key ≡ hash_entry P enc =
      ap leaf_of at
      ∙ (leaf_of-append dir (hash_entry P enc) is ((is_manifest_key-hash_entry P D enc).1)).0 in
    listed-eq (upsert_file P manifest enc name size) o new file
      (rw leaf (get-insert_same manifest.files (hash_entry P enc) new))
