-- ===== src/Tests/Manifest.antt =====
-- Manifests at small data. The toy digest of an ASCII name is the sum of its bytes.
use rabbit_storage_explorer.Base.{
  ℕ, ◌≡◌, ◌≢◌, refl, none, some, [], ◌∷◌, arith, Text, text, text_eq, if◌then◌else◌, inr,
}
use rabbit_storage_explorer.Base.Dict.{get}
use rabbit_storage_explorer.Manifest.Defs.{
  Manifest, file, FileEntry, hash_entry, upper_hex, default,
}
use rabbit_storage_explorer.Manifest.Ops.{rename_entry, take_entry, insert_entry, is_some}
use rabbit_storage_explorer.Manifest.View.{
  entry_at, IsDisjoint, renamed, map_entry, entry_at-rename_entry,
}
use rabbit_storage_explorer.Manifest.Disjoint.{insert_entry-take_entry}
use rabbit_storage_explorer.Tests.Toy.{toy}

-- No extra fields.
abbrev J : Type 0
J = ℕ

abbrev clip : FileEntry J
clip = record { name = text "clip"; size = 9999; extra = [] }

abbrev src : Manifest J
src = record {
  version = 1;
  files = (hash_entry toy (text "clip"), clip) ∷ [];
  folders = [];
  extra = [];
}

src-IsDisjoint : IsDisjoint src
unfolding get
src-IsDisjoint = record { at_key = λ k. inr refl }

other_name : hash_entry toy (text "clip") ≢ hash_entry toy (text "b")
unfolding hash_entry upper_hex
other_name = λ e. ground arith

entry_at-rename_entry_example :
    ((rename_entry toy src (text "clip") (text "b") (text "b")).0
      ≡ is_some (entry_at src (hash_entry toy (text "clip"))))
    × (entry_at
          (rename_entry toy src (text "clip") (text "b") (text "b")).1
          (hash_entry toy (text "b"))
        ≡ (if text_eq (hash_entry toy (text "b")) (hash_entry toy (text "b"))
            then map_entry (renamed (text "b")) (entry_at src (hash_entry toy (text "clip")))
            else if text_eq (hash_entry toy (text "clip")) (hash_entry toy (text "b"))
            then none
            else entry_at src (hash_entry toy (text "b"))))
unfolding get entry_at hash_entry upper_hex text_eq
entry_at-rename_entry_example =
    entry_at-rename_entry toy src (text "clip") (text "b") (text "b") (hash_entry toy (text "b"))
      src-IsDisjoint refl other_name

insert_entry-take_entry_example :
    ((take_entry toy src (text "clip")).0 ≡ some (file clip))
    × ((k : Text)
        → entry_at (insert_entry toy default (text "clip") (file clip)) k ≡ (
            if text_eq (hash_entry toy (text "clip")) k
            then entry_at src k
            else entry_at default k))
    × ((k : Text)
        → entry_at (take_entry toy src (text "clip")).1 k
          ≡ (if text_eq (hash_entry toy (text "clip")) k then none else entry_at src k))
unfolding get entry_at hash_entry upper_hex text_eq
insert_entry-take_entry_example =
    insert_entry-take_entry toy src default (text "clip") (file clip) src-IsDisjoint refl refl
