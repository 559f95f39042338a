-- ===== src/Tests/Listing.antt =====
-- The listing of a directory with its manifest, a folder, a recorded file and an orphan.
use mathlib.Core.List.{Perm}
use rabbit_storage_explorer.Base.{
  ℕ, pos, inr, ◌≡◌, refl, true, false, none, some, [], ◌∷◌, ◌++◌, List, map, Text, text, replicate,
}
use rabbit_storage_explorer.Manifest.Defs.{Manifest, default, hash_entry}
use rabbit_storage_explorer.Manifest.Ops.{upsert_file}
use rabbit_storage_explorer.Storage.{RawObject}
use rabbit_storage_explorer.DirView.{build_listing, listed}
use rabbit_storage_explorer.DirView.Sorting.{IsSorted}
use rabbit_storage_explorer.DirView.Listing.{visible_keys, build_listing-Perm, listed-upsert_file}
use rabbit_storage_explorer.Tests.Toy.{toy, toy-IsDigest}

abbrev raw : List RawObject
raw =
    record { key = text "d/.rse"; size = 90; modified = some (pos 5); is_prefix = false }
    ∷ record { key = text "d/" ++ replicate 64 b'A'; size = 70; modified = none; is_prefix = false }
    ∷ record { key = text "d/plain.txt"; size = 3; modified = none; is_prefix = false }
    ∷ record { key = text "d/sub/"; size = 0; modified = none; is_prefix = true }
    ∷ []

abbrev lower : Text → Text
lower s = s

abbrev manifest : Manifest ℕ
manifest = default

build_listing-Perm_example :
    Perm (map (λ e. e.key) (build_listing lower raw manifest).entries) (visible_keys raw)
    × IsSorted lower (build_listing lower raw manifest).entries
build_listing-Perm_example = build_listing-Perm manifest lower raw

abbrev clip : RawObject
clip = record {
  key = text "d/" ++ hash_entry toy (text "clip");
  size = 400;
  modified = none;
  is_prefix = false;
}

listed-upsert_file_example :
    listed (upsert_file toy manifest (text "clip") (text "Clip.mp4") 330) clip ≡ record {
      key = clip.key;
      name = text "Clip.mp4";
      is_dir = false;
      size = 330;
      modified = none;
      encrypted = some true;
    }
listed-upsert_file_example =
    listed-upsert_file toy manifest (text "d/") (text "clip") (text "Clip.mp4") 330 clip
      toy-IsDigest (inr (text "d", refl)) refl refl
