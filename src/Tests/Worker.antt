-- ===== src/Tests/Worker.antt =====
-- Moves, deleted folders and paths on the backend at small data.
use rabbit_storage_explorer.Base.{
  ◌≡◌, refl, true, false, none, some, [], ◌∷◌, ◌++◌, text, slash, text_eq, ok,
}
use rabbit_storage_explorer.Base.Dict
use rabbit_storage_explorer.Paths.{parent_prefix, leaf_of, last_segment, trim_slashes, rfind_slash}
use rabbit_storage_explorer.Storage.{StorageBackend, RemoteEntry}
use rabbit_storage_explorer.ManifestStore.Ops.{load}
use rabbit_storage_explorer.Worker.Stale.{load-run_delete}
use rabbit_storage_explorer.Manifest.Defs.{default}
use rabbit_storage_explorer.Worker.{starts_with, ends_with_slash, move_target, run_delete}
use rabbit_storage_explorer.Worker.Moves.{move_target-outside}
use rabbit_storage_explorer.Tests.Toy.{toy, keys}
use rabbit_storage_explorer.Tests.Store.{codec, backend, draw, loaded, empty_dir}

abbrev photos : RemoteEntry
photos = record {
  key = text "a/photos/";
  name = text "photos";
  is_dir = true;
  size = 0;
  modified = none;
  encrypted = none;
}

move_target-photos : move_target (text "b/") photos ≡ some (text "a/photos/", text "b/photos/")
unfolding move_target leaf_of last_segment trim_slashes rfind_slash ends_with_slash starts_with
    text_eq
move_target-photos = refl

move_target-photos_below : move_target (text "a/photos/old/") photos ≡ none
unfolding move_target leaf_of last_segment trim_slashes rfind_slash ends_with_slash starts_with
    text_eq
move_target-photos_below = refl

move_target-outside_example : starts_with (text "b/photos/") (text "a/photos/") ≡ false
move_target-outside_example =
    move_target-outside (text "b/") photos (text "a/photos/") (text "b/photos/") refl
      move_target-photos

abbrev folder : RemoteEntry
folder = record {
  key = text "d/";
  name = text "d";
  is_dir = true;
  size = 0;
  modified = none;
  encrypted = some true;
}

-- A backend on which a deletion succeeds, and leaves nothing.
abbrev emptied : StorageBackend
emptied = record backend { delete = λ ks s. (ok tt, []) }

-- The manifest of the folder is still there after the folder was deleted.
load-run_delete_example :
    let after = (run_delete toy codec emptied draw (some keys) (folder ∷ []) loaded).1 in
    load toy codec emptied draw keys (text "d" ++ (slash ∷ [])) after ≡ (ok default, after)
unfolding parent_prefix trim_slashes text_eq Dict.get rfind_slash
load-run_delete_example =
    load-run_delete toy codec emptied draw (text "d") default (some keys) keys (folder ∷ [])
      empty_dir loaded refl refl (refl, tt)
