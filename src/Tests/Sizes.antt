-- ===== src/Tests/Sizes.antt =====
-- The size of a folder with one file and its manifest.
use rabbit_storage_explorer.Base.{
  ◌-◌, ◌≡◌, refl, true, false, min, none, some, [], ◌∷◌, text, ok, arith, u64_mod, pos, text_eq,
}
use rabbit_storage_explorer.Storage.{StorageBackend, RawObject}
use rabbit_storage_explorer.Worker.Sizes.{is_metadata, run_calculate_size}
use rabbit_storage_explorer.Worker.Sizes.Totals.{
  Holds, nothing, metadata, file, sum, encrypted_sum, run_calculate_size-Holds,
}
use rabbit_storage_explorer.Manifest.Defs.{is_manifest_key}
use rabbit_storage_explorer.Paths.{leaf_of, last_segment, trim_slashes, rfind_slash}
use rabbit_storage_explorer.Crypto.Layout.{encrypted_size}
use rabbit_storage_explorer.Tests.Toy.{toy, keys}
use rabbit_storage_explorer.Tests.Store.{codec, backend, draw, loaded}

abbrev movie : RawObject
movie = record { key = text "d/AB"; size = 45; modified = none; is_prefix = false }

abbrev its_manifest : RawObject
its_manifest = record { key = text "d/.rse"; size = 99; modified = none; is_prefix = false }

abbrev folder : StorageBackend
folder = record backend { list_recursive = λ prefix s. (ok (movie ∷ its_manifest ∷ []), s) }

folder-Holds : Holds (movie ∷ its_manifest ∷ []) (5 ∷ [])
unfolding is_metadata encrypted_size is_manifest_key leaf_of last_segment trim_slashes rfind_slash
    text_eq
folder-Holds = file {o = movie} refl (omega arith) refl (metadata {o = its_manifest} refl nothing)

run_calculate_size-Holds_example :
    (run_calculate_size toy codec folder draw
      (some keys)
      (text "d/")
      (text "d")
      true
      (pos 1)
      loaded).0
    ≡ ok (min (sum (5 ∷ [])) (u64_mod - 1), min (encrypted_sum (5 ∷ [])) (u64_mod - 1))
run_calculate_size-Holds_example =
    run_calculate_size-Holds toy codec folder draw keys (text "d/") (text "d") true (pos 1) loaded
      (movie ∷ its_manifest ∷ []) (5 ∷ []) loaded.remote refl folder-Holds
