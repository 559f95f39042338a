-- ===== src/Storage/Defaults.antt =====
-- The methods that the trait StorageBackend of src/storage/mod.rs gives a backend which has none of
-- its own, over the methods that they call.
use rabbit_storage_explorer.Base.{
  ℕ, zero, suc, ◌-◌, min, Option, none, some, List, [], ◌∷◌, ◌++◌, length, take, drop, ◌==◌, leb,
  if◌then◌else◌, Bytes, Text, Result, ok, err, read_failed, reading_header, out_of_fuel,
}
use rabbit_storage_explorer.Base.Exec.{Exec, ◌>>=◌, pure, lift}
use rabbit_storage_explorer.Storage.{RawObject, Reader}
use rabbit_storage_explorer.Worker.{ends_with_slash}
use rabbit_storage_explorer.Worker.Folders.{stripped}
use rabbit_storage_explorer.Worker.Sizes.{vault_key}

-- The buffer of 64 KiB that `get_range` reads into.
abbrev pub scratch : ℕ
scratch = 65536

-- The loop of `get_range` that drops bytes: a read delivers what there is, as far as it was wanted,
-- and nothing at the end; behind what a broken connection delivered it fails.
unfoldable pub discard : ℕ → ℕ → ℕ → Reader → Result Reader
discard size zero remaining r = err out_of_fuel
discard size (suc fuel) zero r = ok r
discard size (suc fuel) (suc left) r =
    let piece = take (min (suc left) size) r.ready in
    let rest =
      discard size fuel (suc left - length piece)
        (record r { ready = drop (min (suc left) size) r.ready }) in
    if length piece == 0 then (if r.broken then err read_failed else ok r) else rest

-- `read_exact`
abbrev pub exactly : ℕ → Reader → Result Bytes
exactly n r = if leb n (length r.ready) then ok (take n r.ready) else err reading_header

module _ {S : Type 0} where
  module _ (get : Text → Exec S (Option Bytes)) (put : Text → Bytes → Exec S (Unit {0})) where
    unfoldable pub default_put_throttled : Text → Bytes → Exec S (Unit {0})
    default_put_throttled key content = put key content

    unfoldable pub default_get_vault : Exec S (Option Bytes)
    default_get_vault = get vault_key

    unfoldable pub default_put_vault : Bytes → Exec S (Unit {0})
    default_put_vault content = put vault_key content

    module _ (prepare_parents : Text → Exec S (Unit {0})) where
      -- `if let Some(data) = get(from)`: prepare the folders, and put the object at its new key.
      abbrev pub put_copy : Text → Option Bytes → Exec S (Unit {0})
      put_copy to none = pure tt
      put_copy to (some content) = do prepared ← prepare_parents to; put to content

      abbrev pub copy_object : Text → Text → Exec S (Unit {0})
      copy_object from to = get from >>= put_copy to

      -- `strip_prefix(from).unwrap_or(&o.key)`
      unfoldable pub copy_all : Text → Text → List RawObject → Exec S (Unit {0})
      copy_all from to [] = pure tt
      copy_all from to (o ∷ os) = do
        copied ← copy_object o.key (to ++ stripped from o.key)
        copy_all from to os

      module _ (list_recursive : Text → Exec S (List RawObject))
          (delete : List Text → Exec S (Unit {0})) where
        unfoldable pub copy_tree : Text → Text → Exec S (Unit {0})
        copy_tree from to = do
          prepared ← prepare_parents (to ++ (b'x' ∷ []))
          objects ← list_recursive from
          copy_all from to objects

        unfoldable pub default_rename : Text → Text → Exec S (Unit {0})
        default_rename from to =
            (if ends_with_slash from then copy_tree from to else copy_object from to) >>= λ copied.
            delete (from ∷ [])

  unfoldable pub default_prepare_parents : Text → Exec S (Unit {0})
  default_prepare_parents key = pure tt

  module _ (get_stream : Text → Exec S (ℕ × Reader)) where
    unfoldable pub default_get_range : Text → ℕ → Exec S (ℕ × Reader)
    default_get_range key offset = do
      source ← get_stream key
      r ← lift (discard scratch (suc offset) offset source.1)
      pure (source.0, r)

  module _ (get_range : Text → ℕ → Exec S (ℕ × Reader)) where
    unfoldable pub default_read_header : Text → ℕ → Exec S Bytes
    default_read_header key len = do source ← get_range key 0; lift (exactly len source.1)
