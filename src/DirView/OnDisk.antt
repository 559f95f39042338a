-- ===== src/DirView/OnDisk.antt =====
-- Paths on the backend: `on_disk_path` of src/dir_view.rs.
use rabbit_storage_explorer.Base.{◌≡◌, ◌∷◌, ◌++◌, Text, slash, ok, ◌>>=◌}
use rabbit_storage_explorer.Paths.Segments.{map_segments-append}
use rabbit_storage_explorer.Crypto.Primitives.{Primitives}
use rabbit_storage_explorer.Crypto.Stream.{VaultKeys}
use rabbit_storage_explorer.DirView.{on_disk_path, on_disk_segment}

-- The path on the backend of two paths put together at a slash is that of the first, a slash and
-- that of the second; where one of them fails, the whole fails, with the first error.
pub on_disk_path-append :
    (P : Primitives) (keys : VaultKeys) (a b : Text)
    → on_disk_path P keys (a ++ (slash ∷ b))
      ≡ (on_disk_path P keys a >>= λ x. on_disk_path P keys b >>= λ y. ok (x ++ (slash ∷ y)))
unfolding on_disk_path
on_disk_path-append P keys a b = map_segments-append (on_disk_segment P keys) a b
