-- ===== src/ManifestStore/State.antt =====
-- The state of the buffer, and of a session around it.
use rabbit_storage_explorer.Base.{ℕ, Bool, Option, max, [], ◌++◌, Text, if◌then◌else◌}
use rabbit_storage_explorer.Base.Dict.{Dict}
use rabbit_storage_explorer.Paths.{is_empty}
use rabbit_storage_explorer.Manifest.Defs.{Manifest, manifest_key}

pub record DirState (J : Type 0) : Type 0 where
  pub manifest : Manifest J
  pub written_fingerprint : Option ℕ
  pub last_change : ℕ
  pub dirty : Bool

pub record ManifestStore (J : Type 0) : Type 0 where
  pub inner : Dict (DirState J)
  pub interval_ms : ℕ

unfoldable pub new : {J : Type 0} → ℕ → ManifestStore J
new interval = record { inner = []; interval_ms = interval }

unfoldable pub set_interval : {J : Type 0} → ManifestStore J → ℕ → ManifestStore J
set_interval s interval = record s { interval_ms = interval }

unfoldable pub interval : {J : Type 0} → ManifestStore J → ℕ
interval s = max s.interval_ms 1

unfoldable pub manifest_object_key : Text → Text
manifest_object_key dir = if is_empty dir then manifest_key else dir ++ manifest_key

-- What an operation of a session works on: the backend's state, the buffer, the clock in
-- milliseconds, and how many random file prefixes were drawn.
pub record World (R J : Type 0) : Type 0 where
  pub remote : R
  pub store : ManifestStore J
  pub now : ℕ
  pub draws : ℕ
