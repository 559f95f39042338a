-- ===== src/Storage.antt =====
-- The storage interface: src/storage/mod.rs. A backend is a state, which stands for the server and
-- its network, and its operations; any of them may fail and leave another state.
pub mod Defaults
pub mod Nfs
pub mod S3
pub mod Sftp
pub mod Walk
use rabbit_storage_explorer.Base.{ℕ, ℤ, Bool, Option, List, Bytes, Text}
use rabbit_storage_explorer.Base.Exec.{Exec}

-- A raw listing entry.
pub record RawObject : Type 0 where
  pub key : Text
  pub size : ℕ
  pub modified : Option ℤ
  pub is_prefix : Bool

-- An entry as the user sees it.
pub record RemoteEntry : Type 0 where
  pub key : Text
  pub name : Text
  pub is_dir : Bool
  pub size : ℕ
  pub modified : Option ℤ
  pub encrypted : Option Bool

pub record MultipartUpload : Type 0 where
  pub upload_id : Text
  pub key : Text

-- What a `Reader` has still to deliver, and whether the connection breaks behind that.
pub record Reader : Type 0 where
  pub ready : Bytes
  pub broken : Bool

-- The trait `StorageBackend`, as far as the worker calls it. The reports of `upload_part`
-- to a progress sink, and the pacing of writes by a limiter, are the backend's own.
pub record StorageBackend : Type 1 where
  pub State : Type 0
  pub list : Text → Exec State (List RawObject)
  pub list_recursive : Text → Exec State (List RawObject)
  pub get : Text → Exec State (Option Bytes)
  pub put : Text → Bytes → Exec State (Unit {0})
  pub prepare_parents : Text → Exec State (Unit {0})
  pub delete : List Text → Exec State (Unit {0})
  pub rename : Text → Text → Exec State (Unit {0})
  pub health_check : Exec State (Unit {0})
  pub put_throttled : Text → Bytes → Exec State (Unit {0})
  pub get_vault : Exec State (Option Bytes)
  pub put_vault : Bytes → Exec State (Unit {0})
  pub get_stream : Text → Exec State (ℕ × Reader)
  pub get_range : Text → ℕ → Exec State (ℕ × Reader)
  pub read_header : Text → ℕ → Exec State Bytes
  pub create_multipart : Text → Exec State MultipartUpload
  pub upload_part : MultipartUpload → ℕ → Bytes → Exec State Text
  pub complete_multipart : MultipartUpload → List (ℕ × Text) → Exec State (Unit {0})
  pub abort_multipart : MultipartUpload → Exec State (Unit {0})
