-- ===== src/Storage/S3/Client.antt =====
-- What the S3 backend asks of the client crate: the requests of src/storage/s3.rs.
use rabbit_storage_explorer.Base.{ℕ, ℤ, Bool, Option, List, Bytes, Text, Result}
use rabbit_storage_explorer.Base.Exec.{Exec}
use rabbit_storage_explorer.Storage.{Reader}

pub record ListedObject : Type 0 where
  pub key : Option Text
  pub size : Option ℤ
  pub last_modified : Option ℤ

pub record Page : Type 0 where
  pub common_prefixes : List (Option Text)
  pub contents : List ListedObject
  pub is_truncated : Bool
  pub next_continuation_token : Option Text

pub record Body : Type 0 where
  pub content_length : Option ℤ
  pub stream : Reader

-- The requests, over the state of the service and its network. `get_object` takes the range header,
-- and answers with nothing where there is no such key; `delete_objects` answers with the keys that
-- it could not delete; `upload_part` also tells how many frames of the body each of its attempts
-- took.
pub record S3Client : Type 1 where
  pub State : Type 0
  pub head_bucket : Exec State (Unit {0})
  pub list_objects : Text → Bool → Option Text → Exec State Page
  pub get_object : Text → Option Text → Exec State (Option Body)
  pub put_object : Text → Bytes → Exec State (Unit {0})
  pub copy_object : Text → Text → Exec State (Unit {0})
  pub delete_objects : List Text → Exec State (List Text)
  pub create_multipart_upload : Text → Exec State (Option Text)
  pub upload_part : Text → Text → ℕ → Bytes → State → Result (Option Text) × List ℕ × State
  pub complete_multipart_upload : Text → Text → List (ℕ × Text) → Exec State (Unit {0})
  pub abort_multipart_upload : Text → Text → Exec State (Unit {0})
