-- ===== src/Storage/Sftp/Client.antt =====
-- What the SFTP backend asks of its client crates: the calls of src/storage/sftp.rs.
use rabbit_storage_explorer.Base.{ℕ, ℤ, Bool, Option, List, Bytes, Text}
use rabbit_storage_explorer.Base.Exec.{Exec}
use rabbit_storage_explorer.Storage.{Reader}

pub record FileAttributes : Type 0 where
  pub is_dir : Bool
  pub size : Option ℕ
  pub mtime : Option ℤ

pub record DirEntry : Type 0 where
  pub name : Text
  pub is_dir : Bool
  pub attributes : FileAttributes

-- A removal that the server did, or that had nothing to remove.
pub data Removal : Type 0 where
  gone missing : Removal

-- The calls, over the state of the server and its network. `open_read` answers with nothing where
-- there is no such file; `size_of` is the size in the attributes of an open file, if they came.
pub record SftpClient : Type 1 where
  pub State : Type 0
  pub Handle : Type 0
  pub canonicalize : Text → Exec State Text
  pub read_dir : Text → Exec State (List DirEntry)
  pub metadata : Text → Exec State FileAttributes
  pub open_read : Text → Exec State (Option Handle)
  pub open_truncated : Text → Exec State Handle
  pub size_of : Handle → Exec State (Option ℕ)
  pub stream : Handle → ℕ → Exec State Reader
  pub read_to_end : Handle → Exec State Bytes
  pub write_all : Handle → Bytes → Exec State (Unit {0})
  pub flush : Handle → Exec State (Unit {0})
  pub shutdown : Handle → Exec State (Unit {0})
  pub create_dir : Text → Exec State (Unit {0})
  pub remove_file : Text → Exec State Removal
  pub remove_dir : Text → Exec State Removal
  pub set_mode : Text → ℕ → Exec State (Unit {0})
