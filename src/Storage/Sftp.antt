-- ===== src/Storage/Sftp.antt =====
-- The SFTP backend: src/storage/sftp.rs, over the calls of the SSH and SFTP clients as a parameter. A
-- call that meets its time limit is one that fails; waits for the rate limiter change no state.
pub mod Client
pub mod Connect
pub mod Uploads
use rabbit_storage_explorer.Base.{
  ℕ, zero, suc, ◌+◌, ◌%◌, Bool, true, false, ◌||◌, Option, none, some, List, [], ◌∷◌, ◌++◌, length,
  take, drop, if◌then◌else◌, ℤ, Bytes, Text, text, text_eq, slash, digits, u64_mod, Result, ok, err,
  Error, not_found, unknown_upload_id, not_a_directory, no_vault_location, out_of_fuel,
}
use rabbit_storage_explorer.Base.Dict
use rabbit_storage_explorer.Base.Dict.{Dict}
use rabbit_storage_explorer.Base.Exec.{Exec, ◌>>=◌, pure, fail}
use rabbit_storage_explorer.Paths.{is_empty, trim_slashes, split_slash}
use rabbit_storage_explorer.Worker.{ends_with_slash, starts_with}
use rabbit_storage_explorer.Storage.{StorageBackend, RawObject, MultipartUpload, Reader}
use rabbit_storage_explorer.Storage.Defaults.{default_rename, default_read_header}
use rabbit_storage_explorer.Storage.Walk.{is_dot, push_folders, only_files, but_last}
use rabbit_storage_explorer.Storage.Sftp.Client.{
  SftpClient, FileAttributes, DirEntry, Removal, gone, missing,
}

-- `known_dirs` is a set; `reported` is what the progress sinks were told.
pub record SftpBackend (S H : Type 0) : Type 0 where
  pub sftp : S
  pub root : Text
  pub vault_path : Text
  pub uploads : Dict H
  pub upload_seq : ℕ
  pub known_dirs : List Text
  pub reported : ℕ

abbrev pub global_vault_dir : Text
global_vault_dir = text "/var/lib/rabbit-storage-explorer"

abbrev pub write_chunk : ℕ
write_chunk = 262144

abbrev pub contains : List Text → Text → Bool
contains [] p = false
contains (q ∷ qs) p = text_eq q p || contains qs p

-- The absolute path of a key.
unfoldable pub full : Text → Text → Text
full root key =
    let k = trim_slashes key in
    if is_empty k
    then root
    else if text_eq root (slash ∷ [])
    then slash ∷ k
    else root ++ (slash ∷ k)

abbrev pub size_or_zero : Option ℕ → ℕ
size_or_zero none = 0
size_or_zero (some n) = n

abbrev pub object_at : Text → DirEntry → RawObject
object_at prefix e =
    if e.is_dir
    then record {
      key = prefix ++ (e.name ++ (slash ∷ []));
      size = 0;
      modified = e.attributes.mtime;
      is_prefix = true;
    }
    else record {
      key = prefix ++ e.name;
      size = size_or_zero e.attributes.size;
      modified = e.attributes.mtime;
      is_prefix = false;
    }

unfoldable pub objects_of : Text → List DirEntry → List RawObject
objects_of prefix [] = []
objects_of prefix (e ∷ es) =
    let rest = objects_of prefix es in if is_dot e.name then rest else object_at prefix e ∷ rest

abbrev pub walked_on : Text → Text → Text
walked_on partial seg = if is_empty partial then seg else partial ++ (slash ∷ seg)

module _ (C : SftpClient) where
  abbrev pub Sftp : Type 0
  Sftp = SftpBackend C.State C.Handle

  abbrev pub on_sftp : {X : Type 0} → Exec C.State X → Exec Sftp X
  on_sftp call s = let (r, c) = call s.sftp in (r, record s { sftp = c })

  -- `tolerate_missing`
  abbrev pub tolerate_missing : Removal → Exec Sftp (Unit {0})
  tolerate_missing gone = pure tt
  tolerate_missing missing = pure tt

  unfoldable pub list_inner : Text → Exec Sftp (List RawObject)
  list_inner prefix s =
      (on_sftp (C.read_dir (full s.root prefix)) >>= λ entries. pure (objects_of prefix entries)) s

  -- The entries of a folder: folders go down the recursion, files are removed.
  unfoldable pub remove_entries :
      (Text → Exec Sftp (Unit {0})) → Text → List DirEntry → Exec Sftp (Unit {0})
  remove_entries descend path [] = pure tt
  remove_entries descend path (e ∷ es) = elim (is_dot e.name) [
    | true ↦ remove_entries descend path es
    | false ↦
        (elim e.is_dir [
          | true ↦ descend (path ++ (slash ∷ e.name))
          | false ↦ on_sftp (C.remove_file (path ++ (slash ∷ e.name))) >>= tolerate_missing
        ])
        >>= λ removed. remove_entries descend path es
  ]

  -- A folder's entries, and then the folder.
  unfoldable pub rmdir_recursive : ℕ → Text → Exec Sftp (Unit {0})
  rmdir_recursive zero path = fail out_of_fuel
  rmdir_recursive (suc fuel) path = on_sftp (C.read_dir path) >>= λ entries.
      remove_entries (rmdir_recursive fuel) path entries >>= λ emptied.
      on_sftp (C.remove_dir path) >>= tolerate_missing

  unfoldable pub health_check : Exec Sftp (Unit {0})
  health_check s = (on_sftp (C.metadata s.root) >>= λ attributes. pure tt) s

  unfoldable pub list_tree : ℕ → List Text → List RawObject → Exec Sftp (List RawObject)
  list_tree fuel [] files = pure files
  list_tree zero (p ∷ stack) files = fail out_of_fuel
  list_tree (suc fuel) (p ∷ stack) files =
      list_inner p >>= λ os. list_tree fuel (push_folders os stack) (files ++ only_files os)

  unfoldable pub list_recursive : ℕ → Text → Exec Sftp (List RawObject)
  list_recursive fuel prefix = list_tree fuel (prefix ∷ []) []

  abbrev pub read_opened : Option C.Handle → Exec Sftp (Option Bytes)
  read_opened none = pure none
  read_opened (some file) = on_sftp (C.read_to_end file) >>= λ content. pure (some content)

  unfoldable pub get : Text → Exec Sftp (Option Bytes)
  get key s = (on_sftp (C.open_read (full s.root key)) >>= read_opened) s

  abbrev pub opened : Option C.Handle → Exec Sftp C.Handle
  opened none = fail not_found
  opened (some file) = pure file

  -- The attributes may be missing, as may their size; reading starts where the file was set to.
  abbrev pub stream_from : ℕ → C.Handle → Exec Sftp (ℕ × Reader)
  stream_from offset file = do
    size ← on_sftp (C.size_of file)
    r ← on_sftp (C.stream file offset)
    pure (size_or_zero size, r)

  unfoldable pub get_stream : Text → Exec Sftp (ℕ × Reader)
  get_stream key s = ((on_sftp (C.open_read (full s.root key)) >>= opened) >>= stream_from 0) s

  unfoldable pub get_range : Text → ℕ → Exec Sftp (ℕ × Reader)
  get_range key offset s =
      ((on_sftp (C.open_read (full s.root key)) >>= opened) >>= stream_from offset) s

  unfoldable pub put : Text → Bytes → Exec Sftp (Unit {0})
  put key content s =
      (on_sftp (C.open_truncated (full s.root key)) >>= λ file.
      on_sftp (C.write_all file content) >>= λ written. on_sftp (C.shutdown file))
        s

  abbrev pub report : Bool → ℕ → Sftp → Sftp
  report on_bytes n s = if on_bytes then record s { reported = s.reported + n } else s

  -- `data.chunks(size)`, each of them written and then reported.
  unfoldable pub write_chunks : Bool → C.Handle → ℕ → ℕ → Bytes → Exec Sftp (Unit {0})
  write_chunks on_bytes file size fuel [] = pure tt
  write_chunks on_bytes file size zero (b ∷ bs) = fail out_of_fuel
  write_chunks on_bytes file size (suc fuel) (b ∷ bs) =
      on_sftp (C.write_all file (take size (b ∷ bs))) >>= λ written. λ s.
        write_chunks on_bytes file size fuel (drop size (b ∷ bs))
          (report on_bytes (length (take size (b ∷ bs))) s)

  unfoldable pub put_throttled : Text → Bytes → Exec Sftp (Unit {0})
  put_throttled key content s =
      (on_sftp (C.open_truncated (full s.root key)) >>= λ file.
      write_chunks false file write_chunk (length content) content >>= λ written.
      on_sftp (C.shutdown file))
        s

  abbrev pub know : Text → Sftp → Sftp
  know path s = record s { known_dirs = path ∷ s.known_dirs }

  -- A folder that could not be made has to be there.
  abbrev pub made_or_there : Text → Result (Unit {0}) → Exec Sftp (Unit {0})
  made_or_there path (ok done) = pure tt
  made_or_there path (err e) = on_sftp (C.metadata path) >>= λ attributes.
      if attributes.is_dir then pure tt else fail not_a_directory

  abbrev pub make_dir : Text → Exec Sftp (Unit {0})
  make_dir path s =
      let (r, c) = C.create_dir path s.sftp in made_or_there path r (record s { sftp = c })

  -- The loop of `prepare_parents`.
  unfoldable pub make_dirs : Text → List Text → Exec Sftp (Unit {0})
  make_dirs partial [] s = (ok tt, s)
  make_dirs partial (seg ∷ segs) s = elim (contains s.known_dirs (walked_on partial seg)) [
    | true ↦ make_dirs (walked_on partial seg) segs s
    | false ↦
        (make_dir (full s.root (walked_on partial seg)) >>= λ made.
        λ mid. make_dirs (walked_on partial seg) segs (know (walked_on partial seg) mid))
          s
  ]

  unfoldable pub prepare_parents : Text → Exec Sftp (Unit {0})
  prepare_parents key = make_dirs [] (but_last (split_slash (trim_slashes key)))

  unfoldable pub delete_key : ℕ → Text → Exec Sftp (Unit {0})
  delete_key fuel key s = elim (ends_with_slash key) [
    | false ↦ (on_sftp (C.remove_file (full s.root key)) >>= tolerate_missing) s
    | true ↦
        let (r, c) = C.metadata (full s.root key) s.sftp in
        elim r [
          | err e ↦ (ok tt, record s { sftp = c })
          | ok attributes ↦ rmdir_recursive fuel (full s.root key) (record s { sftp = c })
        ]
  ]

  unfoldable pub delete : ℕ → List Text → Exec Sftp (Unit {0})
  delete fuel [] = pure tt
  delete fuel (k ∷ ks) = delete_key fuel k >>= λ gone. delete fuel ks

  unfoldable pub get_vault : Exec Sftp (Option Bytes)
  get_vault s = (on_sftp (C.open_read s.vault_path) >>= read_opened) s

  -- Whether the shared folder is there; its mode is set if it is new, and a refusal is dropped.
  abbrev pub shared_dir : Result (Unit {0}) → Exec Sftp (Unit {0})
  shared_dir (ok done) s = (ok tt, record s { sftp = (C.set_mode global_vault_dir 0x3ff s.sftp).1 })
  shared_dir (err e) s =
      let (r, c) = C.metadata global_vault_dir s.sftp in
      (elim r [ ok attributes ↦ ok tt | err e ↦ err no_vault_location ], record s { sftp = c })

  abbrev pub ensure_shared_dir : Exec Sftp (Unit {0})
  ensure_shared_dir s =
      let (r, c) = C.create_dir global_vault_dir s.sftp in shared_dir r (record s { sftp = c })

  abbrev pub is_global : Sftp → Bool
  is_global s = starts_with s.vault_path global_vault_dir

  abbrev pub write_vault : Bytes → Exec Sftp (Unit {0})
  write_vault content s =
      (on_sftp (C.open_truncated s.vault_path) >>= λ file.
      on_sftp (C.write_all file content) >>= λ written. on_sftp (C.shutdown file))
        s

  -- The shared vault is made readable to all, if the server lets it.
  abbrev pub share_vault : Exec Sftp (Unit {0})
  share_vault s = (ok tt, record s { sftp = (C.set_mode s.vault_path 0x1a4 s.sftp).1 })

  unfoldable pub put_vault : Bytes → Exec Sftp (Unit {0})
  put_vault content s = elim (is_global s) [
    | true ↦ (ensure_shared_dir >>= λ there. write_vault content >>= λ written. share_vault) s
    | false ↦ write_vault content s
  ]
