-- ===== src/Storage/Nfs.antt =====
-- The NFSv3 backend: src/storage/nfs.rs. The server and its RPC client are a parameter, by the
-- calls that the backend makes. Here are the backend's state and how it finds names on the server.
pub mod Server
pub mod Files
pub mod Folders
pub mod Uploads
pub mod Backend
pub mod Resolve
pub mod Changes
pub mod Transfers
use rabbit_storage_explorer.Base.{
  ℕ, suc, Bool, true, false, Option, none, some, List, [], ◌∷◌, ◌++◌, take, drop, ◌==◌,
  if◌then◌else◌, Bytes, Text, slash, ok, err, Error, refused_by_server, remote_directory_not_found,
}
use rabbit_storage_explorer.Base.Dict
use rabbit_storage_explorer.Base.Dict.{Dict}
use rabbit_storage_explorer.Base.Exec.{Exec, ◌>>=◌, pure, fail}
use rabbit_storage_explorer.Paths.{is_empty, trim_slashes, rfind_slash, split_slash}
use rabbit_storage_explorer.Storage.Nfs.Server.{
  NfsServer, Handle, Attr, Stat, noent, Reply, done, refused,
}

-- An upload under way: the file's handle, the offset of the next part, and the key.
pub record InFlight : Type 0 where
  pub fh : Handle
  pub offset : ℕ
  pub key : Text

-- `conn` is the server as the connection sees it; `reported` is what the progress sinks were told.
pub record NfsBackend (S : Type 0) : Type 0 where
  pub conn : S
  pub root : Handle
  pub dir_cache : Dict Handle
  pub uploads : Dict InFlight
  pub upload_seq : ℕ
  pub reported : ℕ

-- `trim_start_matches('/')`
abbrev pub trim_front : Text → Text
trim_front [] = []
trim_front (c ∷ s) = if c == slash then trim_front s else c ∷ s

-- `trim_matches('/')`
unfoldable pub trim_both : Text → Text
trim_both s = trim_slashes (trim_front s)

-- `walked`, and the next segment behind a slash.
abbrev pub walked_on : Text → Text → Text
walked_on walked seg = if is_empty walked then seg else walked ++ (slash ∷ seg)

-- `rsplit_once('/')`: the folder, if there is one, and the name.
abbrev pub cut_at : Text → Option ℕ → Option Text × Text
cut_at s none = (none, s)
cut_at s (some i) = (some (take i s), drop (suc i) s)

unfoldable pub rsplit_once : Text → Option Text × Text
rsplit_once s = cut_at s (rfind_slash s)

module _ {S : Type 0} where
  abbrev pub on_conn : {X : Type 0} → Exec S X → Exec (NfsBackend S) X
  on_conn call s = let (r, c) = call s.conn in (r, record s { conn = c })

  -- An answer other than success is an error.
  abbrev pub accepted : {X : Type 0} → Reply X → Exec (NfsBackend S) X
  accepted (done x) = pure x
  accepted (refused stat) = fail refused_by_server

  abbrev pub called : {X : Type 0} → Exec S (Reply X) → Exec (NfsBackend S) X
  called call = on_conn call >>= accepted

  abbrev pub found :
      Reply (Handle × Option Attr) → Exec (NfsBackend S) (Option (Handle × Option Attr))
  found (done x) = pure (some x)
  found (refused noent) = pure none
  found (refused stat) = fail refused_by_server

  abbrev pub remember : Text → Handle → NfsBackend S → NfsBackend S
  remember path fh s = record s { dir_cache = Dict.insert s.dir_cache path fh }

module _ (N : NfsServer) where
  unfoldable pub lookup : Handle → Text → Exec (NfsBackend N.State) (Option (Handle × Option Attr))
  lookup dir name = on_conn (N.lookup dir name) >>= found

  -- The loop of `resolve_dir`.
  unfoldable pub walk_dir : Handle → Text → List Text → Exec (NfsBackend N.State) Handle
  walk_dir fh walked [] = pure fh
  walk_dir fh walked (seg ∷ segs) = lookup fh seg >>= λ o. elim o [
    | none ↦ fail remote_directory_not_found
    | some x ↦ λ s. walk_dir x.0 (walked_on walked seg) segs (remember (walked_on walked seg) x.0 s)
  ]

  abbrev pub resolve_trimmed : Text → Exec (NfsBackend N.State) Handle
  resolve_trimmed path s = elim (Dict.get s.dir_cache path) [
    | some fh ↦ (ok fh, s)
    | none ↦ walk_dir s.root [] (split_slash path) s
  ]

  unfoldable pub resolve_dir : Text → Exec (NfsBackend N.State) Handle
  resolve_dir path s =
      if is_empty (trim_both path) then (ok s.root, s) else resolve_trimmed (trim_both path) s

  abbrev pub resolve_split : Option Text × Text → Exec (NfsBackend N.State) (Handle × Text)
  resolve_split (none, name) s = (ok (s.root, name), s)
  resolve_split (some dir, name) s = (resolve_dir dir >>= λ fh. pure (fh, name)) s

  unfoldable pub resolve_parent : Text → Exec (NfsBackend N.State) (Handle × Text)
  resolve_parent key = resolve_split (rsplit_once (trim_slashes key))

  -- `attrs.map(|a| a.size).unwrap_or(0)`
  abbrev pub size_of : Option Attr → ℕ
  size_of none = 0
  size_of (some a) = a.size

  abbrev pub with_size : Option (Handle × Option Attr) → Option (Handle × ℕ)
  with_size none = none
  with_size (some x) = some (x.0, size_of x.1)

  unfoldable pub file_handle : Text → Exec (NfsBackend N.State) (Option (Handle × ℕ))
  file_handle key = do at ← resolve_parent key; o ← lookup at.0 at.1; pure (with_size o)
