-- ===== src/Storage/Nfs/Folders.antt =====
-- Folders over NFS: listing by pages, walking trees, making and removing folders, of
-- src/storage/nfs.rs. A stack of folders stands with its top first. `fuel` bounds the rounds of the
-- loops that end where the server says so.
pub mod Listing
use rabbit_storage_explorer.Base.{
  ℕ, zero, suc, Bool, true, false, ◌||◌, Option, none, some, List, [], ◌∷◌, ◌++◌, if◌then◌else◌,
  Bytes, Text, text, text_eq, slash, ok, Error, out_of_fuel, refused_by_server,
  remote_directory_not_found,
}
use rabbit_storage_explorer.Base.Dict
use rabbit_storage_explorer.Base.Exec.{Exec, ◌>>=◌, pure, fail}
use rabbit_storage_explorer.Paths.{trim_slashes, split_slash}
use rabbit_storage_explorer.Worker.{ends_with_slash}
use rabbit_storage_explorer.Storage.{RawObject}
use rabbit_storage_explorer.Storage.Walk.{is_dot, push_folders, only_files, but_last}
use rabbit_storage_explorer.Storage.Nfs.Server.{
  NfsServer, Handle, Attr, Stat, noent, exist, Reply, done, refused, DirEntry, Page,
}
use rabbit_storage_explorer.Storage.Nfs.{
  NfsBackend, called, on_conn, lookup, remember, walked_on, trim_both, resolve_dir, resolve_parent,
}

-- A regular entry by its attributes; one without them is taken for an empty file.
abbrev pub object_at : Text → Option Attr → RawObject
object_at key none = record { key = key; size = 0; modified = none; is_prefix = false }
object_at key (some a) =
    if a.is_directory
    then record { key = key ++ (slash ∷ []); size = 0; modified = some a.seconds; is_prefix = true }
    else record { key = key; size = a.size; modified = some a.seconds; is_prefix = false }

-- The cookie of the last entry, from which the next page goes on.
abbrev pub last_cookie : ℕ → List DirEntry → ℕ
last_cookie cookie [] = cookie
last_cookie cookie (e ∷ es) = last_cookie e.cookie es

module _ (N : NfsServer) where
  unfoldable pub objects_of : Text → List DirEntry → List RawObject
  objects_of prefix [] = []
  objects_of prefix (e ∷ es) =
      let name = N.from_utf8_lossy e.name in
      let rest = objects_of prefix es in
      if is_dot name then rest else object_at (prefix ++ name) e.name_attributes ∷ rest

  -- The loop of `list_dir`: an empty page is the end, as is one that says so.
  unfoldable pub list_pages :
      Handle → Text → ℕ → ℕ → Bytes → List RawObject → Exec (NfsBackend N.State) (List RawObject)
  list_pages dir prefix zero cookie verf out = fail out_of_fuel
  list_pages dir prefix (suc fuel) cookie verf out =
      called (N.readdirplus dir cookie verf) >>= λ page. elim page.entries [
        | [] ↦ pure out
        | e ∷ es ↦ elim page.eof [
          | true ↦ pure (out ++ objects_of prefix (e ∷ es))
          | false ↦
              list_pages dir prefix fuel (last_cookie cookie (e ∷ es)) page.cookieverf
                (out ++ objects_of prefix (e ∷ es))
        ]
      ]

  unfoldable pub list_dir : ℕ → Text → Exec (NfsBackend N.State) (List RawObject)
  list_dir fuel prefix = resolve_dir N prefix >>= λ dir. list_pages dir prefix fuel 0 [] []

  -- The loop of `list_recursive`.
  unfoldable pub list_tree :
      ℕ → ℕ → List Text → List RawObject → Exec (NfsBackend N.State) (List RawObject)
  list_tree pages fuel [] files = pure files
  list_tree pages zero (p ∷ stack) files = fail out_of_fuel
  list_tree pages (suc fuel) (p ∷ stack) files = list_dir pages p >>= λ os.
      list_tree pages fuel (push_folders os stack) (files ++ only_files os)

  unfoldable pub list_recursive : ℕ → Text → Exec (NfsBackend N.State) (List RawObject)
  list_recursive fuel prefix = list_tree fuel fuel (prefix ∷ []) []

  -- What is gone already counts as removed.
  abbrev pub removed : Reply (Unit {0}) → Exec (NfsBackend N.State) (Unit {0})
  removed (done x) = pure tt
  removed (refused noent) = pure tt
  removed (refused stat) = fail refused_by_server

  unfoldable pub remove_entry : Handle → Text → Bool → Exec (NfsBackend N.State) (Unit {0})
  remove_entry dir name is_dir =
      on_conn (if is_dir then N.rmdir dir name else N.remove dir name) >>= removed

  -- The files of a folder, removed.
  unfoldable pub remove_files : List RawObject → Exec (NfsBackend N.State) (Unit {0})
  remove_files [] = pure tt
  remove_files (o ∷ os) = do
    at ← resolve_parent N o.key
    gone ← remove_entry at.0 at.1 false
    remove_files os

  -- The walk of `delete`; its result is the order of the folders, deepest first.
  unfoldable pub empty_tree : ℕ → ℕ → List Text → List Text → Exec (NfsBackend N.State) (List Text)
  empty_tree pages fuel [] order = pure order
  empty_tree pages zero (d ∷ dirs) order = fail out_of_fuel
  empty_tree pages (suc fuel) (d ∷ dirs) order = list_dir pages d >>= λ os.
      remove_files (only_files os) >>= λ gone.
      empty_tree pages fuel (push_folders os dirs) (d ∷ order)

  abbrev pub forget_dir : Text → NfsBackend N.State → NfsBackend N.State
  forget_dir path s = record s { dir_cache = Dict.remove s.dir_cache path }

  unfoldable pub remove_folders : List Text → Exec (NfsBackend N.State) (Unit {0})
  remove_folders [] = pure tt
  remove_folders (d ∷ ds) = resolve_parent N d >>= λ at.
      remove_entry at.0 at.1 true >>= λ gone. λ s. remove_folders ds (forget_dir (trim_both d) s)

  unfoldable pub delete_key : ℕ → Text → Exec (NfsBackend N.State) (Unit {0})
  delete_key fuel key =
      if ends_with_slash key
      then empty_tree fuel fuel (key ∷ []) [] >>= remove_folders
      else resolve_parent N key >>= λ at. remove_entry at.0 at.1 false

  unfoldable pub delete : ℕ → List Text → Exec (NfsBackend N.State) (Unit {0})
  delete fuel [] = pure tt
  delete fuel (k ∷ ks) = delete_key fuel k >>= λ gone. delete fuel ks

  -- A folder that another client has made meanwhile serves as well.
  abbrev pub made_dir : Reply (Unit {0}) → Exec (NfsBackend N.State) (Unit {0})
  made_dir (done x) = pure tt
  made_dir (refused exist) = pure tt
  made_dir (refused stat) = fail refused_by_server

  abbrev pub now_there : Option (Handle × Option Attr) → Exec (NfsBackend N.State) Handle
  now_there none = fail remote_directory_not_found
  now_there (some x) = pure x.0

  abbrev pub dir_or_new :
      Handle → Text → Option (Handle × Option Attr) → Exec (NfsBackend N.State) Handle
  dir_or_new fh seg (some x) = pure x.0
  dir_or_new fh seg none = do
    reply ← on_conn (N.mkdir fh seg)
    made ← made_dir reply
    o ← lookup N fh seg
    now_there o

  -- The loop of `prepare_parents`.
  unfoldable pub make_dirs : Handle → Text → List Text → Exec (NfsBackend N.State) (Unit {0})
  make_dirs fh walked [] s = (ok tt, s)
  make_dirs fh walked (seg ∷ segs) s = elim (Dict.get s.dir_cache (walked_on walked seg)) [
    | some cached ↦ make_dirs cached (walked_on walked seg) segs s
    | none ↦
        ((lookup N fh seg >>= dir_or_new fh seg) >>= λ next. λ mid.
            make_dirs next (walked_on walked seg) segs (remember (walked_on walked seg) next mid))
          s
  ]

  unfoldable pub prepare_parents : Text → Exec (NfsBackend N.State) (Unit {0})
  prepare_parents key s = make_dirs s.root [] (but_last (split_slash (trim_slashes key))) s

  unfoldable pub health_check : Exec (NfsBackend N.State) (Unit {0})
  health_check s = called (N.getattr s.root) s
