-- ===== src/Storage/Sftp/Connect.antt =====
-- How an SFTP connection is made: `connect` of src/storage/sftp.rs, which trusts a host key on its
-- first use. The store of known hosts is the one of src/settings.rs.
use rabbit_storage_explorer.Base.{
  Option, none, some, [], ◌∷◌, ◌++◌, if◌then◌else◌, Text, text_eq, slash, Result, ok, err,
  host_key_mismatch, no_host_key,
}
use rabbit_storage_explorer.Base.Dict
use rabbit_storage_explorer.Base.Dict.{Dict, get-insert}
use rabbit_storage_explorer.Paths.{is_empty, trim_slashes}
use rabbit_storage_explorer.Worker.Sizes.{vault_key}
use rabbit_storage_explorer.Storage.Sftp.{global_vault_dir}

-- `known_host` and `remember_host`, over the file's content.
abbrev pub known_host : Dict Text → Text → Option Text
known_host hosts id = Dict.get hosts id

abbrev pub remember_host : Dict Text → Text → Text → Dict Text
remember_host hosts id fingerprint = Dict.insert hosts id fingerprint

-- The decision on the fingerprint that the server showed, before anything secret is sent.
unfoldable pub check_host_key : Dict Text → Text → Option Text → Result (Dict Text)
check_host_key hosts host_id none = err no_host_key
check_host_key hosts host_id (some fingerprint) = elim (known_host hosts host_id) [
  | none ↦ ok (remember_host hosts host_id fingerprint)
  | some known ↦ if text_eq known fingerprint then ok hosts else err host_key_mismatch
]

-- `trim_end_matches('/')`, where the root stays itself.
unfoldable pub no_trailing_slash : Text → Text
no_trailing_slash path =
    let trimmed = trim_slashes path in if is_empty trimmed then slash ∷ [] else trimmed

-- The vault of an account stands in its home, or in the shared place if it has none. `home` is what
-- the server made of ".", if it did.
unfoldable pub vault_path_of : Option Text → Text
vault_path_of home =
    let place : Text = elim home [ none ↦ slash ∷ [] | some h ↦ no_trailing_slash h ] in
    if text_eq place (slash ∷ [])
    then global_vault_dir ++ (slash ∷ vault_key)
    else place ++ (slash ∷ vault_key)
