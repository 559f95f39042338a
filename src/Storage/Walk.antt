-- ===== src/Storage/Walk.antt =====
-- What the backends that have real folders share: src/storage/nfs.rs and src/storage/sftp.rs. A stack
-- of folders stands with its top first.
use rabbit_storage_explorer.Base.{Bool, ◌||◌, List, [], ◌∷◌, if◌then◌else◌, Text, text, text_eq}
use rabbit_storage_explorer.Storage.{RawObject}

abbrev pub is_dot : Text → Bool
is_dot name = text_eq name (text ".") || text_eq name (text "..")

-- The folders of a listing, each pushed on the stack.
unfoldable pub push_folders : List RawObject → List Text → List Text
push_folders [] stack = stack
push_folders (o ∷ os) stack = push_folders os (if o.is_prefix then o.key ∷ stack else stack)

unfoldable pub only_files : List RawObject → List RawObject
only_files [] = []
only_files (o ∷ os) = let rest = only_files os in if o.is_prefix then rest else o ∷ rest

-- `segments[..segments.len() - 1]`
unfoldable pub but_last : List Text → List Text
but_last [] = []
but_last (s ∷ []) = []
but_last (s ∷ t ∷ ss) = s ∷ but_last (t ∷ ss)
