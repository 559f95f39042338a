-- ===== src/Paths.antt =====
-- Keys and relative paths: the string helpers of src/dir_view.rs, src/worker.rs and src/crypto.rs
-- that cut keys at `/`. A text is the list of its bytes; `/` is one byte, so cutting the bytes cuts
-- the characters.
pub mod Laws
pub mod Safety
pub mod Segments
use rabbit_storage_explorer.Base.{
  ℕ, zero, suc, Bool, true, false, ◌&&◌, ◌||◌, not, Option, none, some, List, [], ◌∷◌, ◌++◌, take,
  drop, ◌==◌, if◌then◌else◌, Text, slash, text, text_eq, Result, ok, err, ◌>>=◌,
}

abbrev pub is_empty : Text → Bool
is_empty [] = true
is_empty (c ∷ s) = false

-- `trim_end_matches('/')`
unfoldable pub trim_slashes : Text → Text
trim_slashes [] = []
trim_slashes (c ∷ s) = let t = trim_slashes s in if is_empty t && c == slash then [] else c ∷ t

-- `rfind('/')`
unfoldable pub rfind_slash : Text → Option ℕ
rfind_slash [] = none
rfind_slash (c ∷ s) = elim (rfind_slash s) [
  | some i ↦ some (suc i)
  | none ↦ if c == slash then some 0 else none
]

-- `s[..=idx]` at the index found, or the empty text.
abbrev pub up_to : Text → Option ℕ → Text
up_to s none = []
up_to s (some i) = take (suc i) s

-- `s[idx + 1..]` at the index found, or all of `s`.
abbrev pub behind : Text → Option ℕ → Text
behind s none = s
behind s (some i) = drop (suc i) s

-- `parent_prefix` of src/dir_view.rs and of src/worker.rs.
unfoldable pub parent_prefix : Text → Text
parent_prefix key = let trimmed = trim_slashes key in up_to trimmed (rfind_slash trimmed)

-- `rsplit('/').next()`: what follows the last slash.
unfoldable pub last_segment : Text → Text
last_segment s = behind s (rfind_slash s)

-- `leaf_of` of src/dir_view.rs, which the worker writes out in place.
unfoldable pub leaf_of : Text → Text
leaf_of key = last_segment (trim_slashes key)

-- Puts a byte in front of the first segment.
abbrev pub cons_first : ℕ → List Text → List Text
cons_first c [] = (c ∷ []) ∷ []
cons_first c (s ∷ ss) = (c ∷ s) ∷ ss

-- `split('/')`: at least one segment.
unfoldable pub split_slash : Text → List Text
split_slash [] = [] ∷ []
split_slash (c ∷ s) = if c == slash then [] ∷ split_slash s else cons_first c (split_slash s)

-- `join("/")`
unfoldable pub join_slash : List Text → Text
join_slash [] = []
join_slash (s ∷ []) = s
join_slash (s ∷ t ∷ ss) = s ++ (slash ∷ join_slash (t ∷ ss))

-- The loop of `map_segments` of src/crypto.rs, and of `on_disk_path` of src/dir_view.rs: empty
-- segments stay, the others go through `f`, and its first error ends the loop.
unfoldable pub map_each : (Text → Result Text) → List Text → Result (List Text)
map_each f [] = ok []
map_each f (s ∷ ss) = do t ← if is_empty s then ok [] else f s; ts ← map_each f ss; ok (t ∷ ts)

unfoldable pub map_segments : Text → (Text → Result Text) → Result Text
map_segments path f = do out ← map_each f (split_slash path); ok (join_slash out)

abbrev pub backslash : ℕ
backslash = 0x5c

-- `replace('\\', "/")`
unfoldable pub normalized : Text → Text
normalized [] = []
normalized (c ∷ s) = (if c == backslash then slash else c) ∷ normalized s

-- `Path::components` on Unix yields `Normal` for a segment that is not empty, `.` or `..`.
abbrev pub is_normal : Text → Bool
is_normal s = not (is_empty s) && (not (text_eq s (text ".")) && not (text_eq s (text "..")))

unfoldable pub keep_normal : List Text → List Text
keep_normal [] = []
keep_normal (s ∷ ss) = let rest = keep_normal ss in if is_normal s then s ∷ rest else rest

-- `sanitize_rel` of src/worker.rs; a relative `PathBuf` is the list of its components.
unfoldable pub sanitize_rel : Text → List Text
sanitize_rel rel = keep_normal (split_slash (normalized rel))
