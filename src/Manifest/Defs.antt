-- ===== src/Manifest/Defs.antt =====
-- The data of src/manifest.rs, the names on the backend, and the lookup. The names of entries on the backend are the hashes of
-- their encrypted names; the maps are keyed by them. `J` is the type of the JSON values that a
-- newer writer may have left in the `extra` maps.
use rabbit_storage_explorer.Base.{
  ℕ, ℤ, Bool, true, ◌||◌, Option, none, some, [], ◌∷◌, ◌+◌, ◌/◌, ◌%◌, Bytes, Text, text, text_eq,
  ltb, leb, length, ◌&&◌, ◌==◌, if◌then◌else◌,
}
use rabbit_storage_explorer.Base.Dict
use rabbit_storage_explorer.Base.Dict.{Dict}
use rabbit_storage_explorer.Paths.{trim_slashes}
use rabbit_storage_explorer.Crypto.Primitives.{Primitives}

pub record FileEntry (J : Type 0) : Type 0 where
  pub name : Text
  pub size : ℕ
  pub extra : Dict J

pub record FolderEntry (J : Type 0) : Type 0 where
  pub name : Text
  pub size : Option ℕ
  pub esize : Option ℕ
  pub computed : Option ℤ
  pub extra : Dict J

pub data Entry (J : Type 0) : Type 0 where
  file : FileEntry J → Entry J
  folder : FolderEntry J → Entry J

pub record Manifest (J : Type 0) : Type 0 where
  pub version : ℕ
  pub files : Dict (FileEntry J)
  pub folders : Dict (FolderEntry J)
  pub extra : Dict J

abbrev pub manifest_key : Text
manifest_key = text ".rse"

abbrev pub manifest_version : ℕ
manifest_version = 1

-- Manifest::default
abbrev pub default : {J : Type 0} → Manifest J
default = record { version = manifest_version; files = []; folders = []; extra = [] }

-- One digit and one byte of `{b:02X}`.
abbrev pub hex_digit : ℕ → ℕ
hex_digit d = if ltb d 10 then d + 48 else d + 55

unfoldable pub upper_hex : Bytes → Text
upper_hex [] = []
upper_hex (b ∷ bs) = hex_digit (b / 16) ∷ hex_digit (b % 16) ∷ upper_hex bs

unfoldable pub is_manifest_key : Text → Bool
is_manifest_key name = text_eq name manifest_key || text_eq (trim_slashes name) manifest_key

-- `looks_like_hash` of src/dir_view.rs: 64 uppercase hex digits.
abbrev pub is_hex : ℕ → Bool
is_hex b = (leb b'0' b && leb b b'9') || (leb b'A' b && leb b b'F')

unfoldable pub all_hex : Text → Bool
all_hex [] = true
all_hex (b ∷ s) = is_hex b && all_hex s

unfoldable pub looks_like_hash : Text → Bool
looks_like_hash name = length name == 64 && all_hex name

module _ (P : Primitives) where
  unfoldable pub hash_entry : Text → Text
  hash_entry encrypted_segment = upper_hex (P.sha256 encrypted_segment)

module _ {J : Type 0} where
  -- `name_for`: files first.
  unfoldable pub name_for : Manifest J → Text → Option Text
  name_for m on_disk_name = elim (Dict.get m.files on_disk_name) [
    | some f ↦ some f.name
    | none ↦ elim (Dict.get m.folders on_disk_name) [ some d ↦ some d.name | none ↦ none ]
  ]
