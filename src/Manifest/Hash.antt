-- ===== src/Manifest/Hash.antt =====
-- Hashed names: 64 hex digits, one path segment, and never the name of the manifest.
use rabbit_storage_explorer.Base.{
  ℕ, ◌*◌, ◌/◌, ◌%◌, ◌<◌, ◌≡◌, refl, true, false, [], ◌∷◌, arith, length, Bytes, Text, slash,
  text_eq,
}
use rabbit_storage_explorer.Paths.Safety.{Lacks}
use rabbit_storage_explorer.Paths.Laws.{IsLeaf, trim_slashes-leaf}
use rabbit_storage_explorer.Crypto.Primitives.{Primitives, IsDigest, IsBytes}
use rabbit_storage_explorer.Manifest.Defs.{
  hex_digit, upper_hex, is_manifest_key, manifest_key, hash_entry, is_hex, all_hex, looks_like_hash,
}

length-upper_hex : (bs : Bytes) → length (upper_hex bs) ≡ 2 * length bs
unfolding upper_hex
length-upper_hex [] = refl
length-upper_hex (b ∷ bs) = omega (arith, length-upper_hex bs)

hex_digit-is_hex : (d : ℕ) → d < 16 → is_hex (hex_digit d) ≡ true
hex_digit-is_hex d h = ground arith

all_hex-upper_hex : (bs : Bytes) → IsBytes bs → all_hex (upper_hex bs) ≡ true
unfolding upper_hex all_hex
all_hex-upper_hex [] h = refl
all_hex-upper_hex (b ∷ bs) (byte, h) = rw (
  hex_digit-is_hex (b / 16) (omega arith),
  hex_digit-is_hex (b % 16) (omega arith),
  all_hex-upper_hex bs h,
)

all_hex-Lacks : (s : Text) → all_hex s ≡ true → Lacks slash s
unfolding all_hex
all_hex-Lacks [] h = tt
all_hex-Lacks (b ∷ s) h = (ground arith, all_hex-Lacks s (ground arith))

-- With a digest of 32 bytes, a hashed name looks like a hash: 64 uppercase hex digits.
pub looks_like_hash-hash_entry :
    (P : Primitives) → IsDigest P → (enc : Text) → looks_like_hash (hash_entry P enc) ≡ true
unfolding looks_like_hash hash_entry
looks_like_hash-hash_entry P D enc =
    let size : length (upper_hex (P.sha256 enc)) ≡ 64 =
      omega (arith, length-upper_hex (P.sha256 enc), D.length-sha256 enc) in
    rw (size, all_hex-upper_hex (P.sha256 enc) (D.sha256-IsBytes enc))

-- What looks like a hash is one path segment, and is not taken for the manifest object.
pub looks_like_hash-IsLeaf : (s : Text) → looks_like_hash s ≡ true → IsLeaf s
unfolding looks_like_hash
looks_like_hash-IsLeaf [] h = cc
looks_like_hash-IsLeaf (c ∷ s) h = (λ e. cc, all_hex-Lacks (c ∷ s) (ground arith))

all_hex-ne : (s : Text) → all_hex s ≡ true → text_eq s manifest_key ≡ false
unfolding all_hex text_eq
all_hex-ne [] h = refl
all_hex-ne (c ∷ s) h = ground arith

pub is_manifest_key-hash : (s : Text) → looks_like_hash s ≡ true → is_manifest_key s ≡ false
unfolding is_manifest_key looks_like_hash
is_manifest_key-hash s h =
    let digits : all_hex s ≡ true = ground arith in
    rw (trim_slashes-leaf s (looks_like_hash-IsLeaf s h).1, all_hex-ne s digits)

-- With a digest of 32 bytes, no hashed name is the name of the manifest object, and every one is
-- a single path segment that looks like a hash.
pub is_manifest_key-hash_entry :
    (P : Primitives)
    → IsDigest P
    → (enc : Text)
    → (is_manifest_key (hash_entry P enc) ≡ false)
      × IsLeaf (hash_entry P enc)
      × (looks_like_hash (hash_entry P enc) ≡ true)
is_manifest_key-hash_entry P D enc =
    let hashed = looks_like_hash-hash_entry P D enc in
    (is_manifest_key-hash _ hashed, looks_like_hash-IsLeaf _ hashed, hashed)
