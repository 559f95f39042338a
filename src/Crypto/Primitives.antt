-- ===== src/Crypto/Primitives.antt =====
-- The cryptography of other crates, as a parameter: XChaCha20-Poly1305, AES-256-SIV, SHA-256,
-- Argon2id, HKDF and the two text encodings. The laws are what their documentation states.
use rabbit_storage_explorer.Base.{
  ℕ, ◌+◌, ◌≤◌, ◌≡◌, Bool, Option, some, [], ◌∷◌, ◌<◌, length, Bytes, Text,
}
use rabbit_storage_explorer.Crypto.Layout.{chunk, tag}

-- Every number of the list is a byte.
abbrev pub IsBytes : Bytes → Type 0
IsBytes [] = Unit
IsBytes (b ∷ bs) = (b < 256) × IsBytes bs

pub record Primitives : Type 0 where
  -- XChaCha20Poly1305: key, nonce, text
  pub seal : Bytes → Bytes → Bytes → Option Bytes
  pub unseal : Bytes → Bytes → Bytes → Option Bytes
  -- Aes256Siv: key, associated header, text
  pub siv_encrypt : Bytes → Bytes → Bytes → Option Bytes
  pub siv_decrypt : Bytes → Bytes → Bytes → Option Bytes
  -- BASE32HEX_NOPAD
  pub base32hex_encode : Bytes → Text
  pub base32hex_decode : Text → Option Bytes
  -- base64 STANDARD
  pub base64_encode : Bytes → Text
  pub base64_decode : Text → Option Bytes
  -- Sha256::digest
  pub sha256 : Bytes → Bytes
  -- Argon2::default().hash_password_into: password, salt
  pub argon2 : Text → Bytes → Option Bytes
  -- Hkdf::<Sha256>::expand: master key, label, length
  pub hkdf : Bytes → Bytes → ℕ → Option Bytes
  -- whether bytes are a `String`
  pub is_utf8 : Bytes → Bool

pub record IsLawful (P : Primitives) : Type 0 where
  -- What was sealed opens under the same key and nonce.
  pub unseal-seal :
      (key nonce plain : Bytes) {c : Bytes}
      → P.seal key nonce plain ≡ some c
      → P.unseal key nonce c ≡ some plain
  -- Sealing adds a tag of 16 bytes, and succeeds on a chunk.
  pub length-seal :
      (key nonce plain : Bytes) {c : Bytes}
      → P.seal key nonce plain ≡ some c
      → length c ≡ length plain + tag
  pub seal_total :
      (key nonce plain : Bytes)
      → length plain ≤ chunk
      → (c : Bytes) × (P.seal key nonce plain ≡ some c)
  pub siv_decrypt-siv_encrypt :
      (key header plain : Bytes) {c : Bytes}
      → P.siv_encrypt key header plain ≡ some c
      → P.siv_decrypt key header c ≡ some plain
  pub base32hex : (b : Bytes) → P.base32hex_decode (P.base32hex_encode b) ≡ some b
  pub base64 : (b : Bytes) → P.base64_decode (P.base64_encode b) ≡ some b

-- What SHA-256 promises here: 32 bytes.
pub record IsDigest (P : Primitives) : Type 0 where
  pub length-sha256 : (b : Bytes) → length (P.sha256 b) ≡ 32
  pub sha256-IsBytes : (b : Bytes) → IsBytes (P.sha256 b)
