-- ===== src/Manifest/Blob.antt =====
-- The stored form of a manifest: `Manifest::encrypt`, `Manifest::decrypt` and `fingerprint` of
-- src/manifest.rs. The JSON of serde_json is a parameter.
use Prim.Native.Nat.{bit_xor}
use rabbit_storage_explorer.Base.{
  ℕ, ◌*◌, ◌%◌, [], ◌∷◌, Option, Bytes, Result, ok, ok_or, ◌>>=◌, u64_mod, parsing_manifest,
  serializing_manifest,
}
use rabbit_storage_explorer.Crypto.Primitives.{Primitives}
use rabbit_storage_explorer.Crypto.Stream.{VaultKeys, encrypt_bytes, decrypt_bytes}
use rabbit_storage_explorer.Manifest.Defs.{Manifest}

-- `serde_json::to_vec` and `from_slice` at a manifest.
pub record Codec (J : Type 0) : Type 0 where
  pub to_vec : Manifest J → Option Bytes
  pub from_slice : Bytes → Option (Manifest J)

abbrev pub fnv_step : ℕ → ℕ → ℕ
fnv_step hash b = bit_xor hash b * 0x0000_0100_0000_01b3 % u64_mod

unfoldable pub fnv : ℕ → Bytes → ℕ
fnv hash [] = hash
fnv hash (b ∷ bs) = fnv (fnv_step hash b) bs

module _ {J : Type 0} (P : Primitives) (C : Codec J) where
  -- The prefix is the random one of the encryptor.
  unfoldable pub encrypt : Manifest J → VaultKeys → Bytes → Result Bytes
  encrypt m keys prefix = do
    json ← ok_or (C.to_vec m) serializing_manifest
    encrypt_bytes P keys prefix json

  unfoldable pub decrypt : VaultKeys → Bytes → Result (Manifest J)
  decrypt keys blob = do
    json ← decrypt_bytes P keys blob
    ok_or (C.from_slice json) parsing_manifest

module _ {J : Type 0} (C : Codec J) where
  unfoldable pub fingerprint : Manifest J → Result ℕ
  fingerprint m = do
    json ← ok_or (C.to_vec m) serializing_manifest
    ok (fnv 0xcbf2_9ce4_8422_2325 json)
