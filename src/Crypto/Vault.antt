-- ===== src/Crypto/Vault.antt =====
-- The vault: `derive_keys`, `create_vault` and `open_vault` of src/crypto.rs. The random salt and
-- file prefix are arguments.
pub mod Laws
use rabbit_storage_explorer.Base.{
  ℕ, Option, none, some, Result, Error, ok, err, ok_or, ensure, ◌>>=◌, ◌>>◌, Bytes, Text, text,
  text_eq,
}
use rabbit_storage_explorer.Base.{
  key_derivation_failed, salt_corrupted, canary_corrupted, wrong_password,
}
use rabbit_storage_explorer.Crypto.Primitives.{Primitives}
use rabbit_storage_explorer.Crypto.Stream.{VaultKeys, encrypt_bytes, decrypt_bytes}

abbrev pub canary_text : Bytes
canary_text = text "rse canary v1"

pub record VaultFile : Type 0 where
  pub version : ℕ
  pub salt : Text
  pub canary : Text

-- `.map_err(|_| e)`: the error is replaced.
abbrev pub map_err {ℓ} : {A : Type ℓ} → Result A → Error → Result A
map_err (ok a) e = ok a
map_err (err _) e = err e

module _ (P : Primitives) where
  unfoldable pub derive_keys : Text → Bytes → Result VaultKeys
  derive_keys password salt = do
    master ← ok_or (P.argon2 password salt) key_derivation_failed
    content ← ok_or (P.hkdf master (text "rse/content/v1") 32) key_derivation_failed
    name ← ok_or (P.hkdf master (text "rse/names/v1") 64) key_derivation_failed
    ok (record { content = content; name = name })

  unfoldable pub create_vault : Text → Bytes → Bytes → Result (VaultFile × VaultKeys)
  create_vault password salt prefix = do
    keys ← derive_keys password salt
    canary ← encrypt_bytes P keys prefix canary_text
    ok (record { version = 1; salt = P.base64_encode salt; canary = P.base64_encode canary }, keys)

  unfoldable pub open_vault : VaultFile → Text → Result VaultKeys
  open_vault vault password = do
    salt ← ok_or (P.base64_decode vault.salt) salt_corrupted
    canary ← ok_or (P.base64_decode vault.canary) canary_corrupted
    keys ← derive_keys password salt
    plain ← map_err (decrypt_bytes P keys canary) wrong_password
    ensure (text_eq plain canary_text) wrong_password
    ok keys
