-- ===== src/Crypto/Vault/Laws.antt =====
-- A vault opens with the password that made it.
use rabbit_storage_explorer.Base.{
  ◌≡◌, ok, length, Bytes, Text, arith, text_eq_refl, ok-injective, >>=-eq-ok, sym, ◌∙◌, subst,
}
use rabbit_storage_explorer.Crypto.Layout.{prefix_len}
use rabbit_storage_explorer.Crypto.Primitives.{Primitives, IsLawful}
use rabbit_storage_explorer.Crypto.Stream.{VaultKeys, encrypt_bytes}
use rabbit_storage_explorer.Crypto.Stream.Roundtrip.{decrypt_bytes-encrypt_bytes}
use rabbit_storage_explorer.Crypto.Vault.{
  VaultFile, canary_text, derive_keys, create_vault, open_vault,
}

module _ (P : Primitives) (L : IsLawful P) where
  -- Under lawful primitives, a vault that `create_vault` made under a 20-byte prefix opens with the
  -- same password, and gives the keys that were made with it.
  pub open_vault-create_vault :
      (password : Text) (salt prefix : Bytes) (vault : VaultFile) (keys : VaultKeys)
      → length prefix ≡ prefix_len
      → create_vault P password salt prefix ≡ ok (vault, keys)
      → open_vault P vault password ≡ ok keys
  unfolding create_vault open_vault
  open_vault-create_vault password salt prefix vault keys p h =
      let (k, derived, h₁) = >>=-eq-ok (derive_keys P password salt) _ h in
      let (c, encrypted, h₂) = >>=-eq-ok (encrypt_bytes P k prefix canary_text) _ h₁ in
      let (blob, encrypted', _, decrypted) =
        decrypt_bytes-encrypt_bytes P L k prefix canary_text p (omega arith) in
      let same : c ≡ blob = ok-injective (sym encrypted ∙ encrypted') in
      subst (λ (x : VaultFile × VaultKeys). open_vault P x.0 password ≡ ok x.1) (ok-injective h₂)
        (rw (L.base64 salt, L.base64 c, derived, same, decrypted, text_eq_refl canary_text))
