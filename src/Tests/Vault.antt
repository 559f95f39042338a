-- ===== src/Tests/Vault.antt =====
-- The vault at small data.
use rabbit_storage_explorer.Base.{◌≡◌, refl, ok, replicate, ◌++◌, ◌∷◌, Bytes, text}
use rabbit_storage_explorer.Crypto.Layout.{magic}
use rabbit_storage_explorer.Crypto.Stream.{
  VaultKeys, encrypt_bytes, seal_all, seal_chunk, chunks, new_encryptor, header, chunk_nonce,
}
use rabbit_storage_explorer.Crypto.Vault.{
  VaultFile, canary_text, derive_keys, create_vault, open_vault,
}
use rabbit_storage_explorer.Crypto.Vault.Laws.{open_vault-create_vault}
use rabbit_storage_explorer.Tests.Toy.{toy, toy-IsLawful, file_prefix}

abbrev salt : Bytes
salt = replicate 16 3

-- The keys of the toy derivation from `pw` and the salt.
abbrev vault_keys : VaultKeys
vault_keys = record { content = replicate 32 18; name = replicate 64 18 }

abbrev vault : VaultFile
vault = record {
  version = 1;
  salt = salt;
  canary = magic ++ (file_prefix ++ (canary_text ++ (0x80 ∷ 0 ∷ 0 ∷ 0 ∷ replicate 12 0)));
}

vault_made : create_vault toy (text "pw") salt file_prefix ≡ ok (vault, vault_keys)
unfolding create_vault derive_keys encrypt_bytes seal_all seal_chunk chunks new_encryptor header
    chunk_nonce
vault_made = refl

open_vault-create_vault_example : open_vault toy vault (text "pw") ≡ ok vault_keys
open_vault-create_vault_example =
    open_vault-create_vault toy toy-IsLawful (text "pw") salt file_prefix vault vault_keys refl
      vault_made
