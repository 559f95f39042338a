-- ===== src/Crypto/Names.antt =====
-- Encrypted file names: `pad_name`, `unpad_name`, `encrypt_name` and `decrypt_name` of
-- src/crypto.rs. A name is the list of its UTF-8 bytes.
pub mod Laws
use rabbit_storage_explorer.Base.{
  ℕ, ◌+◌, ◌-◌, ◌*◌, ◌/◌, ◌%◌, List, [], ◌∷◌, ◌++◌, length, take, replicate, Result, ok, err, ok_or,
  ensure, ◌>>=◌, ◌>>◌, ltb, ◌==◌, if◌then◌else◌, div_ceil, Bytes, Text, text,
}
use rabbit_storage_explorer.Base.{
  name_too_long, name_too_short, invalid_length_prefix, bad_name_key, name_encryption_failed,
  not_an_encrypted_name, name_decryption_failed, name_not_utf8,
}
use rabbit_storage_explorer.Crypto.Primitives.{Primitives}
use rabbit_storage_explorer.Crypto.Stream.{VaultKeys}

abbrev pub name_header : Bytes
name_header = text "rse-name-v1"

abbrev pub name_pad_block : ℕ
name_pad_block = 16

-- `u16::to_be_bytes`
abbrev pub be16 : ℕ → Bytes
be16 n = (n / 256 % 256) ∷ (n % 256) ∷ []

-- The length prefix, the name, and zeros up to a whole number of blocks.
unfoldable pub pad_name : Bytes → Result Bytes
pad_name name =
    if ltb 65535 (length name)
    then err name_too_long
    else let body = 2 + length name in
      let padded = div_ceil body name_pad_block * name_pad_block in
      ok (be16 (length name) ++ (name ++ replicate (padded - body) 0))

unfoldable pub unpad_name : Bytes → Result Bytes
unpad_name [] = err name_too_short
unpad_name (a ∷ []) = err name_too_short
unpad_name (a ∷ b ∷ rest) =
    let len = a * 256 + b in
    if ltb (2 + length rest) (2 + len) then err invalid_length_prefix else ok (take len rest)

-- `Aes256Siv::new_from_slice` takes keys of 64 bytes alone.
abbrev pub check_name_key : VaultKeys → Result (Unit {0})
check_name_key keys = ensure (length keys.name == 64) bad_name_key

module _ (P : Primitives) where
  unfoldable pub encrypt_name : VaultKeys → Text → Result Text
  encrypt_name keys name = do
    check_name_key keys
    padded ← pad_name name
    ct ← ok_or (P.siv_encrypt keys.name name_header padded) name_encryption_failed
    ok (P.base32hex_encode ct)

  unfoldable pub decrypt_name : VaultKeys → Text → Result Text
  decrypt_name keys encoded = do
    ct ← ok_or (P.base32hex_decode encoded) not_an_encrypted_name
    check_name_key keys
    padded ← ok_or (P.siv_decrypt keys.name name_header ct) name_decryption_failed
    pt ← unpad_name padded
    ensure (P.is_utf8 pt) name_not_utf8
    ok pt
