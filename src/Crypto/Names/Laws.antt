-- ===== src/Crypto/Names/Laws.antt =====
-- Padding hides all but the block count of a name's length, and encrypted names decrypt.
use rabbit_storage_explorer.Base.{
  ℕ, ◌+◌, ◌-◌, ◌*◌, ◌/◌, ◌%◌, ◌≤◌, ◌≡◌, refl, sym, ◌∙◌, true, ◌++◌, length, length-append,
  length-replicate, take-append, replicate, arith, ok, ok-injective, ok_or, >>=-eq-ok, ok_or-eq-ok,
  name_encryption_failed, le→ltb, Bytes, Text, div_ceil,
}
use rabbit_storage_explorer.Crypto.Primitives.{Primitives, IsLawful}
use rabbit_storage_explorer.Crypto.Stream.{VaultKeys}
use rabbit_storage_explorer.Crypto.Names.{
  be16, name_pad_block, name_header, pad_name, unpad_name, check_name_key, encrypt_name,
  decrypt_name,
}

-- A name of at most 65535 bytes is padded to the least number of 16-byte blocks that hold it and
-- its two length bytes, and unpadding returns it.
pub unpad_name-pad_name :
    (name : Bytes)
    → length name ≤ 65535
    → (padded : Bytes) × (pad_name name ≡ ok padded)
      × (length padded ≡ div_ceil (2 + length name) name_pad_block * name_pad_block)
      × (unpad_name padded ≡ ok name)
unfolding pad_name unpad_name
unpad_name-pad_name name h =
    let zeros = div_ceil (2 + length name) name_pad_block * name_pad_block - (2 + length name) in
    let n = length name in
    let lens = length-append name (replicate zeros 0) in
    let prefix : n / 256 % 256 * 256 + n % 256 ≡ n = omega arith in
    let room : 2 + (n / 256 % 256 * 256 + n % 256) ≤ 2 + length (name ++ replicate zeros 0) =
      omega (arith, lens) in
    (
      be16 n ++ (name ++ replicate zeros 0),
      rw (le→ltb 65535 n h),
      omega (arith, lens, length-replicate {A = ℕ} zeros 0),
      rw (le→ltb _ _ room, prefix, take-append name (replicate zeros 0) n refl),
    )

pad_name-eq-ok : (name padded : Bytes) → pad_name name ≡ ok padded → length name ≤ 65535
unfolding pad_name
pad_name-eq-ok name padded h = ground arith

module _ (P : Primitives) (L : IsLawful P) where
  -- Under lawful primitives, whatever `encrypt_name` returns for a UTF-8 name decrypts to it under
  -- the same keys.
  pub decrypt_name-encrypt_name :
      (keys : VaultKeys) (name enc : Text)
      → P.is_utf8 name ≡ true
      → encrypt_name P keys name ≡ ok enc
      → decrypt_name P keys enc ≡ ok name
  unfolding encrypt_name decrypt_name
  decrypt_name-encrypt_name keys name enc utf8 h =
      let (_, checked, h₁) = >>=-eq-ok (check_name_key keys) _ h in
      let (padded, pad, h₂) = >>=-eq-ok (pad_name name) _ h₁ in
      let (ct, sealed, h₃) =
        >>=-eq-ok (ok_or (P.siv_encrypt keys.name name_header padded) name_encryption_failed) _
          h₂ in
      let (padded', pad', _, unpad) = unpad_name-pad_name name (pad_name-eq-ok name padded pad) in
      let same : padded ≡ padded' = ok-injective (sym pad ∙ pad') in
      let opened =
        L.siv_decrypt-siv_encrypt keys.name name_header padded (ok_or-eq-ok _ _ sealed) in
      rw (← ok-injective h₃, L.base32hex ct, checked, opened, same, unpad, utf8)
