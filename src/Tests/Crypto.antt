-- ===== src/Tests/Crypto.antt =====
-- The encrypted file format at small data.
use rabbit_storage_explorer.Base.{
  ℕ, ◌+◌, ◌*◌, ◌≡◌, refl, ◌∷◌, length, replicate, take, Bytes, List, ◌++◌, ◌>>=◌, text, ok, err,
  arith, decryption_failed, length-replicate, Text,
}
use rabbit_storage_explorer.Crypto.Layout.{
  chunk, cipher_chunk, header_len, encrypted_size, chunk_layout, plaintext_of_ciphertext,
}
use rabbit_storage_explorer.Crypto.Stream.{encrypt_bytes, decrypt_bytes, header, new_encryptor}
use rabbit_storage_explorer.Crypto.Stream.Chunks.{length-chunks}
use rabbit_storage_explorer.Crypto.Stream.Distinct.{
  pieces, AreDistinct, seal_under, encrypt_bytes-AreDistinct,
}
use rabbit_storage_explorer.Crypto.Stream.Roundtrip.{decrypt_bytes-encrypt_bytes}
use rabbit_storage_explorer.Crypto.Stream.Truncation.{decrypt_bytes-take}
use rabbit_storage_explorer.Crypto.Names.{pad_name, encrypt_name, decrypt_name}
use rabbit_storage_explorer.Crypto.Names.Laws.{decrypt_name-encrypt_name}
use rabbit_storage_explorer.Tests.Toy.{toy, toy-IsLawful, toy-BindsNonce, keys, file_prefix}

sizes :
    (encrypted_size 0 ≡ 40)
    × (encrypted_size 1048577 ≡ 1048633)
    × (chunk_layout 1048633 ≡ ok (2, 17))
    × (plaintext_of_ciphertext 1048633 ≡ 1048577)
unfolding encrypted_size chunk_layout plaintext_of_ciphertext
sizes = (refl, refl, refl, refl)

abbrev hello : Bytes
hello = text "hello"

decrypt_bytes-encrypt_bytes_example :
    (blob : Bytes) × (encrypt_bytes toy keys file_prefix hello ≡ ok blob)
    × (length blob ≡ encrypted_size (length hello))
    × (decrypt_bytes toy keys blob ≡ ok hello)
decrypt_bytes-encrypt_bytes_example =
    decrypt_bytes-encrypt_bytes toy toy-IsLawful keys file_prefix hello refl (omega arith)

-- Two chunks of a file, of which the second is one byte.
long_plain : Bytes
long_plain = replicate (chunk + 1) 7

long_size : length long_plain ≡ chunk + 1
unfolding long_plain
long_size = length-replicate {A = ℕ} (chunk + 1) 7

-- One byte more than this takes two chunks.
one_chunk : Bytes
one_chunk = replicate chunk 7

one_chunk_size : length one_chunk ≡ chunk
unfolding one_chunk
one_chunk_size = length-replicate {A = ℕ} chunk 7

encrypt_bytes-AreDistinct_example :
    (nonces : List Bytes) × (length nonces ≡ length (pieces (7 ∷ one_chunk)))
    × AreDistinct nonces
    × (encrypt_bytes toy keys file_prefix (7 ∷ one_chunk) ≡ (do
      body ← seal_under toy keys.content nonces (pieces (7 ∷ one_chunk))
      ok (header (new_encryptor keys file_prefix) ++ body)))
encrypt_bytes-AreDistinct_example =
    encrypt_bytes-AreDistinct toy keys file_prefix (7 ∷ one_chunk)
      (omega (arith, length-chunks 7 one_chunk, one_chunk_size))

long_encrypted :
    (blob : Bytes) × (encrypt_bytes toy keys file_prefix long_plain ≡ ok blob)
    × (length blob ≡ encrypted_size (length long_plain))
    × (decrypt_bytes toy keys blob ≡ ok long_plain)
long_encrypted =
    decrypt_bytes-encrypt_bytes toy toy-IsLawful keys file_prefix long_plain refl
      (omega (arith, long_size))

decrypt_bytes-take_example :
    decrypt_bytes toy keys (take (header_len + 1 * cipher_chunk) long_encrypted.0)
    ≡ err decryption_failed
decrypt_bytes-take_example =
    decrypt_bytes-take toy toy-IsLawful toy-BindsNonce keys file_prefix long_plain long_encrypted.0
      0 refl (omega (arith, long_size)) (omega (arith, long_size)) (omega arith) long_encrypted.1

abbrev encrypted_a : Text
encrypted_a = 0 ∷ 1 ∷ b'a' ∷ replicate 13 0

encrypt_a : encrypt_name toy keys (text "a") ≡ ok encrypted_a
unfolding encrypt_name pad_name
encrypt_a = refl

decrypt_name-encrypt_name_example : decrypt_name toy keys encrypted_a ≡ ok (text "a")
decrypt_name-encrypt_name_example =
    decrypt_name-encrypt_name toy toy-IsLawful keys (text "a") encrypted_a refl encrypt_a
