-- ===== src/Crypto/Stream.antt =====
-- The chunked content format of src/crypto.rs: `Encryptor`, `Decryptor`, `chunk_nonce`,
-- `encrypt_bytes` and `decrypt_bytes`. The random prefix of a file is an argument.
pub mod Chunks
pub mod Pieces
pub mod Nonce
pub mod Distinct
pub mod Roundtrip
pub mod Truncation
use rabbit_storage_explorer.Base.{
  ℕ, zero, suc, ◌+◌, ◌/◌, ◌%◌, Bool, true, false, ◌||◌, not, List, [], ◌∷◌, ◌++◌, length, take,
  drop, slice?, Result, ok, err, ok_or, ◌>>=◌, ltb, if◌then◌else◌, Bytes, text_eq, u32_mod,
}
use rabbit_storage_explorer.Base.{
  counter_overflow, encryption_failed, decryption_failed, bad_header, out_of_range,
}
use rabbit_storage_explorer.Crypto.Layout.{
  magic, prefix_len, header_len, chunk, cipher_chunk, chunk_layout,
}
use rabbit_storage_explorer.Crypto.Primitives.{Primitives}

pub record VaultKeys : Type 0 where
  pub content : Bytes
  pub name : Bytes

-- The cipher is the key that it was made from. A decryptor has the same fields.
pub record Encryptor : Type 0 where
  pub cipher : Bytes
  pub prefix : Bytes
  pub counter : ℕ

pub record Decryptor : Type 0 where
  pub cipher : Bytes
  pub prefix : Bytes
  pub counter : ℕ

abbrev pub last_flag : ℕ
last_flag = 0x8000_0000

-- `counter | LAST_FLAG` on a u32: the top bit set, the other bits kept.
abbrev pub flagged : ℕ → ℕ
flagged counter = counter % last_flag + last_flag

-- `u32::to_be_bytes`
abbrev pub be32 : ℕ → Bytes
be32 c = (c / 16777216 % 256) ∷ (c / 65536 % 256) ∷ (c / 256 % 256) ∷ (c % 256) ∷ []

unfoldable pub chunk_nonce : Bytes → ℕ → Bool → Bytes
chunk_nonce prefix counter last =
    let c = if last then flagged counter else counter in prefix ++ be32 c

unfoldable pub new_encryptor : VaultKeys → Bytes → Encryptor
new_encryptor keys prefix = record { cipher = keys.content; prefix = prefix; counter = 0 }

unfoldable pub header : Encryptor → Bytes
header e = magic ++ e.prefix

unfoldable pub new_decryptor : VaultKeys → Bytes → Result Decryptor
new_decryptor keys head =
    if ltb (length head) header_len || not (text_eq (take 4 head) magic)
    then err bad_header
    else ok (record { cipher = keys.content; prefix = take prefix_len (drop 4 head); counter = 0 })

unfoldable pub seek_to : Decryptor → ℕ → Decryptor
seek_to d index = record d { counter = index }

-- `slice::chunks`: pieces of `size`, the last one shorter. The length of the list is fuel enough.
unfoldable pub chunks_from : ℕ → ℕ → Bytes → List Bytes
chunks_from zero size xs = []
chunks_from (suc f) size [] = []
chunks_from (suc f) size (x ∷ xs) = take size (x ∷ xs) ∷ chunks_from f size (drop size (x ∷ xs))

unfoldable pub chunks : ℕ → Bytes → List Bytes
unfolding chunks_from
chunks size xs = chunks_from (length xs) size xs

-- Whether the loop counter has reached its last round.
abbrev pub is_last : ℕ → Bool
is_last zero = true
is_last (suc r) = false

module _ (P : Primitives) where
  -- `checked_add` fails at the end of a u32. An error ends the file, so only a success has a next
  -- state.
  unfoldable pub seal_chunk : Encryptor → Bytes → Bool → Result (Bytes × Encryptor)
  seal_chunk e plaintext last =
      let nonce = chunk_nonce e.prefix e.counter last in
      if ltb (e.counter + 1) u32_mod
      then (do
        c ← ok_or (P.seal e.cipher nonce plaintext) encryption_failed
        ok (c, record e { counter = e.counter + 1 }))
      else err counter_overflow

  unfoldable pub open_chunk : Decryptor → Bytes → Bool → Result (Bytes × Decryptor)
  open_chunk d ciphertext last =
      let nonce = chunk_nonce d.prefix d.counter last in
      if ltb (d.counter + 1) u32_mod
      then (do
        p ← ok_or (P.unseal d.cipher nonce ciphertext) decryption_failed
        ok (p, record d { counter = d.counter + 1 }))
      else err counter_overflow

  -- The loop of `encrypt_bytes`: a chunk is the last one if no other can be peeked at.
  unfoldable pub seal_all : Encryptor → List Bytes → Result Bytes
  seal_all e [] = ok []
  seal_all e (c ∷ []) = do (s, _) ← seal_chunk e c true; ok s
  seal_all e (c ∷ d ∷ cs) = do
    (s, e') ← seal_chunk e c false
    rest ← seal_all e' (d ∷ cs)
    ok (s ++ rest)

  -- Empty data is one empty last chunk.
  unfoldable pub seal_data : Encryptor → Bytes → Result Bytes
  seal_data e [] = do (s, _) ← seal_chunk e [] true; ok s
  seal_data e (x ∷ xs) = seal_all e (chunks chunk (x ∷ xs))

  unfoldable pub encrypt_bytes : VaultKeys → Bytes → Bytes → Result Bytes
  unfolding seal_data
  encrypt_bytes keys prefix plain = do
    let enc = new_encryptor keys prefix
    body ← seal_data enc plain
    ok (header enc ++ body)

  -- The loop of `decrypt_bytes`, by the rounds that are left; `off` is the read position.
  unfoldable pub open_all : Bytes → ℕ → ℕ → Decryptor → ℕ → Result Bytes
  open_all blob last_len zero dec off = ok []
  open_all blob last_len (suc r) dec off = do
    let len = if is_last r then last_len else cipher_chunk
    piece ← ok_or (slice? blob off len) out_of_range
    (plain, dec') ← open_chunk dec piece (is_last r)
    rest ← open_all blob last_len r dec' (off + len)
    ok (plain ++ rest)

  unfoldable pub decrypt_bytes : VaultKeys → Bytes → Result Bytes
  decrypt_bytes keys blob = do
    (n, last_len) ← chunk_layout (length blob)
    dec ← new_decryptor keys blob
    open_all blob last_len n dec header_len
