-- ===== src/Crypto/Layout.antt =====
-- The sizes of the encrypted file format: the constants, `encrypted_size` and `chunk_layout` of
-- src/crypto.rs, and the two functions of src/worker.rs that repeat or invert them. Sizes are u64;
-- sums and products that may pass its range wrap, as they do in a release build.
pub mod Laws
use rabbit_storage_explorer.Base.{
  ℕ, ◌+◌, ◌-◌, ◌*◌, ◌/◌, ◌%◌, max, Bool, ltb, ◌==◌, if◌then◌else◌, div_ceil, u64_mod, Result, ok,
  err, Bytes, text,
}
use rabbit_storage_explorer.Base.{file_too_short, invalid_framing}

abbrev pub magic : Bytes
magic = text "RSE1"

abbrev pub prefix_len : ℕ
prefix_len = 20

-- MAGIC.len() + PREFIX_LEN
abbrev pub header_len : ℕ
header_len = 24

-- 1 << 20
abbrev pub chunk : ℕ
chunk = 1048576

abbrev pub tag : ℕ
tag = 16

-- CHUNK + TAG
abbrev pub cipher_chunk : ℕ
cipher_chunk = 1048592

unfoldable pub encrypted_size : ℕ → ℕ
encrypted_size plain =
    let chunks = if plain == 0 then 1 else div_ceil plain chunk in
    (header_len + plain + chunks * tag) % u64_mod

unfoldable pub chunk_layout : ℕ → Result (ℕ × ℕ)
chunk_layout cipher_len =
    if ltb cipher_len header_len
    then err file_too_short
    else let body = cipher_len - header_len in
      if ltb body tag
      then err file_too_short
      else let n = max (div_ceil body cipher_chunk) 1 in
        let last = body - (n - 1) * cipher_chunk in
        if ltb last tag then err invalid_framing else ok (n, last)

-- `wire_len` of src/worker.rs: `plain + chunk - 1` wraps at its `+`.
unfoldable pub wire_len : ℕ → ℕ
wire_len plain =
    let n_chunks = max (((plain + chunk) % u64_mod + u64_mod - 1) % u64_mod / chunk) 1 in
    (header_len + plain + n_chunks * tag) % u64_mod

-- `plaintext_of_ciphertext` of src/worker.rs.
unfoldable pub plaintext_of_ciphertext : ℕ → ℕ
plaintext_of_ciphertext cipher_len =
    if ltb cipher_len header_len
    then 0
    else let body = cipher_len - header_len in
      if ltb body tag
      then 0
      else let full_chunks = body / cipher_chunk in
        let remainder = body % cipher_chunk in
        let chunks = full_chunks + (if ltb 0 remainder then 1 else 0) in body - max chunks 1 * tag
