-- ===== src/Crypto/Layout/Laws.antt =====
-- The size functions agree with one another and with the chunk layout.
use rabbit_storage_explorer.Base.{ℕ, max, div_ceil, ◌+◌, ◌-◌, ◌*◌, ◌≤◌, ◌<◌, ◌≡◌, ◌↔◌, ok, arith}
use rabbit_storage_explorer.Crypto.Layout.{
  encrypted_size, chunk_layout, wire_len, plaintext_of_ciphertext, header_len, chunk, tag,
  cipher_chunk,
}

-- Files below 2^63 bytes: no size computation wraps.
abbrev pub max_plain : ℕ
max_plain = 9223372036854775808

-- For a file below 2^63 bytes, `plaintext_of_ciphertext` recovers the plaintext size from the
-- ciphertext size that `encrypted_size` gives.
pub plaintext_of_ciphertext-encrypted_size :
    (plain : ℕ) → plain < max_plain → plaintext_of_ciphertext (encrypted_size plain) ≡ plain
unfolding plaintext_of_ciphertext encrypted_size
plaintext_of_ciphertext-encrypted_size plain h = ground arith

-- For a file below 2^63 bytes, `wire_len` of the worker is `encrypted_size`.
pub wire_len-eq-encrypted_size :
    (plain : ℕ) → plain < max_plain → wire_len plain ≡ encrypted_size plain
unfolding wire_len encrypted_size
wire_len-eq-encrypted_size plain h = ground arith

chunk_layout_sound :
    (cipher_len n last : ℕ)
    → chunk_layout cipher_len ≡ ok (n, last)
    → (cipher_len ≡ header_len + (n - 1) * cipher_chunk + last)
      × (1 ≤ n)
      × (tag ≤ last)
      × (last ≤ cipher_chunk)
unfolding chunk_layout
chunk_layout_sound cipher_len n last h = ground arith

pub chunk_layout_complete :
    (n last : ℕ)
    → 1 ≤ n
    → tag ≤ last
    → last ≤ cipher_chunk
    → chunk_layout (header_len + (n - 1) * cipher_chunk + last) ≡ ok (n, last)
unfolding chunk_layout
chunk_layout_complete n last p q r = ground arith

-- `chunk_layout` accepts a length exactly when it is a header, n - 1 full encrypted chunks and a
-- last one of at least a tag and at most a full encrypted chunk, and then returns n and the length
-- of that last chunk.
pub chunk_layout_iff :
    (cipher_len n last : ℕ)
    → (chunk_layout cipher_len ≡ ok (n, last)) ↔ (
        (cipher_len ≡ header_len + (n - 1) * cipher_chunk + last)
        × (1 ≤ n)
        × (tag ≤ last)
        × (last ≤ cipher_chunk))
chunk_layout_iff cipher_len n last = (
  chunk_layout_sound cipher_len n last,
  λ (e, p, q, r). rw e (chunk_layout_complete n last p q r),
)

-- How many chunks a plaintext has, and the bytes of the last one.
abbrev pub chunk_count : ℕ → ℕ
chunk_count plain = max (div_ceil plain chunk) 1

abbrev pub last_bytes : ℕ → ℕ
last_bytes plain = plain - (chunk_count plain - 1) * chunk

encrypted_size-eq :
    (plain : ℕ)
    → plain < max_plain
    → encrypted_size plain
      ≡ header_len + (chunk_count plain - 1) * cipher_chunk + (last_bytes plain + tag)
unfolding encrypted_size
encrypted_size-eq plain h = ground arith

-- For a file below 2^63 bytes, the layout read off its encrypted size has the number of its
-- plaintext chunks, and a last chunk with its last bytes and a tag.
pub chunk_layout-encrypted_size :
    (plain : ℕ)
    → plain < max_plain
    → chunk_layout (encrypted_size plain) ≡ ok (chunk_count plain, last_bytes plain + tag)
chunk_layout-encrypted_size plain h = rw (encrypted_size-eq plain h) (
    chunk_layout_complete (chunk_count plain) (last_bytes plain + tag) (omega arith) (omega arith)
      (omega arith))

pub lt-encrypted_size :
    (plain j : ℕ)
    → plain < max_plain
    → j * chunk < plain
    → header_len + j * cipher_chunk < encrypted_size plain
unfolding encrypted_size
lt-encrypted_size plain j h more = ground arith
