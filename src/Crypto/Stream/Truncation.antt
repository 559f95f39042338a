-- ===== src/Crypto/Stream/Truncation.antt =====
-- An encrypted file that was cut at a chunk boundary does not decrypt.
use mathlib.Core.Bool.{false≢true}
use rabbit_storage_explorer.Base.{
  ℕ, zero, suc, ◌+◌, ◌-◌, ◌*◌, ◌≤◌, ◌<◌, ◌≡◌, ◌≢◌, refl, sym, ap, ◌∙◌, true, false, List, [], ◌∷◌,
  ◌++◌, append-nil, append_assoc, arith, length, length-append, length-take, take, take-append,
  take-append_add, slice?-append, none, some, Bytes, Bool, u32_mod, ok, err, ok-injective, lt→ltb,
  decryption_failed,
}
use rabbit_storage_explorer.Crypto.Layout.{
  chunk_layout, chunk, cipher_chunk, header_len, prefix_len,
}
use rabbit_storage_explorer.Crypto.Layout.Laws.{chunk_layout_complete, lt-encrypted_size}
use rabbit_storage_explorer.Crypto.Primitives.{Primitives, IsLawful}
use rabbit_storage_explorer.Crypto.Stream.{
  VaultKeys, Encryptor, chunk_nonce, last_flag, be32, flagged, open_chunk, seal_all, seal_chunk,
  open_all, seal_data, chunks, encrypt_bytes, decrypt_bytes, new_encryptor, header,
}
use rabbit_storage_explorer.Crypto.Stream.Chunks.{
  IsChunked, last_length, last_length-le, concat-chunks, chunks-IsChunked, length-chunks,
  length-concat,
}
use rabbit_storage_explorer.Crypto.Stream.Nonce.{chunk_nonce-injective}
use rabbit_storage_explorer.Crypto.Stream.Roundtrip.{
  decryptor_of, next, open_chunk-seal_chunk, open_all_step, seal_all-Sealed, seal_data-Sealed,
  header_accepted, length-header, starts_at_zero,
}

-- What the cipher authenticates: a text sealed under one nonce does not open under another that
-- differs in its last four bytes, the counter.
abbrev pub BindsNonce : Primitives → Type 0
BindsNonce P =
    (key prefix word other plain c : Bytes)
    → length word ≡ 4
    → length other ≡ 4
    → word ≢ other
    → P.seal key (prefix ++ word) plain ≡ some c
    → P.unseal key (prefix ++ other) c ≡ none

seal-seal_chunk :
    (P : Primitives) (e e' : Encryptor) (c s : Bytes) (last : Bool)
    → seal_chunk P e c last ≡ ok (s, e')
    → P.seal e.cipher (chunk_nonce e.prefix e.counter last) c ≡ some s
unfolding seal_chunk
seal-seal_chunk P e e' c s last h = ground arith

module _ (P : Primitives) (L : IsLawful P) (B : BindsNonce P) where
  -- A chunk that was not sealed as the last one does not open as the last one.
  open_chunk_as_last :
      (e : Encryptor) (c s : Bytes)
      → e.counter < last_flag
      → seal_chunk P e c false ≡ ok (s, next e)
      → open_chunk P (decryptor_of e) s true ≡ err decryption_failed
  unfolding open_chunk chunk_nonce
  open_chunk_as_last e c s small sealed =
      let plain = be32 e.counter in
      let marked = be32 (flagged e.counter) in
      let other : plain ≢ marked = λ same.
        false≢true
          ((chunk_nonce-injective e.prefix e.counter e.counter false true small small).0
            (ap (λ w. e.prefix ++ w) same)).1 in
      let shut : P.unseal e.cipher (e.prefix ++ marked) s ≡ none =
        B e.cipher e.prefix plain marked c s refl refl other
          (seal-seal_chunk P e (next e) c s false sealed) in
      rw (lt→ltb (e.counter + 1) u32_mod (omega arith), shut)

  -- What opening the first `j` of the pieces `cs` comes to, the last of them marked as the last.
  abbrev Cut : Encryptor → List Bytes → ℕ → Type 0
  Cut e cs j =
      (body : Bytes)
      → seal_all P e cs ≡ ok body
      → (pre : Bytes) (off : ℕ) → off ≡ length pre
      → open_all P (pre ++ take (j * cipher_chunk) body) cipher_chunk j (decryptor_of e) off
        ≡ err decryption_failed

  open_all_as_last :
      (e : Encryptor) (c s pre : Bytes) (off : ℕ)
      → off ≡ length pre
      → e.counter < last_flag
      → cipher_chunk ≡ length s
      → seal_chunk P e c false ≡ ok (s, next e)
      → open_all P (pre ++ s) cipher_chunk 1 (decryptor_of e) off ≡ err decryption_failed
  unfolding open_all
  open_all_as_last e c s pre off at small len sealed =
      rw (← append-nil s)
        (rw (slice?-append pre s [] off cipher_chunk at len, open_chunk_as_last e c s small sealed))

  seal_all-Cut :
      (cs : List Bytes) (e : Encryptor) (j : ℕ)
      → IsChunked chunk cs
      → suc j < length cs
      → e.counter + length cs < u32_mod
      → e.counter + j < last_flag
      → Cut e cs (suc j)
  unfolding seal_all
  seal_all-Cut [] e j h more room small = absurd h
  seal_all-Cut (c ∷ []) e j h more room small = absurd (omega arith)
  seal_all-Cut (c ∷ d ∷ cs) e zero (full, h) more room small =
      let (s, sealed, len, opened) =
        open_chunk-seal_chunk P L e c false (omega arith) (omega (arith, full)) in
      let (rest, others, _, _) = seal_all-Sealed P L (d ∷ cs) (next e) h (omega arith) in
      λ body whole pre off at.
        let parts : s ++ rest ≡ body = ok-injective (rw (sealed, others) at whole) in
        rw (← parts, take-append s rest cipher_chunk (omega (arith, len, full)))
          (open_all_as_last e c s pre off at (omega arith) (omega (arith, len, full)) sealed)
  seal_all-Cut (c ∷ d ∷ cs) e (suc j) (full, h) more room small =
      let (s, sealed, len, opened) =
        open_chunk-seal_chunk P L e c false (omega arith) (omega (arith, full)) in
      let (rest, others, _, _) = seal_all-Sealed P L (d ∷ cs) (next e) h (omega arith) in
      let cut = seal_all-Cut (d ∷ cs) (next e) j h (omega arith) (omega arith) (omega arith) in
      λ body whole pre off at.
        let parts : s ++ rest ≡ body = ok-injective (rw (sealed, others) at whole) in
        let size : suc (suc j) * cipher_chunk ≡ length s + suc j * cipher_chunk =
          omega (arith, len, full) in
        let after : off + cipher_chunk ≡ length (pre ++ s) =
          omega (arith, at, len, full, length-append pre s) in
        rw
          (← parts, take-append_add s rest (suc (suc j) * cipher_chunk) (suc j * cipher_chunk) size)
          (open_all_step P L e c s pre (take (suc j * cipher_chunk) rest) off (suc j) cipher_chunk
              cipher_chunk at refl (omega (arith, len, full)) opened
            ∙ rw (
              ← append_assoc pre s (take (suc j * cipher_chunk) rest),
              cut rest others (pre ++ s) (off + cipher_chunk) after,
            ))

  seal_data-Cut :
      (e : Encryptor) (plain : Bytes) (j : ℕ)
      → e.counter ≡ 0
      → length plain ≤ (u32_mod - 1) * chunk
      → suc j * chunk < length plain
      → j < last_flag
      → (body : Bytes) → seal_data P e plain ≡ ok body
      → (pre : Bytes) (off : ℕ) → off ≡ length pre
      → open_all P
          (pre ++ take (suc j * cipher_chunk) body)
          cipher_chunk
          (suc j)
          (decryptor_of e)
          off
        ≡ err decryption_failed
  unfolding seal_data
  seal_data-Cut e [] j start h more small = absurd (omega arith)
  seal_data-Cut e (x ∷ xs) j start h more small =
      let cs = chunks chunk (x ∷ xs) in
      let cut = chunks-IsChunked chunk x xs (omega arith) in
      let (total, _) = length-concat cs cut in
      let lengths : length (x ∷ xs) ≡ (length cs - 1) * chunk + last_length cs =
        ap length (sym (concat-chunks chunk (x ∷ xs) (omega arith))) ∙ total in
      seal_all-Cut cs e j cut (omega (arith, lengths, last_length-le chunk cs cut))
        (omega (arith, start, length-chunks x xs)) (omega (arith, start))

  -- Under lawful primitives that bind the nonce, a file of at most 2^32 - 1 chunks, encrypted under
  -- a 20-byte prefix and cut behind its first j + 1 chunks, where more plaintext follows and
  -- j < 2^31, is refused by `decrypt_bytes` with "decryption failed".
  pub decrypt_bytes-take :
      (keys : VaultKeys) (prefix plain blob : Bytes) (j : ℕ)
      → length prefix ≡ prefix_len
      → length plain ≤ (u32_mod - 1) * chunk
      → suc j * chunk < length plain
      → j < last_flag
      → encrypt_bytes P keys prefix plain ≡ ok blob
      → decrypt_bytes P keys (take (header_len + suc j * cipher_chunk) blob) ≡ err decryption_failed
  unfolding encrypt_bytes decrypt_bytes
  decrypt_bytes-take keys prefix plain blob j p h more small whole =
      let e = new_encryptor keys prefix in
      let start = starts_at_zero keys prefix in
      let (body, _, _, sealed, _, _, _, total, _) = seal_data-Sealed P L e plain start h in
      let head = length-header keys prefix p in
      let m = suc j * cipher_chunk in
      let parts : header e ++ body ≡ blob = ok-injective (rw sealed at whole) in
      let kept : m ≤ length body =
        omega (arith, total, lt-encrypted_size (length plain) (suc j) (omega arith) more) in
      let size : length (header e ++ take m body)
          ≡ header_len + (suc j - 1) * cipher_chunk + cipher_chunk =
        omega (arith, head, kept, length-append (header e) (take m body), length-take m body) in
      let layout : chunk_layout (length (header e ++ take m body)) ≡ ok (suc j, cipher_chunk) =
        rw size
          (chunk_layout_complete (suc j) cipher_chunk (omega arith) (omega arith) (omega arith)) in
      rw
        (
          ← parts,
          take-append_add (header e) body (header_len + m) m (omega (arith, head)),
          layout,
          header_accepted keys prefix (take m body) p,
        )
        (seal_data-Cut e plain j start h more small body sealed (header e) header_len head)
