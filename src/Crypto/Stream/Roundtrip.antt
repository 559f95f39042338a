-- ===== src/Crypto/Stream/Roundtrip.antt =====
-- What `encrypt_bytes` writes has the announced size, and `decrypt_bytes` reads it back.
use native.Mathlib.Nat.{add_assoc}
use rabbit_storage_explorer.Base.{
  ℕ, suc, ◌+◌, ◌-◌, ◌*◌, ◌≤◌, ◌<◌, ◌≡◌, refl, sym, ap, ◌∙◌, Bool, true, false, List, [], ◌∷◌, ◌++◌,
  append-nil, append_assoc, arith, length, length-append, slice?-append, take-append, Bytes,
  u32_mod, text_eq, ok, ◌>>=◌, lt→ltb, le→ltb, if◌then◌else◌,
}
use rabbit_storage_explorer.Crypto.Layout.{
  chunk, cipher_chunk, tag, header_len, prefix_len, chunk_layout, encrypted_size, magic,
}
use rabbit_storage_explorer.Crypto.Layout.Laws.{chunk_layout_complete}
use rabbit_storage_explorer.Crypto.Primitives.{Primitives, IsLawful}
use rabbit_storage_explorer.Crypto.Stream.{
  VaultKeys, Encryptor, Decryptor, chunk_nonce, new_encryptor, new_decryptor, header, seal_chunk,
  open_chunk, seal_all, seal_data, open_all, encrypt_bytes, decrypt_bytes, chunks, is_last,
}
use rabbit_storage_explorer.Crypto.Stream.Chunks.{
  concat, IsChunked, last_length, last_length-le, concat-chunks, chunks-IsChunked, length-chunks,
  length-concat,
}

-- The decryptor that stands where an encryptor stands, and the next state.
abbrev pub decryptor_of : Encryptor → Decryptor
decryptor_of e = record { cipher = e.cipher; prefix = e.prefix; counter = e.counter }

abbrev pub next : Encryptor → Encryptor
next e = record e { counter = e.counter + 1 }

pub header_accepted :
    (keys : VaultKeys) (prefix body : Bytes)
    → length prefix ≡ prefix_len
    → new_decryptor keys (header (new_encryptor keys prefix) ++ body)
      ≡ ok (decryptor_of (new_encryptor keys prefix))
unfolding new_decryptor new_encryptor header text_eq
header_accepted keys prefix body h =
    let head = magic ++ (prefix ++ body) in
    let long : header_len ≤ length head = omega (arith, length-append prefix body, h) in
    rw (le→ltb (length head) header_len long, take-append prefix body prefix_len (sym h))

pub length-header :
    (keys : VaultKeys) (prefix : Bytes)
    → length prefix ≡ prefix_len
    → header_len ≡ length (header (new_encryptor keys prefix))
unfolding new_encryptor header
length-header keys prefix h = omega (arith, h)

pub starts_at_zero : (keys : VaultKeys) (prefix : Bytes) → (new_encryptor keys prefix).counter ≡ 0
unfolding new_encryptor
starts_at_zero keys prefix = refl

module _ (P : Primitives) (L : IsLawful P) where
  pub open_chunk-seal_chunk :
      (e : Encryptor) (c : Bytes) (last : Bool)
      → e.counter + 1 < u32_mod
      → length c ≤ chunk
      → (s : Bytes) × (seal_chunk P e c last ≡ ok (s, next e))
        × (length s ≡ length c + tag)
        × (open_chunk P (decryptor_of e) s last ≡ ok (c, decryptor_of (next e)))
  unfolding seal_chunk open_chunk
  open_chunk-seal_chunk e c last room fits =
      let nonce = chunk_nonce e.prefix e.counter last in
      let (s, sealed) = L.seal_total e.cipher nonce c fits in
      let opened = L.unseal-seal e.cipher nonce c sealed in
      (
        s,
        rw (lt→ltb _ _ room, sealed),
        L.length-seal e.cipher nonce c sealed,
        rw (lt→ltb _ _ room, opened),
      )

  -- What sealing the pieces of `cs` from the state `e` on comes to.
  abbrev pub Sealed : Encryptor → List Bytes → Type 0
  Sealed e cs =
      (body : Bytes) × (seal_all P e cs ≡ ok body)
      × (length body ≡ (length cs - 1) * cipher_chunk + (last_length cs + tag))
      × ((pre : Bytes) (off : ℕ)
          → off ≡ length pre
          → open_all P (pre ++ body) (last_length cs + tag) (length cs) (decryptor_of e) off
            ≡ ok (concat cs))

  -- One round: the piece after `pre` is read, and the other rounds go on behind it.
  pub open_all_step :
      (e : Encryptor) (c s pre rest : Bytes) (off r last_len len : ℕ)
      → off ≡ length pre
      → (if is_last r then last_len else cipher_chunk) ≡ len
      → len ≡ length s
      → open_chunk P (decryptor_of e) s (is_last r) ≡ ok (c, decryptor_of (next e))
      → open_all P (pre ++ (s ++ rest)) last_len (suc r) (decryptor_of e) off ≡ (
          open_all P (pre ++ (s ++ rest)) last_len r (decryptor_of (next e)) (off + len) >>= λ more.
          ok (c ++ more))
  unfolding open_all
  open_all_step e c s pre rest off r last_len len at size cut opened =
      rw (size, slice?-append pre s rest off len at cut, opened)

  open_all_end :
      (blob : Bytes) (last_len : ℕ) (dec : Decryptor) (off : ℕ)
      → open_all P blob last_len 0 dec off ≡ ok []
  unfolding open_all
  open_all_end blob last_len dec off = refl

  pub seal_all-Sealed :
      (cs : List Bytes) (e : Encryptor)
      → IsChunked chunk cs
      → e.counter + length cs < u32_mod
      → Sealed e cs
  unfolding seal_all
  seal_all-Sealed [] e h room = absurd h
  seal_all-Sealed (c ∷ []) e h room =
      let (s, sealed, len, opened) = open_chunk-seal_chunk e c true (omega arith) h in
      (
        s,
        rw sealed,
        omega (arith, len),
        λ pre off at. rw (← append-nil s) (
            open_all_step e c s pre [] off 0 _ (length c + tag) at refl (sym len) opened
            ∙ rw (open_all_end (pre ++ (s ++ [])))),
      )
  seal_all-Sealed (c ∷ d ∷ cs) e (full, h) room =
      let (s, sealed, len, opened) =
        open_chunk-seal_chunk e c false (omega arith) (omega (arith, full)) in
      let (rest, more, size, read) = seal_all-Sealed (d ∷ cs) (next e) h (omega arith) in
      (
        s ++ rest,
        rw (sealed, more),
        omega (arith, len, size, full, length-append s rest),
        λ pre off at.
            open_all_step e c s pre rest off (length (d ∷ cs)) (last_length (d ∷ cs) + tag)
              cipher_chunk at refl (omega (arith, len, full)) opened
            ∙ (let after : off + cipher_chunk ≡ length (pre ++ s) =
                  omega (arith, at, len, full, length-append pre s) in
                rw (← append_assoc pre s rest, read (pre ++ s) (off + cipher_chunk) after)),
      )

  pub seal_data-Sealed :
      (e : Encryptor) (plain : Bytes)
      → e.counter ≡ 0
      → length plain ≤ (u32_mod - 1) * chunk
      → (body : Bytes) × (n : ℕ) × (last : ℕ) × (seal_data P e plain ≡ ok body)
        × (length body ≡ (n - 1) * cipher_chunk + (last + tag))
        × (1 ≤ n)
        × (last ≤ chunk)
        × (header_len + length body ≡ encrypted_size (length plain))
        × ((pre : Bytes) (off : ℕ)
            → off ≡ length pre
            → open_all P (pre ++ body) (last + tag) n (decryptor_of e) off ≡ ok plain)
  unfolding seal_data seal_all encrypted_size
  seal_data-Sealed e [] start h =
      let (body, sealed, size, read) =
        seal_all-Sealed ([] ∷ []) e (omega arith) (omega (arith, start)) in
      (body, 1, 0, sealed, size, omega arith, omega arith, omega (arith, size), read)
  seal_data-Sealed e (x ∷ xs) start h =
      let cs = chunks chunk (x ∷ xs) in
      let cut = chunks-IsChunked chunk x xs (omega arith) in
      let whole = concat-chunks chunk (x ∷ xs) (omega arith) in
      let (total, some_piece) = length-concat cs cut in
      let lengths : length (x ∷ xs) ≡ (length cs - 1) * chunk + last_length cs =
        ap length (sym whole) ∙ total in
      let (body, sealed, size, read) =
        seal_all-Sealed cs e cut (omega (arith, start, length-chunks x xs)) in
      (
        body,
        length cs,
        last_length cs,
        sealed,
        size,
        some_piece,
        last_length-le chunk cs cut,
        ground (arith, size, lengths, length-chunks x xs, last_length-le chunk cs cut),
        λ pre off at. read pre off at ∙ ap ok whole,
      )

  -- Under lawful primitives, a plaintext of at most 2^32 - 1 chunks encrypts under any file prefix
  -- of 20 bytes; the result has the length that `encrypted_size` announces, and `decrypt_bytes`
  -- with the same keys returns the plaintext.
  pub decrypt_bytes-encrypt_bytes :
      (keys : VaultKeys) (prefix plain : Bytes)
      → length prefix ≡ prefix_len
      → length plain ≤ (u32_mod - 1) * chunk
      → (blob : Bytes) × (encrypt_bytes P keys prefix plain ≡ ok blob)
        × (length blob ≡ encrypted_size (length plain))
        × (decrypt_bytes P keys blob ≡ ok plain)
  unfolding encrypt_bytes decrypt_bytes
  decrypt_bytes-encrypt_bytes keys prefix plain p h =
      let e = new_encryptor keys prefix in
      let (body, n, last, sealed, size, pos, le, total, read) =
        seal_data-Sealed e plain (starts_at_zero keys prefix) h in
      let head = length-header keys prefix p in
      let whole : length (header e ++ body) ≡ header_len + length body =
        omega (arith, head, length-append (header e) body) in
      let layout : chunk_layout (length (header e ++ body)) ≡ ok (n, last + tag) =
        rw (whole, size, ← add_assoc header_len ((n - 1) * cipher_chunk) (last + tag))
          (chunk_layout_complete n (last + tag) pos (omega arith) (omega arith)) in
      (
        header e ++ body,
        rw sealed,
        whole ∙ total,
        rw (layout, header_accepted keys prefix body p) (read (header e) header_len head),
      )
