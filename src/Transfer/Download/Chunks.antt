-- ===== src/Transfer/Download/Chunks.antt =====
-- An encrypted file from one of its chunks on.
use native.Mathlib.Nat.{add_assoc}
use rabbit_storage_explorer.Base.{
  ℕ, zero, suc, ◌+◌, ◌-◌, ◌*◌, ◌≤◌, ◌<◌, ◌≡◌, refl, sym, ap, ◌∙◌, false, List, [], ◌∷◌, ◌++◌, arith,
  length, drop, Bytes, ok, >>=-eq-ok, ok-injective, u32_mod,
}
use rabbit_storage_explorer.Crypto.Primitives.{Primitives, IsLawful}
use rabbit_storage_explorer.Crypto.Layout.{
  chunk, cipher_chunk, tag, header_len, encrypted_size, chunk_layout,
}
use rabbit_storage_explorer.Crypto.Layout.Laws.{chunk_layout_complete}
use rabbit_storage_explorer.Crypto.Stream.{Encryptor, chunks, seal_all, seal_data, seek_to}
use rabbit_storage_explorer.Crypto.Stream.Chunks.{
  concat, IsChunked, last_length, last_length-le, concat-chunks, chunks-IsChunked, length-chunks,
  length-concat,
}
use rabbit_storage_explorer.Crypto.Stream.Roundtrip.{decryptor_of, next, open_chunk-seal_chunk}

-- The chunks of a file: an empty one is a single empty chunk.
abbrev pub pieces : Bytes → List Bytes
pieces [] = [] ∷ []
pieces (x ∷ xs) = chunks chunk (x ∷ xs)

pub pieces-IsChunked : (plain : Bytes) → IsChunked chunk (pieces plain)
pieces-IsChunked [] = omega arith
pieces-IsChunked (x ∷ xs) = chunks-IsChunked chunk x xs (omega arith)

pub concat-pieces : (plain : Bytes) → concat (pieces plain) ≡ plain
concat-pieces [] = refl
concat-pieces (x ∷ xs) = concat-chunks chunk (x ∷ xs) (omega arith)

pub seal_data-pieces :
    (P : Primitives) (e : Encryptor) (plain : Bytes)
    → seal_data P e plain ≡ seal_all P e (pieces plain)
unfolding seal_data seal_all
seal_data-pieces P e [] = refl
seal_data-pieces P e (x ∷ xs) = refl

pub length-pieces :
    (plain : Bytes) → length plain ≤ (u32_mod - 1) * chunk → length (pieces plain) < u32_mod
length-pieces [] h = omega arith
length-pieces (x ∷ xs) h = omega (arith, length-chunks x xs)

pub size-pieces :
    (plain : Bytes)
    → length plain ≤ (u32_mod - 1) * chunk
    → encrypted_size (length plain)
      ≡ header_len
        + ((length (pieces plain) - 1) * cipher_chunk + (last_length (pieces plain) + tag))
unfolding encrypted_size
size-pieces [] h = refl
size-pieces (x ∷ xs) h =
    let cs = chunks chunk (x ∷ xs) in
    let cut = chunks-IsChunked chunk x xs (omega arith) in
    let (total, some_piece) = length-concat cs cut in
    let lengths : length (x ∷ xs) ≡ (length cs - 1) * chunk + last_length cs =
      ap length (sym (concat-chunks chunk (x ∷ xs) (omega arith))) ∙ total in
    ground (arith, lengths, some_piece, length-chunks x xs, last_length-le chunk cs cut)

pub layout-pieces :
    (plain : Bytes)
    → length plain ≤ (u32_mod - 1) * chunk
    → chunk_layout (encrypted_size (length plain))
      ≡ ok (length (pieces plain), last_length (pieces plain) + tag)
layout-pieces plain h =
    let cut = pieces-IsChunked plain in
    let cs = pieces plain in
    rw
      (
        size-pieces plain h,
        ← add_assoc header_len ((length cs - 1) * cipher_chunk) (last_length cs + tag),
      )
      (chunk_layout_complete (length cs) (last_length cs + tag)
        (omega (arith, (length-concat cs cut).1)) (omega arith)
        (omega (arith, last_length-le chunk cs cut)))

pub drop-append_add : (xs ys : Bytes) (n m : ℕ) → n ≡ length xs + m → drop n (xs ++ ys) ≡ drop m ys
drop-append_add [] ys n m h = ap (λ k. drop k ys) (omega (arith, h))
drop-append_add (x ∷ xs) ys zero m h = absurd (omega arith)
drop-append_add (x ∷ xs) ys (suc n) m h = drop-append_add xs ys n m (omega (arith, h))

abbrev pub advance : ℕ → Encryptor → Encryptor
advance zero e = e
advance (suc k) e = advance k (next e)

pub advance-counter :
    (k : ℕ) (e : Encryptor) → decryptor_of (advance k e) ≡ seek_to (decryptor_of e) (e.counter + k)
unfolding seek_to
advance-counter zero e = ap (λ n. seek_to (decryptor_of e) n) (omega arith)
advance-counter (suc k) e =
    advance-counter k (next e) ∙ ap (λ n. seek_to (decryptor_of e) n) (omega arith)

module _ (P : Primitives) (lawful : IsLawful P) where
  -- What is sealed from the chunk number `k` on.
  pub seal_from :
      (k : ℕ) (cs : List Bytes) (e : Encryptor) (body : Bytes)
      → IsChunked chunk cs
      → k < length cs
      → e.counter + length cs < u32_mod
      → seal_all P e cs ≡ ok body
      → (seal_all P (advance k e) (drop k cs) ≡ ok (drop (k * cipher_chunk) body))
        × IsChunked chunk (drop k cs)
        × (last_length (drop k cs) ≡ last_length cs)
        × (length (drop k cs) ≡ length cs - k)
        × (concat (drop k cs) ≡ drop (k * chunk) (concat cs))
        × ((advance k e).counter + length (drop k cs) < u32_mod)
  unfolding seal_all
  seal_from zero cs e body h lt room sealed = (sealed, h, refl, omega arith, refl, room)
  seal_from (suc k) [] e body h lt room sealed = absurd h
  seal_from (suc k) (c ∷ []) e body h lt room sealed = absurd (omega arith)
  seal_from (suc k) (c ∷ d ∷ cs) e body (full, h) lt room sealed =
      let (s, made, len, opened) =
        open_chunk-seal_chunk P lawful e c false (omega arith) (omega (arith, full)) in
      let (rest, more, together) = >>=-eq-ok (seal_all P (next e) (d ∷ cs)) _ (rw made at sealed) in
      let whole : body ≡ s ++ rest = ok-injective (sym together) in
      let (tail, cut, same, count, plain, fits) =
        seal_from k (d ∷ cs) (next e) rest h (omega arith) (omega arith) more in
      (
        tail
            ∙ ap ok (
                sym (
                  ap (drop (suc k * cipher_chunk)) whole
                  ∙ drop-append_add s rest (suc k * cipher_chunk) (k * cipher_chunk)
                      (omega (arith, len, full)))),
        cut,
        same,
        omega (arith, count),
        plain
            ∙ sym (
                drop-append_add c (concat (d ∷ cs)) (suc k * chunk) (k * chunk)
                  (omega (arith, full))),
        fits,
      )
