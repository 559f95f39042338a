-- ===== src/Crypto/Stream/Distinct.antt =====
-- The nonces under which `encrypt_bytes` of src/crypto.rs seals the chunks of a file: no two of them
-- are equal.
use rabbit_storage_explorer.Base.{
  ℕ, ◌+◌, ◌≤◌, ◌<◌, ◌≡◌, ◌≢◌, refl, ap, ◌∙◌, Bool, true, false, inl, inr, List, [], ◌∷◌, ◌++◌,
  arith, length, Result, ok, ok_or, ◌>>=◌, Bytes, Result-cases, ltb, u32_mod, encryption_failed,
}
use rabbit_storage_explorer.Crypto.Layout.{chunk}
use rabbit_storage_explorer.Crypto.Primitives.{Primitives}
use rabbit_storage_explorer.Crypto.Stream.{
  VaultKeys, Encryptor, chunk_nonce, last_flag, chunks, new_encryptor, header, seal_chunk, seal_all,
  seal_data, encrypt_bytes,
}
use rabbit_storage_explorer.Crypto.Stream.Nonce.{chunk_nonce-injective}

-- The chunks of a file: an empty one has one empty chunk.
abbrev pub pieces : Bytes → List Bytes
pieces [] = [] ∷ []
pieces (x ∷ xs) = chunks chunk (x ∷ xs)

abbrev pub IsOther : Bytes → List Bytes → Type 0
IsOther n [] = Unit
IsOther n (m ∷ ms) = (n ≢ m) × IsOther n ms

-- No two are equal.
abbrev pub AreDistinct : List Bytes → Type 0
AreDistinct [] = Unit
AreDistinct (n ∷ ns) = IsOther n ns × AreDistinct ns

-- Each chunk sealed under its own nonce, and the results put together.
abbrev pub seal_under : Primitives → Bytes → List Bytes → List Bytes → Result Bytes
seal_under P key [] cs = ok []
seal_under P key (n ∷ ns) [] = ok []
seal_under P key (n ∷ ns) (c ∷ []) = ok_or (P.seal key n c) encryption_failed
seal_under P key (n ∷ ns) (c ∷ d ∷ cs) = ok_or (P.seal key n c) encryption_failed >>= λ s.
    seal_under P key ns (d ∷ cs) >>= λ rest. ok (s ++ rest)

abbrev nonces_from : Bytes → ℕ → List Bytes → List Bytes
nonces_from prefix counter [] = []
nonces_from prefix counter (c ∷ []) = chunk_nonce prefix counter true ∷ []
nonces_from prefix counter (c ∷ d ∷ cs) =
    chunk_nonce prefix counter false ∷ nonces_from prefix (counter + 1) (d ∷ cs)

later-IsOther :
    (prefix : Bytes) (a counter : ℕ) (x : Bool) (cs : List Bytes)
    → a < counter
    → counter + length cs ≤ last_flag
    → IsOther (chunk_nonce prefix a x) (nonces_from prefix counter cs)
later-IsOther prefix a counter x [] lt le = tt
later-IsOther prefix a counter x (c ∷ []) lt le = (
  λ same.
      let (eq, flags) =
        (chunk_nonce-injective prefix a counter x true (omega arith) (omega arith)).0 same in
      omega arith,
  tt,
)
later-IsOther prefix a counter x (c ∷ d ∷ cs) lt le = (
  λ same.
      let (eq, flags) =
        (chunk_nonce-injective prefix a counter x false (omega arith) (omega arith)).0 same in
      omega arith,
  later-IsOther prefix a (counter + 1) x (d ∷ cs) (omega arith) (omega arith),
)

nonces_from-AreDistinct :
    (prefix : Bytes) (counter : ℕ) (cs : List Bytes)
    → counter + length cs ≤ last_flag
    → AreDistinct (nonces_from prefix counter cs)
nonces_from-AreDistinct prefix counter [] le = tt
nonces_from-AreDistinct prefix counter (c ∷ []) le = (tt, tt)
nonces_from-AreDistinct prefix counter (c ∷ d ∷ cs) le = (
  later-IsOther prefix counter (counter + 1) false (d ∷ cs) (omega arith) (omega arith),
  nonces_from-AreDistinct prefix (counter + 1) (d ∷ cs) (omega arith),
)

length-nonces_from :
    (prefix : Bytes) (counter : ℕ) (cs : List Bytes)
    → length (nonces_from prefix counter cs) ≡ length cs
length-nonces_from prefix counter [] = refl
length-nonces_from prefix counter (c ∷ []) = refl
length-nonces_from prefix counter (c ∷ d ∷ cs) =
    omega (arith, length-nonces_from prefix (counter + 1) (d ∷ cs))

module _ (P : Primitives) where
  seal_all-seal_under :
      (e : Encryptor) (cs : List Bytes)
      → e.counter + length cs < u32_mod
      → seal_all P e cs ≡ seal_under P e.cipher (nonces_from e.prefix e.counter cs) cs
  unfolding seal_all seal_chunk
  seal_all-seal_under e [] lt = refl
  seal_all-seal_under e (c ∷ []) lt =
      let room : ltb (e.counter + 1) u32_mod ≡ true = ground arith in
      elim (Result-cases
        (ok_or (P.seal e.cipher (chunk_nonce e.prefix e.counter true) c) encryption_failed)) [
          | inl (s, sealed) ↦ rw (room, sealed) refl
          | inr (x, failed) ↦ rw (room, failed) refl
        ]
  seal_all-seal_under e (c ∷ d ∷ cs) lt =
      let room : ltb (e.counter + 1) u32_mod ≡ true = ground arith in
      let rest =
        seal_all-seal_under (record e { counter = e.counter + 1 }) (d ∷ cs) (omega arith) in
      elim (Result-cases
        (ok_or (P.seal e.cipher (chunk_nonce e.prefix e.counter false) c) encryption_failed)) [
          | inl (s, sealed) ↦ rw (room, sealed) (ap (λ r. r >>= λ b. ok (s ++ b)) rest)
          | inr (x, failed) ↦ rw (room, failed) refl
        ]

  seal_data-pieces :
      (e : Encryptor) (plain : Bytes) → seal_data P e plain ≡ seal_all P e (pieces plain)
  unfolding seal_data seal_all
  seal_data-pieces e [] = refl
  seal_data-pieces e (x ∷ xs) = refl

  -- A file of at most 2^31 chunks, its empty chunk counted if it is empty, is encrypted by sealing
  -- its chunks, in order, under as many nonces, of which no two are equal.
  pub encrypt_bytes-AreDistinct :
      (keys : VaultKeys) (prefix plain : Bytes)
      → length (pieces plain) ≤ last_flag
      → (nonces : List Bytes) × (length nonces ≡ length (pieces plain))
        × AreDistinct nonces
        × (encrypt_bytes P keys prefix plain ≡ (do
          body ← seal_under P keys.content nonces (pieces plain)
          ok (header (new_encryptor keys prefix) ++ body)))
  unfolding encrypt_bytes new_encryptor
  encrypt_bytes-AreDistinct keys prefix plain le =
      let e = new_encryptor keys prefix in
      (
        nonces_from prefix 0 (pieces plain),
        length-nonces_from prefix 0 (pieces plain),
        nonces_from-AreDistinct prefix 0 (pieces plain) (omega arith),
        ap (λ r. r >>= λ body. ok (header e ++ body))
            (seal_data-pieces e plain ∙ seal_all-seal_under e (pieces plain) (omega arith)),
      )
