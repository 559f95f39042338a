-- ===== src/Crypto/Stream/Nonce.antt =====
-- Chunk nonces tell chunks apart, and the last chunk from the others.
use rabbit_storage_explorer.Base.{
  ℕ, ◌<◌, ◌≡◌, ◌↔◌, ap, refl, sym, ◌∙◌, Bool, arith, Bytes, if◌then◌else◌, length, drop,
  drop-append,
}
use rabbit_storage_explorer.Crypto.Stream.{chunk_nonce, be32, last_flag, flagged}

be32-injective : (a b : ℕ) → a < 4294967296 → b < 4294967296 → be32 a ≡ be32 b → a ≡ b
be32-injective a b p q h = ground arith

-- The counter that a nonce ends in, for a counter below the flag.
abbrev word : ℕ → Bool → ℕ
word c last = if last then flagged c else c

word-injective :
    (a b : ℕ) (x y : Bool) → a < last_flag → b < last_flag → word a x ≡ word b y → (a ≡ b) × (x ≡ y)
word-injective a b x y p q h = ground arith

word-lt : (a : ℕ) (x : Bool) → a < last_flag → word a x < 4294967296
word-lt a x p = ground arith

-- Under one file prefix, with counters below 2^31, the nonces of two chunks are equal exactly when
-- the counters and the last-chunk marks are.
pub chunk_nonce-injective :
    (prefix : Bytes) (a b : ℕ) (x y : Bool)
    → a < last_flag
    → b < last_flag
    → (chunk_nonce prefix a x ≡ chunk_nonce prefix b y) ↔ ((a ≡ b) × (x ≡ y))
unfolding chunk_nonce
chunk_nonce-injective prefix a b x y p q = (
  λ h.
      let tails : be32 (word a x) ≡ be32 (word b y) =
        sym (drop-append prefix (be32 (word a x)) (length prefix) refl)
        ∙ ap (drop (length prefix)) h
        ∙ drop-append prefix (be32 (word b y)) (length prefix) refl in
      word-injective a b x y p q
        (be32-injective (word a x) (word b y) (word-lt a x p) (word-lt b y q) tails),
  λ (e, f). rw (e, f),
)
