-- ===== src/Storage/S3/CopySource.antt =====
-- `encode_copy_source` of src/storage/s3.rs: the source of a copy, percent-encoded.
use rabbit_storage_explorer.Base.{
  ℕ, ◌+◌, ◌-◌, ◌*◌, ◌/◌, ◌%◌, ◌<◌, ◌≡◌, refl, ap, ◌∙◌, inl, inr, Bool, true, false, ◌||◌, ◌&&◌, [],
  ◌∷◌, ◌++◌, arith, ltb, leb, ◌==◌, if◌then◌else◌, Bool-cases, Text, slash,
}

-- A..Z, a..z, 0..9, and `-`, `_`, `.`, `~` and `/`.
abbrev pub in_range : ℕ → ℕ → ℕ → Bool
in_range low high b = leb low b && leb b high

unfoldable pub is_kept : ℕ → Bool
is_kept b =
    in_range b'A' b'Z' b
    || (in_range b'a' b'z' b
        || (in_range b'0' b'9' b
            || (b == b'-' || (b == b'_' || (b == b'.' || (b == b'~' || b == slash))))))

-- A hexadecimal digit, in upper case.
unfoldable pub hex_digit : ℕ → ℕ
hex_digit n = if ltb n 10 then b'0' + n else b'A' + (n - 10)

unfoldable pub encode_key : Text → Text
encode_key [] = []
encode_key (b ∷ s) =
    let rest = encode_key s in
    if is_kept b then b ∷ rest else b'%' ∷ hex_digit (b / 16) ∷ hex_digit (b % 16) ∷ rest

unfoldable pub encode_copy_source : Text → Text → Text
encode_copy_source bucket key = bucket ++ (slash ∷ encode_key key)

-- Percent-decoding, as a server does it.
unfoldable pub hex_value : ℕ → ℕ
hex_value c = if ltb c b'A' then c - b'0' else c - b'A' + 10

unfoldable pub decode_key : Text → Text
decode_key [] = []
decode_key (c ∷ []) = c ∷ []
decode_key (c ∷ h ∷ []) = c ∷ decode_key (h ∷ [])
decode_key (c ∷ h ∷ l ∷ s) =
    let escaped = decode_key s in
    let kept = decode_key (h ∷ l ∷ s) in
    if c == b'%' then (hex_value h * 16 + hex_value l) ∷ escaped else c ∷ kept

abbrev pub AllBytes : Text → Type 0
AllBytes [] = Unit
AllBytes (b ∷ s) = (b < 256) × AllBytes s

decode_kept : (c : ℕ) (s : Text) → (c == b'%') ≡ false → decode_key (c ∷ s) ≡ c ∷ decode_key s
unfolding decode_key
decode_kept c [] n = refl
decode_kept c (h ∷ []) n = refl
decode_kept c (h ∷ l ∷ s) n = rw n refl

kept_plain : (b : ℕ) → is_kept b ≡ true → (b == b'%') ≡ false
unfolding is_kept
kept_plain b h = ground arith

hex_value-hex_digit : (n : ℕ) → n < 16 → hex_value (hex_digit n) ≡ n
unfolding hex_value hex_digit
hex_value-hex_digit n h = ground arith

-- The key in the source of a copy, percent-decoded, is the key that was meant, for every text of
-- bytes, so two keys never have the same source.
pub decode_key-encode_key : (s : Text) → AllBytes s → decode_key (encode_key s) ≡ s
unfolding decode_key encode_key
decode_key-encode_key [] all = refl
decode_key-encode_key (b ∷ s) (small, all) = elim (Bool-cases (is_kept b)) [
  | inl k ↦ rw k (
      decode_kept b (encode_key s) (kept_plain b k) ∙ ap (λ r. b ∷ r) (decode_key-encode_key s all))
  | inr n ↦
      let high = hex_value-hex_digit (b / 16) (omega (arith, small)) in
      let low = hex_value-hex_digit (b % 16) (omega arith) in
      let same : hex_value (hex_digit (b / 16)) * 16 + hex_value (hex_digit (b % 16)) ≡ b =
        omega (arith, high, low) in
      rw n (rw same (ap (λ r. b ∷ r) (decode_key-encode_key s all)))
]
