-- ===== src/Tests/Toy.antt =====
-- Small functions that meet what the model assumes of other crates: a cipher whose tag is the end
-- of the nonce, encodings that change nothing, and a digest of the sum of the bytes.
use mathlib.Core.Option.{some-injective}
use rabbit_storage_explorer.Base.{
  ℕ, ◌+◌, ◌-◌, ◌%◌, ◌≡◌, refl, ap, sym, ◌∙◌, true, false, subst, none, some, Option, [], ◌∷◌, ◌++◌,
  arith, length, length-append, length-drop, length-replicate, take, drop, take-append, drop-append,
  replicate, Bytes, text_eq, text_eq_iff, text_eq_refl, if◌then◌else◌, Bool-cases, inl, inr,
}
use rabbit_storage_explorer.Crypto.Layout.{tag}
use rabbit_storage_explorer.Crypto.Primitives.{Primitives, IsLawful, IsDigest}
use rabbit_storage_explorer.Crypto.Stream.Truncation.{BindsNonce}
use rabbit_storage_explorer.Crypto.Stream.{VaultKeys}

-- The last four bytes of a nonce, filled up to a tag.
abbrev pub fill : Bytes → Bytes
fill end = end ++ replicate (16 - length end) 0

abbrev pub nonce_tag : Bytes → Bytes
nonce_tag nonce = fill (drop (length nonce - 4) nonce)

abbrev unsealed : Bytes → ℕ → Bytes → Option Bytes
unsealed c n expected = if text_eq (drop n c) expected then some (take n c) else none

abbrev sum : Bytes → ℕ
sum [] = 0
sum (b ∷ bs) = b + sum bs

abbrev pub toy : Primitives
toy = record {
  seal = λ key nonce plain. some (plain ++ nonce_tag nonce);
  unseal = λ key nonce c. unsealed c (length c - tag) (nonce_tag nonce);
  siv_encrypt = λ key head plain. some plain;
  siv_decrypt = λ key head c. some c;
  base32hex_encode = λ b. b;
  base32hex_decode = λ t. some t;
  base64_encode = λ b. b;
  base64_decode = λ t. some t;
  sha256 = λ b. (sum b % 256) ∷ replicate 31 0;
  argon2 = λ password salt. some (password ++ salt);
  hkdf = λ master label n. some (replicate n (length master));
  is_utf8 = λ b. true;
}

length-nonce_tag : (nonce : Bytes) → length (nonce_tag nonce) ≡ 16
length-nonce_tag nonce =
    let end = drop (length nonce - 4) nonce in
    omega (
      arith,
      length-append end (replicate (16 - length end) 0),
      length-replicate {A = ℕ} (16 - length end) 0,
      length-drop (length nonce - 4) nonce,
    )

unseal-seal_toy :
    (key nonce plain : Bytes) → toy.unseal key nonce (plain ++ nonce_tag nonce) ≡ some plain
unseal-seal_toy key nonce plain =
    let at : length (plain ++ nonce_tag nonce) - tag ≡ length plain =
      omega (arith, length-append plain (nonce_tag nonce), length-nonce_tag nonce) in
    rw (
      drop-append plain (nonce_tag nonce) _ at,
      take-append plain (nonce_tag nonce) _ at,
      text_eq_refl (nonce_tag nonce),
    )

pub toy-IsLawful : IsLawful toy
toy-IsLawful = record {
  unseal-seal = λ key nonce plain {c} h.
      subst (λ x. toy.unseal key nonce x ≡ some plain) (some-injective _ _ h)
        (unseal-seal_toy key nonce plain);
  length-seal = λ key nonce plain {c} h.
      subst (λ x. length x ≡ length plain + tag) (some-injective _ _ h)
        (omega (arith, length-append plain (nonce_tag nonce), length-nonce_tag nonce));
  seal_total = λ key nonce plain h. (plain ++ nonce_tag nonce, refl);
  siv_decrypt-siv_encrypt = λ key head plain {c} h. sym h;
  base32hex = λ b. refl;
  base64 = λ b. refl;
}

pub toy-IsDigest : IsDigest toy
toy-IsDigest = record { length-sha256 = λ b. refl; sha256-IsBytes = λ b. omega arith }

last_four : (prefix word : Bytes) → length word ≡ 4 → nonce_tag (prefix ++ word) ≡ fill word
last_four prefix word p =
    let at : length (prefix ++ word) - 4 ≡ length prefix =
      omega (arith, length-append prefix word, p) in
    rw (drop-append prefix word _ at)

fill-injective :
    (word other : Bytes)
    → length word ≡ 4
    → length other ≡ 4
    → fill word ≡ fill other
    → word ≡ other
fill-injective word other p q same =
    sym (take-append word _ 4 (sym p)) ∙ ap (take 4) same ∙ take-append other _ 4 (sym q)

pub toy-BindsNonce : BindsNonce toy
toy-BindsNonce key prefix word other plain c p q differ h =
    let size : length (fill word) ≡ 16 =
      rw (← last_four prefix word p) (length-nonce_tag (prefix ++ word)) in
    let at : length (plain ++ fill word) - tag ≡ length plain =
      omega (arith, length-append plain (fill word), size) in
    let unlike : text_eq (fill word) (fill other) ≡ false =
      elim (Bool-cases (text_eq (fill word) (fill other))) [
        | inl e ↦ absurd (differ (fill-injective word other p q ((text_eq_iff _ _).0 e)))
        | inr n ↦ n
      ] in
    subst (λ x. toy.unseal key (prefix ++ other) x ≡ none)
      (ap (λ t. plain ++ t) (sym (last_four prefix word p)) ∙ some-injective _ _ h)
      (rw (last_four prefix other q, drop-append plain (fill word) _ at, unlike))

abbrev pub keys : VaultKeys
keys = record { content = replicate 32 7; name = replicate 64 9 }

abbrev pub file_prefix : Bytes
file_prefix = replicate 20 5
