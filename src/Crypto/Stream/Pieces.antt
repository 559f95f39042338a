-- ===== src/Crypto/Stream/Pieces.antt =====
-- `slice::chunks` one piece at a time, and the longer lists that cut off at a piece.
use rabbit_storage_explorer.Base.{
  ℕ, zero, suc, ◌≤◌, ◌<◌, ◌≡◌, refl, ap, List, [], ◌∷◌, arith, length, take, drop, length-drop,
  Bytes,
}
use rabbit_storage_explorer.Crypto.Stream.{chunks_from, chunks}

pub take_all : (n : ℕ) (xs : Bytes) → length xs ≤ n → take n xs ≡ xs
take_all zero [] h = refl
take_all zero (x ∷ xs) h = absurd (omega arith)
take_all (suc n) [] h = refl
take_all (suc n) (x ∷ xs) h = ap (λ ys. x ∷ ys) (take_all n xs (omega arith))

pub drop_all : (n : ℕ) (xs : Bytes) → length xs ≤ n → drop n xs ≡ []
drop_all zero [] h = refl
drop_all zero (x ∷ xs) h = absurd (omega arith)
drop_all (suc n) [] h = refl
drop_all (suc n) (x ∷ xs) h = drop_all n xs (omega arith)

no_pieces : (f size : ℕ) → chunks_from f size [] ≡ []
unfolding chunks_from
no_pieces zero size = refl
no_pieces (suc f) size = refl

-- The fuel does not matter, where there is enough.
chunks_from_fuel :
    (f g size : ℕ) (xs : Bytes)
    → 0 < size
    → length xs ≤ f
    → length xs ≤ g
    → chunks_from f size xs ≡ chunks_from g size xs
unfolding chunks_from
chunks_from_fuel zero zero size xs p h k = refl
chunks_from_fuel zero (suc g) size [] p h k = refl
chunks_from_fuel zero (suc g) size (x ∷ xs) p h k = absurd (omega arith)
chunks_from_fuel (suc f) zero size [] p h k = refl
chunks_from_fuel (suc f) zero size (x ∷ xs) p h k = absurd (omega arith)
chunks_from_fuel (suc f) (suc g) size [] p h k = refl
chunks_from_fuel (suc f) (suc g) size (x ∷ xs) p h k =
    let l = length-drop size (x ∷ xs) in
    ap (λ cs. take size (x ∷ xs) ∷ cs)
      (chunks_from_fuel f g size (drop size (x ∷ xs)) p (omega (arith, l)) (omega (arith, l)))

pub chunks-more :
    (size : ℕ) (xs : Bytes)
    → 0 < size
    → size < length xs
    → chunks size xs ≡ take size xs ∷ chunks size (drop size xs)
unfolding chunks chunks_from
chunks-more size [] p h = absurd (omega arith)
chunks-more size (x ∷ xs) p h =
    let l = length-drop size (x ∷ xs) in
    ap (λ cs. take size (x ∷ xs) ∷ cs)
      (chunks_from_fuel (length xs) (length (drop size (x ∷ xs))) size (drop size (x ∷ xs)) p
        (omega (arith, l)) (omega arith))

pub chunks-last :
    (size : ℕ) (xs : Bytes) → 0 < length xs → length xs ≤ size → chunks size xs ≡ xs ∷ []
unfolding chunks chunks_from
chunks-last size [] p h = absurd (omega arith)
chunks-last size (x ∷ xs) p h =
    rw (take_all size (x ∷ xs) h, drop_all size (x ∷ xs) h, no_pieces (length xs) size)

pub chunks-some :
    (size : ℕ) (xs : Bytes)
    → 0 < length xs
    → (c : Bytes) × (cs : List Bytes) × (chunks size xs ≡ c ∷ cs)
unfolding chunks chunks_from
chunks-some size [] p = absurd (omega arith)
chunks-some size (x ∷ xs) p = (_, _, refl)
