-- ===== src/Crypto/Stream/Chunks.antt =====
-- What `slice::chunks` cuts: full pieces and a last one, which together are the list.
use rabbit_storage_explorer.Base.{
  ℕ, zero, suc, ◌+◌, ◌-◌, ◌*◌, ◌≤◌, ◌<◌, ◌≡◌, refl, ap, ◌∙◌, List, [], ◌∷◌, ◌++◌, arith, length,
  take, drop, length-take, length-drop, length-append, take-append-drop, Bytes,
}
use rabbit_storage_explorer.Crypto.Layout.{chunk}
use rabbit_storage_explorer.Crypto.Stream.{chunks_from, chunks}

abbrev pub concat : List Bytes → Bytes
concat [] = []
concat (c ∷ cs) = c ++ concat cs

-- At least one piece; all are of `size` but the last, which is at most that.
abbrev pub IsChunked : ℕ → List Bytes → Type 0
IsChunked size [] = ⊥
IsChunked size (c ∷ []) = length c ≤ size
IsChunked size (c ∷ d ∷ cs) = (length c ≡ size) × IsChunked size (d ∷ cs)

abbrev pub last_length : List Bytes → ℕ
last_length [] = 0
last_length (c ∷ []) = length c
last_length (c ∷ d ∷ cs) = last_length (d ∷ cs)

pub last_length-le : (size : ℕ) (cs : List Bytes) → IsChunked size cs → last_length cs ≤ size
last_length-le size [] h = absurd h
last_length-le size (c ∷ []) h = h
last_length-le size (c ∷ d ∷ cs) h = last_length-le size (d ∷ cs) h.1

concat-chunks_from :
    (f size : ℕ) (xs : Bytes) → 0 < size → length xs ≤ f → concat (chunks_from f size xs) ≡ xs
unfolding chunks_from
concat-chunks_from zero size [] p h = refl
concat-chunks_from zero size (x ∷ xs) p h = elim h [ ]
concat-chunks_from (suc f) size [] p h = refl
concat-chunks_from (suc f) size (x ∷ xs) p h =
    ap (λ ys. take size (x ∷ xs) ++ ys)
      (concat-chunks_from f size (drop size (x ∷ xs)) p (omega (arith, length-drop size (x ∷ xs))))
    ∙ take-append-drop size (x ∷ xs)

-- The first piece of what is cut from a longer list is full.
module _ (size : ℕ) (pos : 0 < size) where
  IsChunked-cons :
      (c : Bytes) (f : ℕ) (ys : Bytes)
      → length c ≤ size
      → (0 < length ys → length c ≡ size)
      → (0 < length ys → IsChunked size (chunks_from f size ys))
      → length ys ≤ f
      → IsChunked size (c ∷ chunks_from f size ys)
  unfolding chunks_from
  IsChunked-cons c zero [] le full rest h = le
  IsChunked-cons c (suc f) [] le full rest h = le
  IsChunked-cons c zero (y ∷ ys) le full rest h = elim h [ ]
  IsChunked-cons c (suc f) (y ∷ ys) le full rest h = (full (omega arith), rest (omega arith))

  chunks_from-IsChunked :
      (f : ℕ) (xs : Bytes) → 0 < length xs → length xs ≤ f → IsChunked size (chunks_from f size xs)
  unfolding chunks_from
  chunks_from-IsChunked zero xs p h = absurd (omega arith)
  chunks_from-IsChunked (suc f) [] p h = absurd (omega arith)
  chunks_from-IsChunked (suc f) (x ∷ xs) p h =
      let l = length-drop size (x ∷ xs) in
      let t = length-take size (x ∷ xs) in
      let short : length (drop size (x ∷ xs)) ≤ f = omega (arith, l) in
      IsChunked-cons (take size (x ∷ xs)) f (drop size (x ∷ xs)) (omega (arith, t))
        (λ q. omega (arith, t, l)) (λ q. chunks_from-IsChunked f (drop size (x ∷ xs)) q short) short

pub concat-chunks : (size : ℕ) (xs : Bytes) → 0 < size → concat (chunks size xs) ≡ xs
unfolding chunks
concat-chunks size xs p = concat-chunks_from (length xs) size xs p (omega arith)

pub chunks-IsChunked :
    (size : ℕ) (x : ℕ) (xs : Bytes) → 0 < size → IsChunked size (chunks size (x ∷ xs))
unfolding chunks
chunks-IsChunked size x xs p =
    chunks_from-IsChunked size p (length (x ∷ xs)) (x ∷ xs) (omega arith) (omega arith)

no_pieces : (f : ℕ) → length (chunks_from f chunk []) ≡ 0
unfolding chunks_from
no_pieces zero = refl
no_pieces (suc f) = refl

-- No piece is cut in vain: the full ones leave something for the last.
chunks_from-count :
    (f : ℕ) (xs : Bytes)
    → 0 < length xs
    → length xs ≤ f
    → length (chunks_from f chunk xs) * chunk < length xs + chunk
unfolding chunks_from
chunks_from-count zero xs p h = absurd (omega arith)
chunks_from-count (suc f) [] p h = absurd (omega arith)
chunks_from-count (suc f) (x ∷ xs) p h = omega (
  arith,
  count_rest (drop chunk (x ∷ xs)) (length-drop chunk (x ∷ xs))
      (chunks_from-count f (drop chunk (x ∷ xs))),
)
  where
    count_rest :
        (ys : Bytes)
        → length ys ≡ length (x ∷ xs) - chunk
        → (0 < length ys
            → length ys ≤ f
            → length (chunks_from f chunk ys) * chunk < length ys + chunk)
        → length (chunks_from f chunk ys) * chunk + chunk < length (x ∷ xs) + chunk
    count_rest [] e ih = omega (arith, no_pieces f)
    count_rest (y ∷ ys) e ih = omega (arith, ih (omega arith) (omega arith))

pub length-chunks :
    (x : ℕ) (xs : Bytes) → length (chunks chunk (x ∷ xs)) * chunk < length (x ∷ xs) + chunk
unfolding chunks
length-chunks x xs = chunks_from-count (length (x ∷ xs)) (x ∷ xs) (omega arith) (omega arith)

pub length-concat :
    (cs : List Bytes)
    → IsChunked chunk cs
    → (length (concat cs) ≡ (length cs - 1) * chunk + last_length cs) × (0 < length cs)
length-concat [] h = absurd h
length-concat (c ∷ []) h = omega (arith, length-append c [])
length-concat (c ∷ d ∷ cs) (full, h) =
    omega (arith, full, length-append c (concat (d ∷ cs)), length-concat (d ∷ cs) h)
