-- ===== src/Storage/S3/Paced.antt =====
-- The paced body of an S3 upload: struct PacedBody of src/storage/s3.rs, and its reports.
use rabbit_storage_explorer.Base.{
  ℕ, zero, suc, ◌+◌, ◌-◌, ◌≤◌, ◌*◌, min, max, ◌≡◌, refl, inl, inr, Bool, true, false, Option, none,
  some, List, [], ◌∷◌, ◌++◌, arith, length, ltb, ◌==◌, Bool-cases, Bytes,
}

-- `reported`, the high-water mark that all attempts share, and what the sink was told.
pub record Reported : Type 0 where
  pub high : ℕ
  pub told : ℕ

-- After a frame that ends at `off`: only what is beyond the mark is reported.
abbrev pub note : ℕ → Reported → Reported
note off r = record { high = max r.high off; told = r.told + (off - r.high) }

-- The task of one body of `len` bytes: it sends frames of `size` bytes until all is sent or the
-- body is dropped, after `sends` frames.
unfoldable pub paced : ℕ → ℕ → ℕ → ℕ → Reported → Reported
paced size len zero off r = r
paced size len (suc sends) off r = elim (ltb off len) [
  | true ↦ paced size len sends (min (off + size) len) (note (min (off + size) len) r)
  | false ↦ r
]

unfoldable pub attempts_from : ℕ → ℕ → List ℕ → Reported → Reported
attempts_from size len [] r = r
attempts_from size len (n ∷ ns) r = attempts_from size len ns (paced size len n 0 r)

-- The client makes the body anew for each attempt.
unfoldable pub attempts : ℕ → ℕ → List ℕ → Reported
attempts size len sends = attempts_from size len sends (record { high = 0; told = 0 })

-- The body as the transport sees it: the frames in its channel, and the bytes left.
pub record PacedBody : Type 0 where
  pub frames : List Bytes
  pub remaining : ℕ

-- `poll_frame`, where a frame is ready or the channel is closed.
unfoldable pub poll_frame : PacedBody → Option Bytes × PacedBody
poll_frame b = elim b.frames [
  | [] ↦ (none, b)
  | f ∷ fs ↦ (some f, record { frames = fs; remaining = b.remaining - length f })
]

unfoldable pub is_end_stream : PacedBody → Bool
is_end_stream b = b.remaining == 0

module _ (size len : ℕ) where
  -- What was told is the mark, and the mark is no further than the end.
  abbrev Agrees : Reported → Type 0
  Agrees r = (r.told ≡ r.high) × (r.high ≤ len)

  note-Agrees : (off : ℕ) (r : Reported) → off ≤ len → Agrees r → Agrees (note off r)
  note-Agrees off r le (same, inside) = (omega (arith, same), omega (arith, inside))

  paced-Agrees : (sends off : ℕ) (r : Reported) → Agrees r → Agrees (paced size len sends off r)
  unfolding paced
  paced-Agrees zero off r a = a
  paced-Agrees (suc sends) off r a = elim (Bool-cases (ltb off len)) [
    | inl more ↦
        rw (paced, more)
          (paced-Agrees sends (min (off + size) len) (note (min (off + size) len) r)
            (note-Agrees (min (off + size) len) r (omega arith) a))
    | inr done ↦ rw (paced, done) a
  ]

  attempts_from-Agrees :
      (ns : List ℕ) (r : Reported) → Agrees r → Agrees (attempts_from size len ns r)
  unfolding attempts_from
  attempts_from-Agrees [] r a = a
  attempts_from-Agrees (n ∷ ns) r a = attempts_from-Agrees ns _ (paced-Agrees n 0 r a)

  -- The mark never goes back.
  paced-le : (sends off : ℕ) (r : Reported) → r.high ≤ (paced size len sends off r).high
  unfolding paced
  paced-le zero off r = omega arith
  paced-le (suc sends) off r = elim (Bool-cases (ltb off len)) [
    | inl more ↦
        rw (paced, more)
          (omega (arith, paced-le sends (min (off + size) len) (note (min (off + size) len) r)))
    | inr done ↦ rw (paced, done) (omega arith)
  ]

  attempts_from-le : (ns : List ℕ) (r : Reported) → r.high ≤ (attempts_from size len ns r).high
  unfolding attempts_from
  attempts_from-le [] r = omega arith
  attempts_from-le (n ∷ ns) r =
      omega (arith, paced-le n 0 r, attempts_from-le ns (paced size len n 0 r))

  -- With enough frames the mark reaches the end.
  paced_whole :
      (sends off : ℕ) (r : Reported)
      → off ≤ r.high
      → len ≤ off + sends * size
      → len ≤ (paced size len sends off r).high
  unfolding paced
  paced_whole zero off r behind enough = omega (arith, behind, enough)
  paced_whole (suc sends) off r behind enough = elim (Bool-cases (ltb off len)) [
    | inl more ↦
        rw (paced, more)
          (paced_whole sends (min (off + size) len) (note (min (off + size) len) r) (omega arith)
            (omega (arith, enough)))
    | inr done ↦ rw (paced, done) (ground (arith, behind))
  ]

-- However many attempts a paced body is sent in, and wherever they break off: if one of them sends
-- enough frames for all of its bytes, the progress sink is told of each byte exactly once.
pub attempts-told :
    (size len : ℕ) (earlier : List ℕ) (n : ℕ) (later : List ℕ)
    → len ≤ n * size
    → (attempts size len (earlier ++ (n ∷ later))).told ≡ len
unfolding attempts attempts_from
attempts-told size len earlier n later enough =
    let start : Reported = record { high = 0; told = 0 } in
    let (same, inside) =
      attempts_from-Agrees size len (earlier ++ (n ∷ later)) start (refl, omega arith) in
    omega (arith, same, inside, reaches earlier start)
  where
    reaches :
        (ns : List ℕ) (r : Reported) → len ≤ (attempts_from size len (ns ++ (n ∷ later)) r).high
    reaches [] r = omega (
      arith,
      paced_whole size len n 0 r (omega arith) (omega (arith, enough)),
      attempts_from-le size len later (paced size len n 0 r),
    )
    reaches (m ∷ ns) r = reaches ns (paced size len m 0 r)
