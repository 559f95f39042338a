-- ===== src/Transfer/Download/Loops.antt =====
-- The loops of a download: what they append to the part file, however they end.
use rabbit_storage_explorer.Base.{
  ℕ, zero, suc, ◌+◌, ◌*◌, ◌≤◌, ◌<◌, ◌≡◌, refl, sym, ap, ◌∙◌, Bool, true, false, some, List, [], ◌∷◌,
  ◌++◌, append-nil, append_assoc, arith, length, length-append, length-take, length-drop, take,
  drop, leb, ◌==◌, Bytes, Text, Result, ok, err, Error, ok-injective, Bool-cases, inl, inr, text_eq,
  if◌then◌else◌, u32_mod, read_failed, cancelled, reading_chunk, take-append-drop, >>=-eq-ok,
}
use rabbit_storage_explorer.Base.Dict
use rabbit_storage_explorer.Base.Dict.{get-insert_same, get-insert_other}
use rabbit_storage_explorer.Storage.{StorageBackend, Reader}
use rabbit_storage_explorer.Crypto.Primitives.{Primitives, IsLawful}
use rabbit_storage_explorer.Crypto.Layout.{chunk, cipher_chunk, tag}
use rabbit_storage_explorer.Crypto.Stream.{Encryptor, Decryptor, open_chunk, seal_all}
use rabbit_storage_explorer.Crypto.Stream.Chunks.{concat, IsChunked, last_length}
use rabbit_storage_explorer.Crypto.Stream.Roundtrip.{decryptor_of, next, open_chunk-seal_chunk}
use rabbit_storage_explorer.Transfer.Progress.{Float}
use rabbit_storage_explorer.Transfer.Download.{
  Local, contents, append_ticked, read_exact, plain_loop, chunk_loop,
}

-- The part file grew by a part of `whole`, by all of it if the loop succeeded, and nothing else
-- changed. It did succeed where `Alive` holds.
pub record Grew {S : Type 0} {F : Float} (tmp : Text) (before whole : Bytes) (Alive : Type 0)
    (l : Local S F) (out : Result (Unit {0}) × Local S F) : Type 0 where
  pub got : Bytes
  pub left : Bytes
  pub joined : got ++ left ≡ whole
  pub file : Dict.get out.1.disk tmp ≡ some (before ++ got)
  pub full : out.0 ≡ ok tt → left ≡ []
  pub alive : Alive → out.0 ≡ ok tt
  pub others : (k : Text) → text_eq tmp k ≡ false → Dict.get out.1.disk k ≡ Dict.get l.disk k
  pub remote : out.1.remote ≡ l.remote

pub prefix_split :
    (s rest xs missing : Bytes)
    → xs ++ missing ≡ s ++ rest
    → length s ≤ length xs
    → (take (length s) xs ≡ s) × (drop (length s) xs ++ missing ≡ rest)
prefix_split [] rest xs missing h le = (refl, h)
prefix_split (b ∷ s) rest [] missing h le = absurd (omega arith)
prefix_split (b ∷ s) rest (x ∷ xs) missing h le =
    let same : x ≡ b = cc in
    let tail : xs ++ missing ≡ s ++ rest = cc in
    let shorter : length s ≤ length xs = omega arith in
    let (t, d) = prefix_split s rest xs missing tail shorter in
    (ap (λ y. y ∷ take (length s) xs) same ∙ ap (λ ys. b ∷ ys) t, d)

no_bytes : (n : ℕ) (xs : Bytes) → 0 < n → (length (take n xs) == 0) ≡ true → xs ≡ []
no_bytes n [] pos h = refl
no_bytes n (x ∷ xs) pos h =
    let none : length (take n (x ∷ xs)) ≡ 0 = ground arith in
    absurd (omega (arith, none, length-take n (x ∷ xs)))

some_bytes :
    (n fuel : ℕ) (xs : Bytes)
    → 0 < n
    → length xs < suc fuel
    → (length (take n xs) == 0) ≡ false
    → length (drop n xs) < fuel
some_bytes n fuel [] pos enough h = absurd (none n h)
  where
    none : (n : ℕ) → (length (take {A = ℕ} n []) == 0) ≡ false → ⊥
    none zero h = cc
    none (suc n) h = cc
some_bytes n fuel (x ∷ xs) pos enough h = omega (arith, length-drop n (x ∷ xs))

module _ {S : Type 0} {F : Float} (tmp : Text) (Alive : Type 0) where
  pub stops :
      (before whole : Bytes) (l : Local S F) (e : Error)
      → Dict.get l.disk tmp ≡ some before
      → (Alive → ⊥)
      → Grew tmp before whole Alive l (err e, l)
  stops before whole l e h dead = record {
    got = [];
    left = whole;
    joined = refl;
    file = h ∙ ap some (sym (append-nil before));
    full = λ q. cc;
    alive = λ a. absurd (dead a);
    others = λ k q. refl;
    remote = refl;
  }

  ends :
      (before : Bytes) (l : Local S F)
      → Dict.get l.disk tmp ≡ some before
      → Grew tmp before [] Alive l (ok tt, l)
  ends before l h = record {
    got = [];
    left = [];
    joined = refl;
    file = h ∙ ap some (sym (append-nil before));
    full = λ q. refl;
    alive = λ a. refl;
    others = λ k q. refl;
    remote = refl;
  }

  grows :
      (before c more : Bytes) (l : Local S F) (id now : ℕ) (out : Result (Unit {0}) × Local S F)
      → Grew tmp (before ++ c) more Alive (append_ticked tmp id now c l) out
      → Grew tmp before (c ++ more) Alive l out
  grows before c more l id now out g = record {
    got = c ++ g.got;
    left = g.left;
    joined = append_assoc c g.got g.left ∙ ap (λ x. c ++ x) g.joined;
    file = g.file ∙ ap some (append_assoc before c g.got);
    full = g.full;
    alive = g.alive;
    others = λ k q. g.others k q ∙ get-insert_other l.disk tmp k (contents l.disk tmp ++ c) q;
    remote = g.remote;
  }

  appended :
      (before c : Bytes) (l : Local S F) (id now : ℕ)
      → Dict.get l.disk tmp ≡ some before
      → Dict.get (append_ticked tmp id now c l).disk tmp ≡ some (before ++ c)
  appended before c l id now h =
      get-insert_same l.disk tmp (contents l.disk tmp ++ c) ∙ ap some (rw h refl)

module _ (is_cancelled : ℕ → Bool) where
  abbrev pub Undisturbed : Bytes → Type 0
  Undisturbed missing = ((k : ℕ) → is_cancelled k ≡ false) × (missing ≡ [])

  not_cancelled : (k : ℕ) (missing : Bytes) → is_cancelled k ≡ true → Undisturbed missing → ⊥
  not_cancelled k missing h (quiet, all) = let off = quiet k in cc

module _ (P : Primitives) (lawful : IsLawful P) (B : StorageBackend) {F : Float}
    (is_cancelled : ℕ → Bool) (clock : ℕ → ℕ) (tmp : Text) (id : ℕ) where
  -- One round of the loop: it stops, or the chunk is in and the loop goes on.
  chunk_round :
      (left clen last_len : ℕ) (dec dec' : Decryptor) (c s rest missing before more : Bytes)
      (round : ℕ) (r : Reader) (l : Local B.State F)
      → (if left == 0 then last_len else cipher_chunk) ≡ clen
      → clen ≡ length s
      → r.ready ++ missing ≡ s ++ rest
      → Dict.get l.disk tmp ≡ some before
      → open_chunk P dec s (left == 0) ≡ ok (c, dec')
      → ((r' : Reader)
          → r'.ready ++ missing ≡ rest
          → Grew tmp
              (before ++ c)
              more
              (Undisturbed is_cancelled missing)
              (append_ticked tmp id (clock round) c l)
              (chunk_loop P B is_cancelled clock tmp id last_len left dec'
                (round + 1)
                r'
                (append_ticked tmp id (clock round) c l)))
      → Grew tmp before
          (c ++ more)
          (Undisturbed is_cancelled missing)
          l
          (chunk_loop P B is_cancelled clock tmp id last_len (suc left) dec round r l)
  unfolding chunk_loop read_exact
  chunk_round left clen last_len dec dec' c s rest missing before more round r l size len split at
        opened go_on =
      elim (Bool-cases (is_cancelled (1 + 2 * round))) [
        | inl y ↦
            rw (chunk_loop, y)
              (stops tmp (Undisturbed is_cancelled missing) before (c ++ more) l cancelled at
                (not_cancelled is_cancelled _ missing y))
        | inr n ↦ elim (Bool-cases (leb clen (length r.ready))) [
          | inr short ↦
              rw (chunk_loop, n, size, short)
                (stops tmp (Undisturbed is_cancelled missing) before (c ++ more) l reading_chunk at
                  (λ (quiet, all). ground (
                    arith,
                    ap length split,
                    length-append r.ready missing,
                    length-append s rest,
                    ap length all,
                  )))
          | inl long ↦
              let (front, back) = prefix_split s rest r.ready missing split (ground (arith, len)) in
              elim (Bool-cases (is_cancelled (2 + 2 * round))) [
                | inl y ↦
                    rw (chunk_loop, n, size, long, y)
                      (stops tmp (Undisturbed is_cancelled missing) before (c ++ more) l cancelled
                        at (not_cancelled is_cancelled _ missing y))
                | inr m ↦
                    rw (chunk_loop, n, size, long, m, len, front, opened)
                      (grows tmp (Undisturbed is_cancelled missing) before c more l id (clock round)
                        _ (go_on (record r { ready = drop (length s) r.ready }) back))
              ]
        ]
      ]

  -- All chunks in.
  chunk_end :
      (last_len : ℕ) (dec : Decryptor) (before missing : Bytes) (round : ℕ) (r : Reader)
      (l : Local B.State F)
      → Dict.get l.disk tmp ≡ some before
      → Grew tmp before []
          (Undisturbed is_cancelled missing)
          l
          (chunk_loop P B is_cancelled clock tmp id last_len 0 dec round r l)
  unfolding chunk_loop
  chunk_end last_len dec before missing round r l at =
      ends tmp (Undisturbed is_cancelled missing) before l at

  pub chunk_loop-Grew :
      (cs : List Bytes) (e : Encryptor) (body missing before : Bytes) (round : ℕ) (r : Reader)
      (l : Local B.State F)
      → IsChunked chunk cs
      → e.counter + length cs < u32_mod
      → seal_all P e cs ≡ ok body
      → r.ready ++ missing ≡ body
      → Dict.get l.disk tmp ≡ some before
      → Grew tmp before (concat cs) (Undisturbed is_cancelled missing) l (
          chunk_loop P B is_cancelled clock tmp id
            (last_length cs + tag)
            (length cs)
            (decryptor_of e)
            round
            r
            l)
  unfolding seal_all
  chunk_loop-Grew [] e body missing before round r l h room sealed split at = absurd h
  chunk_loop-Grew (c ∷ []) e body missing before round r l h room sealed split at =
      let (s, made, len, opened) = open_chunk-seal_chunk P lawful e c true (omega arith) h in
      let whole : body ≡ s = ok-injective (sym (rw made at sealed)) in
      chunk_round 0 (length c + tag) (length c + tag) (decryptor_of e) (decryptor_of (next e)) c s
        [] missing before [] round r l refl (sym len) (split ∙ whole ∙ sym (append-nil s)) at opened
        (λ r' rest.
          chunk_end (length c + tag) (decryptor_of (next e)) (before ++ c) missing (round + 1) r'
            (append_ticked tmp id (clock round) c l)
            (appended tmp (Undisturbed is_cancelled missing) before c l id (clock round) at))
  chunk_loop-Grew (c ∷ d ∷ cs) e body missing before round r l (full, h) room sealed split at =
      let (s, made, len, opened) =
        open_chunk-seal_chunk P lawful e c false (omega arith) (omega (arith, full)) in
      let (rest, more, together) = >>=-eq-ok (seal_all P (next e) (d ∷ cs)) _ (rw made at sealed) in
      let whole : body ≡ s ++ rest = ok-injective (sym together) in
      let goes_on : (length (d ∷ cs) == 0) ≡ false = ground arith in
      chunk_round (length (d ∷ cs)) cipher_chunk (last_length (d ∷ cs) + tag) (decryptor_of e)
        (decryptor_of (next e)) c s rest missing before (concat (d ∷ cs)) round r l
        (rw goes_on refl) (omega (arith, len, full)) (split ∙ whole) at (rw goes_on opened)
        (λ r' left.
          chunk_loop-Grew (d ∷ cs) (next e) rest missing (before ++ c) (round + 1) r'
            (append_ticked tmp id (clock round) c l) h (omega arith) more left
            (appended tmp (Undisturbed is_cancelled missing) before c l id (clock round) at))

  -- A plain file, with fuel for its bytes: each round takes at least one.
  pub plain_loop-Grew :
      (Alive : Type 0) (fuel : ℕ) (missing before : Bytes) (round : ℕ) (r : Reader)
      (l : Local B.State F)
      → length r.ready < fuel
      → (r.broken ≡ false → missing ≡ [])
      → (Alive → (k : ℕ) → is_cancelled k ≡ false)
      → (Alive → r.broken ≡ false)
      → Dict.get l.disk tmp ≡ some before
      → Grew tmp before
          (r.ready ++ missing)
          Alive
          l
          (plain_loop P B is_cancelled clock tmp id fuel round r l)
  unfolding plain_loop
  plain_loop-Grew Alive zero missing before round r l enough whole quiet fine at =
      absurd (omega arith)
  plain_loop-Grew Alive (suc fuel) missing before round r l enough whole quiet fine at =
      let piece = take 262144 r.ready in
      let stop = stops tmp Alive before (r.ready ++ missing) l in
      elim (Bool-cases (is_cancelled (1 + 2 * round))) [
        | inl y ↦
            rw (plain_loop, y) (stop cancelled at (λ a. let off = quiet a (1 + 2 * round) in cc))
        | inr n ↦ elim (Bool-cases (length piece == 0)) [
          | inl none_left ↦ elim (Bool-cases r.broken) [
            | inl b ↦
                rw (plain_loop, n, none_left, b) (stop read_failed at (λ a. let up = fine a in cc))
            | inr b ↦
                let over : r.ready ++ missing ≡ [] =
                  rw (no_bytes 262144 r.ready (omega arith) none_left) (whole b) in
                rw (plain_loop, n, none_left, b, over) (ends tmp Alive before l at)
          ]
          | inr some_left ↦ elim (Bool-cases (is_cancelled (2 + 2 * round))) [
            | inl y ↦
                rw (plain_loop, n, some_left, y)
                  (stop cancelled at (λ a. let off = quiet a (2 + 2 * round) in cc))
            | inr m ↦
                let joined : piece ++ (drop 262144 r.ready ++ missing) ≡ r.ready ++ missing =
                  sym (append_assoc piece (drop 262144 r.ready) missing)
                  ∙ ap (λ x. x ++ missing) (take-append-drop 262144 r.ready) in
                rw (plain_loop, n, some_left, m, ← joined)
                  (grows tmp Alive before piece (drop 262144 r.ready ++ missing) l id (clock round)
                    _
                    (plain_loop-Grew Alive fuel missing (before ++ piece) (round + 1)
                      (record r { ready = drop 262144 r.ready })
                      (append_ticked tmp id (clock round) piece l)
                      (some_bytes 262144 fuel r.ready (omega arith) enough some_left) whole quiet
                      fine (appended tmp Alive before piece l id (clock round) at)))
          ]
        ]
      ]
