-- ===== src/Transfer/Download/Receive.antt =====
-- What a download receives from an object, from the point on where it resumes.
use rabbit_storage_explorer.Base.{
  ℕ, suc, ◌+◌, ◌-◌, ◌*◌, ◌/◌, ◌%◌, ◌≤◌, ◌<◌, ◌≡◌, inl, inr, refl, sym, ap, ◌∙◌, subst, Bool, true,
  false, none, some, [], ◌++◌, append-nil, arith, length, length-append, take, drop, take-append,
  leb, ltb, ◌==◌, Bytes, Text, Result, ok, err, Error, Bool-cases, Result-cases, u32_mod,
  reading_header,
}
use rabbit_storage_explorer.Base.Dict
use rabbit_storage_explorer.Storage.{StorageBackend, Reader}
use rabbit_storage_explorer.Crypto.Primitives.{Primitives, IsLawful}
use rabbit_storage_explorer.Crypto.Layout.{
  chunk, cipher_chunk, header_len, prefix_len, encrypted_size,
}
use rabbit_storage_explorer.Crypto.Stream.{
  VaultKeys, header, new_encryptor, new_decryptor, seek_to, seal_data,
}
use rabbit_storage_explorer.Crypto.Stream.Pieces.{take_all}
use rabbit_storage_explorer.Crypto.Stream.Roundtrip.{
  decryptor_of, header_accepted, length-header, starts_at_zero,
}
use rabbit_storage_explorer.Transfer.Progress.{Float}
use rabbit_storage_explorer.Transfer.Download.{Local, read_exact, get_header, receive}
use rabbit_storage_explorer.Transfer.Download.Loops.{
  Grew, Undisturbed, prefix_split, stops, chunk_loop-Grew, plain_loop-Grew,
}
use rabbit_storage_explorer.Transfer.Download.Chunks.{
  pieces, pieces-IsChunked, concat-pieces, seal_data-pieces, length-pieces, layout-pieces, advance,
  advance-counter, seal_from, drop-append_add,
}

-- What comes of a call for `content`: nothing but on a storage that may go down, or a reader that
-- may break behind a part of it.
abbrev pub Delivers : Bool → Result (ℕ × Reader) → Bytes → Type 0
Delivers up (err e) content = up ≡ false
Delivers up (ok source) content =
    (missing : Bytes) × (source.1.ready ++ missing ≡ content)
    × (source.1.broken ≡ false → missing ≡ [])
    × (up ≡ true → source.1.broken ≡ false)

abbrev pub Reads : Bool → Result Bytes → Bytes → Type 0
Reads up (err e) content = up ≡ false
Reads up (ok b) content = b ≡ content

-- A storage that has the object `blob` at `key` and keeps it; in the states that are `Good true` it
-- stays up.
pub record IsObject (B : StorageBackend) (key : Text) (blob : Bytes) : Type 1 where
  pub Good : Bool → B.State → Type 0
  pub stream :
      (up : Bool) (s : B.State)
      → Good up s
      → Good up (B.get_stream key s).1 × Delivers up (B.get_stream key s).0 blob
  pub range :
      (up : Bool) (off : ℕ) (s : B.State)
      → Good up s
      → off ≤ length blob
      → Good up (B.get_range key off s).1 × Delivers up (B.get_range key off s).0 (drop off blob)
  pub head :
      (up : Bool) (n : ℕ) (s : B.State)
      → Good up s
      → Good up (B.read_header key n s).1 × Reads up (B.read_header key n s).0 (take n blob)

on_weaker :
    {S : Type 0} {F : Float} {before whole : Bytes} {Alive Alive' : Type 0} {l : Local S F}
    {out : Result (Unit {0}) × Local S F} (tmp : Text)
    → (Alive' → Alive)
    → Grew tmp before whole Alive l out
    → Grew tmp before whole Alive' l out
on_weaker tmp weaker g = record {
  got = g.got;
  left = g.left;
  joined = g.joined;
  file = g.file;
  full = g.full;
  alive = λ a. g.alive (weaker a);
  others = g.others;
  remote = g.remote;
}

-- No check finds the transfer cancelled, and the storage stays up.
abbrev pub Smooth : (ℕ → Bool) → Bool → Type 0
Smooth is_cancelled up = ((k : ℕ) → is_cancelled k ≡ false) × (up ≡ true)

header_opens :
    (keys : VaultKeys) (prefix : Bytes)
    → length prefix ≡ prefix_len
    → new_decryptor keys (header (new_encryptor keys prefix))
      ≡ ok (decryptor_of (new_encryptor keys prefix))
header_opens keys prefix sized =
    let e = new_encryptor keys prefix in
    subst (λ h. new_decryptor keys h ≡ ok (decryptor_of e)) (append-nil (header e))
      (header_accepted keys prefix [] sized)

whole_header :
    (keys : VaultKeys) (prefix body : Bytes)
    → length prefix ≡ prefix_len
    → take header_len (header (new_encryptor keys prefix) ++ body)
      ≡ header (new_encryptor keys prefix)
whole_header keys prefix body sized =
    take-append (header (new_encryptor keys prefix)) body header_len
      (length-header keys prefix sized)

module _ (P : Primitives) (lawful : IsLawful P) {B : StorageBackend} {key : Text} {blob : Bytes}
    (O : IsObject B key blob) {F : Float} (is_cancelled : ℕ → Bool) (clock : ℕ → ℕ) (tmp : Text)
    (id : ℕ) (up : Bool) where
  -- The storage is as it was promised, and the part file grew.
  abbrev pub Received :
      Bytes → Bytes → Local B.State F → Result (Unit {0}) × Local B.State F → Type 0
  Received before more l out =
      (l1 : Local B.State F) × O.Good up l1.remote
      × (l1.disk ≡ l.disk)
      × Grew tmp before more (Smooth is_cancelled up) l1 out

  module _ (keys : VaultKeys) (prefix plain body : Bytes) (sized : length prefix ≡ prefix_len)
      (fits : length plain ≤ (u32_mod - 1) * chunk)
      (sealed : seal_data P (new_encryptor keys prefix) plain ≡ ok body)
      (object : blob ≡ header (new_encryptor keys prefix) ++ body) where
    -- With the header, the chunks from the number `k` on come in.
    receive_chunks :
        (k : ℕ) (r r' : Reader) (missing before : Bytes) (l l1 : Local B.State F)
        → k < length (pieces plain)
        → get_header P B is_cancelled clock key k r l
          ≡ (ok (header (new_encryptor keys prefix), r'), l1)
        → r'.ready ++ missing ≡ drop (k * cipher_chunk) body
        → Dict.get l1.disk tmp ≡ some before
        → (before ≡ take (k * chunk) plain)
        → Grew tmp before (drop (k * chunk) plain) (Undisturbed is_cancelled missing) l1 (
            receive P B is_cancelled clock
              (some keys)
              key
              tmp
              id
              (encrypted_size (length plain))
              (k * chunk)
              r
              l)
    unfolding receive
    receive_chunks k r r' missing before l l1 lt got split at start =
        let cs = pieces plain in
        let index : k * chunk / chunk ≡ k = omega arith in
        let zero_counter = starts_at_zero keys prefix in
        let (tail, cut, same, count, rest, room) =
          seal_from P lawful k cs (new_encryptor keys prefix) body (pieces-IsChunked plain) lt
            (omega (arith, zero_counter, length-pieces plain fits))
            (sym (seal_data-pieces P (new_encryptor keys prefix) plain) ∙ sealed) in
        let dec : seek_to (decryptor_of (new_encryptor keys prefix)) (k % u32_mod)
            ≡ decryptor_of (advance k (new_encryptor keys prefix)) =
          sym (
            advance-counter k (new_encryptor keys prefix)
            ∙ ap (seek_to (decryptor_of (new_encryptor keys prefix)))
                (omega (arith, zero_counter, length-pieces plain fits))) in
        let grown =
          chunk_loop-Grew P lawful B is_cancelled clock tmp id (drop k cs)
            (advance k (new_encryptor keys prefix)) (drop (k * cipher_chunk) body) missing before 0
            r' l1 cut room tail split at in
        rw (receive, layout-pieces plain fits, index, got, header_opens keys prefix sized, dec)
          (rw (rest, concat-pieces plain, same, count) at grown)

    receive_fails :
        (k : ℕ) (x : Error) (r : Reader) (l l1 : Local B.State F)
        → get_header P B is_cancelled clock key k r l ≡ (err x, l1)
        → receive P B is_cancelled clock
            (some keys)
            key
            tmp
            id
            (encrypted_size (length plain))
            (k * chunk)
            r
            l
          ≡ (err x, l1)
    unfolding receive
    receive_fails k x r l l1 failed =
        let index : k * chunk / chunk ≡ k = omega arith in
        rw (receive, layout-pieces plain fits, index, failed) refl

    -- The stream from the start, its header first.
    pub receive_start :
        (r : Reader) (missing before : Bytes) (l : Local B.State F)
        → O.Good up l.remote
        → 0 < length (pieces plain)
        → r.ready ++ missing ≡ blob
        → (up ≡ true → missing ≡ [])
        → Dict.get l.disk tmp ≡ some before
        → before ≡ []
        → Received before plain l (
            receive P B is_cancelled clock
              (some keys)
              key
              tmp
              id
              (encrypted_size (length plain))
              0
              r
              l)
    unfolding get_header read_exact
    receive_start r missing before l good some_piece split whole at start =
        let size = length-header keys prefix sized in
        elim (Bool-cases (leb header_len (length r.ready))) [
          | inr short ↦
              let failed : get_header P B is_cancelled clock key 0 r l ≡ (err reading_header, l) =
                rw (get_header, short) refl in
              (
                l,
                good,
                refl,
                rw (receive_fails 0 reading_header r l l failed) (
                    stops tmp (Smooth is_cancelled up) before plain l reading_header at
                      (λ (quiet, stays). ground (
                        arith,
                        size,
                        ap length split,
                        ap length object,
                        length-append r.ready missing,
                        ap length (whole stays),
                        length-append (header (new_encryptor keys prefix)) body,
                      ))),
              )
          | inl long ↦
              let (front, back) =
                prefix_split (header (new_encryptor keys prefix)) body r.ready missing
                  (split ∙ object) (ground (arith, size)) in
              let r' : Reader = record r { ready = drop header_len r.ready } in
              let got : get_header P B is_cancelled clock key 0 r l
                  ≡ (ok (header (new_encryptor keys prefix), r'), l) =
                rw (get_header, long)
                  (ap (λ h. (ok (h, r'), l)) (ap (λ n. take n r.ready) size ∙ front)) in
              let grown =
                receive_chunks 0 r r' missing before l l some_piece got
                  (ap (λ n. drop n r.ready ++ missing) size ∙ back) at start in
              (l, good, refl, on_weaker tmp (λ (quiet, stays). (quiet, whole stays)) grown)
        ]

    -- A stream that starts behind the header, which is read on its own.
    pub receive_rest :
        (k : ℕ) (r : Reader) (missing before : Bytes) (l : Local B.State F)
        → O.Good up l.remote
        → 0 < k
        → k < length (pieces plain)
        → r.ready ++ missing ≡ drop (header_len + k * cipher_chunk) blob
        → (up ≡ true → missing ≡ [])
        → Dict.get l.disk tmp ≡ some before
        → before ≡ take (k * chunk) plain
        → Received before (drop (k * chunk) plain) l (
            receive P B is_cancelled clock
              (some keys)
              key
              tmp
              id
              (encrypted_size (length plain))
              (k * chunk)
              r
              l)
    unfolding get_header
    receive_rest k r missing before l good pos lt split whole at start =
        let size = length-header keys prefix sized in
        let (good', reads) = O.head up header_len l.remote good in
        let l1 : Local B.State F = record l {
          remote = (B.read_header key header_len l.remote).1;
        } in
        let later : (k == 0) ≡ false = ground arith in
        elim (Result-cases (B.read_header key header_len l.remote).0) [
          | inr (x, down) ↦
              let failed : get_header P B is_cancelled clock key k r l ≡ (err x, l1) =
                rw (get_header, later, down) refl in
              (
                l1,
                good',
                refl,
                rw (receive_fails k x r l l1 failed) (
                    stops tmp (Smooth is_cancelled up) before (drop (k * chunk) plain) l1 x at
                      (λ (quiet, stays). let off = rw down at reads in cc)),
              )
          | inl (b, read) ↦
              let exact : b ≡ header (new_encryptor keys prefix) =
                (rw read at reads)
                ∙ ap (take header_len) object
                ∙ whole_header keys prefix body sized in
              let got : get_header P B is_cancelled clock key k r l
                  ≡ (ok (header (new_encryptor keys prefix), r), l1) =
                let long : ltb (length b) header_len ≡ false =
                  ground (arith, ap length exact, size) in
                let same : take header_len b ≡ header (new_encryptor keys prefix) =
                  ap (take header_len) exact
                  ∙ take_all header_len (header (new_encryptor keys prefix))
                      (omega (arith, size)) in
                rw (get_header, later, read, long, same) refl in
              let behind : drop (header_len + k * cipher_chunk) blob
                  ≡ drop (k * cipher_chunk) body =
                ap (drop (header_len + k * cipher_chunk)) object
                ∙ drop-append_add (header (new_encryptor keys prefix)) body
                    (header_len + k * cipher_chunk) (k * cipher_chunk) (omega (arith, size)) in
              let grown =
                receive_chunks k r r missing before l l1 lt got (split ∙ behind) at start in
              (l1, good', refl, on_weaker tmp (λ (quiet, stays). (quiet, whole stays)) grown)
        ]

  -- A plain file, from any byte on.
  pub receive_plain :
      (done : ℕ) (r : Reader) (missing before more : Bytes) (cipher_len : ℕ) (l : Local B.State F)
      → O.Good up l.remote
      → r.ready ++ missing ≡ more
      → (r.broken ≡ false → missing ≡ [])
      → (up ≡ true → r.broken ≡ false)
      → Dict.get l.disk tmp ≡ some before
      → Received before more l (receive P B is_cancelled clock none key tmp id cipher_len done r l)
  unfolding receive
  receive_plain done r missing before more cipher_len l good split whole stays at = (
    l,
    good,
    refl,
    rw (← split) (
        plain_loop-Grew P lawful B is_cancelled clock tmp id (Smooth is_cancelled up)
          (suc (length r.ready)) missing before 0 r l (omega arith) whole (λ (quiet, on). quiet)
          (λ (quiet, on). stays on) at),
  )
