-- ===== src/Transfer/Multipart/Parts.antt =====
-- One part of a multipart upload at a time, and what a storage promises of them.
use rabbit_storage_explorer.Base.{
  ℕ, ◌+◌, ◌≤◌, ◌≡◌, refl, sym, ap, ◌∙◌, Bool, true, false, Option, none, some, List, [], ◌∷◌, ◌++◌,
  append-nil, append_assoc, arith, length, length-append, Bytes, Text, Result, ok, >>=-eq-ok,
  ok-injective, Bool-cases, inl, inr, leb, ltb, ◌||◌, ◌&&◌, not,
}
use rabbit_storage_explorer.Storage.{StorageBackend, MultipartUpload}
use rabbit_storage_explorer.Crypto.Primitives.{Primitives}
use rabbit_storage_explorer.Crypto.Stream.{
  VaultKeys, encrypt_bytes, Encryptor, seal_chunk, seal_all,
}
use rabbit_storage_explorer.Crypto.Stream.Chunks.{concat}
use rabbit_storage_explorer.Transfer.Multipart.{
  s3_min_part, Upload, resume_with, piece_of, sent_part, send_part,
}

-- The object of a file: `encrypt_bytes` of it, or itself.
abbrev pub object_of : Primitives → Option VaultKeys → Bytes → Bytes → Result Bytes
object_of P none prefix content = ok content
object_of P (some keys) prefix content = encrypt_bytes P keys prefix content

abbrev pub AllLarge : List Bytes → Type 0
AllLarge [] = Unit
AllLarge (p ∷ ps) = (s3_min_part ≤ length p) × AllLarge ps

-- What a storage that is up promises of multipart uploads: an upload to a key that it is ready for
-- holds the parts in their order, and they are put together where all but the last have the least
-- size and each has its tag.
pub record IsMultipart (B : StorageBackend) : Type 1 where
  pub Ready : B.State → Text → Type 0
  pub Holds : B.State → MultipartUpload → List Bytes → Type 0
  pub Stored : B.State → Text → Bytes → Type 0
  pub create :
      (key : Text) (s : B.State)
      → Ready s key
      → (mp : MultipartUpload) × (s' : B.State) × (B.create_multipart key s ≡ (ok mp, s'))
        × (mp.key ≡ key)
        × Holds s' mp []
  pub upload :
      (mp : MultipartUpload) (n : ℕ) (part : Bytes) (ps : List Bytes) (s : B.State)
      → Holds s mp ps
      → n ≡ length ps + 1
      → (etag : Text) × (s' : B.State) × (B.upload_part mp n part s ≡ (ok etag, s'))
        × Holds s' mp (ps ++ (part ∷ []))
  pub complete :
      (mp : MultipartUpload) (etags : List (ℕ × Text)) (s : B.State) (ps : List Bytes) (p : Bytes)
      → Holds s mp (ps ++ (p ∷ []))
      → AllLarge ps
      → length etags ≡ length (ps ++ (p ∷ []))
      → (s' : B.State) × (B.complete_multipart mp etags s ≡ (ok tt, s'))
        × Stored s' mp.key (concat (ps ++ (p ∷ [])))

AllLarge-append :
    (ps : List Bytes) (p : Bytes) → AllLarge ps → s3_min_part ≤ length p → AllLarge (ps ++ (p ∷ []))
AllLarge-append [] p all h = (h, tt)
AllLarge-append (q ∷ ps) p (g, all) h = (g, AllLarge-append ps p all h)

pub concat-append : (ps : List Bytes) (p : Bytes) → concat (ps ++ (p ∷ [])) ≡ concat ps ++ p
concat-append [] p = append-nil p
concat-append (q ∷ ps) p =
    ap (λ x. q ++ x) (concat-append ps p) ∙ sym (append_assoc q (concat ps) p)

module _ (P : Primitives) where
  -- The file as it stands in the object: sealed piece by piece, or as it is.
  abbrev pub emit : Option Encryptor → List Bytes → Result Bytes
  emit none cs = ok (concat cs)
  emit (some enc) cs = seal_all P enc cs

  pub emit-cons :
      (enc : Option Encryptor) (c d : Bytes) (cs : List Bytes) (body : Bytes)
      → emit enc (c ∷ d ∷ cs) ≡ ok body
      → (s : Bytes) × (enc' : Option Encryptor) × (rest : Bytes) × (piece_of P enc c false
          ≡ ok (s, enc'))
        × (emit enc' (d ∷ cs) ≡ ok rest)
        × (body ≡ s ++ rest)
  unfolding piece_of seal_all
  emit-cons none c d cs body h = (c, none, concat (d ∷ cs), refl, refl, ok-injective (sym h))
  emit-cons (some enc) c d cs body h =
      let ((s, enc'), sealed, h') = >>=-eq-ok (seal_chunk P enc c false) _ h in
      let (rest, more, h'') = >>=-eq-ok (seal_all P enc' (d ∷ cs)) _ h' in
      (s, some enc', rest, ap resume_with sealed, more, ok-injective (sym h''))

  pub emit-last :
      (enc : Option Encryptor) (c : Bytes) (body : Bytes)
      → emit enc (c ∷ []) ≡ ok body
      → (enc' : Option Encryptor) × (piece_of P enc c true ≡ ok (body, enc'))
  unfolding piece_of seal_all
  emit-last none c body h = (none, ap (λ x. ok (x, none)) (sym (append-nil c) ∙ ok-injective h))
  emit-last (some enc) c body h =
      let ((s, enc'), sealed, h') = >>=-eq-ok (seal_chunk P enc c true) _ h in
      (some enc', ap resume_with sealed ∙ ap (λ x. ok (x, some enc')) (ok-injective h'))

module _ {B : StorageBackend} (M : IsMultipart B) (mp : MultipartUpload) where
  -- The parts `ps` are in, all of them large, and the variables agree with them.
  pub record Underway (s : B.State) (u : Upload) (ps : List Bytes) : Type 0 where
    pub at_parts : M.Holds s mp ps
    pub large : AllLarge ps
    pub numbered : u.part_number ≡ length ps + 1
    pub tagged : length u.etags ≡ length ps

  -- All is in: the last part may be short.
  abbrev pub Sent : B.State → List (ℕ × Text) → Bytes → Type 0
  Sent s etags whole =
      (ps : List Bytes) × (p : Bytes) × M.Holds s mp (ps ++ (p ∷ []))
      × AllLarge ps
      × (length etags ≡ length (ps ++ (p ∷ [])))
      × (concat (ps ++ (p ∷ [])) ≡ whole)

  module _ (part_size : ℕ) where
    sends :
        (last : Bool) (u : Upload) (s s' : B.State) (etag : Text)
        → (leb part_size (length u.part_buf) || last) ≡ true
        → (not last && ltb (length u.part_buf) s3_min_part) ≡ false
        → B.upload_part mp u.part_number u.part_buf s ≡ (ok etag, s')
        → send_part B mp part_size last u s ≡ (ok (sent_part u etag), s')
    unfolding send_part
    sends last u s s' etag full large sent = rw (full, large, sent)

    -- The next part in, whatever its size.
    upload_next :
        (u : Upload) (s : B.State) (ps : List Bytes)
        → Underway s u ps
        → (etag : Text) × (s' : B.State) × (B.upload_part mp u.part_number u.part_buf s
            ≡ (ok etag, s'))
          × M.Holds s' mp (ps ++ (u.part_buf ∷ []))
          × (length (sent_part u etag).etags ≡ length (ps ++ (u.part_buf ∷ [])))
    upload_next u s ps w =
        let (etag, s', sent, now) =
          M.upload mp u.part_number u.part_buf ps s w.at_parts (omega (arith, w.numbered)) in
        (
          etag,
          s',
          sent,
          now,
          omega (
            arith,
            length-append ps (u.part_buf ∷ []),
            length-append u.etags ((u.part_number, etag) ∷ []),
            w.tagged,
          ),
        )

    pub send_last :
        (u : Upload) (s : B.State) (ps : List Bytes)
        → Underway s u ps
        → (u' : Upload) × (s' : B.State) × (send_part B mp part_size true u s ≡ (ok u', s'))
          × Sent s' u'.etags (concat ps ++ u.part_buf)
    send_last u s ps w =
        let (etag, s', sent, there, tags) = upload_next u s ps w in
        (
          sent_part u etag,
          s',
          sends true u s s' etag (ground arith) refl sent,
          (ps, u.part_buf, there, w.large, tags, concat-append ps u.part_buf),
        )

    pub send_more :
        (u : Upload) (s : B.State) (ps : List Bytes)
        → s3_min_part ≤ part_size
        → Underway s u ps
        → (u' : Upload) × (s' : B.State) × (ps' : List Bytes) × (send_part B mp part_size false u s
            ≡ (ok u', s'))
          × Underway s' u' ps'
          × (concat ps' ++ u'.part_buf ≡ concat ps ++ u.part_buf)
          × (u'.encryptor ≡ u.encryptor)
          × (u'.read_total ≡ u.read_total)
    unfolding send_part
    send_more u s ps big w = elim (Bool-cases (leb part_size (length u.part_buf))) [
      | inr n ↦ (u, s, ps, rw (send_part, n) refl, w, refl, refl, refl)
      | inl y ↦
          let (etag, s', sent, there, tags) = upload_next u s ps w in
          let size : part_size ≤ length u.part_buf = ground arith in
          (
            sent_part u etag,
            s',
            ps ++ (u.part_buf ∷ []),
            sends false u s s' etag (rw y) (ground arith) sent,
            record {
              at_parts = there;
              large = AllLarge-append ps u.part_buf w.large (omega (arith, size));
              numbered = omega (arith, w.numbered, length-append ps (u.part_buf ∷ []));
              tagged = tags;
            },
            append-nil (concat (ps ++ (u.part_buf ∷ []))) ∙ concat-append ps u.part_buf,
            refl,
            refl,
          )
    ]
