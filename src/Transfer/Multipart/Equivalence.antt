-- ===== src/Transfer/Multipart/Equivalence.antt =====
-- That a multipart upload stores what `encrypt_bytes` makes of the file, or the file itself.
use rabbit_storage_explorer.Base.{
  ℕ, zero, suc, ◌+◌, ◌≤◌, ◌<◌, ◌≡◌, refl, sym, ap, ◌∙◌, Bool, true, false, Option, none, some, List,
  [], ◌∷◌, ◌++◌, append_assoc, arith, length, length-take, length-drop, take, drop, Bytes, Text, ok,
  >>=-eq-ok, ok-injective, Bool-cases, inl, inr, leb, ltb, ◌||◌, subst,
}
use rabbit_storage_explorer.Storage.{StorageBackend, MultipartUpload}
use rabbit_storage_explorer.Crypto.Primitives.{Primitives}
use rabbit_storage_explorer.Crypto.Layout.{chunk}
use rabbit_storage_explorer.Crypto.Stream.{
  VaultKeys, Encryptor, chunks, new_encryptor, seal_data, encrypt_bytes,
}
use rabbit_storage_explorer.Crypto.Stream.Chunks.{concat, concat-chunks}
use rabbit_storage_explorer.Crypto.Stream.Pieces.{chunks-more, chunks-last, chunks-some, take_all}
use rabbit_storage_explorer.Transfer.Multipart.{
  s3_min_part, Upload, part_size_of, start_upload, piece_of, send_part, upload_loop, send_file,
  encryptor_of, upload_multipart,
}
use rabbit_storage_explorer.Transfer.Multipart.Parts.{
  object_of, IsMultipart, Underway, Sent, emit, emit-cons, emit-last, send_last, send_more,
}

-- What is true of the last chunk that is read, and of any other.
last_read :
    (file_len total n : ℕ)
    → total + n ≡ file_len
    → n ≤ chunk
    → (leb file_len (total + n) || ltb n chunk) ≡ true
last_read file_len total n e h = ground arith

more_to_read :
    (file_len total n m : ℕ)
    → total + n ≡ file_len
    → chunk < n
    → m ≡ chunk
    → (leb file_len (total + m) || ltb m chunk) ≡ false
more_to_read file_len total n m e h k = ground arith

regroup :
    (done buf done' buf' added more body : Bytes)
    → done ++ buf ≡ done' ++ (buf' ++ added)
    → body ≡ added ++ more
    → done ++ (buf ++ more) ≡ done' ++ (buf' ++ body)
regroup done buf done' buf' added more body h k =
    sym (append_assoc done buf more)
    ∙ ap (λ z. z ++ more) h
    ∙ append_assoc done' (buf' ++ added) more
    ∙ ap (λ z. done' ++ z) (append_assoc buf' added more ∙ ap (λ z. buf' ++ z) (sym k))

module _ (P : Primitives) {B : StorageBackend} (M : IsMultipart B) (is_cancelled : ℕ → Bool)
    (mp : MultipartUpload) (part_size file_len : ℕ) where
  abbrev after : Upload → Bytes → Bytes → Option Encryptor → Upload
  after u piece added enc = record u {
    encryptor = enc;
    part_buf = u.part_buf ++ added;
    read_total = u.read_total + length piece;
  }

  round_last :
      (f round : ℕ) (rest added : Bytes) (u u' : Upload) (enc : Option Encryptor) (s s' : B.State)
      → is_cancelled round ≡ false
      → (leb file_len (u.read_total + length (take chunk rest))
          || ltb (length (take chunk rest)) chunk)
        ≡ true
      → piece_of P u.encryptor (take chunk rest) true ≡ ok (added, enc)
      → send_part B mp part_size true (after u (take chunk rest) added enc) s ≡ (ok u', s')
      → upload_loop P B is_cancelled mp part_size file_len (suc f) rest round u s
        ≡ (ok u'.etags, s')
  unfolding upload_loop
  round_last f round rest added u u' enc s s' quiet last sealed sent =
      rw (upload_loop, quiet, last, sealed, sent) refl

  round_more :
      (f round : ℕ) (rest added : Bytes) (u u' : Upload) (enc : Option Encryptor) (s s' : B.State)
      → is_cancelled round ≡ false
      → (leb file_len (u.read_total + length (take chunk rest))
          || ltb (length (take chunk rest)) chunk)
        ≡ false
      → piece_of P u.encryptor (take chunk rest) false ≡ ok (added, enc)
      → send_part B mp part_size false (after u (take chunk rest) added enc) s ≡ (ok u', s')
      → upload_loop P B is_cancelled mp part_size file_len (suc f) rest round u s
        ≡ upload_loop P B is_cancelled mp part_size file_len f (drop chunk rest) (round + 1) u' s'
  unfolding upload_loop
  round_more f round rest added u u' enc s s' quiet last sealed sent =
      rw (upload_loop, quiet, last, sealed, sent) refl

  module _ (quiet : (k : ℕ) → is_cancelled k ≡ false) (big : s3_min_part ≤ part_size) where
    -- The loop ends, and then every byte of the rest of the file is in.
    loop-Sent :
        (f round : ℕ) (rest body : Bytes) (u : Upload) (s : B.State) (ps : List Bytes)
        → 0 < length rest
        → length rest ≤ f
        → u.read_total + length rest ≡ file_len
        → emit P u.encryptor (chunks chunk rest) ≡ ok body
        → Underway M mp s u ps
        → (etags : List (ℕ × Text)) × (s' : B.State) × (upload_loop P B is_cancelled mp part_size
              file_len f rest round u s
            ≡ (ok etags, s'))
          × Sent M mp s' etags (concat ps ++ (u.part_buf ++ body))
    loop-Sent zero round rest body u s ps some_left fuel total sealed w = absurd (omega arith)
    loop-Sent (suc f) round rest body u s ps some_left fuel total sealed w =
        elim (Bool-cases (leb (length rest) chunk)) [
          | inl short ↦
              let le : length rest ≤ chunk = ground arith in
              let whole = take_all chunk rest le in
              let (enc, made) =
                emit-last P u.encryptor rest body
                  (rw (chunks-last chunk rest some_left le) at sealed) in
              let u1 = after u (take chunk rest) body enc in
              let (u', s', sent, done) = send_last M mp part_size u1 s ps (record {
                at_parts = w.at_parts;
                large = w.large;
                numbered = w.numbered;
                tagged = w.tagged;
              }) in
              (
                u'.etags,
                s',
                round_last f round rest body u u' enc s s' (quiet round)
                    (rw whole (last_read file_len u.read_total (length rest) total le))
                    (rw whole made) sent,
                done,
              )
          | inr long ↦
              let lt : chunk < length rest = ground arith in
              let piece = length-take chunk rest in
              let left = length-drop chunk rest in
              let full : length (take chunk rest) ≡ chunk = omega (arith, piece) in
              let (d, ds, cut) = chunks-some chunk (drop chunk rest) (omega (arith, left)) in
              let (added, enc, more, made, others, together) =
                emit-cons P u.encryptor (take chunk rest) d ds body
                  (rw (chunks-more chunk rest (omega arith) lt, cut) at sealed) in
              let u1 = after u (take chunk rest) added enc in
              let (u', s', ps', sent, w', same, enc_same, total_same) =
                send_more M mp part_size u1 s ps big (record {
                  at_parts = w.at_parts;
                  large = w.large;
                  numbered = w.numbered;
                  tagged = w.tagged;
                }) in
              let (etags, s'', done, all) =
                loop-Sent f (round + 1) (drop chunk rest) more u' s' ps' (omega (arith, left))
                  (omega (arith, left)) (omega (arith, total_same, total, left, full))
                  (rw (enc_same, cut) others) w' in
              (
                etags,
                s'',
                round_more f round rest added u u' enc s s' (quiet round)
                      (more_to_read file_len u.read_total (length rest) (length (take chunk rest))
                        total lt full)
                      made sent
                    ∙ done,
                (let (qs, q, there, large, tags, whole) = all in
                    (
                      qs,
                      q,
                      there,
                      large,
                      tags,
                      whole
                          ∙ regroup (concat ps') u'.part_buf (concat ps) u.part_buf added more body
                              same together,
                    )),
              )
        ]

module _ (P : Primitives) {B : StorageBackend} (M : IsMultipart B) (is_cancelled : ℕ → Bool)
    (quiet : (k : ℕ) → is_cancelled k ≡ false) where
  started :
      (keys : Option VaultKeys) (prefix content blob : Bytes)
      → 0 < length content
      → object_of P keys prefix content ≡ ok blob
      → (body : Bytes) × (emit P
            (start_upload (encryptor_of keys prefix)).encryptor
            (chunks chunk content)
          ≡ ok body)
        × ((start_upload (encryptor_of keys prefix)).part_buf ++ body ≡ blob)
  unfolding start_upload encrypt_bytes seal_data
  started none prefix content blob p h =
      (content, ap ok (concat-chunks chunk content (omega arith)), ok-injective h)
  started (some keys) prefix [] blob p h = absurd (omega arith)
  started (some keys) prefix (x ∷ xs) blob p h =
      let (body, sealed, h') = >>=-eq-ok (seal_data P (new_encryptor keys prefix) (x ∷ xs)) _ h in
      (body, sealed, ok-injective h')

  start-Underway :
      (mp : MultipartUpload) (s : B.State) (enc : Option Encryptor)
      → M.Holds s mp []
      → Underway M mp s (start_upload enc) [] × ((start_upload enc).read_total ≡ 0)
  unfolding start_upload
  start-Underway mp s none h =
      (record { at_parts = h; large = tt; numbered = refl; tagged = refl }, refl)
  start-Underway mp s (some enc) h =
      (record { at_parts = h; large = tt; numbered = refl; tagged = refl }, refl)

  -- On a storage that is up and ready for the key, with a transfer that is not cancelled, and with a part size below
  -- 2^44 MiB: the upload of a file that is not empty succeeds, and what stands under its key is
  -- the file as `encrypt_bytes` encrypts it under the same prefix, or the file itself if there are no
  -- keys.
  pub upload_multipart-Stored :
      (keys : Option VaultKeys) (prefix content blob : Bytes) (part_size_mib : ℕ) (key : Text)
      (s : B.State)
      → M.Ready s key
      → 0 < length content
      → part_size_mib < 17592186044416
      → object_of P keys prefix content ≡ ok blob
      → (s' : B.State) × (upload_multipart P B is_cancelled keys prefix part_size_mib
            (some (length content, content))
            key
            s
          ≡ (ok tt, s'))
        × M.Stored s' key blob
  unfolding upload_multipart send_file part_size_of
  upload_multipart-Stored keys prefix content blob part_size_mib key s ready p small h =
      let (mp, s1, made, named, none_yet) = M.create key s ready in
      let (body, emitted, joined) = started keys prefix content blob p h in
      let u = start_upload (encryptor_of keys prefix) in
      let (w, zero_read) = start-Underway mp s1 (encryptor_of keys prefix) none_yet in
      let (etags, s2, done, all) =
        loop-Sent P M is_cancelled mp (part_size_of part_size_mib) (length content) quiet
          (ground arith) (suc (length content)) 0 content body u s1 [] p (omega arith)
          (omega (arith, zero_read)) emitted w in
      let (ps, q, there, large, tags, whole) = all in
      let (s3, completed, object) = M.complete mp etags s2 ps q there large tags in
      (
        s3,
        rw (made, done, completed) refl,
        subst (λ k. M.Stored s3 k blob) named (subst (M.Stored s3 mp.key) (whole ∙ joined) object),
      )
