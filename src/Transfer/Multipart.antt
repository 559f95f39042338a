-- ===== src/Transfer/Multipart.antt =====
-- `upload_multipart` of src/worker.rs. The answers of the cancellation token are a function of the
-- round; a local file is the length that its metadata gives and its content, or none if it does not
-- open. The inner loop over `read` fills a chunk as long as the file has bytes.

pub mod Parts
pub mod Equivalence
use rabbit_storage_explorer.Base.{
  ℕ, zero, suc, ◌+◌, ◌*◌, ◌%◌, max, Bool, true, false, ◌&&◌, ◌||◌, not, Option, none, some, List,
  [], ◌∷◌, ◌++◌, take, drop, length, leb, ltb, Bytes, Text, Result, ok, err, u64_mod, if◌then◌else◌,
}
use rabbit_storage_explorer.Base.{cancelled, opening_local_file, part_below_minimum, out_of_fuel}
use rabbit_storage_explorer.Base.Exec.{Exec, ◌>>=◌, pure, fail, lift, ignoring, outcome}
use rabbit_storage_explorer.Storage.{StorageBackend, MultipartUpload}
use rabbit_storage_explorer.Crypto.Primitives.{Primitives}
use rabbit_storage_explorer.Crypto.Layout.{chunk}
use rabbit_storage_explorer.Crypto.Stream.{VaultKeys, Encryptor, new_encryptor, header, seal_chunk}

-- S3_MIN_PART
abbrev pub s3_min_part : ℕ
s3_min_part = 5242880

-- The variables of the loop beside the file.
pub record Upload : Type 0 where
  pub encryptor : Option Encryptor
  pub part_buf : Bytes
  pub etags : List (ℕ × Text)
  pub part_number : ℕ
  pub read_total : ℕ

-- The variables after a part went out.
abbrev pub sent_part : Upload → Text → Upload
sent_part u etag = record u {
  part_buf = [];
  etags = u.etags ++ ((u.part_number, etag) ∷ []);
  part_number = u.part_number + 1;
}

unfoldable pub part_size_of : ℕ → ℕ
part_size_of part_size_mib = max part_size_mib 5 * 1048576 % u64_mod

unfoldable pub start_upload : Option Encryptor → Upload
start_upload none = record {
  encryptor = none;
  part_buf = [];
  etags = [];
  part_number = 1;
  read_total = 0;
}
start_upload (some enc) = record {
  encryptor = some enc;
  part_buf = header enc;
  etags = [];
  part_number = 1;
  read_total = 0;
}

-- What a chunk adds to the buffer, sealed if there is an encryptor.
abbrev pub resume_with : Result (Bytes × Encryptor) → Result (Bytes × Option Encryptor)
resume_with (err e) = err e
resume_with (ok (s, enc)) = ok (s, some enc)

-- The encryptor draws a random file prefix, given here.
abbrev pub encryptor_of : Option VaultKeys → Bytes → Option Encryptor
encryptor_of none prefix = none
encryptor_of (some keys) prefix = some (new_encryptor keys prefix)

module _ (P : Primitives) where
  unfoldable pub piece_of : Option Encryptor → Bytes → Bool → Result (Bytes × Option Encryptor)
  piece_of none piece last = ok (piece, none)
  piece_of (some enc) piece last = resume_with (seal_chunk P enc piece last)

module _ (B : StorageBackend) where
  -- A full buffer, or the last one, goes out as a part.
  unfoldable pub send_part : MultipartUpload → ℕ → Bool → Upload → Exec B.State Upload
  send_part mp part_size last u =
      if leb part_size (length u.part_buf) || last
      then (if not last && ltb (length u.part_buf) s3_min_part
          then fail part_below_minimum
          else B.upload_part mp u.part_number u.part_buf >>= λ etag. pure (sent_part u etag))
      else pure u

module _ (P : Primitives) (B : StorageBackend) where
  unfoldable pub upload_loop :
      (ℕ → Bool) → MultipartUpload → ℕ → ℕ → ℕ → Bytes → ℕ → Upload → Exec B.State (List (ℕ × Text))
  upload_loop is_cancelled mp part_size file_len zero rest round u = fail out_of_fuel
  upload_loop is_cancelled mp part_size file_len (suc fuel) rest round u =
      elim (is_cancelled round) [
        | true ↦ fail cancelled
        | false ↦
            let piece = take chunk rest in
            let read_total = u.read_total + length piece in
            let last = leb file_len read_total || ltb (length piece) chunk in
            lift (piece_of P u.encryptor piece last) >>= λ added.
            send_part B mp part_size last (record u {
              encryptor = added.1;
              part_buf = u.part_buf ++ added.0;
              read_total = read_total;
            })
            >>= λ u'. elim last [
              | true ↦ pure u'.etags
              | false ↦
                  upload_loop is_cancelled mp part_size file_len fuel (drop chunk rest) (round + 1)
                    u'
            ]
      ]

  -- The body whose error aborts the upload.
  unfoldable pub send_file :
      (ℕ → Bool)
      → Option Encryptor
      → MultipartUpload
      → ℕ
      → Option (ℕ × Bytes)
      → Exec B.State (Unit {0})
  unfolding upload_loop start_upload
  send_file is_cancelled enc mp part_size none = fail opening_local_file
  send_file is_cancelled enc mp part_size (some (file_len, content)) = do
    etags ←
        upload_loop is_cancelled mp part_size file_len (suc (length content)) content 0
          (start_upload enc)
    B.complete_multipart mp etags

  abbrev pub abort_on_error : MultipartUpload → Result (Unit {0}) → Exec B.State (Unit {0})
  abort_on_error mp (ok done) = pure done
  abort_on_error mp (err e) = ignoring (B.abort_multipart mp) (fail e)

  unfoldable pub upload_multipart :
      (ℕ → Bool)
      → Option VaultKeys
      → Bytes
      → ℕ
      → Option (ℕ × Bytes)
      → Text
      → Exec B.State (Unit {0})
  unfolding send_file part_size_of
  upload_multipart is_cancelled keys prefix part_size_mib file key = do
    mp ← B.create_multipart key
    result ←
        outcome
          (send_file is_cancelled (encryptor_of keys prefix) mp (part_size_of part_size_mib) file)
    abort_on_error mp result
