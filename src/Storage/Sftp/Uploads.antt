-- ===== src/Storage/Sftp/Uploads.antt =====
-- Multipart uploads over SFTP: an open file that parts are appended to (src/storage/sftp.rs), and the
-- backend as a StorageBackend.
use rabbit_storage_explorer.Base.{
  ℕ, suc, ◌+◌, ◌%◌, ◌≡◌, refl, Bool, true, none, some, List, [], ◌++◌, length, u64_mod, Bytes, Text,
  text, digits, Result, ok, err, unknown_upload_id,
}
use rabbit_storage_explorer.Base.Dict
use rabbit_storage_explorer.Base.Dict.{Dict, get-insert_same, get-remove}
use rabbit_storage_explorer.Base.Exec.{Exec, ◌>>=◌}
use rabbit_storage_explorer.Storage.{StorageBackend, MultipartUpload}
use rabbit_storage_explorer.Storage.Defaults.{default_rename, default_read_header}
use rabbit_storage_explorer.Storage.Sftp.Client.{SftpClient}
use rabbit_storage_explorer.Storage.Sftp.{
  Sftp, on_sftp, full, tolerate_missing, write_chunks, write_chunk, list_inner, list_recursive, get,
  put, prepare_parents, delete, health_check, put_throttled, get_vault, put_vault, get_stream,
  get_range,
}

abbrev pub upload_id_of : ℕ → Text
upload_id_of n = text "sftp-" ++ digits (suc n) n

module _ (C : SftpClient) where
  abbrev pub start_upload : Text → C.Handle → Exec (Sftp C) MultipartUpload
  start_upload key file s =
      let id = upload_id_of s.upload_seq in
      (
        ok (record { upload_id = id; key = key }),
        record s {
          upload_seq = (s.upload_seq + 1) % u64_mod;
          uploads = Dict.insert s.uploads id file;
        },
      )

  unfoldable pub create_multipart : Text → Exec (Sftp C) MultipartUpload
  create_multipart key s = (on_sftp C (C.open_truncated (full s.root key)) >>= start_upload key) s

  abbrev pub taken : Text → Sftp C → Sftp C
  taken id s = record s { uploads = Dict.remove s.uploads id }

  -- The file is put back, however the writing went.
  abbrev pub put_back : Text → C.Handle → Result (Unit {0}) × Sftp C → Result Text × Sftp C
  put_back id file (ok written, s) = (ok [], record s { uploads = Dict.insert s.uploads id file })
  put_back id file (err e, s) = (err e, record s { uploads = Dict.insert s.uploads id file })

  unfoldable pub upload_part : MultipartUpload → ℕ → Bytes → Bool → Exec (Sftp C) Text
  upload_part mp part_number content on_bytes s = elim (Dict.get s.uploads mp.upload_id) [
    | none ↦ (err unknown_upload_id, s)
    | some file ↦
        put_back mp.upload_id file
          (write_chunks C on_bytes file write_chunk (length content) content (taken mp.upload_id s))
  ]

  unfoldable pub complete_multipart : MultipartUpload → List (ℕ × Text) → Exec (Sftp C) (Unit {0})
  complete_multipart mp etags s = elim (Dict.get s.uploads mp.upload_id) [
    | none ↦ (ok tt, s)
    | some file ↦
        (on_sftp C (C.flush file) >>= λ flushed. on_sftp C (C.shutdown file)) (taken mp.upload_id s)
  ]

  unfoldable pub abort_multipart : MultipartUpload → Exec (Sftp C) (Unit {0})
  abort_multipart mp s = elim (Dict.get s.uploads mp.upload_id) [
    | none ↦ (ok tt, s)
    | some file ↦
        (on_sftp C (C.remove_file (full s.root mp.key)) >>= tolerate_missing C)
          (taken mp.upload_id s)
  ]

  -- The worker always hands a sink to `upload_part`.
  abbrev pub sftp : ℕ → StorageBackend
  sftp fuel = record {
    State = Sftp C;
    list = list_inner C;
    list_recursive = list_recursive C fuel;
    get = get C;
    put = put C;
    prepare_parents = prepare_parents C;
    delete = delete C fuel;
    rename =
        default_rename (get C) (put C) (prepare_parents C) (list_recursive C fuel) (delete C fuel);
    health_check = health_check C;
    put_throttled = put_throttled C;
    get_vault = get_vault C;
    put_vault = put_vault C;
    get_stream = get_stream C;
    get_range = get_range C;
    read_header = default_read_header (get_range C);
    create_multipart = create_multipart;
    upload_part = λ mp n part. upload_part mp n part true;
    complete_multipart = complete_multipart;
    abort_multipart = abort_multipart;
  }

  put_back-listed :
      (id : Text) (file : C.Handle) (out : Result (Unit {0}) × Sftp C)
      → Dict.get (put_back id file out).1.uploads id ≡ some file
  put_back-listed id file (ok written, s) = get-insert_same s.uploads id file
  put_back-listed id file (err e, s) = get-insert_same s.uploads id file

  upload_part-listed :
      (mp : MultipartUpload) (n : ℕ) (part : Bytes) (on_bytes : Bool) (file : C.Handle) (s : Sftp C)
      → Dict.get s.uploads mp.upload_id ≡ some file
      → Dict.get (upload_part mp n part on_bytes s).1.uploads mp.upload_id ≡ some file
  unfolding upload_part
  upload_part-listed mp n part on_bytes file s known =
      rw (upload_part, known) (put_back-listed mp.upload_id file _)

  -- Whatever the server does: once a part of a known upload was sent, whether it failed or not, to
  -- abort the upload asks the server to remove the file at its key, and answers as the server does,
  -- a file that is missing counting as removed.
  pub abort_multipart-removes :
      (mp : MultipartUpload) (n : ℕ) (part : Bytes) (on_bytes : Bool) (file : C.Handle) (s : Sftp C)
      → Dict.get s.uploads mp.upload_id ≡ some file
      → (let s' = (upload_part mp n part on_bytes s).1 in
          abort_multipart mp s'
          ≡ (on_sftp C (C.remove_file (full s'.root mp.key)) >>= tolerate_missing C)
              (taken mp.upload_id s'))
  unfolding abort_multipart
  abort_multipart-removes mp n part on_bytes file s known =
      rw (abort_multipart, upload_part-listed mp n part on_bytes file s known) refl
