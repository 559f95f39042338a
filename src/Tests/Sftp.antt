-- ===== src/Tests/Sftp.antt =====
-- The SFTP backend over a server that has run out of space: files can be made and removed, and not
-- written.
use rabbit_storage_explorer.Base.{
  ◌≡◌, refl, true, false, none, [], ◌∷◌, Bytes, Text, text, text_eq, ok, err, backend_error,
}
use rabbit_storage_explorer.Base.Dict
use rabbit_storage_explorer.Base.Dict.{Dict}
use rabbit_storage_explorer.Paths.{trim_slashes}
use rabbit_storage_explorer.Storage.{MultipartUpload}
use rabbit_storage_explorer.Storage.Sftp.Client.{SftpClient, gone, missing}
use rabbit_storage_explorer.Storage.Sftp.{Sftp, full, write_chunks}
use rabbit_storage_explorer.Storage.Sftp.Uploads.{upload_part, abort_multipart}

abbrev full_disk : SftpClient
full_disk = record {
  State = Dict Bytes;
  Handle = Text;
  canonicalize = λ path s. (ok path, s);
  read_dir = λ path s. (ok [], s);
  metadata = λ path s. (ok (record { is_dir = false; size = none; mtime = none }), s);
  open_read = λ path s. (ok none, s);
  open_truncated = λ path s. (ok path, Dict.insert s path []);
  size_of = λ file s. (ok none, s);
  stream = λ file offset s. (ok (record { ready = []; broken = false }), s);
  read_to_end = λ file s. (ok [], s);
  write_all = λ file content s. (err backend_error, s);
  flush = λ file s. (ok tt, s);
  shutdown = λ file s. (ok tt, s);
  create_dir = λ path s. (ok tt, s);
  remove_file = λ path s. (ok gone, Dict.remove s path);
  remove_dir = λ path s. (ok missing, s);
  set_mode = λ path mode s. (ok tt, s);
}

abbrev uploading : Sftp full_disk
uploading = record {
  sftp = (text "/home/f", text "") ∷ [];
  root = text "/home";
  vault_path = text "/home/.rse-vault";
  uploads = (text "sftp-0", text "/home/f") ∷ [];
  upload_seq = 1;
  known_dirs = [];
  reported = 0;
}

abbrev begun : MultipartUpload
begun = record { upload_id = text "sftp-0"; key = text "f" }

-- The empty file is gone after the part that failed.
abort_runs :
    (abort_multipart full_disk begun
      (upload_part full_disk begun 1 (text "hello") true uploading).1).1.sftp
    ≡ []
unfolding abort_multipart upload_part write_chunks full trim_slashes Dict.get Dict.insert
    Dict.remove text_eq
abort_runs = refl
