-- ===== src/Storage/Nfs/Uploads.antt =====
-- Multipart uploads over NFS: an open file that parts are appended to (src/storage/nfs.rs).
pub mod Aborting
pub mod Appending
use rabbit_storage_explorer.Base.{
  ℕ, zero, suc, ◌+◌, ◌/◌, ◌%◌, Bool, true, false, Option, none, some, List, [], ◌∷◌, ◌++◌, ltb,
  if◌then◌else◌, u64_mod, Bytes, Text, text, digits, unknown_upload_id,
}
use rabbit_storage_explorer.Base.Dict
use rabbit_storage_explorer.Base.Exec.{Exec, ◌>>=◌, pure, fail, ignoring}
use rabbit_storage_explorer.Storage.{MultipartUpload}
use rabbit_storage_explorer.Storage.Nfs.Server.{NfsServer, Handle}
use rabbit_storage_explorer.Storage.Nfs.{NfsBackend, InFlight, resolve_parent}
use rabbit_storage_explorer.Storage.Nfs.Files.{create_truncated, write_at, commit}
use rabbit_storage_explorer.Storage.Nfs.Folders.{remove_entry}

abbrev pub upload_id_of : ℕ → Text
upload_id_of n = text "nfs-" ++ digits (suc n) n

abbrev pub start_upload :
    {S : Type 0} → Text → Handle → NfsBackend S → MultipartUpload × NfsBackend S
start_upload key fh s =
    let id = upload_id_of s.upload_seq in
    (
      record { upload_id = id; key = key },
      record s {
        upload_seq = (s.upload_seq + 1) % u64_mod;
        uploads = Dict.insert s.uploads id (record { fh = fh; offset = 0; key = key });
      },
    )

abbrev pub taken : {S : Type 0} → Text → NfsBackend S → NfsBackend S
taken id s = record s { uploads = Dict.remove s.uploads id }

abbrev pub put_back : {S : Type 0} → Text → InFlight → ℕ → NfsBackend S → NfsBackend S
put_back id u offset s = record s {
  uploads = Dict.insert s.uploads id (record u { offset = offset });
}

module _ (N : NfsServer) where
  unfoldable pub create_multipart : Text → Exec (NfsBackend N.State) MultipartUpload
  create_multipart key =
      create_truncated N key >>= λ fh. λ s. let (mp, s') = start_upload key fh s in pure mp s'

  -- A part that fails leaves its upload out of the table.
  abbrev pub append_part :
      MultipartUpload → Bytes → Bool → InFlight → Exec (NfsBackend N.State) Text
  append_part mp content on_bytes u = write_at N on_bytes u.fh u.offset content >>= λ offset.
      λ s. pure [] (put_back mp.upload_id u offset s)

  unfoldable pub upload_part : MultipartUpload → ℕ → Bytes → Bool → Exec (NfsBackend N.State) Text
  upload_part mp part_number content on_bytes s = elim (Dict.get s.uploads mp.upload_id) [
    | none ↦ fail unknown_upload_id s
    | some u ↦ append_part mp content on_bytes u (taken mp.upload_id s)
  ]

  unfoldable pub complete_multipart :
      MultipartUpload → List (ℕ × Text) → Exec (NfsBackend N.State) (Unit {0})
  complete_multipart mp etags s = elim (Dict.get s.uploads mp.upload_id) [
    | none ↦ pure tt s
    | some u ↦ commit N u.fh (taken mp.upload_id s)
  ]

  unfoldable pub abort_multipart : MultipartUpload → Exec (NfsBackend N.State) (Unit {0})
  abort_multipart mp s = elim (Dict.get s.uploads mp.upload_id) [
    | none ↦ pure tt s
    | some u ↦
        (resolve_parent N mp.key >>= λ at. ignoring (remove_entry N at.0 at.1 false) (pure tt))
          (taken mp.upload_id s)
  ]
