-- ===== src/Tests/NfsRuns.antt =====
-- The theorems on the NFS backend at a server with one folder and one file.
use rabbit_storage_explorer.Base.{
  ℕ, zero, suc, take, drop, refused_by_server, ◌≡◌, refl, true, false, some, [], ◌∷◌, ◌++◌, arith,
  length, text, ok, text_eq, text_eq_refl, err, Bytes, remote_directory_not_found,
}
use rabbit_storage_explorer.Base.Dict
use rabbit_storage_explorer.Paths.{rfind_slash, trim_slashes, split_slash}
use rabbit_storage_explorer.Crypto.Stream.{chunk_nonce}
use rabbit_storage_explorer.Storage.Nfs.{
  NfsBackend, lookup, walk_dir, file_handle, resolve_parent, rsplit_once, trim_both, resolve_dir,
}
use rabbit_storage_explorer.Storage.Nfs.Server.{done}
use rabbit_storage_explorer.Storage.Nfs.Resolve.{
  IsCached, Kept, resolve_each, resolve_each-answer_at, dir_at, walk_at, tree_of,
}
use rabbit_storage_explorer.Storage.Nfs.Files.{
  put, get, write_at, create_truncated, write_part, write_chunks, commit, read_all, get_range,
}
use rabbit_storage_explorer.Storage.Nfs.Files.Writing.{Wrote, write_at-Wrote}
use rabbit_storage_explorer.Storage.Nfs.Files.View.{Stored, put-Stored}
use rabbit_storage_explorer.Storage.Nfs.Files.Streams.{HasObject}
use rabbit_storage_explorer.Storage.Nfs.Files.Bare.{get_range_bare}
use rabbit_storage_explorer.Storage.Nfs.Folders.{list_dir, objects_of, last_cookie}
use rabbit_storage_explorer.Storage.Nfs.Folders.Listing.{IsDirectory, list_dir_lem}
use rabbit_storage_explorer.Storage.{MultipartUpload}
use rabbit_storage_explorer.Storage.Nfs.Uploads.{upload_part, abort_multipart, taken}
use rabbit_storage_explorer.Storage.Nfs.Uploads.Aborting.{abort_multipart-upload_part}
use rabbit_storage_explorer.Storage.Nfs.Uploads.Appending.{HasFolder}
use rabbit_storage_explorer.Storage.Nfs.Backend.{nfs}
use rabbit_storage_explorer.Storage.Nfs.Transfers.{nfs-roundtrip}
use rabbit_storage_explorer.Transfer.Progress
use rabbit_storage_explorer.Transfer.Multipart.{upload_multipart}
use rabbit_storage_explorer.Transfer.Download.{OutPath, Local, download_one, part_path}
use rabbit_storage_explorer.Tests.Toy.{toy, toy-IsLawful, keys, file_prefix}
use rabbit_storage_explorer.Tests.Batch.{rounded}
use rabbit_storage_explorer.Tests.Transfer.{hello, hello_blob, encrypt_hello}
use rabbit_storage_explorer.Tests.Nfs.{
  Disk, small_server, small_server-IsServer, bare_server, bare_server-IsServer, bare_server_bare,
  full_server, all_entries, expected,
}

abbrev disk : Disk
disk = record {
  names = (text "R", text "docs", text "D") ∷ (text "D", text "a.txt", text "F") ∷ [];
  files = (text "F", text "old") ∷ [];
}

abbrev mounted : NfsBackend Disk
mounted = record {
  conn = disk;
  root = text "R";
  dir_cache = [];
  uploads = [];
  upload_seq = 0;
  reported = 0;
}

mounted-IsCached : IsCached small_server-IsServer mounted
unfolding Dict.get
mounted-IsCached path fh h = cc

-- The new file is longer than the old one, and is written three bytes at a time.
put_runs :
    (get small_server 9
      (text "docs/a.txt")
      (put small_server (text "docs/a.txt") hello mounted).1).0
    ≡ ok (some hello)
unfolding put get resolve_dir rsplit_once trim_both rfind_slash trim_slashes split_slash text_eq
    Dict.get file_handle resolve_parent create_truncated walk_dir lookup write_at write_chunks
    write_part commit Dict.insert read_all
put_runs = refl

write_at-Wrote_example :
    Wrote small_server-IsServer true
      (text "F")
      mounted
      3
      hello
      (write_at small_server true (text "F") 3 hello mounted)
unfolding text_eq Dict.get small_server-IsServer
write_at-Wrote_example = write_at-Wrote small_server-IsServer true (text "F") 3 hello mounted refl

-- The second answer comes from the cache that the first search filled.
resolve_each-answer_at_example :
    resolve_each small_server (text "/docs/" ∷ text "docs" ∷ text "music" ∷ []) mounted
    ≡ ok (text "D") ∷ ok (text "D") ∷ err remote_directory_not_found ∷ []
unfolding dir_at trim_both trim_slashes walk_at split_slash text_eq Dict.get small_server-IsServer
resolve_each-answer_at_example =
    resolve_each-answer_at small_server-IsServer (text "/docs/" ∷ text "docs" ∷ text "music" ∷ [])
      mounted refl

put-Stored_example :
    (s' : NfsBackend Disk) × (put small_server (text "docs/b.txt") hello mounted ≡ (ok tt, s'))
    × Stored small_server-IsServer (text "docs/b.txt") hello mounted s'
unfolding dir_at trim_both trim_slashes walk_at split_slash rsplit_once rfind_slash text_eq Dict.get
    small_server-IsServer
put-Stored_example =
    put-Stored small_server-IsServer (text "docs/b.txt") hello (text "D") (text "b.txt") mounted
      mounted-IsCached refl

folder : HasFolder small_server-IsServer (text "docs/b.txt") mounted
unfolding dir_at trim_both trim_slashes walk_at split_slash rsplit_once rfind_slash text_eq Dict.get
    small_server-IsServer
folder = record { cached = mounted-IsCached; dir = text "D"; name = text "b.txt"; placed = refl }

abbrev target : OutPath
target = record { dir = text "home"; file_name = some (text "b.txt") }

abbrev local : Local (NfsBackend Disk) rounded
local = record { remote = mounted; disk = []; progress = Progress.new rounded 0 }

nfs-roundtrip_example :
    (s' : NfsBackend Disk) × (upload_multipart toy
        (nfs small_server 99)
        (λ k. false)
        (some keys)
        file_prefix
        5
        (some (5, hello))
        (text "docs/b.txt")
        mounted
      ≡ (ok tt, s'))
    × (let (r, l') =
          download_one toy
            (nfs small_server 99)
            (λ k. false)
            (λ k. 0)
            (some keys)
            (text "docs/b.txt")
            7
            (text "b.txt")
            5
            target
            (record local { remote = s' }) in
        (r ≡ ok tt) × (Dict.get l'.disk (text "home/b.txt") ≡ some hello))
unfolding part_path text_eq Dict.get small_server-IsServer chunk_nonce
nfs-roundtrip_example =
    nfs-roundtrip toy toy-IsLawful small_server-IsServer 99 refl (λ k. 0) (some keys) file_prefix
      hello hello_blob 5 (text "docs/b.txt") 7 (text "b.txt") target mounted local folder refl
      (omega arith) (omega arith) (omega arith) encrypt_hello (omega arith) refl refl

bare_object : HasObject bare_server-IsServer (text "docs/a.txt") (text "old") (text "F") mounted
unfolding dir_at trim_both trim_slashes walk_at split_slash rsplit_once rfind_slash text_eq Dict.get
    bare_server-IsServer
bare_object = record {
  cached = λ path fh h. cc;
  dir = text "D";
  name = text "a.txt";
  placed = refl;
  found = refl;
  content = refl;
}

get_range_bare_example :
    (s' : NfsBackend Disk) × (get_range bare_server 9 (text "docs/a.txt") 2 mounted
      ≡ (ok (0, record { ready = text "old"; broken = false }), s'))
get_range_bare_example =
    get_range_bare bare_server bare_server_bare bare_server-IsServer (text "docs/a.txt")
      (text "old") 9 2 (text "F") mounted (omega arith) bare_object

abbrev begun : MultipartUpload
begun = record { upload_id = text "nfs-0"; key = text "docs/a.txt" }

abbrev uploading : NfsBackend Disk
uploading = record mounted {
  uploads = (text "nfs-0", record { fh = text "F"; offset = 3; key = text "docs/a.txt" }) ∷ [];
  upload_seq = 1;
}

abort_multipart-upload_part_example :
    abort_multipart full_server begun (taken (text "nfs-0") uploading)
    ≡ (ok tt, taken (text "nfs-0") uploading)
unfolding upload_part write_at write_chunks write_part Dict.get Dict.remove text_eq
abort_multipart-upload_part_example =
    abort_multipart-upload_part full_server begun 2 hello true refused_by_server uploading
      (taken (text "nfs-0") uploading) refl

paged :
    IsDirectory small_server-IsServer (tree_of small_server-IsServer mounted) (text "D") all_entries
paged = record {
  behind = λ cookie. drop cookie all_entries;
  start = refl;
  GoesOn = λ s cookie verf. verf ≡ expected cookie;
  begins = λ s same. refl;
  page = λ cookie verf s same on. (
    record { cookieverf = 7 ∷ []; entries = take 1 (drop cookie all_entries); eof = false },
    s,
    served s cookie verf on,
    same,
    given cookie,
    one_by_one cookie,
    λ end. absurd cc,
    none_left cookie,
  );
}
  where
    served :
        (s : Disk) (cookie : ℕ) (verf : Bytes)
        → verf ≡ expected cookie
        → small_server.readdirplus (text "D") cookie verf s ≡ (
          ok (
              done (record {
                cookieverf = 7 ∷ [];
                entries = take 1 (drop cookie all_entries);
                eof = false;
              })),
          s,
        )
    served s cookie verf on = rw (on, text_eq_refl (expected cookie)) refl

    given :
        (cookie : ℕ)
        → ◌≡◌ {A = Bytes}
            (7 ∷ [])
            (expected (last_cookie cookie (take 1 (drop cookie all_entries))))
    given zero = refl
    given (suc zero) = refl
    given (suc (suc zero)) = refl
    given (suc (suc (suc zero))) = refl
    given (suc (suc (suc (suc n)))) = refl

    one_by_one :
        (cookie : ℕ)
        → drop cookie all_entries
          ≡ take 1 (drop cookie all_entries)
            ++ drop (last_cookie cookie (take 1 (drop cookie all_entries))) all_entries
    one_by_one zero = refl
    one_by_one (suc zero) = refl
    one_by_one (suc (suc zero)) = refl
    one_by_one (suc (suc (suc zero))) = refl
    one_by_one (suc (suc (suc (suc n)))) = refl

    none_left :
        (cookie : ℕ) → length (take 1 (drop cookie all_entries)) ≡ 0 → drop cookie all_entries ≡ []
    none_left zero h = absurd (omega (arith, h))
    none_left (suc zero) h = absurd (omega (arith, h))
    none_left (suc (suc zero)) h = absurd (omega (arith, h))
    none_left (suc (suc (suc zero))) h = refl
    none_left (suc (suc (suc (suc n)))) h = refl

list_dir_lem_example :
    (s' : NfsBackend Disk) × (list_dir small_server 4 (text "docs/") mounted
      ≡ (ok (objects_of small_server (text "docs/") all_entries), s'))
    × Kept small_server-IsServer mounted s'
unfolding dir_at trim_both trim_slashes walk_at split_slash text_eq Dict.get small_server-IsServer
list_dir_lem_example =
    list_dir_lem small_server-IsServer (tree_of small_server-IsServer mounted) (text "D")
      all_entries paged (text "docs/") 4 mounted mounted-IsCached refl refl (omega arith)
