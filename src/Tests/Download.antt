-- ===== src/Tests/Download.antt =====
-- A download that goes on from a part file, from a storage that has one object.
use rabbit_storage_explorer.Base.{
  ℕ, ◌≡◌, refl, ap, ◌∙◌, true, false, Bool, none, some, [], ◌∷◌, inr, append-nil, arith, length,
  take, drop, Bytes, Text, text, text_eq, ok, err, Error, backend_error, ◌⊎◌, ◌==◌, ◌&&◌,
}
use rabbit_storage_explorer.Base.Dict
use rabbit_storage_explorer.Storage.{StorageBackend}
use rabbit_storage_explorer.Transfer.Progress
use rabbit_storage_explorer.Transfer.Download.{OutPath, Local, download_one, part_path}
use rabbit_storage_explorer.Transfer.Download.Receive.{IsObject}
use rabbit_storage_explorer.Transfer.Download.Resume.{Downloaded, download_one-Downloaded}
use rabbit_storage_explorer.Transfer.Task.{download_task, download_task-intact}
use rabbit_storage_explorer.Tests.Toy.{toy, toy-IsLawful, keys, file_prefix}
use rabbit_storage_explorer.Tests.Batch.{rounded}
use rabbit_storage_explorer.Tests.Transfer.{hello, hello_blob, encrypt_hello}

-- Every key has the object that the state is.
abbrev shelf : StorageBackend
shelf = record {
  State = Bytes;
  list = λ prefix s. (ok [], s);
  list_recursive = λ prefix s. (ok [], s);
  get = λ key s. (ok (some s), s);
  put = λ key blob s. (err backend_error, s);
  prepare_parents = λ dir s. (ok tt, s);
  delete = λ ks s. (err backend_error, s);
  rename = λ from target s. (err backend_error, s);
  health_check = λ s. (ok tt, s);
  put_throttled = λ key blob s. (err backend_error, s);
  get_vault = λ s. (err backend_error, s);
  put_vault = λ blob s. (err backend_error, s);
  get_stream = λ key s. (ok (length s, record { ready = s; broken = false }), s);
  get_range = λ key off s. (ok (length s, record { ready = drop off s; broken = false }), s);
  read_header = λ key n s. (ok (take n s), s);
  create_multipart = λ key s. (err backend_error, s);
  upload_part = λ mp n blob s. (err backend_error, s);
  complete_multipart = λ mp etags s. (err backend_error, s);
  abort_multipart = λ mp s. (err backend_error, s);
}

shelf-IsObject : (key : Text) (blob : Bytes) → IsObject shelf key blob
shelf-IsObject key blob = record {
  Good = λ up s. s ≡ blob;
  stream = λ up s same. (same, ([], append-nil s ∙ same, λ b. refl, λ on. refl));
  range = λ up off s same le.
      (same, ([], append-nil (drop off s) ∙ ap (drop off) same, λ b. refl, λ on. refl));
  head = λ up n s same. (same, ap (take n) same);
}

abbrev target : OutPath
target = record { dir = text "home"; file_name = some (text "hello.txt") }

abbrev before : Local Bytes rounded
before = record {
  remote = hello_blob;
  disk = (text "home/hello.txt.rse-part", text "hel") ∷ [];
  progress = Progress.new rounded 0;
}

download_one-Downloaded_example :
    Downloaded toy toy-IsLawful
      (shelf-IsObject (text "k") hello_blob)
      (λ k. false)
      (λ k. 0)
      (text "home/hello.txt.rse-part")
      (text "home/hello.txt")
      hello
      7
      true
      before
      (download_one toy shelf
        (λ k. false)
        (λ k. 0)
        (some keys)
        (text "k")
        7
        (text "hello.txt")
        5
        target
        before)
unfolding part_path text_eq Dict.get shelf-IsObject
download_one-Downloaded_example =
    download_one-Downloaded toy toy-IsLawful (shelf-IsObject (text "k") hello_blob) (λ k. false)
      (λ k. 0) (some keys) file_prefix hello 7 (text "hello.txt") target true before refl
      (omega arith) encrypt_hello refl refl (inr (text "hel", text "lo", refl, refl))

-- The first attempt is cancelled on the way, and the second one goes through.
abbrev asked : ℕ → ℕ → Bool
asked attempt check = attempt == 0 && check == 1

download_task-intact_example :
    let (r, l') =
      download_task toy shelf
        (λ l. l)
        (λ l. l)
        (λ k. false)
        asked
        (λ n k. 0)
        (some keys)
        (text "k")
        7
        (text "hello.txt")
        5
        target
        3
        before in
    ((r ≡ ok tt) × (Dict.get l'.disk (text "home/hello.txt") ≡ some hello))
    ⊎ ((e : Error) × (r ≡ err e)
        × (Dict.get l'.disk (text "home/hello.txt") ≡ Dict.get before.disk (text "home/hello.txt"))
        × (Dict.get l'.disk (text "home/hello.txt.rse-part") ≡ none))
unfolding part_path text_eq Dict.get shelf-IsObject
download_task-intact_example =
    download_task-intact toy toy-IsLawful (shelf-IsObject (text "k") hello_blob) (λ l. l) (λ l. l)
      (λ k. false) asked (λ n k. 0) (some keys) file_prefix hello 7 (text "hello.txt") target 3
      before refl (omega arith) encrypt_hello refl (λ l good. (good, refl)) (λ l good. (good, refl))
      refl (inr (text "hel", text "lo", refl, refl))
