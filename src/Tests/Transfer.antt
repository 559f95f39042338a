-- ===== src/Tests/Transfer.antt =====
-- A multipart upload to a backend that keeps the parts of one upload at a time.
use rabbit_storage_explorer.Base.{
  ◌≡◌, refl, ap, ◌∙◌, true, false, some, [], ◌∷◌, ◌++◌, List, text, Bytes, ok, err, backend_error,
  arith,
}
use rabbit_storage_explorer.Base.Dict
use rabbit_storage_explorer.Base.Dict.{Dict, get, get-insert_same}
use rabbit_storage_explorer.Storage.{StorageBackend}
use rabbit_storage_explorer.Crypto.Layout.{magic}
use rabbit_storage_explorer.Crypto.Stream.{
  encrypt_bytes, seal_data, seal_all, seal_chunk, chunks, chunks_from, header, new_encryptor,
  chunk_nonce,
}
use rabbit_storage_explorer.Crypto.Stream.Chunks.{concat}
use rabbit_storage_explorer.Transfer.Multipart.{upload_multipart}
use rabbit_storage_explorer.Transfer.Multipart.Parts.{IsMultipart}
use rabbit_storage_explorer.Transfer.Multipart.Equivalence.{upload_multipart-Stored}
use rabbit_storage_explorer.Tests.Toy.{toy, keys, file_prefix, nonce_tag}

record Bucket : Type 0 where
  objects : Dict Bytes
  pending : List Bytes

abbrev bucket : StorageBackend
bucket = record {
  State = Bucket;
  list = λ prefix s. (ok [], s);
  list_recursive = λ prefix s. (ok [], s);
  get = λ key s. (ok (Dict.get s.objects key), s);
  put = λ key blob s. (err backend_error, s);
  prepare_parents = λ dir s. (ok tt, s);
  delete = λ ks s. (err backend_error, s);
  rename = λ from target s. (err backend_error, s);
  health_check = λ s. (ok tt, s);
  put_throttled = λ key blob s. (err backend_error, s);
  get_vault = λ s. (err backend_error, s);
  put_vault = λ blob s. (err backend_error, s);
  get_stream = λ key s. (err backend_error, s);
  get_range = λ key offset s. (err backend_error, s);
  read_header = λ key n s. (err backend_error, s);
  create_multipart =
      λ key s. (ok (record { upload_id = text "1"; key = key }), record s { pending = [] });
  upload_part = λ mp n blob s. (ok (text "tag"), record s { pending = s.pending ++ (blob ∷ []) });
  complete_multipart = λ mp etags s.
      (ok tt, record { objects = Dict.insert s.objects mp.key (concat s.pending); pending = [] });
  abort_multipart = λ mp s. (ok tt, record s { pending = [] });
}

bucket-IsMultipart : IsMultipart bucket
bucket-IsMultipart = record {
  Ready = λ s key. Unit;
  Holds = λ s mp ps. s.pending ≡ ps;
  Stored = λ s key blob. Dict.get s.objects key ≡ some blob;
  create = λ key s ready.
      (record { upload_id = text "1"; key = key }, record s { pending = [] }, refl, refl, refl);
  upload = λ mp n part ps s held h. (
    text "tag",
    record s { pending = s.pending ++ (part ∷ []) },
    refl,
    ap (λ qs. qs ++ (part ∷ [])) held,
  );
  complete = λ mp etags s ps p held large tags. (
    record { objects = Dict.insert s.objects mp.key (concat s.pending); pending = [] },
    refl,
    get-insert_same s.objects mp.key (concat s.pending) ∙ ap (λ qs. some (concat qs)) held,
  );
}

abbrev pub hello : Bytes
hello = text "hello"

abbrev pub hello_blob : Bytes
hello_blob = magic ++ file_prefix ++ (hello ++ nonce_tag (chunk_nonce file_prefix 0 true))

pub encrypt_hello : encrypt_bytes toy keys file_prefix hello ≡ ok hello_blob
unfolding encrypt_bytes seal_data seal_all seal_chunk chunks header new_encryptor chunks_from
    chunk_nonce
encrypt_hello = refl

upload_multipart-Stored_example :
    (s' : Bucket) × (upload_multipart toy bucket
        (λ k. false)
        (some keys)
        file_prefix
        5
        (some (5, hello))
        (text "a/b")
        (record { objects = []; pending = [] })
      ≡ (ok tt, s'))
    × (Dict.get s'.objects (text "a/b") ≡ some hello_blob)
unfolding Dict.get bucket-IsMultipart
upload_multipart-Stored_example =
    upload_multipart-Stored toy bucket-IsMultipart (λ k. false) (λ k. refl) (some keys) file_prefix
      hello hello_blob 5 (text "a/b") (record { objects = []; pending = [] }) tt (omega arith)
      (omega arith) encrypt_hello
