-- ===== src/Tests/S3.antt =====
-- The S3 backend over a service that keeps the objects of one bucket in a dictionary.
use rabbit_storage_explorer.Base.{
  ◌≡◌, refl, ◌∙◌, false, Option, none, some, List, [], ◌∷◌, arith, drop, text_eq, if◌then◌else◌,
  Bool-cases, inl, inr, Bytes, Text, text, Result, ok, err, not_found, no_upload_id,
}
use rabbit_storage_explorer.Base.Dict
use rabbit_storage_explorer.Base.Dict.{Dict, get-insert, get-remove}
use rabbit_storage_explorer.Worker.{ends_with_slash}
use rabbit_storage_explorer.Storage.S3.{S3Backend, delete, rename}
use rabbit_storage_explorer.Storage.S3.Client.{S3Client}
use rabbit_storage_explorer.Storage.S3.Paced.{attempts, attempts-told}
use rabbit_storage_explorer.Storage.S3.CopySource.{
  encode_copy_source, encode_key, is_kept, hex_digit, decode_key, decode_key-encode_key,
}
use rabbit_storage_explorer.Storage.S3.Objects.{IsBucket, among, delete-Deleted, rename-moved}

abbrev put_found : Option Bytes → Text → Dict Bytes → Result (Unit {0}) × Dict Bytes
put_found none to d = (err not_found, d)
put_found (some b) to d = (ok tt, Dict.insert d to b)

abbrev without : List Text → Dict Bytes → Dict Bytes
without [] d = d
without (k ∷ ks) d = Dict.remove (without ks d) k

-- The name of the bucket is one byte.
abbrev service : S3Client
service = record {
  State = Dict Bytes;
  head_bucket = λ s. (ok tt, s);
  list_objects = λ prefix delimited token s. (
    ok (record {
      common_prefixes = [];
      contents = [];
      is_truncated = false;
      next_continuation_token = none;
    }),
    s,
  );
  get_object = λ key range s. (ok none, s);
  put_object = λ key content s. (ok tt, Dict.insert s key content);
  copy_object = λ source to s. put_found (Dict.get s (decode_key (drop 2 source))) to s;
  delete_objects = λ keys s. (ok [], without keys s);
  create_multipart_upload = λ key s. (ok none, s);
  upload_part = λ key id n content s. (err no_upload_id, [], s);
  complete_multipart_upload = λ key id etags s. (err no_upload_id, s);
  abort_multipart_upload = λ key id s. (err no_upload_id, s);
}

get-without :
    (keys : List Text) (d : Dict Bytes) (k : Text)
    → Dict.get (without keys d) k ≡ (if among keys k then none else Dict.get d k)
get-without [] d k = refl
get-without (j ∷ js) d k = elim (Bool-cases (text_eq j k)) [
  | inl e ↦ rw e (get-remove (without js d) j k ∙ rw e refl)
  | inr n ↦ rw n (get-remove (without js d) j k ∙ rw n (get-without js d k))
]

unfoldable service-IsBucket : IsBucket service (text "b")
unfolding encode_copy_source
service-IsBucket = record {
  objects = Dict.get;
  copy = λ from to content s all other small there. (
    Dict.insert s to content,
    rw (decode_key-encode_key from all) (rw there refl),
    λ k. get-insert s to k content,
  );
  delete = λ keys s few. (without keys s, refl, λ k. get-without keys s k);
}

abbrev stocked : S3Backend (Dict Bytes)
stocked = record {
  client = (text "a b", text "hello") ∷ (text "c", text "old") ∷ [];
  bucket = text "b";
  reported = 0;
}

copy_source_runs : encode_copy_source (text "b") (text "a b/+") ≡ text "b/a%20b/%2B"
unfolding encode_copy_source encode_key is_kept hex_digit
copy_source_runs = refl

-- The second of three attempts goes through.
attempts-told_example : (attempts 65536 100000 (1 ∷ 2 ∷ 1 ∷ [])).told ≡ 100000
attempts-told_example = attempts-told 65536 100000 (1 ∷ []) 2 (1 ∷ []) (omega arith)

decode_key-encode_key_example : decode_key (encode_key (text "a b")) ≡ text "a b"
decode_key-encode_key_example =
    decode_key-encode_key (text "a b") (omega arith, (omega arith, (omega arith, tt)))

delete-Deleted_example :
    (s' : S3Backend (Dict Bytes)) × (delete service (text "c" ∷ text "none" ∷ []) stocked
      ≡ (ok tt, s'))
    × (s'.bucket ≡ stocked.bucket)
    × ((k : Text)
        → Dict.get s'.client k
          ≡ (if among (text "c" ∷ text "none" ∷ []) k then none else Dict.get stocked.client k))
unfolding service-IsBucket
delete-Deleted_example = delete-Deleted service-IsBucket (text "c" ∷ text "none" ∷ []) stocked

rename-moved_example :
    (s' : S3Backend (Dict Bytes)) × (rename service 1 (text "a b") (text "c") stocked ≡ (ok tt, s'))
    × ((k : Text)
        → Dict.get s'.client k ≡ (
            if text_eq (text "a b") k
            then none
            else (if text_eq (text "c") k then some (text "hello") else Dict.get stocked.client k)))
unfolding ends_with_slash service-IsBucket Dict.get text_eq
rename-moved_example =
    rename-moved service-IsBucket 1 (text "a b") (text "c") (text "hello") stocked refl
      (omega arith, (omega arith, (omega arith, tt))) refl (omega arith) refl refl
