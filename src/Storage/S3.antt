-- ===== src/Storage/S3.antt =====
-- The S3 backend: src/storage/s3.rs, over the calls of the S3 client as a parameter. Waits for the
-- rate limiter change no state.
pub mod Client
pub mod Paced
pub mod CopySource
pub mod Objects
use rabbit_storage_explorer.Base.{
  ℕ, zero, suc, ◌+◌, ◌-◌, Bool, true, false, Option, none, some, List, [], ◌∷◌, ◌++◌, length, take,
  drop, ◌==◌, if◌then◌else◌, ℤ, pos, negsuc, Bytes, Text, text, text_eq, digits, Result, ok, err,
  Error, not_found, no_upload_id, read_failed, out_of_fuel,
}
use rabbit_storage_explorer.Base.Exec.{Exec, ◌>>=◌, pure, fail}
use rabbit_storage_explorer.Worker.{ends_with_slash}
use rabbit_storage_explorer.Worker.Folders.{stripped}
use rabbit_storage_explorer.Storage.{StorageBackend, RawObject, MultipartUpload, Reader}
use rabbit_storage_explorer.Storage.Defaults.{
  default_get_vault, default_put_vault, default_prepare_parents,
}
use rabbit_storage_explorer.Storage.S3.Client.{S3Client, Page, ListedObject, Body}
use rabbit_storage_explorer.Storage.S3.Paced.{Reported, attempts}
use rabbit_storage_explorer.Storage.S3.CopySource.{encode_copy_source}

-- `reported` is what the progress sinks were told.
pub record S3Backend (S : Type 0) : Type 0 where
  pub client : S
  pub bucket : Text
  pub reported : ℕ

-- `unwrap_or(0).max(0) as u64`
abbrev pub not_negative : Option ℤ → ℕ
not_negative none = 0
not_negative (some (pos n)) = n
not_negative (some (negsuc n)) = 0

-- Prefixes without a name are left out.
unfoldable pub prefixes_of : List (Option Text) → List RawObject
prefixes_of [] = []
prefixes_of (none ∷ ps) = prefixes_of ps
prefixes_of (some p ∷ ps) =
    record { key = p; size = 0; modified = none; is_prefix = true } ∷ prefixes_of ps

abbrev pub object_in : Text → Option Text → ListedObject → List RawObject → List RawObject
object_in prefix none o rest = rest
object_in prefix (some key) o rest =
    if text_eq key prefix
    then rest
    else record {
      key = key;
      size = not_negative o.size;
      modified = o.last_modified;
      is_prefix = false;
    }
      ∷ rest

-- The marker of the folder itself is left out.
unfoldable pub objects_in : Text → List ListedObject → List RawObject
objects_in prefix [] = []
objects_in prefix (o ∷ os) = let rest = objects_in prefix os in object_in prefix o.key o rest

-- The token of the page behind, if the listing goes on.
abbrev pub next_token : Page → Option Text
next_token p = if p.is_truncated then p.next_continuation_token else none

-- `body.collect()`
abbrev pub collected : Reader → Result Bytes
collected r = if r.broken then err read_failed else ok r.ready

-- `keys.chunks(size)`
unfoldable pub batches : ℕ → ℕ → List Text → List (List Text)
batches size zero keys = []
batches size (suc fuel) [] = []
batches size (suc fuel) (k ∷ ks) = take size (k ∷ ks) ∷ batches size fuel (drop size (k ∷ ks))

module _ {S : Type 0} where
  abbrev pub on_client : {X : Type 0} → Exec S X → Exec (S3Backend S) X
  on_client call s = let (r, c) = call s.client in (r, record s { client = c })

  abbrev pub lifted : {X : Type 0} → Result X → Exec (S3Backend S) X
  lifted r s = (r, s)

module _ (C : S3Client) where
  -- The loop of `list_inner`.
  unfoldable pub list_from :
      Text → Bool → ℕ → Option Text → List RawObject → Exec (S3Backend C.State) (List RawObject)
  list_from prefix delimited zero token out = fail out_of_fuel
  list_from prefix delimited (suc fuel) token out =
      on_client (C.list_objects prefix delimited token) >>= λ page.
      let out' = out ++ (prefixes_of page.common_prefixes ++ objects_in prefix page.contents) in
      elim (next_token page) [
        | none ↦ pure out'
        | some t ↦ list_from prefix delimited fuel (some t) out'
      ]

  unfoldable pub list_inner : ℕ → Text → Bool → Exec (S3Backend C.State) (List RawObject)
  list_inner fuel prefix delimited = list_from prefix delimited fuel none []

  unfoldable pub copy_one : Text → Text → Exec (S3Backend C.State) (Unit {0})
  copy_one from to s = on_client (C.copy_object (encode_copy_source s.bucket from) to) s

  unfoldable pub health_check : Exec (S3Backend C.State) (Unit {0})
  health_check = on_client C.head_bucket

  unfoldable pub list : ℕ → Text → Exec (S3Backend C.State) (List RawObject)
  list fuel prefix = list_inner fuel prefix true

  unfoldable pub list_recursive : ℕ → Text → Exec (S3Backend C.State) (List RawObject)
  list_recursive fuel prefix = list_inner fuel prefix false

  abbrev pub collect_found : Option Body → Exec (S3Backend C.State) (Option Bytes)
  collect_found none = pure none
  collect_found (some b) = lifted (collected b.stream) >>= λ content. pure (some content)

  unfoldable pub get : Text → Exec (S3Backend C.State) (Option Bytes)
  get key = on_client (C.get_object key none) >>= collect_found

  abbrev pub body_found : Option Body → Exec (S3Backend C.State) Body
  body_found none = fail not_found
  body_found (some b) = pure b

  unfoldable pub get_stream : Text → Exec (S3Backend C.State) (ℕ × Reader)
  get_stream key = do
    found ← on_client (C.get_object key none)
    b ← body_found found
    pure (not_negative b.content_length, b.stream)

  unfoldable pub put : Text → Bytes → Exec (S3Backend C.State) (Unit {0})
  put key content = on_client (C.put_object key content)

  -- The same request, with a paced body where there is a limit.
  unfoldable pub put_throttled : Text → Bytes → Exec (S3Backend C.State) (Unit {0})
  put_throttled key content = on_client (C.put_object key content)

  abbrev pub upload_named : Text → Option Text → Exec (S3Backend C.State) MultipartUpload
  upload_named key none = fail no_upload_id
  upload_named key (some id) = pure (record { upload_id = id; key = key })

  unfoldable pub create_multipart : Text → Exec (S3Backend C.State) MultipartUpload
  create_multipart key = on_client (C.create_multipart_upload key) >>= upload_named key

  abbrev pub tag_or_empty : Option Text → Text
  tag_or_empty none = []
  tag_or_empty (some tag) = tag

  -- A paced body reports for itself; otherwise the whole part is reported once it has landed.
  abbrev pub part_sent :
      Bool → ℕ → Result (Option Text) × List ℕ → S3Backend C.State → Result Text × S3Backend C.State
  part_sent true len (r, sends) s =
      let s' = record s { reported = s.reported + (attempts 65536 len sends).told } in
      (lifted r >>= λ tag. pure (tag_or_empty tag)) s'
  part_sent false len (err e, sends) s = (err e, s)
  part_sent false len (ok tag, sends) s =
      (ok (tag_or_empty tag), record s { reported = s.reported + len })

  unfoldable pub upload_part : Bool → MultipartUpload → ℕ → Bytes → Exec (S3Backend C.State) Text
  upload_part throttled mp part_number content s =
      let (r, sends, c) = C.upload_part mp.key mp.upload_id part_number content s.client in
      part_sent throttled (length content) (r, sends) (record s { client = c })

  unfoldable pub complete_multipart :
      MultipartUpload → List (ℕ × Text) → Exec (S3Backend C.State) (Unit {0})
  complete_multipart mp etags = on_client (C.complete_multipart_upload mp.key mp.upload_id etags)

  unfoldable pub abort_multipart : MultipartUpload → Exec (S3Backend C.State) (Unit {0})
  abort_multipart mp = on_client (C.abort_multipart_upload mp.key mp.upload_id)

  -- What the reply says of single keys is not looked at.
  unfoldable pub delete_batches : List (List Text) → Exec (S3Backend C.State) (Unit {0})
  delete_batches [] = pure tt
  delete_batches (b ∷ bs) = on_client (C.delete_objects b) >>= λ failed_keys. delete_batches bs

  unfoldable pub delete : List Text → Exec (S3Backend C.State) (Unit {0})
  delete keys = delete_batches (batches 1000 (length keys) keys)

  -- Each object under the folder, copied to its new key.
  unfoldable pub copy_objects : Text → Text → List RawObject → Exec (S3Backend C.State) (Unit {0})
  copy_objects from to [] = pure tt
  copy_objects from to (o ∷ os) = do
    copied ← copy_one o.key (to ++ stripped from o.key)
    copy_objects from to os

  abbrev pub keys_of : List RawObject → List Text
  keys_of [] = []
  keys_of (o ∷ os) = o.key ∷ keys_of os

  -- The marker of the folder itself, if there is one.
  abbrev pub copy_marker : Text → Text → Option Bytes → Exec (S3Backend C.State) (Unit {0})
  copy_marker from to none = pure tt
  copy_marker from to (some content) = copy_one from to

  abbrev pub rename_tree : ℕ → Text → Text → Exec (S3Backend C.State) (Unit {0})
  rename_tree fuel from to = do
    objects ← list_recursive fuel from
    copied ← copy_objects from to objects
    marker ← get from
    kept ← copy_marker from to marker
    delete (keys_of objects ++ (from ∷ []))

  unfoldable pub rename : ℕ → Text → Text → Exec (S3Backend C.State) (Unit {0})
  rename fuel from to =
      if ends_with_slash from
      then rename_tree fuel from to
      else copy_one from to >>= λ copied. delete (from ∷ [])

  -- A partial reply gives the length that is left.
  unfoldable pub get_range : Text → ℕ → Exec (S3Backend C.State) (ℕ × Reader)
  get_range key zero = get_stream key
  get_range key (suc n) = do
    let offset = suc n
    found ←
        on_client
          (C.get_object key (some (text "bytes=" ++ (digits (suc offset) offset ++ text "-"))))
    b ← body_found found
    pure (offset + not_negative b.content_length, b.stream)

  unfoldable pub read_header : Text → ℕ → Exec (S3Backend C.State) Bytes
  read_header key len = do
    let last = len - 1
    found ← on_client (C.get_object key (some (text "bytes=0-" ++ digits (suc last) last)))
    b ← body_found found
    lifted (collected b.stream)

  abbrev pub s3 : ℕ → Bool → StorageBackend
  s3 fuel throttled = record {
    State = S3Backend C.State;
    list = list fuel;
    list_recursive = list_recursive fuel;
    get = get;
    put = put;
    prepare_parents = default_prepare_parents;
    delete = delete;
    rename = rename fuel;
    health_check = health_check;
    put_throttled = put_throttled;
    get_vault = default_get_vault get put;
    put_vault = default_put_vault get put;
    get_stream = get_stream;
    get_range = get_range;
    read_header = read_header;
    create_multipart = create_multipart;
    upload_part = upload_part throttled;
    complete_multipart = complete_multipart;
    abort_multipart = abort_multipart;
  }
