-- ===== src/Tests/Store.antt =====
-- The buffer of directory manifests over a backend that keeps its objects in a dictionary.
use rabbit_storage_explorer.Base.{
  ℕ, ◌+◌, ◌≡◌, refl, subst, false, Option, none, some, [], ◌∷◌, List, Text, text, text_eq, Bytes,
  ok, err, backend_error,
}
use rabbit_storage_explorer.Base.Dict
use rabbit_storage_explorer.Base.Dict.{Dict, get}
use rabbit_storage_explorer.Storage.{StorageBackend}
use rabbit_storage_explorer.Crypto.Stream.{
  encrypt_bytes, seal_all, chunks, seal_chunk, new_encryptor,
}
use rabbit_storage_explorer.Manifest.Defs.{Manifest, default}
use rabbit_storage_explorer.Manifest.Blob.{Codec, fingerprint, fnv, encrypt}
use rabbit_storage_explorer.ManifestStore.Plan.{forced, select}
use rabbit_storage_explorer.ManifestStore.State.{
  DirState, World, new, manifest_object_key, interval,
}
use rabbit_storage_explorer.ManifestStore.Ops.{
  load, edit, record_write, decoded, or_insert, fetch, collect, candidates, snapshot, change,
}
use rabbit_storage_explorer.ManifestStore.Buffer.{edit-load}
use rabbit_storage_explorer.ManifestStore.Written.{IsSynced}
use rabbit_storage_explorer.ManifestStore.Recorded.{record_write-record_write}
use rabbit_storage_explorer.ManifestStore.Session.{
  Run, begun, edited, collected, written, Run-IsSynced,
}
use rabbit_storage_explorer.Tests.Toy.{toy, keys, file_prefix}

-- No extra fields; a manifest is written as its version alone.
abbrev pub J : Type 0
J = ℕ

abbrev read_version : Bytes → Option (Manifest J)
read_version [] = none
read_version (version ∷ rest) = some (record default { version = version })

abbrev pub codec : Codec J
codec = record { to_vec = λ m. some (m.version ∷ []); from_slice = read_version }

abbrev pub backend : StorageBackend
backend = record {
  State = Dict Bytes;
  list = λ prefix s. (ok [], s);
  list_recursive = λ prefix s. (ok [], s);
  get = λ key s. (ok (Dict.get s key), s);
  put = λ key blob s. (ok tt, Dict.insert s key blob);
  prepare_parents = λ dir s. (ok tt, s);
  delete = λ ks s. (err backend_error, s);
  rename = λ from target s. (err backend_error, s);
  health_check = λ s. (ok tt, s);
  put_throttled = λ key blob s. (ok tt, Dict.insert s key blob);
  get_vault = λ s. (ok (Dict.get s (text ".rse-vault")), s);
  put_vault = λ blob s. (ok tt, Dict.insert s (text ".rse-vault") blob);
  get_stream = λ key s. (err backend_error, s);
  get_range = λ key offset s. (err backend_error, s);
  read_header = λ key n s. (err backend_error, s);
  create_multipart = λ key s. (err backend_error, s);
  upload_part = λ mp n blob s. (err backend_error, s);
  complete_multipart = λ mp etags s. (err backend_error, s);
  abort_multipart = λ mp s. (err backend_error, s);
}

abbrev pub draw : ℕ → Bytes
draw n = file_prefix

abbrev first_of : List (Text × Bytes × ℕ) → Bytes × ℕ
first_of [] = ([], 0)
first_of ((dir, blob, fp) ∷ rest) = (blob, fp)

abbrev start : World (Dict Bytes) J
start = record { remote = []; store = new 1000; now = 50; draws = 0 }

abbrev first_fp : ℕ
first_fp = fnv 0xcbf2_9ce4_8422_2325 (1 ∷ [])

abbrev pub empty_dir : DirState J
empty_dir = record {
  manifest = default;
  written_fingerprint = some first_fp;
  last_change = 50;
  dirty = false;
}

abbrev pub loaded : World (Dict Bytes) J
loaded = record start { store = record start.store { inner = (text "d/", empty_dir) ∷ [] } }

first_load : load toy codec backend draw keys (text "d/") start ≡ (ok default, loaded)
unfolding load fetch decoded or_insert new Dict.get Dict.insert fingerprint fnv manifest_object_key
first_load = refl

abbrev bump : Manifest J → Manifest J
bump m = record m { version = m.version + 1 }

edit-load_example :
    let (r, after) = edit toy codec backend draw keys (text "d/") bump start in
    (r ≡ ok tt)
    × (after.remote ≡ loaded.remote)
    × (load toy codec backend draw keys (text "d/") after ≡ (ok (bump default), after))
    × ((other : Text)
        → text_eq (text "d/") other ≡ false
        → Dict.get after.store.inner other ≡ Dict.get loaded.store.inner other)
edit-load_example =
    edit-load toy codec backend draw keys (text "d/") bump start loaded default first_load

abbrev bumped : World (Dict Bytes) J
bumped = (edit toy codec backend draw keys (text "d/") bump start).1

abbrev snapshot_of : List (Text × Bytes × ℕ) × World (Dict Bytes) J
snapshot_of = collect toy codec backend draw keys forced bumped

-- Another change, before the write of the first is made.
abbrev meanwhile : World (Dict Bytes) J
meanwhile = (edit toy codec backend draw keys (text "d/") bump snapshot_of.1).1

abbrev blob : Bytes
blob = (first_of snapshot_of.0).0

abbrev blob_fp : ℕ
blob_fp = (first_of snapshot_of.0).1

one_write : snapshot_of.0 ≡ (text "d/", blob, blob_fp) ∷ []
unfolding collect candidates snapshot select edit change load fetch decoded or_insert new Dict.get
    Dict.insert fingerprint fnv manifest_object_key encrypt text_eq interval encrypt_bytes seal_all
    chunks seal_chunk new_encryptor
one_write = refl

abbrev stored : Dict Bytes
stored = Dict.insert meanwhile.remote (manifest_object_key (text "d/")) blob

overlapping :
    Run toy codec backend draw keys
      (record_write toy codec backend draw
        (text "d/")
        blob_fp
        (record meanwhile { remote = stored }))
      []
overlapping = written stored refl (
    subst (Run toy codec backend draw keys meanwhile) one_write
      (edited (text "d/") bump (collected forced (edited (text "d/") bump (begun [] 1000 50)))))

Run-IsSynced_example :
    IsSynced toy codec backend draw
      (record_write toy codec backend draw
        (text "d/")
        blob_fp
        (record meanwhile { remote = stored })).store.inner
Run-IsSynced_example = Run-IsSynced toy codec backend draw keys overlapping

record_write-record_write_example :
    Dict.get
      (record_write toy codec backend draw
        (text "d/")
        3
        (record_write toy codec backend draw (text "d/") first_fp loaded)).store.inner
      (text "d/")
    ≡ some (record empty_dir { written_fingerprint = some 3; dirty = false })
unfolding Dict.get fingerprint text_eq
record_write-record_write_example =
    record_write-record_write toy codec backend draw (text "d/") first_fp 3 loaded empty_dir refl
      refl
