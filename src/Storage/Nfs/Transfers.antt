-- ===== src/Storage/Nfs/Transfers.antt =====
-- Transfers of the worker over the NFS backend: a file that is uploaded to a server that is up
-- comes back as it was.
use mathlib.Core.Option.{some-injective}
use rabbit_storage_explorer.Base.{
  ℕ, ◌*◌, ◌-◌, ◌≤◌, ◌<◌, ◌≡◌, refl, inl, inr, true, false, Option, none, some, length, Option-cases,
  text_eq, u32_mod, Bytes, Text, ok,
}
use rabbit_storage_explorer.Base.Dict
use rabbit_storage_explorer.Crypto.Primitives.{Primitives, IsLawful}
use rabbit_storage_explorer.Crypto.Layout.{chunk, prefix_len}
use rabbit_storage_explorer.Crypto.Stream.{VaultKeys}
use rabbit_storage_explorer.Storage.Nfs.Server.{NfsServer, IsServer, Handle}
use rabbit_storage_explorer.Storage.Nfs.{NfsBackend}
use rabbit_storage_explorer.Storage.Nfs.Resolve.{IsCached, tree_of}
use rabbit_storage_explorer.Storage.Nfs.Changes.{place}
use rabbit_storage_explorer.Storage.Nfs.Backend.{nfs}
use rabbit_storage_explorer.Storage.Nfs.Files.View.{view}
use rabbit_storage_explorer.Storage.Nfs.Files.Streams.{HasObject, nfs-IsObject}
use rabbit_storage_explorer.Storage.Nfs.Uploads.Appending.{HasFolder, nfs-IsMultipart}
use rabbit_storage_explorer.Transfer.Progress.{Float}
use rabbit_storage_explorer.Transfer.Multipart.{upload_multipart}
use rabbit_storage_explorer.Transfer.Multipart.Parts.{object_of}
use rabbit_storage_explorer.Transfer.Multipart.Equivalence.{upload_multipart-Stored}
use rabbit_storage_explorer.Transfer.Download.{Local, OutPath, download_one, part_path, path_text}
use rabbit_storage_explorer.Transfer.Download.Resume.{download_one-Downloaded}

module _ {N : NfsServer} (L : IsServer N) (key : Text) (blob : Bytes) where
  -- A key with a content is an object.
  view-HasObject :
      (s : NfsBackend N.State)
      → IsCached L s
      → view L s key ≡ some blob
      → (fh : Handle) × HasObject L key blob fh s
  view-HasObject s c at = elim (Option-cases (place (tree_of L s) s.root key)) [
    | inl e ↦ absurd (let off = rw e at at in cc)
    | inr (p, e) ↦ elim (Option-cases ((tree_of L s).entry p.0 p.1)) [
      | inl f ↦ absurd (let off = rw (e, f) at at in cc)
      | inr (fh, f) ↦ (
        fh,
        record {
          cached = c;
          dir = p.0;
          name = p.1;
          placed = e;
          found = f;
          content = some-injective _ _ (rw (e, f) at at);
        },
      )
    ]
  ]

module _ (P : Primitives) (lawful : IsLawful P) {N : NfsServer} (L : IsServer N) (fuel : ℕ)
    (always : L.attributed ≡ true) where
  -- With lawful primitives, on a server that is up and gives attributes, for a key whose folder
  -- exists and a file that is not empty and of at most 2^32 - 1 chunks, with a part size below 2^44
  -- MiB and more rounds for the loops than the object has bytes, and nothing cancelled: the upload
  -- in parts succeeds, the download of the same key that follows succeeds from a disk without a part
  -- file, and leaves the file as it was uploaded at its target, where the part file has another
  -- path.
  pub nfs-roundtrip :
      {F : Float} (clock : ℕ → ℕ) (keys : Option VaultKeys) (prefix plain blob : Bytes)
      (part_size_mib : ℕ) (key : Text) (id : ℕ) (name : Text) (out : OutPath)
      (s : NfsBackend N.State) (l : Local (NfsBackend N.State) F)
      → HasFolder L key s
      → length prefix ≡ prefix_len
      → 0 < length plain
      → length plain ≤ (u32_mod - 1) * chunk
      → part_size_mib < 17592186044416
      → object_of P keys prefix plain ≡ ok blob
      → length blob < fuel
      → text_eq (path_text (part_path P.is_utf8 out)) (path_text out) ≡ false
      → Dict.get l.disk (path_text (part_path P.is_utf8 out)) ≡ none
      → (s' : NfsBackend N.State) × (upload_multipart P
            (nfs N fuel)
            (λ k. false)
            keys
            prefix
            part_size_mib
            (some (length plain, plain))
            key
            s
          ≡ (ok tt, s'))
        × (let (r, l') =
              download_one P
                (nfs N fuel)
                (λ k. false)
                clock
                keys
                key
                id
                name
                (length plain)
                out
                (record l { remote = s' }) in
            (r ≡ ok tt) × (Dict.get l'.disk (path_text out) ≡ some plain))
  unfolding nfs-IsMultipart nfs-IsObject
  nfs-roundtrip clock keys prefix plain blob part_size_mib key id name out s l folder sized
        some_bytes fits small stored enough apart no_part =
      let (s', sent, (cached, at)) =
        upload_multipart-Stored P (nfs-IsMultipart L fuel) (λ k. false) (λ k. refl) keys prefix
          plain blob part_size_mib key s folder some_bytes small stored in
      let (fh, object) = view-HasObject L key blob s' cached at in
      let downloaded =
        download_one-Downloaded P lawful (nfs-IsObject L key blob fuel enough always) (λ k. false)
          clock keys prefix plain id name out true (record l { remote = s' }) sized fits stored
          apart (fh, object) (inl no_part) in
      let arrives = downloaded.ends ((λ k. refl), refl) in
      (s', sent, (arrives, downloaded.done arrives))
