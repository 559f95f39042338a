-- ===== src/Storage/Nfs/Uploads/Appending.antt =====
-- Multipart uploads over an NFS server that is up: the parts are appended to one file.
use rabbit_storage_explorer.Base.{
  ℕ, ◌+◌, ◌≡◌, refl, sym, ap, ◌∙◌, true, some, List, [], ◌∷◌, ◌++◌, arith, length, length-append,
  Bytes, Text, ok,
}
use rabbit_storage_explorer.Base.Dict
use rabbit_storage_explorer.Base.Dict.{get-insert_same}
use rabbit_storage_explorer.Storage.{MultipartUpload}
use rabbit_storage_explorer.Crypto.Stream.Chunks.{concat}
use rabbit_storage_explorer.Storage.Nfs.Server.{NfsServer, Handle, IsServer}
use rabbit_storage_explorer.Storage.Nfs.{NfsBackend, InFlight}
use rabbit_storage_explorer.Storage.Nfs.Resolve.{IsCached, tree_of}
use rabbit_storage_explorer.Storage.Nfs.Changes.{place, parent_at-Grows, Serves}
use rabbit_storage_explorer.Storage.Nfs.Files.Storing.{
  create_truncated-Truncated, Wrote-Serves, commit-Kept,
}
use rabbit_storage_explorer.Storage.Nfs.Files.View.{view}
use rabbit_storage_explorer.Storage.Nfs.Uploads.{
  create_multipart, upload_part, complete_multipart, start_upload, taken, put_back,
}
use rabbit_storage_explorer.Storage.Nfs.Backend.{nfs}
use rabbit_storage_explorer.Transfer.Multipart.Parts.{IsMultipart, concat-append}

module _ {N : NfsServer} (L : IsServer N) where
  -- The folder of the key exists, and the cache is right.
  pub record HasFolder (key : Text) (s : NfsBackend N.State) : Type 0 where
    pub cached : IsCached L s
    pub dir : Handle
    pub name : Text
    pub placed : place (tree_of L s) s.root key ≡ some (dir, name)

  -- The table knows the upload, and its file is what came in so far.
  pub record HoldsParts (mp : MultipartUpload) (ps : List Bytes) (s : NfsBackend N.State)
      : Type 0 where
    pub folder : HasFolder mp.key s
    pub upload : InFlight
    pub listed : Dict.get s.uploads mp.upload_id ≡ some upload
    pub there : (tree_of L s).entry folder.dir folder.name ≡ some upload.fh
    pub content : (tree_of L s).file upload.fh ≡ concat ps
    pub offset : upload.offset ≡ length (concat ps)

  place-Serves :
      (key : Text) (fh : Handle) (p : Handle × Text) (s s' : NfsBackend N.State)
      → Serves L fh s s'
      → place (tree_of L s) s.root key ≡ some p
      → place (tree_of L s') s'.root key ≡ some p
  place-Serves key fh p s s' v h =
      rw v.root (parent_at-Grows (tree_of L s) (tree_of L s') s.root _ p v.grows h)

  pub create_multipart-HoldsParts :
      (key : Text) (s : NfsBackend N.State)
      → HasFolder key s
      → (mp : MultipartUpload) × (s' : NfsBackend N.State) × (create_multipart N key s
          ≡ (ok mp, s'))
        × (mp.key ≡ key)
        × HoldsParts mp [] s'
  unfolding create_multipart
  create_multipart-HoldsParts key s f =
      let (fh, s1, made, q) = create_truncated-Truncated L key f.dir f.name s f.cached f.placed in
      let begun = start_upload key fh s1 in
      (
        begun.0,
        begun.1,
        rw made refl,
        refl,
        record {
          folder = record {
            cached = q.serves.cached;
            dir = f.dir;
            name = f.name;
            placed = place-Serves key fh (f.dir, f.name) s s1 q.serves f.placed;
          };
          upload = record { fh = fh; offset = 0; key = key };
          listed =
              get-insert_same s1.uploads begun.0.upload_id
                (record { fh = fh; offset = 0; key = key });
          there = q.there;
          content = q.emptied;
          offset = refl;
        },
      )

  pub upload_part-HoldsParts :
      (mp : MultipartUpload) (n : ℕ) (part : Bytes) (ps : List Bytes) (s : NfsBackend N.State)
      → HoldsParts mp ps s
      → (s' : NfsBackend N.State) × (upload_part N mp n part true s ≡ (ok [], s'))
        × HoldsParts mp (ps ++ (part ∷ [])) s'
        × (s'.reported ≡ s.reported + length part)
  unfolding upload_part
  upload_part-HoldsParts mp n part ps s h =
      let u = h.upload in
      let s1 = taken mp.upload_id s in
      let (s2, wrote, v, grown, told) =
        Wrote-Serves L true u.fh u.offset part s1 h.folder.cached
          (h.offset ∙ ap length (sym h.content)) in
      let whole = grown ∙ ap (λ x. x ++ part) h.content ∙ sym (concat-append ps part) in
      (
        put_back mp.upload_id u (u.offset + length part) s2,
        rw (upload_part, h.listed) (rw wrote refl),
        record {
          folder = record {
            cached = v.cached;
            dir = h.folder.dir;
            name = h.folder.name;
            placed = place-Serves mp.key u.fh (h.folder.dir, h.folder.name) s1 s2 v h.folder.placed;
          };
          upload = record u { offset = u.offset + length part };
          listed =
              get-insert_same s2.uploads mp.upload_id
                (record u { offset = u.offset + length part });
          there = v.grows h.folder.dir h.folder.name u.fh h.there;
          content = whole;
          offset =
              omega (
                arith,
                h.offset,
                ap length (concat-append ps part),
                length-append (concat ps) part,
              );
        },
        told,
      )

  pub complete_multipart-Stored :
      (mp : MultipartUpload) (etags : List (ℕ × Text)) (ps : List Bytes) (s : NfsBackend N.State)
      → HoldsParts mp ps s
      → (s' : NfsBackend N.State) × (complete_multipart N mp etags s ≡ (ok tt, s'))
        × IsCached L s'
        × (view L s' mp.key ≡ some (concat ps))
  unfolding complete_multipart
  complete_multipart-Stored mp etags ps s h =
      let (s', committed, kept) =
        commit-Kept L h.upload.fh (taken mp.upload_id s) h.folder.cached in
      (
        s',
        rw (complete_multipart, h.listed) committed,
        kept.cached,
        rw (kept.trees, kept.root) (rw (h.folder.placed, h.there) (ap some h.content)),
      )

  -- The NFS backend keeps the promise on multipart uploads that the worker relies on: it is ready
  -- for every key whose folder exists.
  unfoldable pub nfs-IsMultipart : (fuel : ℕ) → IsMultipart (nfs N fuel)
  nfs-IsMultipart fuel = record {
    Ready = λ s key. HasFolder key s;
    Holds = λ s mp ps. HoldsParts mp ps s;
    Stored = λ s key blob. IsCached L s × (view L s key ≡ some blob);
    create = create_multipart-HoldsParts;
    upload = λ mp n part ps s held numbered.
        let (s', sent, held', told) = upload_part-HoldsParts mp n part ps s held in
        ([], s', sent, held');
    complete = λ mp etags s ps p held large tags.
        let (s', completed, cached, at) =
          complete_multipart-Stored mp etags (ps ++ (p ∷ [])) s held in
        (s', completed, (cached, at));
  }
