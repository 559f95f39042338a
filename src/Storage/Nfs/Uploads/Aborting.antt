-- ===== src/Storage/Nfs/Uploads/Aborting.antt =====
-- What `abort_multipart` of the NFS backend does once a part has failed, on any server.
use rabbit_storage_explorer.Base.{
  ℕ, zero, suc, ◌+◌, ◌≡◌, refl, sym, ap, ◌∙◌, Bool, true, false, inl, inr, none, [], ◌∷◌, take,
  drop, ◌==◌, Option-cases, Bytes, Text, text_eq_refl, Error, Result, ok, err, length,
}
use rabbit_storage_explorer.Base.Dict
use rabbit_storage_explorer.Base.Dict.{Dict, get-remove}
use rabbit_storage_explorer.Base.Exec.{Exec, and_then, pure, >>=-preserves}
use rabbit_storage_explorer.Storage.{MultipartUpload}
use rabbit_storage_explorer.Storage.Nfs.Server.{NfsServer, Handle, Reply, done, refused}
use rabbit_storage_explorer.Storage.Nfs.{NfsBackend, InFlight, called, accepted}
use rabbit_storage_explorer.Storage.Nfs.Files.{
  report, write_part, write_chunks, write_at, write_chunk,
}
use rabbit_storage_explorer.Storage.Nfs.Uploads.{upload_part, abort_multipart, taken, put_back}

module _ {S : Type 0} (table : Dict InFlight) where
  -- The table of uploads is `table`.
  abbrev Table : NfsBackend S → Type 0
  Table s = s.uploads ≡ table

  called-Table :
      {X : Type 0} (call : Exec S (Reply X)) (s : NfsBackend S) → Table s → Table (called call s).1
  called-Table {X} call s t = by_reply (call s.conn)
    where
      by_reply :
          (r : Result (Reply X) × S) → Table (and_then accepted (r.0, record s { conn = r.1 })).1
      by_reply (err e, c) = t
      by_reply (ok (done x), c) = t
      by_reply (ok (refused stat), c) = t

  report-Table :
      (on_bytes : Bool) (n : ℕ) (s : NfsBackend S) → Table s → Table (report on_bytes n s)
  report-Table true n s t = t
  report-Table false n s t = t

  either-Table :
      {X : Type 0} (b : Bool) (f g : Exec (NfsBackend S) X) (s : NfsBackend S)
      → Table (f s).1
      → Table (g s).1
      → Table ((elim b as (λ x. Exec (NfsBackend S) X) [ true ↦ f | false ↦ g ]) s).1
  either-Table true f g s t u = t
  either-Table false f g s t u = u

module _ (N : NfsServer) (table : Dict InFlight) (on_bytes : Bool) (fh : Handle) where
  write_part-Table :
      (fuel offset : ℕ) (part : Bytes) (s : NfsBackend N.State)
      → Table table s
      → Table table (write_part N on_bytes fh fuel offset part s).1
  unfolding write_part
  write_part-Table fuel offset [] s t = t
  write_part-Table zero offset (b ∷ bs) s t = t
  write_part-Table (suc fuel) offset (b ∷ bs) s t =
      >>=-preserves (Table table) (called (N.write fh offset (b ∷ bs))) _
        (called-Table table (N.write fh offset (b ∷ bs)))
        (λ count mid u. either-Table table (count == 0) _ _ mid u (
          write_part-Table fuel (offset + count) (drop count (b ∷ bs)) (report on_bytes count mid)
            (report-Table table on_bytes count mid u)))
        s t

  write_chunks-Table :
      (size fuel offset : ℕ) (part : Bytes) (s : NfsBackend N.State)
      → Table table s
      → Table table (write_chunks N on_bytes fh size fuel offset part s).1
  unfolding write_chunks
  write_chunks-Table size fuel offset [] s t = t
  write_chunks-Table size zero offset (b ∷ bs) s t = t
  write_chunks-Table size (suc fuel) offset (b ∷ bs) s t =
      >>=-preserves (Table table) (write_part N on_bytes fh size offset (take size (b ∷ bs))) _
        (write_part-Table size offset (take size (b ∷ bs)))
        (λ next mid u. write_chunks-Table size fuel next (drop size (b ∷ bs)) mid u) s t

module _ (N : NfsServer) (mp : MultipartUpload) where
  abort_unknown :
      (s : NfsBackend N.State)
      → Dict.get s.uploads mp.upload_id ≡ none
      → abort_multipart N mp s ≡ (ok tt, s)
  unfolding abort_multipart
  abort_unknown s h = rw (abort_multipart, h) refl

  -- A part whose write failed is not put back.
  append_failed :
      (e : Error) (u : InFlight) (s s' : NfsBackend N.State) (out : Result ℕ × NfsBackend N.State)
      → Dict.get out.1.uploads mp.upload_id ≡ none
      → and_then {Y = Text} (λ offset. λ mid. pure [] (put_back mp.upload_id u offset mid)) out
        ≡ (err e, s')
      → Dict.get s'.uploads mp.upload_id ≡ none
  append_failed e u s s' (err x, t) gone failed = cc
  append_failed e u s s' (ok n, t) gone failed = absurd cc

  -- Whatever the server does: if a part of an upload fails, to abort the upload then succeeds and
  -- does nothing, neither to the server nor to the backend, so the parts that were written stay
  -- under the key.
  pub abort_multipart-upload_part :
      (n : ℕ) (part : Bytes) (on_bytes : Bool) (e : Error) (s s' : NfsBackend N.State)
      → upload_part N mp n part on_bytes s ≡ (err e, s')
      → abort_multipart N mp s' ≡ (ok tt, s')
  unfolding upload_part write_at
  abort_multipart-upload_part n part on_bytes e s s' failed =
      elim (Option-cases (Dict.get s.uploads mp.upload_id)) [
        | inl unknown ↦
            let same : s ≡ s' = ap (λ r. r.1) (rw (upload_part, unknown) at failed) in
            abort_unknown s' (ap (λ x. Dict.get x.uploads mp.upload_id) (sym same) ∙ unknown)
        | inr (u, known) ↦
            let s1 = taken mp.upload_id s in
            let gone : Dict.get s1.uploads mp.upload_id ≡ none =
              rw (get-remove s.uploads mp.upload_id mp.upload_id, text_eq_refl mp.upload_id) refl in
            let out = write_at N on_bytes u.fh u.offset part s1 in
            let kept : out.1.uploads ≡ s1.uploads =
              write_chunks-Table N s1.uploads on_bytes u.fh write_chunk (length part) u.offset part
                s1 refl in
            abort_unknown s' (
              append_failed e u s s' out (ap (λ x. Dict.get x mp.upload_id) kept ∙ gone)
                (rw (upload_part, known) at failed))
      ]
