-- ===== src/Storage/Nfs/Files/Storing.antt =====
-- Files by their keys over an NFS server that is up: what is put is read back.
use rabbit_storage_explorer.Base.{
  ℕ, ◌+◌, ◌≡◌, refl, sym, ap, ◌∙◌, subst, inl, inr, Bool, true, false, Option, none, some, [], ◌++◌,
  ◌&&◌, length, text_eq, text_eq_refl, text_eq_iff, Bool-cases, Option-cases, Bytes, Text, ok,
  ok_or, remote_directory_not_found,
}
use rabbit_storage_explorer.Storage.Nfs.Server.{NfsServer, Handle, Attr, IsServer}
use rabbit_storage_explorer.Storage.Nfs.{NfsBackend, called, resolve_parent}
use rabbit_storage_explorer.Storage.Nfs.Resolve.{
  IsCached, Kept, Kept-both, Kept-conn, Answers, lookup-Answers, resolve_parent-Parted, tree_of,
}
use rabbit_storage_explorer.Storage.Nfs.Changes.{
  Grows, place, Serves, Serves-both, Kept-Serves, IsCached-Grows,
}
use rabbit_storage_explorer.Storage.Nfs.Files.{
  create_truncated, truncate_or_create, write_at, commit,
}
use rabbit_storage_explorer.Storage.Nfs.Files.Writing.{credit, written, write_at-Wrote}

both_true : (a b : Bool) → (a && b) ≡ true → (a ≡ true) × (b ≡ true)
both_true true true h = (refl, refl)
both_true true false h = absurd cc
both_true false b h = absurd cc

module _ {N : NfsServer} (L : IsServer N) where
  -- The file `fh` stands at `dir`, `name`, and is empty.
  pub record Truncated (dir : Handle) (name : Text) (fh : Handle) (s s' : NfsBackend N.State)
      : Type 0 where
    pub serves : Serves L fh s s'
    pub reported : s'.reported ≡ s.reported
    pub there : (tree_of L s').entry dir name ≡ some fh
    -- Another name stands for it only if it was the file at this one.
    pub own :
        (d : Handle) (n : Text)
        → (tree_of L s).entry d n ≡ some fh
        → (tree_of L s).entry dir name ≡ some fh
    pub emptied : (tree_of L s').file fh ≡ []

  -- The old file, cut to nothing.
  cut_off :
      (dir : Handle) (name : Text) (fh : Handle) (a : Option Attr) (s : NfsBackend N.State)
      → IsCached L s
      → (tree_of L s).entry dir name ≡ some fh
      → (s' : NfsBackend N.State) × (truncate_or_create N dir name (some (fh, a)) s ≡ (ok fh, s'))
        × Truncated dir name fh s s'
  cut_off dir name fh a s c at =
      let (k, cut, now) = L.truncate fh s.conn in
      let s' : NfsBackend N.State = record s { conn = k } in
      let grow : Grows (tree_of L s) (tree_of L s') = λ d n g h. rw now h in
      (
        s',
        rw cut refl,
        record {
          serves = record {
            root = refl;
            uploads = refl;
            upload_seq = refl;
            grows = grow;
            others = λ g n. rw now (rw n refl);
            cached = IsCached-Grows L s s' refl refl grow c;
          };
          reported = refl;
          there = grow dir name fh at;
          own = λ d n h. at;
          emptied = rw now (rw (text_eq_refl fh) refl);
        },
      )

  -- A new file, of which CREATE does not tell the handle.
  new_file :
      (dir : Handle) (name : Text) (s : NfsBackend N.State)
      → IsCached L s
      → (tree_of L s).entry dir name ≡ none
      → (fh : Handle) × (s' : NfsBackend N.State) × (truncate_or_create N dir name none s
          ≡ (ok fh, s'))
        × Truncated dir name fh s s'
  new_file dir name s c free =
      let (fh, k, made, fresh, now) = L.create dir name s.conn free in
      let s1 : NfsBackend N.State = record s { conn = k } in
      let called1 : called (N.create dir name) s ≡ (ok tt, s1) = rw made refl in
      let entry_there : (tree_of L s1).entry dir name ≡ some fh =
        rw now (rw (text_eq_refl dir, text_eq_refl name) refl) in
      let grow : Grows (tree_of L s) (tree_of L s1) = λ d n g h.
        rw now (elim (Bool-cases (text_eq dir d && text_eq name n)) [
          | inl e ↦
              let (p, q) = both_true (text_eq dir d) (text_eq name n) e in
              let same_dir : dir ≡ d = (text_eq_iff dir d).0 p in
              let same_name : name ≡ n = (text_eq_iff name n).0 q in absurd cc
          | inr e ↦ rw e h
        ]) in
      let c1 = IsCached-Grows L s s1 refl refl grow c in
      let (o, s2, looked, answers, kept) = lookup-Answers L dir name s1 c1 in
      let answer : Answers L (tree_of L s1) (some fh) o = rw entry_there at answers in
      let (a, something, fits) = answer in
      (
        fh,
        s2,
        rw called1 (rw looked (rw something refl)),
        record {
          serves =
              Serves-both L fh s s1 s2
                (record {
                  root = refl;
                  uploads = refl;
                  upload_seq = refl;
                  grows = grow;
                  others = λ g n. rw now (rw n refl);
                  cached = c1;
                })
                (Kept-Serves L fh s1 s2 kept);
          reported = kept.reported;
          there = rw kept.trees entry_there;
          own = λ d n h. absurd (fresh d n h);
          emptied = rw kept.trees (rw now (rw (text_eq_refl fh) refl));
        },
      )

  Truncated-later :
      (dir : Handle) (name : Text) (fh : Handle) (s t u : NfsBackend N.State)
      → Kept L s t
      → Truncated dir name fh t u
      → Truncated dir name fh s u
  Truncated-later dir name fh s t u k q = record {
    serves = Serves-both L fh s t u (Kept-Serves L fh s t k) q.serves;
    reported = q.reported ∙ k.reported;
    there = q.there;
    own = λ d n h.
        subst (λ x. x.entry dir name ≡ some fh) k.trees
          (q.own d n (subst (λ x. x.entry d n ≡ some fh) (sym k.trees) h));
    emptied = q.emptied;
  }

  -- Where the folder of a key is, its handle is found.
  pub resolve_parent_found :
      (key : Text) (dir : Handle) (name : Text) (s : NfsBackend N.State)
      → IsCached L s
      → place (tree_of L s) s.root key ≡ some (dir, name)
      → (s' : NfsBackend N.State) × (resolve_parent N key s ≡ (ok (dir, name), s')) × Kept L s s'
  resolve_parent_found key dir name s c at =
      let (s', parted, kept) = resolve_parent-Parted L key s c in
      (s', parted ∙ ap (λ w. (ok_or w remote_directory_not_found, s')) at, kept)

  -- The key's folder exists: its file is now empty, be it old or new.
  pub create_truncated-Truncated :
      (key : Text) (dir : Handle) (name : Text) (s : NfsBackend N.State)
      → IsCached L s
      → place (tree_of L s) s.root key ≡ some (dir, name)
      → (fh : Handle) × (s' : NfsBackend N.State) × (create_truncated N key s ≡ (ok fh, s'))
        × Truncated dir name fh s s'
  unfolding create_truncated
  create_truncated-Truncated key dir name s c at =
      let (s1, parted, k1) = resolve_parent_found key dir name s c at in
      let (o, s2, looked, answers, k2) = lookup-Answers L dir name s1 k1.cached in
      let k = Kept-both L s s1 s2 k1 k2 in
      elim (Option-cases ((tree_of L s1).entry dir name)) [
        | inl e ↦
            let nothing : o ≡ none = rw e at answers in
            let (fh, s3, made, q) = new_file dir name s2 k.cached (rw k2.trees e) in
            (
              fh,
              s3,
              rw parted (rw looked (rw nothing made)),
              Truncated-later dir name fh s s2 s3 k q,
            )
        | inr (fh, e) ↦
            let answer : Answers L (tree_of L s1) (some fh) o = rw e at answers in
            let (a, something, fits) = answer in
            let (s3, cut, q) = cut_off dir name fh a s2 k.cached (rw k2.trees e) in
            (
              fh,
              s3,
              rw parted (rw looked (rw something cut)),
              Truncated-later dir name fh s s2 s3 k q,
            )
      ]

  -- `write_at` and COMMIT, on a file that ends where they start.
  pub Wrote-Serves :
      (on_bytes : Bool) (fh : Handle) (offset : ℕ) (part : Bytes) (s : NfsBackend N.State)
      → IsCached L s
      → offset ≡ length ((tree_of L s).file fh)
      → (s' : NfsBackend N.State) × (write_at N on_bytes fh offset part s
          ≡ (ok (offset + length part), s'))
        × Serves L fh s s'
        × ((tree_of L s').file fh ≡ (tree_of L s).file fh ++ part)
        × (s'.reported ≡ s.reported + credit on_bytes (length part))
  Wrote-Serves on_bytes fh offset part s c at =
      let (k, wrote, app) = write_at-Wrote L on_bytes fh offset part s at in
      let s' = (written L on_bytes fh s k offset (length part)).1 in
      let grow : Grows (tree_of L s) (L.tree k) = λ d n g h. rw app.entries h in
      (
        s',
        wrote,
        record {
          root = refl;
          uploads = refl;
          upload_seq = refl;
          grows = grow;
          others = app.others;
          cached = IsCached-Grows L s s' refl refl grow c;
        },
        app.grown,
        refl,
      )

  pub commit-Kept :
      (fh : Handle) (s : NfsBackend N.State)
      → IsCached L s
      → (s' : NfsBackend N.State) × (commit N fh s ≡ (ok tt, s')) × Kept L s s'
  unfolding commit
  commit-Kept fh s c =
      let (k, committed, same) = L.commit fh s.conn in
      (record s { conn = k }, rw committed refl, Kept-conn L s k same c)
