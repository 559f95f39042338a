-- ===== src/Storage/Nfs/Files/View.antt =====
-- The NFS backend as a map from keys to contents: `put` changes it at one key, and `get` reads it.
use mathlib.Core.Option
use mathlib.Core.Option.{some-injective}
use rabbit_storage_explorer.Base.{
  ◌≡◌, ◌≢◌, refl, sym, ap, ◌∙◌, inl, inr, false, Option, none, some, ◌++◌, arith, length, text_eq,
  text_eq_iff, Bool-cases, Option-cases, Bytes, Text, ok,
}
use rabbit_storage_explorer.Storage.Nfs.Server.{NfsServer, Handle, Attr, Tree, IsServer}
use rabbit_storage_explorer.Storage.Nfs.{NfsBackend, file_handle, with_size}
use rabbit_storage_explorer.Storage.Nfs.Resolve.{
  IsCached, Kept, Kept-both, Answers, lookup-Answers, tree_of,
}
use rabbit_storage_explorer.Storage.Nfs.Changes.{
  place, parent_at-Grows, Serves, Serves-both, Kept-Serves,
}
use rabbit_storage_explorer.Storage.Nfs.Files.{put}
use rabbit_storage_explorer.Storage.Nfs.Files.Storing.{
  Truncated, create_truncated-Truncated, Wrote-Serves, commit-Kept, resolve_parent_found,
}

-- The file of a key, if it has one.
abbrev pub handle_in : Tree → Option (Handle × Text) → Option Handle
handle_in t none = none
handle_in t (some p) = t.entry p.0 p.1

abbrev pub handle_at : Tree → Handle → Text → Option Handle
handle_at t root key = handle_in t (place t root key)

module _ {N : NfsServer} (L : IsServer N) where
  abbrev pub handle_of : NfsBackend N.State → Text → Option Handle
  handle_of s key = handle_at (tree_of L s) s.root key

  -- The content at a key.
  abbrev pub view : NfsBackend N.State → Text → Option Bytes
  view s key = Option.map (tree_of L s).file (handle_of s key)

  -- A key that had a file has it still, and if that is not the one that changed, its content too.
  handle_of-Serves :
      (fh g : Handle) (s s' : NfsBackend N.State) (key : Text)
      → Serves L fh s s'
      → handle_of s key ≡ some g
      → handle_of s' key ≡ some g
  handle_of-Serves fh g s s' key v h = elim (Option-cases (place (tree_of L s) s.root key)) [
    | inl e ↦ absurd (let off = rw e at h in cc)
    | inr (p, e) ↦
        let at : place (tree_of L s') s'.root key ≡ some p =
          rw v.root (parent_at-Grows (tree_of L s) (tree_of L s') s.root _ p v.grows e) in
        rw at (v.grows p.0 p.1 g (rw e at h))
  ]

  -- A key that shares the file that was cut shares it with the key whose file that was.
  handle_of-own :
      (key other : Text) (dir : Handle) (name : Text) (fh g : Handle) (s s' : NfsBackend N.State)
      → Truncated L dir name fh s s'
      → place (tree_of L s) s.root key ≡ some (dir, name)
      → handle_of s other ≡ some g
      → fh ≡ g
      → handle_of s key ≡ some g
  handle_of-own key other dir name fh g s s' q at h same =
      elim (Option-cases (place (tree_of L s) s.root other)) [
        | inl e ↦ absurd (let off = rw e at h in cc)
        | inr (p, e) ↦
            let there : (tree_of L s).entry p.0 p.1 ≡ some g = rw e at h in
            rw at (q.own p.0 p.1 (there ∙ ap some (sym same)) ∙ ap some same)
      ]

  -- What `put` comes to, as a change of the map from keys to contents.
  pub record Stored (key : Text) (content : Bytes) (s s' : NfsBackend N.State) : Type 0 where
    pub cached : IsCached L s'
    pub root : s'.root ≡ s.root
    pub reported : s'.reported ≡ s.reported
    pub now : view s' key ≡ some content
    pub others :
        (other : Text) (g : Handle)
        → handle_of s other ≡ some g
        → handle_of s key ≢ some g
        → view s' other ≡ view s other

  -- On a server that is up, and with a right cache, a `put` into a folder that exists succeeds: the
  -- key has the new content, whole, and every other file of the server has what it had.
  pub put-Stored :
      (key : Text) (content : Bytes) (dir : Handle) (name : Text) (s : NfsBackend N.State)
      → IsCached L s
      → place (tree_of L s) s.root key ≡ some (dir, name)
      → (s' : NfsBackend N.State) × (put N key content s ≡ (ok tt, s')) × Stored key content s s'
  unfolding put
  put-Stored key content dir name s c at =
      let (fh, s1, made, q) = create_truncated-Truncated L key dir name s c at in
      let (s2, wrote, v2, grown, told) =
        Wrote-Serves L false fh 0 content s1 q.serves.cached (sym (ap length q.emptied)) in
      let (s3, committed, k3) = commit-Kept L fh s2 v2.cached in
      let v : Serves L fh s1 s3 = Serves-both L fh s1 s2 s3 v2 (Kept-Serves L fh s2 s3 k3) in
      let all : Serves L fh s s3 = Serves-both L fh s s1 s3 q.serves v in
      let there : place (tree_of L s3) s3.root key ≡ some (dir, name) =
        rw all.root
          (parent_at-Grows (tree_of L s) (tree_of L s3) s.root _ (dir, name) all.grows at) in
      (
        s3,
        rw made (rw wrote committed),
        record {
          cached = all.cached;
          root = all.root;
          reported = omega (arith, k3.reported, told, q.reported);
          now =
              rw (there, v.grows dir name fh q.there)
                (ap some (ap (λ t. t.file fh) k3.trees ∙ grown ∙ ap (λ x. x ++ content) q.emptied));
          others = λ other g h apart.
              let stays = handle_of-Serves fh g s s3 other all h in
              let distinct : text_eq fh g ≡ false = elim (Bool-cases (text_eq fh g)) [
                | inl e ↦ absurd (
                    apart
                      (handle_of-own key other dir name fh g s s1 q at h ((text_eq_iff fh g).0 e)))
                | inr n ↦ n
              ] in
              rw (stays, h) (ap some (all.others g distinct));
        },
      )

  pub file_handle_found :
      (key : Text) (dir : Handle) (name : Text) (s : NfsBackend N.State)
      → IsCached L s
      → place (tree_of L s) s.root key ≡ some (dir, name)
      → (o : Option (Handle × Option Attr)) × (s' : NfsBackend N.State) × (file_handle N key s
          ≡ (ok (with_size N o), s'))
        × Answers L (tree_of L s) (handle_of s key) o
        × Kept L s s'
  unfolding file_handle
  file_handle_found key dir name s c at =
      let (s1, found, k1) = resolve_parent_found L key dir name s c at in
      let (o, s2, looked, answers, k2) = lookup-Answers L dir name s1 k1.cached in
      (o, s2, rw found (rw looked refl), rw at (rw k1.trees at answers), Kept-both L s s1 s2 k1 k2)
