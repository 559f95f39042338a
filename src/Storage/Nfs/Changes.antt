-- ===== src/Storage/Nfs/Changes.antt =====
-- What calls on an NFS server change: one file, and names that come in.
use rabbit_storage_explorer.Base.{
  ◌≡◌, ap, ◌∙◌, inl, inr, false, Option, none, some, List, [], ◌∷◌, text_eq, Bool-cases,
  Option-cases, Text,
}
use rabbit_storage_explorer.Paths.{is_empty, split_slash, trim_slashes}
use rabbit_storage_explorer.Storage.Nfs.Server.{NfsServer, Handle, Tree, IsServer}
use rabbit_storage_explorer.Storage.Nfs.{NfsBackend, trim_both, rsplit_once}
use rabbit_storage_explorer.Storage.Nfs.Resolve.{
  walk_at, dir_at, parent_at, IsCached, Kept, tree_of,
}

-- Every name still stands for what it stood for.
abbrev pub Grows : Tree → Tree → Type 0
Grows t t' = (d : Handle) (n : Text) (g : Handle) → t.entry d n ≡ some g → t'.entry d n ≡ some g

walk_at-Grows :
    (t t' : Tree) (fh g : Handle) (segs : List Text)
    → Grows t t'
    → walk_at t fh segs ≡ some g
    → walk_at t' fh segs ≡ some g
unfolding walk_at
walk_at-Grows t t' fh g [] grow h = h
walk_at-Grows t t' fh g (s ∷ ss) grow h = elim (Option-cases (t.entry fh s)) [
  | inl e ↦ absurd (let off = rw (walk_at, e) at h in cc)
  | inr (f, e) ↦ rw (walk_at, grow fh s f e) (walk_at-Grows t t' f g ss grow (rw (walk_at, e) at h))
]

dir_at-Grows :
    (t t' : Tree) (root g : Handle) (path : Text)
    → Grows t t'
    → dir_at t root path ≡ some g
    → dir_at t' root path ≡ some g
unfolding dir_at
dir_at-Grows t t' root g path grow h = elim (Bool-cases (is_empty (trim_both path))) [
  | inl e ↦ rw (dir_at, e) (rw (dir_at, e) at h)
  | inr n ↦ rw (dir_at, n) (walk_at-Grows t t' root g _ grow (rw (dir_at, n) at h))
]

pub parent_at-Grows :
    (t t' : Tree) (root : Handle) (cut : Option Text × Text) (p : Handle × Text)
    → Grows t t'
    → parent_at t root cut ≡ some p
    → parent_at t' root cut ≡ some p
parent_at-Grows t t' root (none, name) p grow h = h
parent_at-Grows t t' root (some dir, name) p grow h = elim (Option-cases (dir_at t root dir)) [
  | inl e ↦ absurd (let off = rw e at h in cc)
  | inr (g, e) ↦ rw (dir_at-Grows t t' root g dir grow e) (rw e at h)
]

-- The folder of a key on the server, and the name in it.
abbrev pub place : Tree → Handle → Text → Option (Handle × Text)
place t root key = parent_at t root (rsplit_once (trim_slashes key))

module _ {N : NfsServer} (L : IsServer N) where
  -- Between two states only the file `fh` changed, and names came in.
  pub record Serves (fh : Handle) (s s' : NfsBackend N.State) : Type 0 where
    pub root : s'.root ≡ s.root
    pub uploads : s'.uploads ≡ s.uploads
    pub upload_seq : s'.upload_seq ≡ s.upload_seq
    pub grows : Grows (tree_of L s) (tree_of L s')
    pub others : (g : Handle) → text_eq fh g ≡ false → (tree_of L s').file g ≡ (tree_of L s).file g
    pub cached : IsCached L s'

  pub Serves-both :
      (fh : Handle) (s t u : NfsBackend N.State) → Serves fh s t → Serves fh t u → Serves fh s u
  Serves-both fh s t u a b = record {
    root = b.root ∙ a.root;
    uploads = b.uploads ∙ a.uploads;
    upload_seq = b.upload_seq ∙ a.upload_seq;
    grows = λ d n g h. b.grows d n g (a.grows d n g h);
    others = λ g h. b.others g h ∙ a.others g h;
    cached = b.cached;
  }

  pub Kept-Serves : (fh : Handle) (s s' : NfsBackend N.State) → Kept L s s' → Serves fh s s'
  Kept-Serves fh s s' k = record {
    root = k.root;
    uploads = k.uploads;
    upload_seq = k.upload_seq;
    grows = λ d n g h. rw k.trees h;
    others = λ g h. ap (λ t. t.file g) k.trees;
    cached = k.cached;
  }

  -- Where names only come in, the cache stays right.
  pub IsCached-Grows :
      (s s' : NfsBackend N.State)
      → s'.root ≡ s.root
      → s'.dir_cache ≡ s.dir_cache
      → Grows (tree_of L s) (tree_of L s')
      → IsCached L s
      → IsCached L s'
  IsCached-Grows s s' same_root same_cache grow c path fh h = rw same_root (
      walk_at-Grows (tree_of L s) (tree_of L s') s.root fh (split_slash path) grow
        (c path fh (rw same_cache at h)))
