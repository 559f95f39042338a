-- ===== src/Storage/Nfs/Resolve.antt =====
-- The cache of folder handles: what `resolve_dir` of src/storage/nfs.rs answers is what a walk from
-- the root finds.
use mathlib.Core.Option
use mathlib.Core.Option.{some-injective}
use rabbit_storage_explorer.Base.{
  ℕ, ◌≡◌, refl, sym, ap, ◌∙◌, subst, ◌⊎◌, inl, inr, false, Option, none, some, List, [], ◌∷◌, ◌++◌,
  map, ◌==◌, text_eq, text_eq_iff, if◌then◌else◌, Bool-cases, Option-cases, Text, slash, ok, err,
  Result, ok_or, remote_directory_not_found,
}
use rabbit_storage_explorer.Base.Dict
use rabbit_storage_explorer.Base.Dict.{get-insert}
use rabbit_storage_explorer.Paths.{is_empty, trim_slashes, split_slash, cons_first}
use rabbit_storage_explorer.Paths.Segments.{split_slash-some, split_slash-append}
use rabbit_storage_explorer.Storage.Nfs.Server.{NfsServer, Handle, Attr, Tree, IsServer, Fits}
use rabbit_storage_explorer.Storage.Nfs.{
  NfsBackend, lookup, walk_dir, walked_on, resolve_dir, resolve_trimmed, resolve_split,
  resolve_parent, rsplit_once, remember, trim_both,
}

-- The walk that the cache saves.
unfoldable pub walk_at : Tree → Handle → List Text → Option Handle
walk_at t fh [] = some fh
walk_at t fh (seg ∷ segs) = elim (t.entry fh seg) [ none ↦ none | some g ↦ walk_at t g segs ]

unfoldable pub dir_at : Tree → Handle → Text → Option Handle
dir_at t root path =
    if is_empty (trim_both path) then some root else walk_at t root (split_slash (trim_both path))

-- The folder of a key, and the name in it.
abbrev pub parent_at : Tree → Handle → Option Text × Text → Option (Handle × Text)
parent_at t root (none, name) = some (root, name)
parent_at t root (some dir, name) = Option.map (λ fh. (fh, name)) (dir_at t root dir)

pub walk_at-append :
    (t : Tree) (fh g : Handle) (xs ys : List Text)
    → walk_at t fh xs ≡ some g
    → walk_at t fh (xs ++ ys) ≡ walk_at t g ys
unfolding walk_at
walk_at-append t fh g [] ys h = ap (λ f. walk_at t f ys) (some-injective _ _ h)
walk_at-append t fh g (x ∷ xs) ys h = elim (Option-cases (t.entry fh x)) [
  | inl e ↦ absurd (let off = rw (walk_at, e) at h in cc)
  | inr (f, e) ↦ rw e (walk_at-append t f g xs ys (rw (walk_at, e) at h))
]

abbrev Single : Text → Type 0
Single seg = split_slash seg ≡ seg ∷ []

abbrev AllSingle : List Text → Type 0
AllSingle [] = Unit
AllSingle (s ∷ ss) = Single s × AllSingle ss

cons_first-AllSingle :
    (c : ℕ) (ss : List Text) → (c == slash) ≡ false → AllSingle ss → AllSingle (cons_first c ss)
unfolding split_slash
cons_first-AllSingle c [] n all = (rw n refl, tt)
cons_first-AllSingle c (s ∷ ss) n (one, all) = (rw n (ap (cons_first c) one), all)

split_slash-AllSingle : (s : Text) → AllSingle (split_slash s)
unfolding split_slash
split_slash-AllSingle [] = (refl, tt)
split_slash-AllSingle (c ∷ s) = elim (Bool-cases (c == slash)) [
  | inl e ↦ rw e (refl, split_slash-AllSingle s)
  | inr n ↦ rw n (cons_first-AllSingle c (split_slash s) n (split_slash-AllSingle s))
]

-- The segments walked so far, as the text that is the key of the cache.
abbrev Stands : Text → List Text → Type 0
Stands walked segs =
    ((walked ≡ []) × (segs ≡ [])) ⊎ ((is_empty walked ≡ false) × (split_slash walked ≡ segs))

-- At the root, the next segment is not empty.
abbrev Starts : Text → List Text → Type 0
Starts walked [] = Unit
Starts walked (seg ∷ segs) = walked ≡ [] → is_empty seg ≡ false

Starts-inside : (walked : Text) (segs : List Text) → is_empty walked ≡ false → Starts walked segs
Starts-inside walked [] h = tt
Starts-inside [] (seg ∷ segs) h = absurd cc
Starts-inside (c ∷ w) (seg ∷ segs) h = λ e. absurd cc

Stands-on :
    (walked seg : Text) (segs rest : List Text)
    → Single seg
    → Stands walked segs
    → Starts walked (seg ∷ rest)
    → (is_empty (walked_on walked seg) ≡ false)
      × (split_slash (walked_on walked seg) ≡ segs ++ (seg ∷ []))
Stands-on [] seg segs rest one (inl (e, none_yet)) start =
    (start refl, one ∙ ap (λ x. x ++ (seg ∷ [])) (sym none_yet))
Stands-on [] seg segs rest one (inr (e, same)) start = absurd cc
Stands-on (c ∷ w) seg segs rest one (inl (e, none_yet)) start = absurd cc
Stands-on (c ∷ w) seg segs rest one (inr (e, same)) start = (
  refl,
  split_slash-append (c ∷ w) seg
      ∙ ap (λ x. split_slash (c ∷ w) ++ x) one
      ∙ ap (λ x. x ++ (seg ∷ [])) same,
)

keeps_first : (c : ℕ) (s : Text) → (c == slash) ≡ false → trim_slashes (c ∷ s) ≡ c ∷ trim_slashes s
unfolding trim_slashes
keeps_first c s n = elim (Bool-cases (is_empty (trim_slashes s))) [
  | inl e ↦ rw (e, n) refl
  | inr f ↦ rw f refl
]

Starts-cons : (c : ℕ) (s : Text) → (c == slash) ≡ false → Starts [] (split_slash (c ∷ s))
unfolding split_slash
Starts-cons c s n = let (t, ts, e) = split_slash-some s in rw n (rw e (λ h. refl))

Starts-split : (s : Text) → is_empty (trim_both s) ≡ false → Starts [] (split_slash (trim_both s))
unfolding trim_both trim_slashes
Starts-split [] h = absurd cc
Starts-split (c ∷ s) h = elim (Bool-cases (c == slash)) [
  | inl e ↦ rw e (Starts-split s (rw (trim_both, e) at h))
  | inr n ↦ rw n (rw (keeps_first c s n) (Starts-cons c (trim_slashes s) n))
]

-- What a walk from the root answers, without a cache.
abbrev pub answer_at : Tree → Handle → Text → Result Handle
answer_at t root path = ok_or (dir_at t root path) remote_directory_not_found

-- Searches for folders, one after another.
abbrev pub resolve_each : (N : NfsServer) → List Text → NfsBackend N.State → List (Result Handle)
resolve_each N [] s = []
resolve_each N (p ∷ ps) s = let (answer, s') = resolve_dir N p s in answer ∷ resolve_each N ps s'

module _ {N : NfsServer} (L : IsServer N) where
  abbrev pub tree_of : NfsBackend N.State → Tree
  tree_of s = L.tree s.conn

  -- Every cached handle is what a walk from the root finds.
  abbrev pub IsCached : NfsBackend N.State → Type 0
  IsCached s =
      (path : Text) (fh : Handle)
      → Dict.get s.dir_cache path ≡ some fh
      → walk_at (tree_of s) s.root (split_slash path) ≡ some fh

  -- What a search for a name leaves as it was; the cache is still right.
  pub record Kept (s s' : NfsBackend N.State) : Type 0 where
    pub trees : tree_of s' ≡ tree_of s
    pub root : s'.root ≡ s.root
    pub uploads : s'.uploads ≡ s.uploads
    pub upload_seq : s'.upload_seq ≡ s.upload_seq
    pub reported : s'.reported ≡ s.reported
    pub cached : IsCached s'

  pub Kept-self : (s : NfsBackend N.State) → IsCached s → Kept s s
  Kept-self s c = record {
    trees = refl;
    root = refl;
    uploads = refl;
    upload_seq = refl;
    reported = refl;
    cached = c;
  }

  pub Kept-both : (s t u : NfsBackend N.State) → Kept s t → Kept t u → Kept s u
  Kept-both s t u a b = record {
    trees = b.trees ∙ a.trees;
    root = b.root ∙ a.root;
    uploads = b.uploads ∙ a.uploads;
    upload_seq = b.upload_seq ∙ a.upload_seq;
    reported = b.reported ∙ a.reported;
    cached = b.cached;
  }

  pub Kept-conn :
      (s : NfsBackend N.State) (k : N.State)
      → L.tree k ≡ tree_of s
      → IsCached s
      → Kept s (record s { conn = k })
  Kept-conn s k same c = record {
    trees = same;
    root = refl;
    uploads = refl;
    upload_seq = refl;
    reported = refl;
    cached = λ path fh h. rw same (c path fh h);
  }

  pub Kept-remember :
      (s : NfsBackend N.State) (path : Text) (fh : Handle)
      → IsCached s
      → walk_at (tree_of s) s.root (split_slash path) ≡ some fh
      → Kept s (remember path fh s)
  Kept-remember s path fh c at = record {
    trees = refl;
    root = refl;
    uploads = refl;
    upload_seq = refl;
    reported = refl;
    cached = λ p g h. elim (Bool-cases (text_eq path p)) [
      | inl e ↦
          let same : path ≡ p = (text_eq_iff path p).0 e in
          let handle : fh ≡ g =
            some-injective _ _ (rw (get-insert s.dir_cache path p fh, e) at h) in
          subst (λ q. walk_at (tree_of s) s.root (split_slash q) ≡ some g) same
            (at ∙ ap some handle)
      | inr n ↦ c p g (rw (get-insert s.dir_cache path p fh, n) at h)
    ];
  }

  -- What LOOKUP answers of the entry that there is.
  abbrev pub Answers : Tree → Option Handle → Option (Handle × Option Attr) → Type 0
  Answers t none o = o ≡ none
  Answers t (some fh) o = (a : Option Attr) × (o ≡ some (fh, a)) × Fits L.attributed a (t.file fh)

  pub lookup-Answers :
      (dir : Handle) (name : Text) (s : NfsBackend N.State)
      → IsCached s
      → (o : Option (Handle × Option Attr)) × (s' : NfsBackend N.State) × (lookup N dir name s
          ≡ (ok o, s'))
        × Answers (tree_of s) ((tree_of s).entry dir name) o
        × Kept s s'
  unfolding lookup
  lookup-Answers dir name s c = elim (Option-cases ((tree_of s).entry dir name)) [
    | inl e ↦
        let (k, looked, same) = L.lookup_missing dir name s.conn e in
        (none, record s { conn = k }, rw looked refl, rw e refl, Kept-conn s k same c)
    | inr (fh, e) ↦
        let (a, k, looked, same, fits) = L.lookup_found dir name fh s.conn e in
        (
          some (fh, a),
          record s { conn = k },
          rw looked refl,
          rw e (a, refl, fits),
          Kept-conn s k same c,
        )
  ]

  -- The handle that is wanted, or the error that there is none.
  abbrev pub Resolved :
      NfsBackend N.State → Option Handle → Result Handle × NfsBackend N.State → Type 0
  Resolved s want out =
      (s' : NfsBackend N.State) × (out ≡ (ok_or want remote_directory_not_found, s')) × Kept s s'

  Resolved-later :
      (s mid : NfsBackend N.State) (want : Option Handle) (out : Result Handle × NfsBackend N.State)
      → Kept s mid
      → Resolved mid want out
      → Resolved s want out
  Resolved-later s mid want out k (s', same, k') = (s', same, Kept-both s mid s' k k')

  walk_dir_missing :
      (seg : Text) (segs : List Text) (fh : Handle) (walked : Text) (s s' : NfsBackend N.State)
      → lookup N fh seg s ≡ (ok none, s')
      → walk_dir N fh walked (seg ∷ segs) s ≡ (err remote_directory_not_found, s')
  unfolding walk_dir
  walk_dir_missing seg segs fh walked s s' looked = rw looked refl

  walk_dir_found :
      (seg : Text) (segs : List Text) (fh : Handle) (walked : Text) (s s' : NfsBackend N.State)
      (g : Handle) (a : Option Attr)
      → lookup N fh seg s ≡ (ok (some (g, a)), s')
      → walk_dir N fh walked (seg ∷ segs) s
        ≡ walk_dir N g (walked_on walked seg) segs (remember (walked_on walked seg) g s')
  unfolding walk_dir
  walk_dir_found seg segs fh walked s s' g a looked = rw looked refl

  walk_dir-Resolved :
      (segs walked_segs : List Text) (fh : Handle) (walked : Text) (s : NfsBackend N.State)
      → IsCached s
      → AllSingle segs
      → Stands walked walked_segs
      → Starts walked segs
      → walk_at (tree_of s) s.root walked_segs ≡ some fh
      → Resolved s (walk_at (tree_of s) fh segs) (walk_dir N fh walked segs s)
  unfolding walk_dir walk_at
  walk_dir-Resolved [] before fh walked s c all stands start at = (s, refl, Kept-self s c)
  walk_dir-Resolved (seg ∷ segs) before fh walked s c (one, all) stands start at =
      let (o, s', looked, answers, kept) = lookup-Answers fh seg s c in
      elim (Option-cases ((tree_of s).entry fh seg)) [
        | inl e ↦
            let nothing : o ≡ none = rw e at answers in
            rw (walk_at, e)
              (rw (walk_dir_missing seg segs fh walked s s' (looked ∙ ap (λ x. (ok x, s')) nothing))
                (s', refl, kept))
        | inr (g, e) ↦
            let (a, something, fits) =
              let x : Answers (tree_of s) (some g) o = rw e at answers in x in
            let (named, next) = Stands-on walked seg before segs one stands start in
            let reached : walk_at (tree_of s) s.root (before ++ (seg ∷ [])) ≡ some g =
              walk_at-append (tree_of s) s.root fh before (seg ∷ []) at ∙ rw (walk_at, e) refl in
            let there : walk_at (tree_of s') s'.root (split_slash (walked_on walked seg)) ≡ some g =
              rw (kept.trees, kept.root) (rw next reached) in
            let s1 : NfsBackend N.State = remember (walked_on walked seg) g s' in
            let kept1 = Kept-remember s' (walked_on walked seg) g kept.cached there in
            rw (walk_at, e)
              (rw
                (walk_dir_found seg segs fh walked s s' g a
                  (looked ∙ ap (λ x. (ok x, s')) something))
                (Resolved-later s s1 _ _ (Kept-both s s' s1 kept kept1) (
                  rw kept.trees at (
                    walk_dir-Resolved segs (before ++ (seg ∷ [])) g (walked_on walked seg) s1
                      kept1.cached all (inr (named, next))
                      (Starts-inside (walked_on walked seg) segs named)
                      (rw (kept.trees, kept.root) reached)))))
      ]

  -- With a cache that is right, `resolve_dir` answers what a walk from the root finds, or that there
  -- is no such folder; it changes no file and no name, and leaves a cache that is still right.
  pub resolve_dir-Resolved :
      (path : Text) (s : NfsBackend N.State)
      → IsCached s
      → Resolved s (dir_at (tree_of s) s.root path) (resolve_dir N path s)
  unfolding resolve_dir dir_at walk_at
  resolve_dir-Resolved path s c = elim (Bool-cases (is_empty (trim_both path))) [
    | inl e ↦ rw e (s, refl, Kept-self s c)
    | inr n ↦ elim (Option-cases (Dict.get s.dir_cache (trim_both path))) [
      | inr (fh, cached) ↦ rw n (
          rw (c (trim_both path) fh cached) (rw (resolve_trimmed, cached) (s, refl, Kept-self s c)))
      | inl missed ↦ rw n (
          rw (resolve_trimmed, missed)
            (walk_dir-Resolved (split_slash (trim_both path)) [] s.root [] s c
              (split_slash-AllSingle (trim_both path)) (inl (refl, refl)) (Starts-split path n)
              refl))
    ]
  ]

  resolve_each_cached :
      (paths : List Text) (s : NfsBackend N.State)
      → IsCached s
      → resolve_each N paths s ≡ map (answer_at (tree_of s) s.root) paths
  resolve_each_cached [] s c = refl
  resolve_each_cached (p ∷ ps) s c =
      let (s', same, kept) = resolve_dir-Resolved p s c in
      let later = resolve_each_cached ps s' kept.cached in
      let rest : resolve_each N ps s' ≡ map (answer_at (tree_of s) s.root) ps =
        rw (kept.trees, kept.root) at later in
      ap (λ x. x.0 ∷ resolve_each N ps x.1) same ∙ ap (λ r. answer_at (tree_of s) s.root p ∷ r) rest

  -- From a backend with an empty cache, on a server that is up, any searches for folders one after
  -- another, whichever of them fill the cache and whichever are answered from it, answer each what
  -- a walk from the root finds, or that there is no such folder.
  pub resolve_each-answer_at :
      (paths : List Text) (s : NfsBackend N.State)
      → s.dir_cache ≡ []
      → resolve_each N paths s ≡ map (answer_at (tree_of s) s.root) paths
  unfolding Dict.get
  resolve_each-answer_at paths s empty =
      resolve_each_cached paths s (λ path fh h. absurd (let none_there = rw empty at h in cc))

  abbrev pub Parted :
      NfsBackend N.State
      → Option (Handle × Text)
      → Result (Handle × Text) × NfsBackend N.State
      → Type 0
  Parted s want out =
      (s' : NfsBackend N.State) × (out ≡ (ok_or want remote_directory_not_found, s')) × Kept s s'

  resolve_split-Parted :
      (cut : Option Text × Text) (s : NfsBackend N.State)
      → IsCached s
      → Parted s (parent_at (tree_of s) s.root cut) (resolve_split N cut s)
  resolve_split-Parted (none, name) s c = (s, refl, Kept-self s c)
  resolve_split-Parted (some dir, name) s c =
      let (s', same, kept) = resolve_dir-Resolved dir s c in
      elim (Option-cases (dir_at (tree_of s) s.root dir)) [
        | inl e ↦ rw (e, same) (s', rw e refl, kept)
        | inr (fh, e) ↦ rw (e, same) (s', rw e refl, kept)
      ]

  pub resolve_parent-Parted :
      (key : Text) (s : NfsBackend N.State)
      → IsCached s
      → Parted s
          (parent_at (tree_of s) s.root (rsplit_once (trim_slashes key)))
          (resolve_parent N key s)
  unfolding resolve_parent
  resolve_parent-Parted key s c = resolve_split-Parted (rsplit_once (trim_slashes key)) s c
