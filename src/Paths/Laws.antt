-- ===== src/Paths/Laws.antt =====
-- Cutting a key at its last slash undoes putting a name behind a directory prefix, and joining
-- undoes splitting.
use mathlib.Core.Path.{ap₂}
use rabbit_storage_explorer.Base.{
  ℕ, suc, ◌≡◌, ◌≢◌, refl, sym, ap, ◌∙◌, ◌⊎◌, inl, inr, false, none, some, List, [], ◌∷◌, ◌++◌,
  append_assoc, arith, length, take-append, drop-append, length-append, ◌==◌, Text, slash,
  Bool-cases, ==_iff,
}
use rabbit_storage_explorer.Paths.{
  is_empty, trim_slashes, rfind_slash, parent_prefix, last_segment, up_to, behind, leaf_of,
  cons_first, split_slash, join_slash,
}
use rabbit_storage_explorer.Paths.Safety.{Lacks}

-- A name of a directory entry: some bytes, and no slash among them.
abbrev pub IsLeaf : Text → Type 0
IsLeaf s = (s ≢ []) × Lacks slash s

-- The prefix of a directory: nothing for the root, or a text that ends in a slash.
abbrev pub IsDir : Text → Type 0
IsDir dir = (dir ≡ []) ⊎ ((s : Text) × (dir ≡ s ++ (slash ∷ [])))

pub trim_slashes-leaf : (s : Text) → Lacks slash s → trim_slashes s ≡ s
unfolding trim_slashes
trim_slashes-leaf [] h = refl
trim_slashes-leaf (c ∷ s) (p, h) = ground (arith, trim_slashes-leaf s h)

trim_slashes-marked : (s : Text) → trim_slashes (s ++ (slash ∷ [])) ≡ trim_slashes s
unfolding trim_slashes
trim_slashes-marked [] = refl
trim_slashes-marked (c ∷ s) = rw (trim_slashes-marked s)

is_empty-append : (dir leaf : Text) → leaf ≢ [] → is_empty (dir ++ leaf) ≡ false
is_empty-append [] [] h = absurd (h refl)
is_empty-append [] (c ∷ leaf) h = refl
is_empty-append (c ∷ dir) leaf h = refl

-- Nothing is trimmed in front of a leaf.
trim_slashes-append : (dir leaf : Text) → IsLeaf leaf → trim_slashes (dir ++ leaf) ≡ dir ++ leaf
unfolding trim_slashes
trim_slashes-append [] leaf (_, h) = trim_slashes-leaf leaf h
trim_slashes-append (c ∷ dir) leaf h =
    rw (trim_slashes-append dir leaf h, is_empty-append dir leaf h.0)

rfind_slash-leaf : (s : Text) → Lacks slash s → rfind_slash s ≡ none
unfolding rfind_slash
rfind_slash-leaf [] h = refl
rfind_slash-leaf (c ∷ s) (p, h) = ground (arith, rfind_slash-leaf s h)

rfind_slash-append :
    (s leaf : Text) → Lacks slash leaf → rfind_slash (s ++ (slash ∷ leaf)) ≡ some (length s)
unfolding rfind_slash
rfind_slash-append [] leaf h = rw (rfind_slash-leaf leaf h)
rfind_slash-append (c ∷ s) leaf h = rw (rfind_slash-append s leaf h)

-- The text up to the slash before a leaf, and the leaf.
cut-append :
    (dir leaf : Text)
    → IsDir dir
    → Lacks slash leaf
    → (up_to (dir ++ leaf) (rfind_slash (dir ++ leaf)) ≡ dir)
      × (behind (dir ++ leaf) (rfind_slash (dir ++ leaf)) ≡ leaf)
cut-append dir leaf (inl root) h = rw (root, rfind_slash-leaf leaf h) (refl, refl)
cut-append dir leaf (inr (s, e)) h =
    let size : suc (length s) ≡ length (s ++ (slash ∷ [])) =
      omega (arith, length-append s (slash ∷ [])) in
    let whole = append_assoc s (slash ∷ []) leaf in
    let found : rfind_slash ((s ++ (slash ∷ [])) ++ leaf) ≡ some (length s) =
      rw whole (rfind_slash-append s leaf h) in
    rw (e, found)
      (take-append (s ++ (slash ∷ [])) leaf _ size, drop-append (s ++ (slash ∷ [])) leaf _ size)

-- The same for the key of a folder, which ends in a slash.
trim_slashes-folder :
    (dir leaf : Text) → IsLeaf leaf → trim_slashes (dir ++ (leaf ++ (slash ∷ []))) ≡ dir ++ leaf
trim_slashes-folder dir leaf h =
    rw (← append_assoc dir leaf (slash ∷ []), trim_slashes-marked (dir ++ leaf))
      (trim_slashes-append dir leaf h)

-- `parent_prefix` recovers a directory prefix from the key of a file in it, and from the key of a
-- folder in it, which ends in a slash.
pub parent_prefix-append :
    (dir leaf : Text)
    → IsDir dir
    → IsLeaf leaf
    → (parent_prefix (dir ++ leaf) ≡ dir) × (parent_prefix (dir ++ (leaf ++ (slash ∷ []))) ≡ dir)
unfolding parent_prefix
parent_prefix-append dir leaf d h = (
  rw (trim_slashes-append dir leaf h) (cut-append dir leaf d h.1).0,
  rw (trim_slashes-folder dir leaf h) (cut-append dir leaf d h.1).0,
)

-- `leaf_of` recovers the name from the key of a file in a directory, and from the key of a folder.
pub leaf_of-append :
    (dir leaf : Text)
    → IsDir dir
    → IsLeaf leaf
    → (leaf_of (dir ++ leaf) ≡ leaf) × (leaf_of (dir ++ (leaf ++ (slash ∷ []))) ≡ leaf)
unfolding leaf_of last_segment
leaf_of-append dir leaf d h = (
  rw (trim_slashes-append dir leaf h) (cut-append dir leaf d h.1).1,
  rw (trim_slashes-folder dir leaf h) (cut-append dir leaf d h.1).1,
)

join_slash-cons_first :
    (c : ℕ) (ss : List Text) → ss ≢ [] → join_slash (cons_first c ss) ≡ c ∷ join_slash ss
unfolding join_slash
join_slash-cons_first c [] h = absurd (h refl)
join_slash-cons_first c (s ∷ []) h = refl
join_slash-cons_first c (s ∷ t ∷ ss) h = refl

join_slash-cons_nil : (ss : List Text) → ss ≢ [] → join_slash ([] ∷ ss) ≡ slash ∷ join_slash ss
unfolding join_slash
join_slash-cons_nil [] h = absurd (h refl)
join_slash-cons_nil (s ∷ ss) h = refl

cons_first-ne : (c : ℕ) (ss : List Text) → cons_first c ss ≢ []
cons_first-ne c [] h = cc
cons_first-ne c (s ∷ ss) h = cc

split_slash-ne : (s : Text) → split_slash s ≢ []
unfolding split_slash
split_slash-ne [] h = cc
split_slash-ne (c ∷ s) h = elim (Bool-cases (c == slash)) [
  | inl e ↦ cc (rw e at h)
  | inr n ↦ cons_first-ne c (split_slash s) (rw n at h)
]

-- Joining the segments of a path gives the path.
pub join_slash-split_slash : (s : Text) → join_slash (split_slash s) ≡ s
unfolding split_slash
join_slash-split_slash [] = unfold join_slash in refl
join_slash-split_slash (c ∷ s) = elim (Bool-cases (c == slash)) [
  | inl e ↦ rw e (
      join_slash-cons_nil (split_slash s) (split_slash-ne s)
      ∙ ap₂ (λ d t. d ∷ t) (sym ((==_iff c slash).0 e)) (join_slash-split_slash s))
  | inr n ↦ rw n (
      join_slash-cons_first c (split_slash s) (split_slash-ne s)
      ∙ ap (λ t. c ∷ t) (join_slash-split_slash s))
]
