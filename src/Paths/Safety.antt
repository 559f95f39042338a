-- ===== src/Paths/Safety.antt =====
-- What `sanitize_rel` keeps cannot leave the download folder.
use rabbit_storage_explorer.Base.{
  ℕ, ◌≡◌, ◌≢◌, refl, sym, ◌∙◌, true, ◌||◌, Bool-cases, inl, inr, append-nil, List, [], ◌∷◌, ◌++◌,
  append_assoc, arith, ◌==◌, if◌then◌else◌, Text, text, slash, text_eq, text_eq_iff,
}
use rabbit_storage_explorer.Paths.{
  is_empty, cons_first, split_slash, normalized, backslash, is_normal, keep_normal, sanitize_rel,
}

-- No byte of the text is `c`.
abbrev pub Lacks : ℕ → Text → Type 0
Lacks c [] = Unit
Lacks c (d ∷ s) = (d ≢ c) × Lacks c s

-- One name below a directory: not empty, `.` or `..`, and with no separator of either kind.
pub record IsName (s : Text) : Type 0 where
  pub some_byte : s ≢ []
  pub not_here : s ≢ text "."
  pub not_up : s ≢ text ".."
  pub no_slash : Lacks slash s
  pub no_backslash : Lacks backslash s

abbrev pub All : (Text → Type 0) → List Text → Type 0
All P [] = Unit
All P (s ∷ ss) = P s × All P ss

cons_first-All :
    (x c : ℕ) (ss : List Text) → c ≢ x → All (Lacks x) ss → All (Lacks x) (cons_first c ss)
cons_first-All x c [] p h = ((p, tt), tt)
cons_first-All x c (s ∷ ss) p h = ((p, h.0), h.1)

pub split_slash-Lacks-slash : (s : Text) → All (Lacks slash) (split_slash s)
unfolding split_slash
split_slash-Lacks-slash [] = (tt, tt)
split_slash-Lacks-slash (c ∷ s) = elim (Bool-cases (c == slash)) [
  | inl e ↦ rw e (tt, split_slash-Lacks-slash s)
  | inr n ↦ rw n (cons_first-All slash c (split_slash s) (ground arith) (split_slash-Lacks-slash s))
]

split_slash-Lacks : (x : ℕ) (s : Text) → Lacks x s → All (Lacks x) (split_slash s)
unfolding split_slash
split_slash-Lacks x [] h = (tt, tt)
split_slash-Lacks x (c ∷ s) (p, h) = elim (Bool-cases (c == slash)) [
  | inl e ↦ rw e (tt, split_slash-Lacks x s h)
  | inr n ↦ rw n (cons_first-All x c (split_slash s) p (split_slash-Lacks x s h))
]

normalized-Lacks : (s : Text) → Lacks backslash (normalized s)
unfolding normalized
normalized-Lacks [] = tt
normalized-Lacks (c ∷ s) = (ground arith, normalized-Lacks s)

is_normal-IsName : (s : Text) → is_normal s ≡ true → Lacks slash s → Lacks backslash s → IsName s
is_normal-IsName [] h p q = cc
is_normal-IsName (c ∷ s) h p q = record {
  some_byte = λ e. cc e;
  not_here = λ e. ground (arith, text_eq_iff (c ∷ s) (text "."));
  not_up = λ e. ground (arith, text_eq_iff (c ∷ s) (text ".."));
  no_slash = p;
  no_backslash = q;
}

keep_normal-IsName :
    (ss : List Text) → All (Lacks slash) ss → All (Lacks backslash) ss → All IsName (keep_normal ss)
unfolding keep_normal
keep_normal-IsName [] p q = tt
keep_normal-IsName (s ∷ ss) (a, p) (b, q) = elim (Bool-cases (is_normal s)) [
  | inl e ↦ rw e (is_normal-IsName s e a b, keep_normal-IsName ss p q)
  | inr n ↦ rw n (keep_normal-IsName ss p q)
]

-- Every component that `sanitize_rel` returns, for any key, is a plain name: not empty, not `.` or
-- `..`, and free of `/` and `\`.
pub sanitize_rel-IsName : (rel : Text) → All IsName (sanitize_rel rel)
unfolding sanitize_rel
sanitize_rel-IsName rel =
    keep_normal-IsName (split_slash (normalized rel)) (split_slash-Lacks-slash (normalized rel))
      (split_slash-Lacks backslash (normalized rel) (normalized-Lacks rel))

-- How a system resolves components from a directory, both lists from the root on: `.` and empty
-- ones stay, `..` goes up and stops at the root.
abbrev drop_last : List Text → List Text
drop_last [] = []
drop_last (s ∷ []) = []
drop_last (s ∷ t ∷ ss) = s ∷ drop_last (t ∷ ss)

pub resolve : List Text → List Text → List Text
resolve dir [] = dir
resolve dir (s ∷ ss) =
    resolve
      (if is_empty s || text_eq s (text ".")
        then dir
        else if text_eq s (text "..")
        then drop_last dir
        else dir ++ (s ∷ []))
      ss

resolve_name :
    (dir : List Text) (s : Text)
    → IsName s
    → (if is_empty s || text_eq s (text ".")
        then dir
        else if text_eq s (text "..")
        then drop_last dir
        else dir ++ (s ∷ []))
      ≡ dir ++ (s ∷ [])
resolve_name dir [] n = absurd (n.some_byte refl)
resolve_name dir (c ∷ s) n =
    ground (arith, text_eq_iff (c ∷ s) (text "."), text_eq_iff (c ∷ s) (text ".."))

resolve-names : (dir ss : List Text) → All IsName ss → resolve dir ss ≡ dir ++ ss
unfolding resolve
resolve-names dir [] h = sym (append-nil dir)
resolve-names dir (s ∷ ss) (n, h) =
    rw (resolve_name dir s n) (resolve-names (dir ++ (s ∷ [])) ss h ∙ append_assoc dir (s ∷ []) ss)

-- Wherever the download folder is, resolving what `sanitize_rel` returns from it descends from it
-- by exactly those components: no key leads outside.
pub resolve-sanitize_rel :
    (dest : List Text) (rel : Text) → resolve dest (sanitize_rel rel) ≡ dest ++ sanitize_rel rel
resolve-sanitize_rel dest rel = resolve-names dest (sanitize_rel rel) (sanitize_rel-IsName rel)

normalized-eq : (s : Text) → Lacks backslash s → normalized s ≡ s
unfolding normalized
normalized-eq [] h = refl
normalized-eq (c ∷ s) (p, h) = ground (arith, normalized-eq s h)

is_normal_name : (s : Text) → IsName s → is_normal s ≡ true
is_normal_name [] n = absurd (n.some_byte refl)
is_normal_name (c ∷ s) n =
    ground (arith, text_eq_iff (c ∷ s) (text "."), text_eq_iff (c ∷ s) (text ".."))

keep_normal-names : (ss : List Text) → All IsName ss → keep_normal ss ≡ ss
unfolding keep_normal
keep_normal-names [] h = refl
keep_normal-names (s ∷ ss) (n, h) = rw (is_normal_name s n, keep_normal-names ss h)

-- A key without backslashes whose segments are all plain names is kept segment by segment.
pub sanitize_rel-names :
    (rel : Text)
    → Lacks backslash rel
    → All IsName (split_slash rel)
    → sanitize_rel rel ≡ split_slash rel
unfolding sanitize_rel
sanitize_rel-names rel h names =
    rw (normalized-eq rel h) (keep_normal-names (split_slash rel) names)
