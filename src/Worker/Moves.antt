-- ===== src/Worker/Moves.antt =====
-- Where a move of src/worker.rs may lead.
use mathlib.Core.Option.{some-injective}
use rabbit_storage_explorer.Base.{
  ◌≡◌, refl, ap, subst, ◌⊎◌, inl, inr, Bool, true, false, ◌||◌, Option, none, some, [], ◌∷◌, ◌++◌,
  arith, Text, slash, text_eq, text_eq_iff, ◌==◌, ==_iff, Bool-cases, Option-cases, if◌then◌else◌,
}
use rabbit_storage_explorer.Paths.{leaf_of, last_segment, trim_slashes, rfind_slash, behind}
use rabbit_storage_explorer.Paths.Safety.{Lacks}
use rabbit_storage_explorer.Storage.{RemoteEntry}
use rabbit_storage_explorer.Worker.{starts_with, ends_with_slash, move_target}

behind-Lacks-slash : (s : Text) → Lacks slash (behind s (rfind_slash s))
unfolding rfind_slash
behind-Lacks-slash [] = tt
behind-Lacks-slash (c ∷ s) = elim (Option-cases (rfind_slash s)) [
  | inr (i, e) ↦ rw e (subst (λ o. Lacks slash (behind s o)) e (behind-Lacks-slash s))
  | inl e ↦
      let rest : Lacks slash s = subst (λ o. Lacks slash (behind s o)) e (behind-Lacks-slash s) in
      elim (Bool-cases (c == slash)) [
        | inl at ↦ rw e (rw at rest)
        | inr n ↦ rw e (rw n ((ground (arith, ==_iff c slash), rest)))
      ]
]

ends_with_slash-append : (s : Text) → ends_with_slash (s ++ (slash ∷ [])) ≡ true
unfolding ends_with_slash
ends_with_slash-append [] = refl
ends_with_slash-append (c ∷ []) = refl
ends_with_slash-append (c ∷ d ∷ s) = ends_with_slash-append (d ∷ s)

leaf-starts_with :
    (leaf from : Text)
    → Lacks slash leaf
    → ends_with_slash from ≡ true
    → starts_with (leaf ++ (slash ∷ [])) from ≡ true
    → leaf ++ (slash ∷ []) ≡ from
unfolding starts_with ends_with_slash
leaf-starts_with leaf [] l e h = cc
leaf-starts_with [] (c ∷ []) l e h = ground (arith, ==_iff slash c)
leaf-starts_with [] (c ∷ d ∷ s) l e h = ground (arith, ==_iff slash c)
leaf-starts_with (a ∷ leaf) (c ∷ []) (p, l) e h = ground (arith, ==_iff a c, ==_iff c slash)
leaf-starts_with (a ∷ leaf) (c ∷ d ∷ s) (p, l) e h =
    ground (arith, ==_iff a c, leaf-starts_with leaf (d ∷ s) l e)

target-starts_with :
    (dest leaf from : Text)
    → Lacks slash leaf
    → ends_with_slash from ≡ true
    → starts_with (dest ++ (leaf ++ (slash ∷ []))) from ≡ true
    → (starts_with dest from ≡ true) ⊎ (dest ++ (leaf ++ (slash ∷ [])) ≡ from)
unfolding starts_with ends_with_slash
target-starts_with [] leaf from l e h = inr (leaf-starts_with leaf from l e h)
target-starts_with (a ∷ dest) leaf [] l e h = cc
target-starts_with (a ∷ dest) leaf (c ∷ []) l e h = inl (ground arith)
target-starts_with (a ∷ dest) leaf (c ∷ d ∷ s) l e h = elim (Bool-cases (a == c)) [
  | inr n ↦ cc (rw n at h)
  | inl same ↦ elim (target-starts_with dest leaf (d ∷ s) l e (rw same at h)) [
    | inl below ↦ inl (rw same below)
    | inr eq ↦ inr (ground (arith, ==_iff a c))
  ]
]

abbrev source_of : Text → Text
source_of key = if ends_with_slash key then key else key ++ (slash ∷ [])

ends_with_slash-source_of : (key : Text) → ends_with_slash (source_of key) ≡ true
ends_with_slash-source_of key = elim (Bool-cases (ends_with_slash key)) [
  | inl e ↦ rw e e
  | inr n ↦ rw n (ends_with_slash-append key)
]

abbrev chosen : Bool → Bool → Text → Text → Option (Text × Text)
chosen same below from to = if same || below then none else some (from, to)

guarded :
    (same below : Bool) (from to from' to' : Text)
    → chosen same below from to ≡ some (from', to')
    → (same ≡ false) × (below ≡ false) × (from ≡ from') × (to ≡ to')
guarded true below from to from' to' h = cc
guarded false true from to from' to' h = cc
guarded false false from to from' to' h =
    let e = some-injective _ _ h in (refl, refl, ap (λ x. x.0) e, ap (λ x. x.1) e)

-- If a folder is moved at all, the key that it is moved to does not begin with the key, ending in a
-- slash, that it is moved from.
pub move_target-outside :
    (dest_prefix : Text) (item : RemoteEntry) (from to : Text)
    → item.is_dir ≡ true
    → move_target dest_prefix item ≡ some (from, to)
    → starts_with to from ≡ false
unfolding move_target leaf_of last_segment
move_target-outside dest_prefix item from to folder h =
    let leaf = leaf_of item.key in
    let source = source_of item.key in
    let target = dest_prefix ++ (leaf ++ (slash ∷ [])) in
    let (same, below, from_eq, to_eq) =
      guarded (text_eq target source) (starts_with dest_prefix source) source target from to
        (rw folder at h) in
    elim (Bool-cases (starts_with target source)) [
      | inr n ↦ rw (← from_eq, ← to_eq) n
      | inl s ↦
          elim (target-starts_with dest_prefix leaf source
            (behind-Lacks-slash (trim_slashes item.key)) (ends_with_slash-source_of item.key) s) [
              | inl e ↦ cc
              | inr e ↦
                  (let bad : text_eq target source ≡ true = (text_eq_iff target source).1 e in cc)
            ]
    ]
