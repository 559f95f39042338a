-- ===== src/DirView/Sorting.antt =====
-- The order of a listing: what the sort of src/dir_view.rs does to the entries.
use mathlib.Core.List.{Perm}
use mathlib.Core.List.Perm
use rabbit_storage_explorer.Base.{
  map, map, ◌≡◌, refl, true, false, ◌∷◌, [], List, arith, Text, text_lt, Bool-cases, inl, inr,
}
use rabbit_storage_explorer.Storage.{RemoteEntry}
use rabbit_storage_explorer.DirView.{precedes, insert_sorted, sort_entries}

text_lt_asymm : (s t : Text) → text_lt s t ≡ true → text_lt t s ≡ false
unfolding text_lt
text_lt_asymm s [] h = ground arith
text_lt_asymm [] (b ∷ t) h = refl
text_lt_asymm (a ∷ s) (b ∷ t) h = ground (arith, text_lt_asymm s t)

-- No entry is preceded by the next one.
abbrev IsOrdered : (Text → Text) → List RemoteEntry → Type 0
IsOrdered lower [] = Unit
IsOrdered lower (x ∷ []) = Unit
IsOrdered lower (x ∷ y ∷ ys) = (precedes lower y x ≡ false) × IsOrdered lower (y ∷ ys)

-- A folder never stands behind a file, and of two folders or two files the second has no smaller
-- name in lower case.
abbrev pub InOrder : (Text → Text) → RemoteEntry → RemoteEntry → Type 0
InOrder lower x y =
    (y.is_dir ≡ true → x.is_dir ≡ true)
    × (x.is_dir ≡ y.is_dir → text_lt (lower y.name) (lower x.name) ≡ false)

abbrev pub IsSorted : (Text → Text) → List RemoteEntry → Type 0
IsSorted lower [] = Unit
IsSorted lower (x ∷ []) = Unit
IsSorted lower (x ∷ y ∷ ys) = InOrder lower x y × IsSorted lower (y ∷ ys)

module _ (lower : Text → Text) where
  precedes_asymm : (a b : RemoteEntry) → precedes lower a b ≡ true → precedes lower b a ≡ false
  unfolding precedes
  precedes_asymm a b h = ground (arith, text_lt_asymm (lower a.name) (lower b.name))

  insert_sorted-IsOrdered :
      (x : RemoteEntry) (ys : List RemoteEntry)
      → IsOrdered lower ys
      → IsOrdered lower (insert_sorted lower x ys)
  unfolding insert_sorted
  insert_sorted-IsOrdered x [] o = tt
  insert_sorted-IsOrdered x (y ∷ []) o = elim (Bool-cases (precedes lower y x)) [
    | inl e ↦ rw e (precedes_asymm y x e, tt)
    | inr n ↦ rw n (n, tt)
  ]
  insert_sorted-IsOrdered x (y ∷ z ∷ ys) (p, o) =
      let rest = insert_sorted-IsOrdered x (z ∷ ys) o in
      elim (Bool-cases (precedes lower y x)) [
        | inr n ↦ rw n (n, (p, o))
        | inl e ↦ elim (Bool-cases (precedes lower z x)) [
          | inr n ↦ rw e (rw n (precedes_asymm y x e, (n, o)))
          | inl f ↦ rw e (rw f (p, rw f at rest))
        ]
      ]

  sort_entries-IsOrdered : (xs : List RemoteEntry) → IsOrdered lower (sort_entries lower xs)
  unfolding sort_entries
  sort_entries-IsOrdered [] = tt
  sort_entries-IsOrdered (x ∷ xs) =
      insert_sorted-IsOrdered x (sort_entries lower xs) (sort_entries-IsOrdered xs)

  precedes-InOrder : (x y : RemoteEntry) → precedes lower y x ≡ false → InOrder lower x y
  unfolding precedes
  precedes-InOrder x y h = (λ d. ground arith, λ same. ground arith)

  IsOrdered-IsSorted : (xs : List RemoteEntry) → IsOrdered lower xs → IsSorted lower xs
  IsOrdered-IsSorted [] o = tt
  IsOrdered-IsSorted (x ∷ []) o = tt
  IsOrdered-IsSorted (x ∷ y ∷ ys) (p, o) = (precedes-InOrder x y p, IsOrdered-IsSorted (y ∷ ys) o)

  pub sort_entries-IsSorted : (xs : List RemoteEntry) → IsSorted lower (sort_entries lower xs)
  sort_entries-IsSorted xs = IsOrdered-IsSorted (sort_entries lower xs) (sort_entries-IsOrdered xs)

  -- A sort keeps what a function makes of the entries, up to their order.
  map-insert_sorted-Perm :
      {B : Type 0} (f : RemoteEntry → B) (x : RemoteEntry) (ys : List RemoteEntry)
      → Perm (map f (insert_sorted lower x ys)) (f x ∷ map f ys)
  unfolding insert_sorted
  map-insert_sorted-Perm f x [] = Perm.refl (f x ∷ [])
  map-insert_sorted-Perm f x (y ∷ ys) = elim (Bool-cases (precedes lower y x)) [
    | inl e ↦ rw e (
        Perm.trans (Perm.cons (f y) (map-insert_sorted-Perm f x ys))
          (Perm.swap (f x) (f y) (map f ys)))
    | inr n ↦ rw n (Perm.refl (f x ∷ f y ∷ map f ys))
  ]

  pub map-sort_entries-Perm :
      {B : Type 0} (f : RemoteEntry → B) (xs : List RemoteEntry)
      → Perm (map f (sort_entries lower xs)) (map f xs)
  unfolding sort_entries
  map-sort_entries-Perm f [] = Perm.nil
  map-sort_entries-Perm f (x ∷ xs) =
      Perm.trans (map-insert_sorted-Perm f x (sort_entries lower xs))
        (Perm.cons (f x) (map-sort_entries-Perm f xs))
