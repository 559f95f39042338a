-- ===== src/Base/Dict.antt =====
-- `BTreeMap<String, V>`: an association list in the order of its keys. A `HashMap` is modelled by
-- the same list, whose order is one of those in which it may be iterated.
use mathlib.Core.Path.{◌≡◌, refl, ap}
use mathlib.Core.Logic.{inl, inr}
use mathlib.Core.Bool.{false}
use mathlib.Core.Option.{Option, none, some}
use mathlib.Core.List.{List, [], ◌∷◌}
use native.Mathlib.Omega.{arith}
use rabbit_storage_explorer.Base.Tests.{if◌then◌else◌, Bool-cases}
use rabbit_storage_explorer.Base.Texts.{Text, text_eq, text_eq_iff, text_eq_refl, text_lt}

abbrev pub Dict {ℓ} : Type ℓ → Type ℓ
Dict V = List (Text × V)

module _ {ℓ} {V : Type ℓ} where
  unfoldable pub get : Dict V → Text → Option V
  get [] k = none
  get ((j, v) ∷ m) k = if text_eq j k then some v else get m k

  unfoldable pub insert : Dict V → Text → V → Dict V
  insert [] k v = (k, v) ∷ []
  insert ((j, w) ∷ m) k v =
      if text_eq j k
      then (k, v) ∷ m
      else if text_lt k j
      then (k, v) ∷ (j, w) ∷ m
      else (j, w) ∷ insert m k v

  unfoldable pub remove : Dict V → Text → Dict V
  remove [] k = []
  remove ((j, w) ∷ m) k = let rest = remove m k in if text_eq j k then rest else (j, w) ∷ rest

  pub get-insert :
      (m : Dict V) (k j : Text) (v : V)
      → get (insert m k v) j ≡ (if text_eq k j then some v else get m j)
  unfolding get insert
  get-insert [] k j v = refl
  get-insert ((i, w) ∷ m) k j v =
      ground (arith, text_eq_iff i k, text_eq_iff i j, text_eq_iff k j, get-insert m k j v)

  pub get-remove :
      (m : Dict V) (k j : Text) → get (remove m k) j ≡ (if text_eq k j then none else get m j)
  unfolding get remove
  get-remove [] k j = ground arith
  get-remove ((i, w) ∷ m) k j =
      ground (arith, text_eq_iff i k, text_eq_iff i j, text_eq_iff k j, get-remove m k j)

  pub get-insert_same : (m : Dict V) (k : Text) (v : V) → get (insert m k v) k ≡ some v
  get-insert_same m k v = rw (get-insert m k k v, text_eq_refl k) refl

  pub get-insert_other :
      (m : Dict V) (k j : Text) (v : V) → text_eq k j ≡ false → get (insert m k v) j ≡ get m j
  get-insert_other m k j v h = rw (get-insert m k j v, h) refl

  pub remove_absent : (m : Dict V) (k : Text) → get m k ≡ none → remove m k ≡ m
  unfolding get remove
  remove_absent [] k h = refl
  remove_absent ((i, w) ∷ m) k h = elim (Bool-cases (text_eq i k)) [
    | inl e ↦ ground arith
    | inr n ↦ rw n (ap (λ rest. (i, w) ∷ rest) (remove_absent m k (rw (get, n) at h)))
  ]

pub ruleset dict_laws = (get-insert, get-remove)
