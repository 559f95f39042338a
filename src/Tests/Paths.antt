-- ===== src/Tests/Paths.antt =====
-- Keys and paths at small data.
use rabbit_storage_explorer.Base.{◌≡◌, refl, [], ◌∷◌, ◌++◌, arith, Text, text, text_eq}
use rabbit_storage_explorer.Paths.{split_slash, sanitize_rel, normalized, keep_normal}
use rabbit_storage_explorer.Paths.Safety.{resolve, resolve-sanitize_rel, IsName, All}

hostile :
    sanitize_rel (0x5c ∷ text "a/../etc//./passwd") ≡ text "a" ∷ text "etc" ∷ text "passwd" ∷ []
unfolding sanitize_rel normalized split_slash keep_normal text_eq
hostile = refl

resolve-sanitize_rel_example :
    resolve (text "tmp" ∷ text "dl" ∷ []) (sanitize_rel (text "../../etc/passwd"))
    ≡ (text "tmp" ∷ text "dl" ∷ []) ++ sanitize_rel (text "../../etc/passwd")
resolve-sanitize_rel_example =
    resolve-sanitize_rel (text "tmp" ∷ text "dl" ∷ []) (text "../../etc/passwd")

abbrev plain_key : Text
plain_key = text "docs/a.txt"

plain_names : All IsName (split_slash plain_key)
unfolding split_slash
plain_names = (
  record {
    some_byte = λ e. ground arith;
    not_here = λ e. ground arith;
    not_up = λ e. ground arith;
    no_slash = omega arith;
    no_backslash = omega arith;
  },
  (
    record {
      some_byte = λ e. ground arith;
      not_here = λ e. ground arith;
      not_up = λ e. ground arith;
      no_slash = omega arith;
      no_backslash = omega arith;
    },
    tt,
  ),
)
