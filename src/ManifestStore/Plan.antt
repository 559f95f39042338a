-- ===== src/ManifestStore/Plan.antt =====
-- Which directories a flush writes: `FlushReason`, `FlushCandidate` and `FlushPlan::select`.
use rabbit_storage_explorer.Base.{
  ℕ, Bool, true, false, not, ◌&&◌, ◌||◌, Option, none, some, List, [], ◌∷◌, leb, ◌==◌,
  if◌then◌else◌, Text,
}

pub data FlushReason : Type 0 where
  timer forced : FlushReason

pub record FlushCandidate : Type 0 where
  pub dir : Text
  pub fingerprint : ℕ
  pub written_fingerprint : Option ℕ
  pub since_change : ℕ

abbrev pub is_forced : FlushReason → Bool
is_forced timer = false
is_forced forced = true

-- Some(fingerprint) != written_fingerprint
abbrev pub changed : ℕ → Option ℕ → Bool
changed fp none = true
changed fp (some written) = not (fp == written)

abbrev pub is_due : FlushReason → ℕ → FlushCandidate → Bool
is_due reason interval c =
    changed c.fingerprint c.written_fingerprint && (is_forced reason || leb interval c.since_change)

unfoldable pub select : FlushReason → ℕ → List FlushCandidate → List Text
select reason interval [] = []
select reason interval (c ∷ cs) =
    let rest = select reason interval cs in if is_due reason interval c then c.dir ∷ rest else rest
