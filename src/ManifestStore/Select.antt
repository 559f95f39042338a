-- ===== src/ManifestStore/Select.antt =====
-- What `FlushPlan::select` of src/manifest_store.rs chooses.
use mathlib.Core.List.{Memᴰ}
use mathlib.Core.List.Memᴰ.{head, tail}
use rabbit_storage_explorer.Base.{
  ℕ, ◌≤◌, ◌≡◌, ◌≢◌, refl, sym, ap, subst, ◌↔◌, ◌⊎◌, inl, inr, true, Option, some, none, List, [],
  ◌∷◌, arith, Text, Bool-cases, ◌||◌, leb,
}
use rabbit_storage_explorer.ManifestStore.Plan.{
  FlushReason, timer, forced, FlushCandidate, is_due, select, changed, is_forced,
}

-- The manifest differs from the one written, and the flush is forced or the directory was quiet.
abbrev pub IsDue : FlushReason → ℕ → FlushCandidate → Type 0
IsDue reason interval c =
    (some c.fingerprint ≢ c.written_fingerprint) × ((reason ≡ forced) ⊎ (interval ≤ c.since_change))

changed_iff : (fp : ℕ) (written : Option ℕ) → (changed fp written ≡ true) ↔ (some fp ≢ written)
changed_iff fp none = ground arith
changed_iff fp (some w) = ground arith

in_time_iff :
    (reason : FlushReason) (interval since : ℕ)
    → ((is_forced reason || leb interval since) ≡ true) ↔ ((reason ≡ forced) ⊎ (interval ≤ since))
in_time_iff timer interval since = ground arith
in_time_iff forced interval since = ground arith

is_due_iff :
    (reason : FlushReason) (interval : ℕ) (c : FlushCandidate)
    → (is_due reason interval c ≡ true) ↔ IsDue reason interval c
is_due_iff reason interval c = ground (
  arith,
  changed_iff c.fingerprint c.written_fingerprint,
  in_time_iff reason interval c.since_change,
)

module _ (reason : FlushReason) (interval : ℕ) where
  chosen-IsDue :
      (cs : List FlushCandidate) (dir : Text)
      → Memᴰ dir (select reason interval cs)
      → (c : FlushCandidate) × Memᴰ c cs × (c.dir ≡ dir) × IsDue reason interval c
  unfolding select
  chosen-IsDue [] dir h = elim h [ ]
  chosen-IsDue (c ∷ cs) dir h = elim (Bool-cases (is_due reason interval c)) [
    | inl due ↦ elim (rw due at h) [
      | head e ↦ (c, head refl, sym e, (is_due_iff reason interval c).0 due)
      | tail m ↦ let (d, at, same, is) = chosen-IsDue cs dir m in (d, tail at, same, is)
    ]
    | inr idle ↦
        let (d, at, same, is) = chosen-IsDue cs dir (rw idle at h) in (d, tail at, same, is)
  ]

  IsDue-chosen :
      (cs : List FlushCandidate) (c : FlushCandidate)
      → Memᴰ c cs
      → IsDue reason interval c
      → Memᴰ c.dir (select reason interval cs)
  unfolding select
  IsDue-chosen [] c h is = elim h [ ]
  IsDue-chosen (d ∷ cs) c (head e) is =
      let due = (is_due_iff reason interval d).1 (subst (IsDue reason interval) e is) in
      rw due (head (ap (λ x. x.dir) e))
  IsDue-chosen (d ∷ cs) c (tail m) is = elim (Bool-cases (is_due reason interval d)) [
    | inl due ↦ rw due (tail (IsDue-chosen cs c m is))
    | inr idle ↦ rw idle (IsDue-chosen cs c m is)
  ]

  -- A directory is chosen exactly if some candidate for it differs from what was last written, and
  -- the flush is forced or the candidate has been quiet for the interval.
  pub select_iff :
      (cs : List FlushCandidate) (dir : Text)
      → Memᴰ dir (select reason interval cs)
        ↔ ((c : FlushCandidate) × Memᴰ c cs × (c.dir ≡ dir) × IsDue reason interval c)
  select_iff cs dir = (
    chosen-IsDue cs dir,
    λ (c, at, same, is).
        subst (λ d. Memᴰ d (select reason interval cs)) same (IsDue-chosen cs c at is),
  )
