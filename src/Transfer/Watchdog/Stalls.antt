-- ===== src/Transfer/Watchdog/Stalls.antt =====
-- When the watchdog of a transfer fires.
use mathlib.Core.Option.{some-injective}
use rabbit_storage_explorer.Base.{
  ℕ, ◌+◌, ◌-◌, ◌/◌, ◌≤◌, ◌<◌, ◌≡◌, ◌⊎◌, refl, sym, ap, ◌∙◌, true, false, ◌&&◌, Option, none, some,
  List, [], ◌∷◌, ◌++◌, ltb, leb, ◌==◌, arith, Bool-cases, inl, inr,
}
use rabbit_storage_explorer.Transfer.Watchdog.{
  Poll, Watch, idle_of, unwrap_or, budget, idled, watch, or_on, watch_all, guard_stall,
}

-- Each poll sees the same count of bytes.
abbrev pub IsStuck : ℕ → List Poll → Type 0
IsStuck n [] = Unit
IsStuck n (p ∷ ps) = (p.bytes ≡ some n) × IsStuck n ps

or_on_assoc : (a b c : Option ℕ) → or_on a (or_on b c) ≡ or_on (or_on a b) c
or_on_assoc none b c = refl
or_on_assoc (some x) b c = refl

-- The clock has not gone back behind the time that the watchdog waits from.
abbrev IsEarly : ℕ → Option ℕ → Type 0
IsEarly bound none = Unit
IsEarly bound (some t) = t ≤ bound

abbrev pub AllEarly : ℕ → List Poll → Type 0
AllEarly bound [] = Unit
AllEarly bound (p ∷ ps) = (p.now ≤ bound) × AllEarly bound ps

module _ (idle total : ℕ) where
  -- While the count stands at `n`, from the time `t` on.
  waiting :
      (n t : ℕ) (ps : List Poll) (last : Poll)
      → n < total
      → IsStuck n ps
      → last.bytes ≡ some n
      → budget idle last ≤ last.now - t
      → (b : ℕ) × (watch_all idle total
            (record { seen = n; idle_since = some t })
            (ps ++ (last ∷ []))
          ≡ some b)
  unfolding watch_all watch
  waiting n t [] last lt stuck at late =
      let e : (ltb 0 total && leb total n) ≡ false = ground arith in
      let same : (n == n) ≡ true = ground arith in
      let over : leb (budget idle last) (last.now - t) ≡ true = ground (arith, late) in
      (budget idle last / 1000, rw (at, e, same, over) refl)
  waiting n t (p ∷ ps) last lt (here, stuck) at late =
      let (b, fires) = waiting n t ps last lt stuck at late in
      let e : (ltb 0 total && leb total n) ≡ false = ground arith in
      let same : (n == n) ≡ true = ground arith in
      elim (Bool-cases (leb (budget idle p) (p.now - t))) [
        | inl y ↦ (budget idle p / 1000, rw (here, e, same, y) refl)
        | inr y ↦ (b, rw (here, e, same, y) fires)
      ]

  idled-IsEarly :
      (bound now : ℕ) (o : Option ℕ) (p : Poll)
      → IsEarly bound o
      → p.now ≤ bound
      → IsEarly bound (idled idle o now p).1.idle_since
  idled-IsEarly bound now none p early le = le
  idled-IsEarly bound now (some t) p early le =
      elim (Bool-cases (leb (budget idle p) (p.now - t))) [
        | inl y ↦ rw y early
        | inr n ↦ rw n early
      ]

  watch-IsEarly :
      (bound : ℕ) (p : Poll) (w : Watch)
      → IsEarly bound w.idle_since
      → p.now ≤ bound
      → IsEarly bound (watch idle total p w).1.idle_since
  unfolding watch
  watch-IsEarly bound p w early le =
      let now = unwrap_or p.bytes w.seen in
      elim (Bool-cases (ltb 0 total && leb total now)) [
        | inl y ↦ rw y tt
        | inr n ↦ elim (Bool-cases (now == w.seen)) [
          | inl y ↦ rw n (rw y (idled-IsEarly bound now w.idle_since p early le))
          | inr m ↦ rw n (rw m tt)
        ]
      ]

  watch_all-append :
      (bound : ℕ) (pre qs : List Poll) (w : Watch)
      → IsEarly bound w.idle_since
      → AllEarly bound pre
      → (w' : Watch) × IsEarly bound w'.idle_since
        × (watch_all idle total w (pre ++ qs)
            ≡ or_on (watch_all idle total w pre) (watch_all idle total w' qs))
  unfolding watch_all
  watch_all-append bound [] qs w early all = (w, early, refl)
  watch_all-append bound (p ∷ pre) qs w early (le, all) =
      let (fired, w1) = watch idle total p w in
      let (w', early', split) =
        watch_all-append bound pre qs w1 (watch-IsEarly bound p w early le) all in
      (
        w',
        early',
        ap (or_on fired) split
            ∙ or_on_assoc fired (watch_all idle total w1 pre) (watch_all idle total w' qs),
      )

  -- After two polls that saw the same count, it waits from the second one on at the latest.
  wedged :
      (n : ℕ) (a b : Poll) (ps : List Poll) (last : Poll) (seen : ℕ) (o : Option ℕ)
      → n < total
      → IsStuck n (a ∷ b ∷ ps)
      → last.bytes ≡ some n
      → IsEarly a.now o
      → a.now ≤ b.now
      → budget idle last + b.now ≤ last.now
      → (secs : ℕ) × (watch_all idle total
            (record { seen = seen; idle_since = o })
            (a ∷ b ∷ ps ++ (last ∷ []))
          ≡ some secs)
  unfolding watch_all watch
  wedged n a b ps last seen o lt (here, (next, stuck)) at early order late =
      let e : (ltb 0 total && leb total n) ≡ false = ground arith in
      let same : (n == n) ≡ true = ground arith in
      elim (Bool-cases (n == seen)) [
        | inr changed ↦
            let (s, fires) = waiting n b.now ps last lt stuck at (omega (arith, late)) in
            (s, rw (here, e, changed, next, e, same) fires)
        | inl still ↦ still_wedged o early still e
      ]
    where
      still_wedged :
          (o : Option ℕ)
          → IsEarly a.now o
          → (n == seen) ≡ true
          → (ltb 0 total && leb total n) ≡ false
          → (secs : ℕ) × (watch_all idle total
                (record { seen = seen; idle_since = o })
                (a ∷ b ∷ ps ++ (last ∷ []))
              ≡ some secs)
      still_wedged none early still e =
          let (s, fires) =
            waiting n a.now (b ∷ ps) last lt (next, stuck) at (omega (arith, late)) in
          (s, rw (here, e, still) fires)
      still_wedged (some t) early still e = elim (Bool-cases (leb (budget idle a) (a.now - t))) [
        | inl y ↦ (budget idle a / 1000, rw (here, e, still, y) refl)
        | inr y ↦
            let (s, fires) = waiting n t (b ∷ ps) last lt (next, stuck) at (omega (arith, late)) in
            (s, rw (here, e, still, y) fires)
      ]

-- Where the bytes of a file stop at a count below its total, the watchdog fires, whatever the polls
-- before: by the first poll that comes the budget later than the second of two polls that saw that
-- count, if the clock does not go back up to there.
pub guard_stall-stuck :
    (timeout total n : ℕ) (first : Option ℕ) (pre : List Poll) (a b : Poll) (ps : List Poll)
    (last : Poll)
    → n < total
    → AllEarly a.now pre
    → a.now ≤ b.now
    → IsStuck n (a ∷ b ∷ ps ++ (last ∷ []))
    → budget (idle_of timeout) last + b.now ≤ last.now
    → (secs : ℕ) × (guard_stall timeout total first (pre ++ (a ∷ b ∷ ps ++ (last ∷ [])))
        ≡ some secs)
unfolding guard_stall
guard_stall-stuck timeout total n first pre a b ps last lt earlier order (here, (next, all)) late =
    let (stuck, at) = stuck_before n ps last all in
    let (w, early, split) =
      watch_all-append (idle_of timeout) total a.now pre (a ∷ b ∷ ps ++ (last ∷ []))
        (record { seen = unwrap_or first 0; idle_since = none }) tt earlier in
    let (s, fires) =
      wedged (idle_of timeout) total n a b ps last w.seen w.idle_since lt (here, (next, stuck)) at
        early order late in
    let (secs, either) =
      or_on_some
        (watch_all (idle_of timeout) total (record { seen = unwrap_or first 0; idle_since = none })
          pre)
        s in
    (secs, split ∙ ap (or_on _) fires ∙ either)
  where
    stuck_before :
        (n : ℕ) (ps : List Poll) (last : Poll)
        → IsStuck n (ps ++ (last ∷ []))
        → IsStuck n ps × (last.bytes ≡ some n)
    stuck_before n [] last (at, all) = (tt, at)
    stuck_before n (p ∷ ps) last (at, all) = let (s, e) = stuck_before n ps last all in ((at, s), e)

    or_on_some : (o : Option ℕ) (s : ℕ) → (secs : ℕ) × (or_on o (some s) ≡ some secs)
    or_on_some none s = (s, refl)
    or_on_some (some t) s = (t, refl)

-- What a poll counts, where `seen` bytes were seen last.
abbrev Sees : ℕ → Poll → Type 0
Sees n p = unwrap_or p.bytes n ≡ n

abbrev AllSee : ℕ → List Poll → Type 0
AllSee n [] = Unit
AllSee n (p ∷ ps) = Sees n p × AllSee n ps

module _ (idle total : ℕ) where
  -- The count stands at `n` up to a poll that comes the budget after the time `t`.
  abbrev Overdue : ℕ → ℕ → List Poll → ℕ → Type 0
  Overdue t n polls secs =
      (mid : List Poll) × (last : Poll) × (post : List Poll) × (polls ≡ mid ++ (last ∷ post))
      × AllSee n mid
      × Sees n last
      × (budget idle last ≤ last.now - t)
      × (0 < total → n < total)
      × (secs ≡ budget idle last / 1000)

  abbrev pub Stretch : List Poll → ℕ → Type 0
  Stretch polls secs =
      (pre : List Poll) × (a : Poll) × (rest : List Poll) × (n : ℕ) × (polls ≡ pre ++ (a ∷ rest))
      × Sees n a
      × Overdue a.now n rest secs

  abbrev Explained : Option ℕ → ℕ → List Poll → ℕ → Type 0
  Explained none n polls secs = Stretch polls secs
  Explained (some t) n polls secs = Overdue t n polls secs ⊎ Stretch polls secs

  longer : (p : Poll) (ps : List Poll) (secs : ℕ) → Stretch ps secs → Stretch (p ∷ ps) secs
  longer p ps secs (pre, a, rest, n, split, sees, late) =
      (p ∷ pre, a, rest, n, ap (λ qs. p ∷ qs) split, sees, late)

  longer-Overdue :
      (p : Poll) (ps : List Poll) (t n secs : ℕ)
      → Sees n p
      → Overdue t n ps secs
      → Overdue t n (p ∷ ps) secs
  longer-Overdue p ps t n secs here (mid, last, post, split, see, sees, late, below, e) =
      (p ∷ mid, last, post, ap (λ qs. p ∷ qs) split, (here, see), sees, late, below, e)

  in_either : (o : Option ℕ) (n secs : ℕ) (ps : List Poll) → Stretch ps secs → Explained o n ps secs
  in_either none n secs ps s = s
  in_either (some t) n secs ps s = inr s

  sees_again :
      (p : Poll) (seen : ℕ)
      → (unwrap_or p.bytes seen == seen) ≡ true
      → unwrap_or p.bytes seen ≡ seen
  sees_again p seen h = ground arith

  -- A poll that sees no change, given what later polls come to.
  still :
      (p : Poll) (ps : List Poll) (seen secs : ℕ) (o : Option ℕ)
      → ((o' : Option ℕ)
          → watch_all idle total (record { seen = seen; idle_since = o' }) ps ≡ some secs
          → Explained o' seen ps secs)
      → Sees seen p
      → (0 < total → seen < total)
      → or_on (idled idle o seen p).0 (watch_all idle total (idled idle o seen p).1 ps) ≡ some secs
      → Explained o seen (p ∷ ps) secs
  still p ps seen secs none later here below h = elim (later (some p.now) h) [
    | inl late ↦ ([], p, ps, seen, refl, here, late)
    | inr s ↦ longer p ps secs s
  ]
  still p ps seen secs (some t) later here below h =
      elim (Bool-cases (leb (budget idle p) (p.now - t))) [
        | inl y ↦
            inl
              ([], p, ps, refl, tt, here, ground arith, below, some-injective _ _ (sym (rw y at h)))
        | inr n ↦ elim (later (some t) (rw n at h)) [
          | inl late ↦ inl (longer-Overdue p ps t seen secs here late)
          | inr s ↦ inr (longer p ps secs s)
        ]
      ]

  fires_why :
      (ps : List Poll) (seen : ℕ) (o : Option ℕ) (secs : ℕ)
      → watch_all idle total (record { seen = seen; idle_since = o }) ps ≡ some secs
      → Explained o seen ps secs
  unfolding watch_all watch
  fires_why [] seen o secs h = cc
  fires_why (p ∷ ps) seen o secs h =
      let now = unwrap_or p.bytes seen in
      elim (Bool-cases (ltb 0 total && leb total now)) [
        | inl y ↦
            in_either o seen secs (p ∷ ps)
              (longer p ps secs (fires_why ps now none secs (rw y at h)))
        | inr below ↦ elim (Bool-cases (now == seen)) [
          | inr m ↦
              in_either o seen secs (p ∷ ps)
                (longer p ps secs (fires_why ps now none secs (rw m at (rw below at h))))
          | inl e ↦
              let here = sees_again p seen e in
              still p ps seen secs o (λ o'. fires_why ps seen o' secs) here (ground arith)
                (rw here at (rw e at (rw below at h)))
        ]
      ]

-- The watchdog fires only at a poll that saw the same count as a poll before it and all those between, with at
-- least the budget between the two, and below the total if that is not 0; it then reports that
-- budget in seconds.
pub guard_stall-only :
    (timeout total secs : ℕ) (first : Option ℕ) (polls : List Poll)
    → guard_stall timeout total first polls ≡ some secs
    → Stretch (idle_of timeout) total polls secs
unfolding guard_stall
guard_stall-only timeout total secs first polls h =
    fires_why (idle_of timeout) total polls (unwrap_or first 0) none secs h
