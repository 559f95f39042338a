-- ===== src/Transfer/Watchdog.antt =====
-- `guard_stall` of src/worker.rs. Times are in milliseconds. The transfer runs beside the watchdog: a
-- poll is what the watchdog sees of it, and the polls of a run are those before the transfer returns.
pub mod Stalls
use rabbit_storage_explorer.Base.{
  ℕ, ◌*◌, ◌-◌, ◌/◌, ◌≤◌, ◌<◌, ◌≡◌, refl, max, Bool, true, false, ◌&&◌, Option, none, some, List, [],
  ◌∷◌, ◌++◌, ltb, leb, ◌==◌, if◌then◌else◌, arith, Bool-cases, inl, inr,
}

-- The counter of the file, if it has one, the clock, and whether the limiter has no limit.
pub record Poll : Type 0 where
  pub now : ℕ
  pub bytes : Option ℕ
  pub unlimited : Bool

-- The variables of the loop.
pub record Watch : Type 0 where
  pub seen : ℕ
  pub idle_since : Option ℕ

unfoldable pub idle_of : ℕ → ℕ
idle_of stall_timeout_secs = max (stall_timeout_secs * 1000) 5000

-- The sleep between two polls.
unfoldable pub poll_of : ℕ → ℕ
poll_of idle = max (idle / 4) 1000

abbrev pub unwrap_or : Option ℕ → ℕ → ℕ
unwrap_or none d = d
unwrap_or (some n) d = n

abbrev pub budget : ℕ → Poll → ℕ
budget idle p = if p.unlimited then idle else idle * 4

-- What an idle poll does: it begins to wait, or waits on, or gives up with its budget in seconds.
abbrev pub idled : ℕ → Option ℕ → ℕ → Poll → Option ℕ × Watch
idled idle none now p = (none, record { seen = now; idle_since = some p.now })
idled idle (some t) now p =
    if leb (budget idle p) (p.now - t)
    then (some (budget idle p / 1000), record { seen = now; idle_since = some t })
    else (none, record { seen = now; idle_since = some t })

unfoldable pub watch : ℕ → ℕ → Poll → Watch → Option ℕ × Watch
watch idle total p w =
    let now = unwrap_or p.bytes w.seen in
    if ltb 0 total && leb total now
    then (none, record { seen = now; idle_since = none })
    else if now == w.seen
    then idled idle w.idle_since now p
    else (none, record { seen = now; idle_since = none })

abbrev pub or_on : Option ℕ → Option ℕ → Option ℕ
or_on none rest = rest
or_on (some b) rest = some b

unfoldable pub watch_all : ℕ → ℕ → Watch → List Poll → Option ℕ
watch_all idle total w [] = none
watch_all idle total w (p ∷ ps) =
    let (fired, w') = watch idle total p w in
    let rest = watch_all idle total w' ps in or_on fired rest

-- The budget that `Stalled` carries, or none if the transfer returns first.
unfoldable pub guard_stall : ℕ → ℕ → Option ℕ → List Poll → Option ℕ
unfolding watch_all
guard_stall stall_timeout_secs total first polls =
    watch_all (idle_of stall_timeout_secs) total
      (record { seen = unwrap_or first 0; idle_since = none }) polls
