-- ===== src/RateLimit.antt =====
-- The token bucket of src/ratelimit.rs. The source counts tokens in bytes as f64; here they are
-- counted in billionths of a byte, so that a refill of `elapsed` nanoseconds at `rate` bytes a
-- second is exactly `elapsed * rate`, with no rounding. The clock is an argument of each poll.
pub mod Bounds
pub mod Progress
use rabbit_storage_explorer.Base.{
  ℕ, zero, suc, ◌+◌, ◌-◌, ◌*◌, min, max, Bool, true, false, Option, none, some, List, [], ◌∷◌, ltb,
  leb, ◌==◌, if◌then◌else◌, u64_mod,
}

-- BURST_FLOOR, 1024.0 * 1024.0 bytes.
abbrev pub burst_floor : ℕ
burst_floor = 1048576

-- Units of tokens in a byte, and nanoseconds in a second.
abbrev pub nano : ℕ
nano = 1000000000

-- `rate` in bytes a second, 0 for no limit; the fields of `Bucket` stand beside it.
pub record RateLimiter : Type 0 where
  pub rate : ℕ
  pub tokens : ℕ
  pub last_refill : ℕ

unfoldable pub new : ℕ → ℕ → RateLimiter
new bytes_per_sec now = record { rate = bytes_per_sec; tokens = 0; last_refill = now }

unfoldable pub is_unlimited : RateLimiter → Bool
is_unlimited l = l.rate == 0

unfoldable pub set_rate : RateLimiter → ℕ → RateLimiter
set_rate l bytes_per_sec = record l { rate = bytes_per_sec }

-- Granted, or the deficit to sleep for: `wait d` is a sleep of `d / rate` nanoseconds.
pub data Outcome : Type 0 where
  granted : Outcome
  wait : ℕ → Outcome

abbrev pub capacity : ℕ → ℕ
capacity rate = max rate burst_floor * nano

-- The refill of an iteration: `duration_since` is 0 if the clock went back.
abbrev pub refilled : RateLimiter → ℕ → ℕ
refilled l now = min (l.tokens + (now - l.last_refill) * l.rate) (capacity l.rate)

-- One iteration of the loop of `acquire` for `n` bytes, at the time `now`.
unfoldable pub poll : RateLimiter → ℕ → ℕ → Outcome × RateLimiter
poll l n now =
    if l.rate == 0
    then (granted, l)
    else let b = refilled l now in
      let need = n * nano in
      if leb need b
      then (granted, record l { tokens = b - need; last_refill = now })
      else (wait (need - b), record l { tokens = b; last_refill = now })

-- `acquire`: polls at the given times, until one grants. `none` if it waits after all of them.
abbrev pub or_later : Outcome → RateLimiter → Option RateLimiter → Option RateLimiter
or_later granted l rest = some l
or_later (wait d) l rest = rest

unfoldable pub acquire : RateLimiter → ℕ → List ℕ → Option RateLimiter
acquire l n [] = none
acquire l n (now ∷ times) =
    let (o, l') = poll l n now in let rest = acquire l' n times in or_later o l' rest

-- `mbps_to_bps` of src/worker.rs: `saturating_mul` on u64.
unfoldable pub mbps_to_bps : ℕ → ℕ
mbps_to_bps mbps = min (mbps * 125000) (u64_mod - 1)
