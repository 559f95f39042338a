-- ===== src/RateLimit/Progress.antt =====
-- When a request is granted at last, and when never.
use rabbit_storage_explorer.Base.{
  ℕ, ◌+◌, ◌-◌, ◌*◌, ◌≤◌, ◌<◌, ◌≡◌, ◌≢◌, refl, max, true, false, none, some, List, [], ◌∷◌, arith,
  leb, lt→leb, le→leb, ◌==◌,
}
use rabbit_storage_explorer.Crypto.Layout.{cipher_chunk}
use rabbit_storage_explorer.RateLimit.{
  RateLimiter, wait, burst_floor, nano, refilled, poll, acquire, mbps_to_bps,
}

abbrev refill : RateLimiter → ℕ → RateLimiter
refill l now = record l { tokens = refilled l now; last_refill = now }

-- A request above the capacity waits, whatever the bucket holds and however long it has filled.
poll_above :
    (l : RateLimiter) (n now : ℕ)
    → l.rate ≢ 0
    → max l.rate burst_floor < n
    → poll l n now ≡ (wait (n * nano - refilled l now), refill l now)
unfolding poll
poll_above l n now h above =
    let off : (l.rate == 0) ≡ false = ground arith in
    let short : leb (n * nano) (refilled l now) ≡ false =
      lt→leb (refilled l now) (n * nano) (omega arith) in
    rw (off, short)

-- `acquire(n)` of more bytes than max(rate, 1 MiB), under a limit, returns at no time: whatever the
-- bucket holds, no sequence of polls grants it.
pub acquire_above :
    (times : List ℕ) (l : RateLimiter) (n : ℕ)
    → l.rate ≢ 0
    → max l.rate burst_floor < n
    → acquire l n times ≡ none
unfolding acquire
acquire_above [] l n h above = refl
acquire_above (now ∷ times) l n h above =
    rw (poll_above l n now h above) (acquire_above times (refill l now) n h above)

-- Under a download limit of 1 to 8 Mbps, `acquire` of one full encrypted chunk, which is what
-- `download_one` asks for, returns at no time.
pub acquire-cipher_chunk :
    (mbps : ℕ) (times : List ℕ) (l : RateLimiter)
    → 1 ≤ mbps
    → mbps ≤ 8
    → l.rate ≡ mbps_to_bps mbps
    → acquire l cipher_chunk times ≡ none
unfolding mbps_to_bps
acquire-cipher_chunk mbps times l some_limit low e =
    acquire_above times l cipher_chunk (λ z. absurd (omega (arith, e, z))) (omega (arith, e))

-- What a poll that waits found.
poll_waits :
    (l : RateLimiter) (n now deficit : ℕ)
    → (poll l n now).0 ≡ wait deficit
    → (refilled l now < n * nano) × (refilled l now + deficit ≡ n * nano)
unfolding poll
poll_waits l n now deficit h = ground arith

-- `acquire(n)` of at most max(rate, 1 MiB) bytes under a limit: if the first poll waits, the bucket
-- keeps what it has, and any second poll after a sleep that refills the deficit grants the request.
pub acquire_within :
    (l : RateLimiter) (n now later deficit : ℕ)
    → l.rate ≢ 0
    → n ≤ max l.rate burst_floor
    → (poll l n now).0 ≡ wait deficit
    → deficit ≤ (later - now) * l.rate
    → acquire l n (now ∷ later ∷ [])
      ≡ some (record l { tokens = refilled (refill l now) later - n * nano; last_refill = later })
unfolding acquire poll
acquire_within l n now later deficit h within short slept =
    let off : (l.rate == 0) ≡ false = ground arith in
    let (less, sum) = poll_waits l n now deficit short in
    let unmet : leb (n * nano) (refilled l now) ≡ false = lt→leb _ _ less in
    let met : leb (n * nano) (refilled (refill l now) later) ≡ true = le→leb _ _ (omega arith) in
    rw (off, unmet, off, met)
