-- ===== src/Tests/Rate.antt =====
-- The rate limiter at small data.
use rabbit_storage_explorer.Base.{◌+◌, ◌*◌, ◌-◌, ◌≤◌, ◌≡◌, refl, none, [], ◌∷◌, arith}
use rabbit_storage_explorer.Crypto.Layout.{cipher_chunk}
use rabbit_storage_explorer.RateLimit.{RateLimiter, wait, acquire, poll, mbps_to_bps, nano}
use rabbit_storage_explorer.RateLimit.Progress.{acquire-cipher_chunk}
use rabbit_storage_explorer.RateLimit.Bounds.{run, run_bound}

-- 1 MB/s, an empty bucket, at time 0.
abbrev slow : RateLimiter
slow = record { rate = 1000000; tokens = 0; last_refill = 0 }

acquire-cipher_chunk_example : acquire slow cipher_chunk (5 ∷ 7000000000 ∷ []) ≡ none
unfolding mbps_to_bps
acquire-cipher_chunk_example =
    acquire-cipher_chunk 8 (5 ∷ 7000000000 ∷ []) slow (omega arith) (omega arith) refl

-- The test `paces_to_rate`: 200 KB wait for a fifth of a second.
paced : (poll slow 200000 0).0 ≡ wait 200000000000000
unfolding poll
paced = refl

run_bound_example :
    (run slow ((200000, 0) ∷ (200000, 200000000) ∷ [])).0 * nano
      + (run slow ((200000, 0) ∷ (200000, 200000000) ∷ [])).1.tokens
    ≤ slow.tokens + (300000000 - slow.last_refill) * slow.rate
run_bound_example =
    run_bound ((200000, 0) ∷ (200000, 200000000) ∷ []) slow 300000000 (omega arith) (omega arith)
