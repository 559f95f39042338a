-- ===== src/RateLimit/Bounds.antt =====
-- The limit is one ceiling for all that share the bucket.
use rabbit_storage_explorer.Base.{ℕ, ◌+◌, ◌-◌, ◌*◌, ◌≤◌, ◌≡◌, ◌≢◌, sym, ◌∙◌, List, [], ◌∷◌, arith}
use rabbit_storage_explorer.RateLimit.{RateLimiter, Outcome, granted, wait, nano, capacity, poll}

-- The polls of all tasks in the order in which they take the lock: bytes asked for and time.
abbrev pub Polls : Type 0
Polls = List (ℕ × ℕ)

abbrev pub bytes_of : Outcome → ℕ → ℕ
bytes_of granted n = n
bytes_of (wait d) n = 0

-- The bytes granted by all of them, and the bucket after them.
unfoldable pub run : RateLimiter → Polls → ℕ × RateLimiter
run l [] = (0, l)
run l ((n, now) ∷ ps) =
    let (o, l') = poll l n now in let (total, last) = run l' ps in (bytes_of o n + total, last)

-- The clock does not go back, and ends by `end`.
abbrev pub InOrder : ℕ → Polls → ℕ → Type 0
InOrder start [] end = start ≤ end
InOrder start ((n, now) ∷ ps) end = (start ≤ now) × InOrder now ps end

poll_bound :
    (l : RateLimiter) (n now : ℕ)
    → l.rate ≢ 0
    → (bytes_of (poll l n now).0 n * nano + (poll l n now).1.tokens
        ≤ l.tokens + (now - l.last_refill) * l.rate)
      × ((poll l n now).1.last_refill ≡ now)
      × ((poll l n now).1.rate ≡ l.rate)
unfolding poll
poll_bound l n now h = ground arith

split_time : (a b c rate : ℕ) → a ≤ b → b ≤ c → (b - a) * rate + (c - b) * rate ≡ (c - a) * rate
split_time a b c rate p q = grind arith

InOrder-le : (start : ℕ) (ps : Polls) (end : ℕ) → InOrder start ps end → start ≤ end
InOrder-le start [] end h = h
InOrder-le start ((n, now) ∷ ps) end (p, h) = omega (arith, InOrder-le now ps end h)

-- Under a limit, whatever is asked for and by how many tasks: the bytes granted up to a time are at
-- most the tokens that the bucket held and what the rate refills in the meantime.
pub run_bound :
    (ps : Polls) (l : RateLimiter) (end : ℕ)
    → l.rate ≢ 0
    → InOrder l.last_refill ps end
    → (run l ps).0 * nano + (run l ps).1.tokens ≤ l.tokens + (end - l.last_refill) * l.rate
unfolding run
run_bound [] l end h order = omega arith
run_bound ((n, now) ∷ ps) l end h (p, order) =
    let l' = (poll l n now).1 in
    let (paid, stamp, same) = poll_bound l n now h in
    let rest = run_bound ps l' end (λ z. h (sym same ∙ z)) (rw stamp order) in
    let rest' : (run l' ps).0 * nano + (run l' ps).1.tokens ≤ l'.tokens + (end - now) * l.rate =
      rw (stamp, same) at rest in
    omega
      (arith, paid, rest', split_time l.last_refill now end l.rate p (InOrder-le now ps end order))

-- The capacity bounds the tokens held, and polling keeps it so.
pub poll-tokens :
    (l : RateLimiter) (n now : ℕ)
    → l.tokens ≤ capacity l.rate
    → (poll l n now).1.tokens ≤ capacity (poll l n now).1.rate
unfolding poll
poll-tokens l n now h = ground arith
