-- ===== src/Tests/Watchdog.antt =====
-- The watchdog over a transfer that hangs, and retries of one that stalls.
use rabbit_storage_explorer.Base.{
  ℕ, ◌+◌, ◌≤◌, ◌≡◌, ◌⊎◌, inl, inr, refl, true, false, List, [], ◌∷◌, ◌++◌, none, some, arith, zero,
  suc, ok, err, Result, stalled, Error,
}
use rabbit_storage_explorer.Transfer.Watchdog.{Poll, guard_stall, watch_all, watch, idle_of}
use rabbit_storage_explorer.Transfer.Watchdog.Stalls.{Stretch, guard_stall-stuck, guard_stall-only}
use rabbit_storage_explorer.Transfer.Retry.{retry, recover, count_stalls}
use rabbit_storage_explorer.Transfer.Retry.Laws.{retry_bound, retry_succeeds}

abbrev sees : ℕ → ℕ → Poll
sees now n = record { now = now; bytes = some n; unlimited = true }

abbrev moving : List Poll
moving = sees 2000 100 ∷ sees 4000 200 ∷ []

abbrev hanging : List Poll
hanging = sees 8000 300 ∷ sees 10000 300 ∷ []

guard_stall-stuck_example :
    (secs : ℕ) × (guard_stall 7 1000
        (some 0)
        (moving ++ (sees 6000 300 ∷ sees 8000 300 ∷ (sees 10000 300 ∷ []) ++ (sees 16000 300 ∷ [])))
      ≡ some secs)
unfolding idle_of
guard_stall-stuck_example =
    guard_stall-stuck 7 1000 300 (some 0) moving (sees 6000 300) (sees 8000 300)
      (sees 10000 300 ∷ []) (sees 16000 300) (omega arith) (omega arith, (omega arith, tt))
      (omega arith) (refl, (refl, (refl, (refl, tt)))) (omega arith)

fires : guard_stall 7 1000 none (sees 2000 300 ∷ sees 4000 300 ∷ sees 12000 300 ∷ []) ≡ some 7
unfolding guard_stall watch_all watch idle_of
fires = refl

guard_stall-only_example :
    Stretch (idle_of 7) 1000 (sees 2000 300 ∷ sees 4000 300 ∷ sees 12000 300 ∷ []) 7
guard_stall-only_example =
    guard_stall-only 7 1000 7 none (sees 2000 300 ∷ sees 4000 300 ∷ sees 12000 300 ∷ []) fires

-- A transfer that always stalls; the state counts its attempts.
abbrev stalling : ℕ → Result (Unit {0}) × ℕ
stalling n = (err (stalled 7), n + 1)

retry_bound_example :
    (retry (λ n. n) (λ n. n) true (λ k. false) (λ n. stalling) 3 0 0 0).1 ≤ 0 + 3 + 1
retry_bound_example =
    retry_bound (λ n. n) (λ n. n) true (λ k. false) (λ n. stalling) (λ n. n) (λ n. refl) (λ n. refl)
      (λ k n. refl) 3 0 0 0

four_attempts :
    retry (λ n. n) (λ n. n) true (λ k. false) (λ n. stalling) 3 0 0 0 ≡ (err (stalled 7), 4)
unfolding retry recover count_stalls
four_attempts = refl

-- One that stalls as long as there is a failure to come; the state counts those.
abbrev healing : ℕ → Result (Unit {0}) × ℕ
healing zero = (ok tt, 0)
healing (suc n) = (err (stalled 7), n)

healing_attempt :
    (f s : ℕ)
    → f ≡ s
    → (((healing s).0 ≡ ok tt) × ((healing s).1 ≡ 0))
      ⊎ ((g : ℕ) × (e : Error) × (f ≡ suc g)
          × ((healing s).0 ≡ err e)
          × (g ≡ (healing s).1)
          × (g ≡ (healing s).1))
healing_attempt f zero h = inl (refl, refl)
healing_attempt f (suc n) h = inr (n, stalled 7, h, refl, refl, refl)

retry_succeeds_example :
    let (r, s') = retry (λ n. n) (λ n. n) true (λ k. false) (λ n. healing) 3 0 0 2 in
    (r ≡ ok tt) × (s' ≡ 0)
retry_succeeds_example =
    retry_succeeds (λ n. n) (λ n. n) true (λ k. false) (λ n. healing) (λ f s. f ≡ s) (λ s. s ≡ 0)
      (λ k. refl) (λ n. healing_attempt) 3 0 0 2 2 refl (omega arith)
