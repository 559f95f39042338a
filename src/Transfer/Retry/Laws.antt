-- ===== src/Transfer/Retry/Laws.antt =====
-- How often a transfer is tried, and that it succeeds if it does not fail too often.
use rabbit_storage_explorer.Base.{
  cancelled, ℕ, zero, suc, ◌+◌, ◌*◌, ◌≤◌, ◌≡◌, ◌⊎◌, inl, inr, refl, ap, Bool, true, false, ◌&&◌,
  leb, Result, ok, err, Error, arith, Bool-cases,
}
use rabbit_storage_explorer.Base.Exec.{Exec}
use rabbit_storage_explorer.Transfer.Retry.{count_stalls, recover, on_error, retry}

err-injective : {a b : Error} → Path (Result (Unit {0})) (err a) (err b) → a ≡ b
err-injective h = cc

unchecked : (b : Bool) → (b && false) ≡ false
unchecked true = refl
unchecked false = refl

on_ok :
    {S : Type 0} (again : Error → Exec S (Unit {0})) (r : Result (Unit {0}) × S)
    → r.0 ≡ ok tt
    → on_error again r ≡ r
on_ok again (ok done, s) h = refl
on_ok again (err e, s) h = cc

on_err :
    {S : Type 0} (again : Error → Exec S (Unit {0})) (r : Result (Unit {0}) × S) (e : Error)
    → r.0 ≡ err e
    → on_error again r ≡ again e r.1
on_err again (ok done, s) e h = cc
on_err again (err e', s) e h = ap (λ x. again x s) (err-injective h)

module _ {S : Type 0} (force_reconnect wait_until_healthy : S → S) (checks : Bool)
    (is_cancelled : ℕ → Bool) (op : ℕ → Exec S (Unit {0})) where
  module _ (tries : S → ℕ) (force_keeps : (s : S) → tries (force_reconnect s) ≡ tries s)
      (wait_keeps : (s : S) → tries (wait_until_healthy s) ≡ tries s)
      (op_once : (n : ℕ) (s : S) → tries (op n s).1 ≡ tries s + 1) where
    recover_keeps :
        (n : ℕ) (s : S) → tries (recover force_reconnect wait_until_healthy n s).1 ≡ tries s
    unfolding recover
    recover_keeps n s = elim (Bool-cases (leb 2 n)) [
      | inl e ↦ rw e (force_keeps s)
      | inr e ↦ rw e (wait_keeps s)
    ]

    on_error_bound :
        (again : Error → Exec S (Unit {0})) (r : Result (Unit {0}) × S) (bound : ℕ)
        → tries r.1 ≤ bound
        → ((e : Error) → tries (again e r.1).1 ≤ bound)
        → tries (on_error again r).1 ≤ bound
    on_error_bound again (ok done, s) bound h k = h
    on_error_bound again (err e, s) bound h k = k e

    -- Where each attempt adds one to a count and the recovery between two does not change it, a
    -- transfer with `left` retries is tried at most once more than that, whatever the attempts, the
    -- token and the stalls come to.
    pub retry_bound :
        (left stalls round : ℕ) (s : S)
        → tries
            (retry force_reconnect wait_until_healthy checks is_cancelled op left stalls round s).1
          ≤ tries s + left + 1
    unfolding retry
    retry_bound zero stalls round s = elim (Bool-cases (checks && is_cancelled (2 * round))) [
      | inl e ↦ rw e (omega arith)
      | inr n ↦ rw n (
          on_error_bound _ (op round s) (tries s + 0 + 1) (omega (arith, op_once round s))
            (λ e. omega (arith, op_once round s)))
    ]
    retry_bound (suc left) stalls round s = elim (Bool-cases (checks && is_cancelled (2 * round))) [
      | inl e ↦ rw e (omega arith)
      | inr n ↦ rw n (
          on_error_bound _ (op round s) (tries s + suc left + 1) (omega (arith, op_once round s))
            (λ e. elim (Bool-cases (is_cancelled (2 * round + 1))) [
              | inl y ↦ rw y (omega (arith, op_once round s))
              | inr m ↦
                  let next =
                    recover force_reconnect wait_until_healthy (count_stalls e stalls)
                      (op round s).1 in
                  rw m (
                    omega (
                      arith,
                      op_once round s,
                      recover_keeps (count_stalls e stalls) (op round s).1,
                      retry_bound left next.0 (round + 1) next.1,
                    ))
            ]))
    ]

  module _ (Fails : ℕ → S → Type 0) (Done : S → Type 0) (quiet : (k : ℕ) → is_cancelled k ≡ false)
      (attempt : (n f : ℕ) (s : S)
        → Fails f s
        → (((op n s).0 ≡ ok tt) × Done (op n s).1)
          ⊎ ((g : ℕ) × (e : Error) × (f ≡ suc g)
              × ((op n s).0 ≡ err e)
              × Fails g (force_reconnect (op n s).1)
              × Fails g (wait_until_healthy (op n s).1))) where
    recover-Fails :
        (g n : ℕ) (s : S)
        → Fails g (force_reconnect s)
        → Fails g (wait_until_healthy s)
        → Fails g (recover force_reconnect wait_until_healthy n s).1
    unfolding recover
    recover-Fails g n s h k = elim (Bool-cases (leb 2 n)) [ inl e ↦ rw e h | inr e ↦ rw e k ]

    -- Where an attempt succeeds or fails with one failure less to come after either recovery, and no token is
    -- cancelled, a transfer that has at most `left` failures to come succeeds.
    pub retry_succeeds :
        (left stalls round f : ℕ) (s : S)
        → Fails f s
        → f ≤ left
        → let (r, s') =
            retry force_reconnect wait_until_healthy checks is_cancelled op left stalls round s in
          (r ≡ ok tt) × Done s'
    unfolding retry
    retry_succeeds zero stalls round f s fails le = elim (attempt round f s fails) [
      | inl (fine, done) ↦
          rw (quiet (2 * round), unchecked checks, on_ok (λ e s'. (err e, s')) (op round s) fine)
            (fine, done)
      | inr (g, e, more, failed, forced, waited) ↦ absurd (omega (arith, more))
    ]
    retry_succeeds (suc left) stalls round f s fails le = elim (attempt round f s fails) [
      | inl (fine, done) ↦
          rw (quiet (2 * round), unchecked checks, on_ok _ (op round s) fine) (fine, done)
      | inr (g, e, more, failed, forced, waited) ↦
          let n = count_stalls e stalls in
          let next = recover force_reconnect wait_until_healthy n (op round s).1 in
          rw
            (
              quiet (2 * round),
              unchecked checks,
              on_err _ (op round s) e failed,
              quiet (2 * round + 1),
            )
            (retry_succeeds left next.0 (round + 1) g next.1
              (recover-Fails g n (op round s).1 forced waited) (omega (arith, more)))
    ]

  module _ (Keeps : S → Type 0) (Done : S → Type 0)
      (force_kept : (s : S) → Keeps s → Keeps (force_reconnect s))
      (wait_kept : (s : S) → Keeps s → Keeps (wait_until_healthy s))
      (attempt : (n : ℕ) (s : S)
        → Keeps s
        → (((op n s).0 ≡ ok tt) × Done (op n s).1)
          ⊎ ((e : Error) × ((op n s).0 ≡ err e) × Keeps (op n s).1)) where
    abbrev pub Either : Result (Unit {0}) × S → Type 0
    Either r = ((r.0 ≡ ok tt) × Done r.1) ⊎ ((e : Error) × (r.0 ≡ err e) × Keeps r.1)

    recover_kept :
        (n : ℕ) (s : S) → Keeps s → Keeps (recover force_reconnect wait_until_healthy n s).1
    unfolding recover
    recover_kept n s h = elim (Bool-cases (leb 2 n)) [
      | inl e ↦ rw e (force_kept s h)
      | inr e ↦ rw e (wait_kept s h)
    ]

    -- What holds between the attempts holds after the last one that failed.
    pub retry-Either :
        (left stalls round : ℕ) (s : S)
        → Keeps s
        → Either
            (retry force_reconnect wait_until_healthy checks is_cancelled op left stalls round s)
    unfolding retry
    retry-Either zero stalls round s h = elim (Bool-cases (checks && is_cancelled (2 * round))) [
      | inl y ↦ rw y (inr (cancelled, refl, h))
      | inr n ↦ elim (attempt round s h) [
        | inl (fine, done) ↦ rw (n, on_ok _ (op round s) fine) (inl (fine, done))
        | inr (e, failed, kept) ↦ rw (n, on_err _ (op round s) e failed) (inr (e, refl, kept))
      ]
    ]
    retry-Either (suc left) stalls round s h =
        elim (Bool-cases (checks && is_cancelled (2 * round))) [
          | inl y ↦ rw y (inr (cancelled, refl, h))
          | inr n ↦ elim (attempt round s h) [
            | inl (fine, done) ↦ rw (n, on_ok _ (op round s) fine) (inl (fine, done))
            | inr (e, failed, kept) ↦ elim (Bool-cases (is_cancelled (2 * round + 1))) [
              | inl y ↦ rw (n, on_err _ (op round s) e failed, y) (inr (e, refl, kept))
              | inr m ↦
                  let next =
                    recover force_reconnect wait_until_healthy (count_stalls e stalls)
                      (op round s).1 in
                  rw (n, on_err _ (op round s) e failed, m)
                    (retry-Either left next.0 (round + 1) next.1
                      (recover_kept (count_stalls e stalls) (op round s).1 kept))
            ]
          ]
        ]
