-- ===== src/Transfer/Retry.antt =====
-- The retries of a transfer: the loops of `upload_one` and `run_download` of src/worker.rs, which
-- differ in the check of the token before an attempt. The answers of the token are a function of the
-- number of the check; sleeps change no state.
pub mod Laws
use rabbit_storage_explorer.Base.{
  ℕ, zero, suc, ◌+◌, ◌*◌, Bool, true, false, ◌&&◌, leb, if◌then◌else◌, Result, ok, err, Error,
  cancelled, stalled,
}
use rabbit_storage_explorer.Base.Exec.{Exec}

-- `e.downcast_ref::<Stalled>().is_some()`: all but a stall start the count of stalls again.
unfoldable pub count_stalls : Error → ℕ → ℕ
count_stalls (stalled secs) stalls = stalls + 1
count_stalls e stalls = 0

-- What follows an attempt.
abbrev pub on_error :
    {S : Type 0} → (Error → Exec S (Unit {0})) → Result (Unit {0}) × S → Result (Unit {0}) × S
on_error again (ok done, s) = (ok done, s)
on_error again (err e, s) = again e s

module _ {S : Type 0} (force_reconnect wait_until_healthy : S → S) where
  -- The second stall in a row forces a new connection.
  unfoldable pub recover : ℕ → S → ℕ × S
  recover stalls s = if leb 2 stalls then (0, force_reconnect s) else (stalls, wait_until_healthy s)

  -- `left` is the number of retries that are left, `round` that of the attempts made,
  -- which `op` is given; the token is
  -- asked before an attempt, where the loop `checks` it, and after one that failed.
  unfoldable pub retry : Bool → (ℕ → Bool) → (ℕ → Exec S (Unit {0})) → ℕ → ℕ → ℕ → Exec S (Unit {0})
  unfolding recover count_stalls
  retry checks is_cancelled op zero stalls round s =
      if checks && is_cancelled (2 * round)
      then (err cancelled, s)
      else on_error (λ e s'. (err e, s')) (op round s)
  retry checks is_cancelled op (suc left) stalls round s =
      if checks && is_cancelled (2 * round)
      then (err cancelled, s)
      else on_error
          (λ e s'. elim (is_cancelled (2 * round + 1)) [
            | true ↦ (err e, s')
            | false ↦
                let (stalls', s'') = recover (count_stalls e stalls) s' in
                retry checks is_cancelled op left stalls' (round + 1) s''
          ])
          (op round s)
