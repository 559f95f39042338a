-- ===== src/Transfer/Session.antt =====
-- The reconnecting of `Session` in src/worker.rs, between the attempts of a transfer. `connect` stands
-- for `connect_backend`; the state of the backend stands for the server and the connection to it. The
-- loop of `rebuild` ends when it connects or is cancelled, and is on fuel: none while it still tries.
use rabbit_storage_explorer.Base.{
  ℕ, zero, suc, ◌+◌, ◌*◌, ◌%◌, ◌<◌, ◌≡◌, refl, max, Bool, false, ◌&&◌, Option, none, some, List, [],
  ◌∷◌, ◌++◌, ◌==◌, if◌then◌else◌, Text, text, Result, ok, err, Error, is_ok, u64_mod, arith,
}
use rabbit_storage_explorer.Base.Exec.{Exec}
use rabbit_storage_explorer.Storage.{StorageBackend}

-- `generation` counts the reconnections; `told` is what the window was told.
pub record Conn (S : Type 0) : Type 0 where
  pub server : S
  pub generation : ℕ
  pub told : List Text

-- In milliseconds.
unfoldable pub reconnect_delay : ℕ → ℕ
reconnect_delay reconnect_interval_ms = max reconnect_interval_ms 200

module _ {S : Type 0} (connect : Exec S (Unit {0})) (is_cancelled : ℕ → Bool) where
  abbrev pub reconnected : S → Conn S → Conn S
  reconnected s c = record c {
    server = s;
    generation = (c.generation + 1) % u64_mod;
    told = c.told ++ (text "Reconnected" ∷ []);
  }

  abbrev or_again : Bool → Conn S → Option (Conn S) → Result (Unit {0}) × S → Option (Conn S)
  or_again stop c again (ok done, s) = some (reconnected s c)
  or_again stop c again (err e, s) = if stop then some (record c { server = s }) else again

  unfoldable pub rebuild_loop : ℕ → ℕ → Conn S → Option (Conn S)
  rebuild_loop zero round c = none
  rebuild_loop (suc fuel) round c =
      if is_cancelled (2 * round)
      then some c
      else or_again (is_cancelled (2 * round + 1)) c
          (rebuild_loop fuel (round + 1) (record c { server = (connect c.server).1 }))
          (connect c.server)

  -- `seen` is the generation from before the lock: another one means that a task has reconnected
  -- meanwhile.
  unfoldable pub rebuild : ℕ → ℕ → Text → Conn S → Option (Conn S)
  unfolding rebuild_loop
  rebuild fuel seen reason c =
      if c.generation == seen
      then rebuild_loop fuel 0 (record c { told = c.told ++ (reason ∷ []) })
      else some c

  unfoldable pub force_reconnect : ℕ → ℕ → Conn S → Option (Conn S)
  unfolding rebuild
  force_reconnect fuel seen c = rebuild fuel seen (text "Transfer stalled - reconnecting...") c

module _ (B : StorageBackend) (connect : Exec B.State (Unit {0})) (is_cancelled : ℕ → Bool) where
  -- `in_time`: the probe answers within ten seconds.
  unfoldable pub wait_until_healthy : Bool → ℕ → ℕ → Conn B.State → Option (Conn B.State)
  unfolding rebuild
  wait_until_healthy in_time fuel seen c =
      let (r, s) = B.health_check c.server in
      let c' : Conn B.State = record c { server = s } in
      if in_time && is_ok r
      then some c'
      else rebuild connect is_cancelled fuel seen (text "Connection lost - reconnecting...") c'

-- With fuel for the connections that fail, the loop ends with a connection, if it is not cancelled.
module _ {S : Type 0} (connect : Exec S (Unit {0})) (is_cancelled : ℕ → Bool)
    (Failing : ℕ → S → Type 0) (quiet : (k : ℕ) → is_cancelled k ≡ false)
    (at_last : (s : S) → Failing 0 s → (s' : S) × (connect s ≡ (ok tt, s')))
    (not_yet : (k : ℕ) (s : S)
      → Failing (suc k) s
      → (e : Error) × (s' : S) × (connect s ≡ (err e, s')) × Failing k s') where
  pub rebuild_loop_ends :
      (k fuel round : ℕ) (c : Conn S)
      → Failing k c.server
      → k < fuel
      → (s : S) × (rebuild_loop connect is_cancelled fuel round c
          ≡ some (reconnected connect is_cancelled s c))
  unfolding rebuild_loop
  rebuild_loop_ends k zero round c failing lt = absurd (omega arith)
  rebuild_loop_ends zero (suc fuel) round c failing lt =
      let (s', connected) = at_last c.server failing in (s', rw (quiet (2 * round), connected) refl)
  rebuild_loop_ends (suc k) (suc fuel) round c failing lt =
      let (e, s', failed, less) = not_yet k c.server failing in
      let (s, ends) =
        rebuild_loop_ends k fuel (round + 1) (record c { server = s' }) less (omega arith) in
      (s, rw (quiet (2 * round), failed, quiet (2 * round + 1)) ends)
