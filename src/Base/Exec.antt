-- ===== src/Base/Exec.antt =====
-- Calls that change a state and may fail: what they did before they failed stays done.
use rabbit_storage_explorer.Base.Results.{Error, Result, ok, err}

abbrev pub Exec {κ} : Type κ → Type κ → Type κ
Exec S X = S → Result X × S

module _ {κ} {S X Y : Type κ} where
  -- `?` on a call: its error is the caller's, in the state that the call left.
  abbrev pub and_then : (X → Exec S Y) → Result X × S → Result Y × S
  and_then next (err e, s) = (err e, s)
  and_then next (ok x, s) = next x s

  -- `let _ = call`: its error is dropped.
  abbrev pub ignoring : Exec S X → Exec S Y → Exec S Y
  ignoring call next s = next (call s).1

  infixl 8 ◌>>=◌
  abbrev pub ◌>>=◌ : Exec S X → (X → Exec S Y) → Exec S Y
  ◌>>=◌ call next s = and_then next (call s)

module _ {κ} {S X : Type κ} where
  abbrev pub pure : X → Exec S X
  pure x s = (ok x, s)

  abbrev pub fail : Error → Exec S X
  fail e s = (err e, s)

  abbrev pub lift : Result X → Exec S X
  lift r s = (r, s)

-- The result of a call, as a value: a `match` on it follows.
abbrev pub outcome {κ} : {S X : Type κ} → Exec S X → Exec S (Result X)
outcome call s = let (r, s') = call s in (ok r, s')

-- What holds of the result and the state of a call, if it returns.
abbrev pub Ensures {κ μ} : {S X : Type κ} → (X → S → Type μ) → Result X × S → Type μ
Ensures Q (err e, s) = Unit
Ensures Q (ok x, s) = Q x s

pub >>=-Ensures {κ μ} :
    {S X Y : Type κ} (Q : Y → S → Type μ) (call : Exec S X) (next : X → Exec S Y) (s : S)
    → ((x : X) (mid : S) → Ensures Q (next x mid))
    → Ensures Q ((call >>= next) s)
>>=-Ensures {S} {X} {Y} Q call next s then = after (call s)
  where
    after : (r : Result X × S) → Ensures Q (and_then next r)
    after (err e, mid) = tt
    after (ok x, mid) = then x mid

-- What every call preserves, a chain of calls preserves, whether it returns or fails.
pub >>=-preserves {κ μ} :
    {S X Y : Type κ} (I : S → Type μ) (call : Exec S X) (next : X → Exec S Y)
    → ((s : S) → I s → I (call s).1)
    → ((x : X) (s : S) → I s → I (next x s).1)
    → (s : S) → I s
    → I ((call >>= next) s).1
>>=-preserves {S} {X} {Y} I call next keep keep' s i = after (call s) (keep s i)
  where
    after : (r : Result X × S) → I r.1 → I (and_then next r).1
    after (err e, mid) j = j
    after (ok x, mid) j = keep' x mid j
