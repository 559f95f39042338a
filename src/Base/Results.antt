-- ===== src/Base/Results.antt =====
-- Fallible code: `anyhow::Result`, with one constructor for each message that the source raises.
use Prim.Native.Nat.{ℕ}
use mathlib.Core.Path.{◌≡◌, refl}
use mathlib.Core.Logic.{◌⊎◌, inl, inr}
use mathlib.Core.Bool.{Bool, true, false}
use mathlib.Core.Option.{Option, none, some}

pub data Error : Type 0 where
  -- crypto.rs
  key_derivation_failed counter_overflow encryption_failed bad_header decryption_failed : Error
  file_too_short invalid_framing : Error
  name_too_long name_too_short invalid_length_prefix bad_name_key : Error
  name_encryption_failed not_an_encrypted_name name_decryption_failed name_not_utf8 : Error
  salt_corrupted canary_corrupted wrong_password : Error
  -- manifest.rs
  parsing_manifest serializing_manifest : Error
  -- an error of the storage backend
  backend_error : Error
  -- storage/nfs.rs
  refused_by_server remote_directory_not_found created_not_found zero_bytes_accepted : Error
  unknown_upload_id not_found : Error
  -- storage/s3.rs
  no_upload_id : Error
  -- storage/sftp.rs
  host_key_mismatch no_host_key authentication_failed not_a_directory : Error
  no_vault_location : Error
  -- worker.rs
  invalid_name already_exists cancelled not_encrypted_folder : Error
  opening_local_file reading_local_file part_below_minimum reading_header : Error
  reading_chunk read_failed no_such_file : Error
  password_required vault_corrupted : Error
  stalled : ℕ → Error
  -- the fuel of a loop was spent: never, where a theorem gives enough
  out_of_fuel : Error
  -- an index out of range, where the source would panic
  out_of_range : Error

pub data Result {κ} (A : Type κ) : Type κ where
  err : Error → Result A
  ok : A → Result A

infixl 8 ◌>>=◌ ◌>>◌
-- `?`: an error leaves the function.
abbrev pub ◌>>=◌ {κ μ} : {X : Type κ} {Y : Type μ} → Result X → (X → Result Y) → Result Y
err e >>= next = err e
ok x >>= next = next x

abbrev pub ◌>>◌ {μ} : {Y : Type μ} → Result (Unit {0}) → Result Y → Result Y
first >> second = first >>= λ done. second

-- `o.ok_or_else(|| e)`, and `.map_err(|_| e)` of a call whose own error is dropped.
abbrev pub ok_or {ℓ} : {A : Type ℓ} → Option A → Error → Result A
ok_or none e = err e
ok_or (some a) e = ok a

-- `if !b { bail!(e) }`
abbrev pub ensure : Bool → Error → Result (Unit {0})
ensure true e = ok tt
ensure false e = err e

abbrev pub is_ok {ℓ} : {A : Type ℓ} → Result A → Bool
is_ok (ok a) = true
is_ok (err e) = false

pub >>=-eq-ok {κ μ} :
    {X : Type κ} {Y : Type μ} {y : Y} (first : Result X) (next : X → Result Y)
    → first >>= next ≡ ok y
    → (x : X) × (first ≡ ok x) × (next x ≡ ok y)
>>=-eq-ok (err e) next h = cc
>>=-eq-ok (ok x) next h = (x, refl, h)

pub ok-injective {ℓ} : {A : Type ℓ} {a b : A} → ok a ≡ ok b → a ≡ b
ok-injective h = cc

pub ok_or-eq-ok {ℓ} :
    {A : Type ℓ} (o : Option A) (e : Error) {a : A} → ok_or o e ≡ ok a → o ≡ some a
ok_or-eq-ok none e h = cc
ok_or-eq-ok (some a) e h = cc

pub Result-cases {ℓ} :
    {A : Type ℓ} (r : Result A) → ((a : A) × (r ≡ ok a)) ⊎ ((e : Error) × (r ≡ err e))
Result-cases (ok a) = inl (a, refl)
Result-cases (err e) = inr (e, refl)
