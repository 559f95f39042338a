-- ===== src/Worker/Sizes/Totals.antt =====
-- The totals of an encrypted folder.
use rabbit_storage_explorer.Base.{
  ℕ, ℤ, ◌+◌, ◌-◌, ◌<◌, ◌≡◌, refl, ap, ◌∙◌, min, Bool, true, false, some, List, [], ◌∷◌, Bytes, Text,
  Result, ok, err, u64_mod, arith, Result-cases, inl, inr,
}
use rabbit_storage_explorer.Base.Exec.{and_then, pure}
use rabbit_storage_explorer.Storage.{StorageBackend, RawObject}
use rabbit_storage_explorer.Crypto.Primitives.{Primitives}
use rabbit_storage_explorer.Crypto.Layout.{encrypted_size}
use rabbit_storage_explorer.Crypto.Layout.Laws.{max_plain, plaintext_of_ciphertext-encrypted_size}
use rabbit_storage_explorer.Crypto.Stream.{VaultKeys}
use rabbit_storage_explorer.Crypto.Names.{encrypt_name}
use rabbit_storage_explorer.Manifest.Blob.{Codec}
use rabbit_storage_explorer.ManifestStore.State.{World}
use rabbit_storage_explorer.Worker.Sizes.{
  is_metadata, add_saturating, add_sizes, record_sizes, run_calculate_size,
}

-- The objects are the encrypted files of the given plaintext sizes, and metadata between them.
pub data Holds : List RawObject → List ℕ → Type 0 where
  nothing : Holds [] []
  metadata :
      {o : RawObject} {os : List RawObject} {ns : List ℕ}
      → is_metadata o ≡ true
      → Holds os ns
      → Holds (o ∷ os) ns
  file :
      {o : RawObject} {os : List RawObject} {n : ℕ} {ns : List ℕ}
      → is_metadata o ≡ false
      → n < max_plain
      → o.size ≡ encrypted_size n
      → Holds os ns
      → Holds (o ∷ os) (n ∷ ns)

abbrev pub sum : List ℕ → ℕ
sum [] = 0
sum (n ∷ ns) = n + sum ns

abbrev pub encrypted_sum : List ℕ → ℕ
encrypted_sum [] = 0
encrypted_sum (n ∷ ns) = encrypted_size n + encrypted_sum ns

both : {a b c d : ℕ} → a ≡ b → c ≡ d → ◌≡◌ {A = ℕ × ℕ} (a, c) (b, d)
both {a} {b} {c} {d} h k = ap (λ x. (x, c)) h ∙ ap (λ y. (b, y)) k

then_pure :
    {S X : Type 0} (x : X) (r : Result (Unit {0}) × S)
    → r.0 ≡ ok tt
    → (and_then (λ done. pure x) r).0 ≡ ok x
then_pure x (ok done, s) h = refl
then_pure x (err e, s) h = cc

add_sizes-Holds :
    (keys : VaultKeys) (os : List RawObject) (ns : List ℕ) (plain enc : ℕ)
    → Holds os ns
    → plain < u64_mod
    → enc < u64_mod
    → add_sizes (some keys) os plain enc
      ≡ (add_saturating plain (sum ns), add_saturating enc (encrypted_sum ns))
unfolding add_sizes
add_sizes-Holds keys [] ns plain enc nothing p e = both (omega arith) (omega arith)
add_sizes-Holds keys (o ∷ os) ns plain enc (metadata skip h) p e =
    rw skip (add_sizes-Holds keys os ns plain enc h p e)
add_sizes-Holds keys (o ∷ os) (n ∷ ns) plain enc (file keep small size h) p e =
    rw (keep, size, plaintext_of_ciphertext-encrypted_size n small)
      (add_sizes-Holds keys os ns (add_saturating plain n) (add_saturating enc (encrypted_size n)) h
          (omega arith) (omega arith)
        ∙ both (omega arith) (omega arith))

module _ {J : Type 0} (P : Primitives) (C : Codec J) (B : StorageBackend) (draw : ℕ → Bytes) where
  record_sizes_returns :
      (keys : VaultKeys) (encrypted : Bool) (key name : Text) (now_ms : ℤ) (totals : ℕ × ℕ)
      (w : World B.State J)
      → (record_sizes P C B draw (some keys) (some keys) encrypted key name now_ms totals w).0
        ≡ ok tt
  unfolding record_sizes
  record_sizes_returns keys false key name now_ms totals w = refl
  record_sizes_returns keys true key name now_ms totals w =
      elim (Result-cases (encrypt_name P keys name)) [
        | inl (enc, e) ↦ rw (record_sizes, e) refl
        | inr (x, e) ↦ rw (record_sizes, e) refl
      ]

  -- Where the backend lists below a folder encrypted files of the plaintext sizes `ns`, each below 2^63, and the objects of
  -- the manifests and the vault: `run_calculate_size` returns the sum of `ns` and that of their encrypted sizes, each
  -- kept at 2^64 - 1 if it is more, whether or not the totals could be recorded.
  pub run_calculate_size-Holds :
      (keys : VaultKeys) (key name : Text) (encrypted : Bool) (now_ms : ℤ) (w : World B.State J)
      (os : List RawObject) (ns : List ℕ) (s' : B.State)
      → B.list_recursive key w.remote ≡ (ok os, s')
      → Holds os ns
      → (run_calculate_size P C B draw (some keys) key name encrypted now_ms w).0
        ≡ ok (min (sum ns) (u64_mod - 1), min (encrypted_sum ns) (u64_mod - 1))
  unfolding run_calculate_size
  run_calculate_size-Holds keys key name encrypted now_ms w os ns s' listed h =
      rw (listed, add_sizes-Holds keys os ns 0 0 h (omega arith) (omega arith))
        (then_pure _ _ (
            record_sizes_returns keys encrypted key name now_ms
              (add_saturating 0 (sum ns), add_saturating 0 (encrypted_sum ns))
              (record w { remote = s' }))
          ∙ ap ok (both (omega arith) (omega arith)))
