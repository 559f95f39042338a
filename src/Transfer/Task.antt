-- ===== src/Transfer/Task.antt =====
-- The transfer of a file in the task of `run_download` of src/worker.rs: attempts with recoveries
-- between them, and the part file removed if the last one failed.
use rabbit_storage_explorer.Base.{
  ℕ, ◌≤◌, ◌*◌, ◌-◌, ◌≡◌, ◌⊎◌, inl, inr, refl, sym, ap, subst, ◌++◌, ◌∙◌, Bool, false, Option, none,
  some, length, Bytes, Text, Result, ok, err, Error, text_eq, text_eq_refl, u32_mod, Result-cases,
}
use rabbit_storage_explorer.Base.Dict
use rabbit_storage_explorer.Base.Dict.{get-remove}
use rabbit_storage_explorer.Base.Exec.{Exec}
use rabbit_storage_explorer.Storage.{StorageBackend}
use rabbit_storage_explorer.Crypto.Primitives.{Primitives, IsLawful}
use rabbit_storage_explorer.Crypto.Layout.{chunk, prefix_len}
use rabbit_storage_explorer.Crypto.Stream.{VaultKeys}
use rabbit_storage_explorer.Transfer.Progress.{Float}
use rabbit_storage_explorer.Transfer.Multipart.Parts.{object_of}
use rabbit_storage_explorer.Transfer.Retry.{retry}
use rabbit_storage_explorer.Transfer.Retry.Laws.{retry-Either}
use rabbit_storage_explorer.Transfer.Download.{OutPath, path_text, part_path, Local, download_one}
use rabbit_storage_explorer.Transfer.Download.Receive.{IsObject}
use rabbit_storage_explorer.Transfer.Download.Resume.{Held, Downloaded, download_one-Downloaded}

-- `remove_file` of the part file, whose error is dropped.
abbrev pub give_up :
    {S : Type 0} {F : Float} → Text → Result (Unit {0}) × Local S F → Result (Unit {0}) × Local S F
give_up tmp (ok done, l) = (ok done, l)
give_up tmp (err e, l) = (err e, record l { disk = Dict.remove l.disk tmp })

-- `asked n` are the answers of the token within the attempt `n`, and `between` those between them.
unfoldable pub download_task :
    (P : Primitives) (B : StorageBackend) {F : Float}
    → (Local B.State F → Local B.State F)
    → (Local B.State F → Local B.State F)
    → (ℕ → Bool)
    → (ℕ → ℕ → Bool)
    → (ℕ → ℕ → ℕ)
    → Option VaultKeys
    → Text
    → ℕ
    → Text
    → ℕ
    → OutPath
    → ℕ
    → Exec (Local B.State F) (Unit {0})
download_task P B force_reconnect wait_until_healthy between asked clock keys key id name size out
      retries l =
    give_up (path_text (part_path P.is_utf8 out)) (
      retry force_reconnect wait_until_healthy false between
        (λ n. download_one P B (asked n) (clock n) keys key id name size out) retries 0 0 l)

module _ (P : Primitives) (lawful : IsLawful P) {B : StorageBackend} {key : Text} {blob : Bytes}
    (O : IsObject B key blob) {F : Float} (out : OutPath) (plain : Bytes) where
  -- Good for another attempt, with the target as it was.
  abbrev pub Resumable : Option Bytes → Local B.State F → Type 0
  Resumable was l =
      O.Good false l.remote
      × Held (path_text (part_path P.is_utf8 out)) plain l
      × (Dict.get l.disk (path_text out) ≡ was)

  recovered :
      (recover : Local B.State F → Local B.State F)
      → ((l : Local B.State F)
          → O.Good false l.remote
          → O.Good false (recover l).remote × ((recover l).disk ≡ l.disk))
      → (was : Option Bytes) (l : Local B.State F) → Resumable was l
      → Resumable was (recover l)
  recovered recover keeps was l (good, held, same) =
      let (good', disk) = keeps l good in
      let tmp = path_text (part_path P.is_utf8 out) in
      (
        good',
        subst
            (λ d.
              (Dict.get d tmp ≡ none)
              ⊎ ((part : Bytes) × (left : Bytes) × (Dict.get d tmp ≡ some part)
                  × (part ++ left ≡ plain)))
            (sym disk) held,
        ap (λ d. Dict.get d (path_text out)) disk ∙ same,
      )

  without_good :
      (was : Option Bytes) (r : Result (Unit {0}) × Local B.State F)
      → ((r.0 ≡ ok tt) × (Dict.get r.1.disk (path_text out) ≡ some plain))
        ⊎ ((e : Error) × (r.0 ≡ err e) × Resumable was r.1)
      → ((r.0 ≡ ok tt) × (Dict.get r.1.disk (path_text out) ≡ some plain))
        ⊎ ((e : Error) × (r.0 ≡ err e) × (Dict.get r.1.disk (path_text out) ≡ was))
  without_good was r (inl h) = inl h
  without_good was r (inr (e, q, kept)) = let (good, held, same) = kept in inr (e, q, same)

  module _ (is_cancelled : ℕ → Bool) (clock : ℕ → ℕ) where
    after_attempt :
        (id : ℕ) (was : Option Bytes) (l : Local B.State F)
        (r : Result (Unit {0}) × Local B.State F)
        → Dict.get l.disk (path_text out) ≡ was
        → Downloaded P lawful O is_cancelled clock
            (path_text (part_path P.is_utf8 out))
            (path_text out)
            plain
            id
            false
            l
            r
        → ((r.0 ≡ ok tt) × (Dict.get r.1.disk (path_text out) ≡ some plain))
          ⊎ ((e : Error) × (r.0 ≡ err e) × Resumable was r.1)
    after_attempt id was l r same d = elim (Result-cases r.0) [
      | inl (done, e) ↦ inl (e, d.done e)
      | inr (x, e) ↦ inr (x, e, (d.good, d.held, d.kept x e ∙ same))
    ]

given_up :
    {S : Type 0} {F : Float} (tmp path plain : Bytes) (was : Option Bytes)
    (r : Result (Unit {0}) × Local S F)
    → text_eq tmp path ≡ false
    → ((r.0 ≡ ok tt) × (Dict.get r.1.disk path ≡ some plain))
      ⊎ ((e : Error) × (r.0 ≡ err e) × (Dict.get r.1.disk path ≡ was))
    → (((give_up tmp r).0 ≡ ok tt) × (Dict.get (give_up tmp r).1.disk path ≡ some plain))
      ⊎ ((e : Error) × ((give_up tmp r).0 ≡ err e)
          × (Dict.get (give_up tmp r).1.disk path ≡ was)
          × (Dict.get (give_up tmp r).1.disk tmp ≡ none))
given_up tmp path plain was (ok done, l) apart (inl (e, h)) = inl (refl, h)
given_up tmp path plain was (ok done, l) apart (inr (e, q, h)) = cc
given_up tmp path plain was (err x, l) apart (inl (q, h)) = cc
given_up tmp path plain was (err x, l) apart (inr (e, q, h)) = inr (
  x,
  refl,
  get-remove l.disk tmp path ∙ rw apart h,
  get-remove l.disk tmp tmp ∙ rw (text_eq_refl tmp) refl,
)

-- With lawful primitives, a storage that keeps at `key` what was uploaded for the file `plain` of at most
-- 2^32 - 1 chunks, recoveries that keep it so and touch no local file, and a part file that is absent or holds
-- the first bytes of `plain`: however its attempts are interrupted and whichever of them the token
-- cancels, a download either succeeds, and then the target is `plain`, or it fails, and then the target
-- is as before and the part file is gone. The part file has another path than the target.
pub download_task-intact :
    (P : Primitives) (lawful : IsLawful P) {B : StorageBackend} {key : Text} {blob : Bytes}
    (O : IsObject B key blob) {F : Float}
    (force_reconnect wait_until_healthy : Local B.State F → Local B.State F) (between : ℕ → Bool)
    (asked : ℕ → ℕ → Bool) (clock : ℕ → ℕ → ℕ) (keys : Option VaultKeys) (prefix plain : Bytes)
    (id : ℕ) (name : Text) (out : OutPath) (retries : ℕ) (l : Local B.State F)
    → length prefix ≡ prefix_len
    → length plain ≤ (u32_mod - 1) * chunk
    → object_of P keys prefix plain ≡ ok blob
    → text_eq (path_text (part_path P.is_utf8 out)) (path_text out) ≡ false
    → ((l' : Local B.State F)
        → O.Good false l'.remote
        → O.Good false (force_reconnect l').remote × ((force_reconnect l').disk ≡ l'.disk))
    → ((l' : Local B.State F)
        → O.Good false l'.remote
        → O.Good false (wait_until_healthy l').remote × ((wait_until_healthy l').disk ≡ l'.disk))
    → O.Good false l.remote
    → Held (path_text (part_path P.is_utf8 out)) plain l
    → let (r, l') =
        download_task P B force_reconnect wait_until_healthy between asked clock keys key id name
          (length plain)
          out
          retries
          l in
      ((r ≡ ok tt) × (Dict.get l'.disk (path_text out) ≡ some plain))
      ⊎ ((e : Error) × (r ≡ err e)
          × (Dict.get l'.disk (path_text out) ≡ Dict.get l.disk (path_text out))
          × (Dict.get l'.disk (path_text (part_path P.is_utf8 out)) ≡ none))
unfolding download_task
download_task-intact P lawful {B} {key} {blob} O {F} force_reconnect wait_until_healthy between
      asked clock keys prefix plain id name out retries l sized fits stored apart force wait good
      held =
    let was = Dict.get l.disk (path_text out) in
    let attempts =
      retry force_reconnect wait_until_healthy false between
        (λ n. download_one P B (asked n) (clock n) keys key id name (length plain) out) retries 0 0
        l in
    given_up (path_text (part_path P.is_utf8 out)) (path_text out) plain was attempts apart (
      without_good P lawful O out plain was attempts (
        retry-Either force_reconnect wait_until_healthy false between
          (λ n. download_one P B (asked n) (clock n) keys key id name (length plain) out)
          (Resumable P lawful O out plain was) (λ l'. Dict.get l'.disk (path_text out) ≡ some plain)
          (recovered P lawful O out plain force_reconnect force was)
          (recovered P lawful O out plain wait_until_healthy wait was)
          (λ n l' (good', held', same).
            after_attempt P lawful O out plain (asked n) (clock n) id was l' _ same (
              download_one-Downloaded P lawful O (asked n) (clock n) keys prefix plain id name out
                false l' sized fits stored apart good' held'))
          retries 0 0 l (good, held, refl)))
