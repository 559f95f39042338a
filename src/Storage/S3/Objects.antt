-- ===== src/Storage/S3/Objects.antt =====
-- The S3 backend as a map from keys to contents, over a service that is up: deleting in batches, and
-- renaming one object.
use rabbit_storage_explorer.Base.{
  ℕ, zero, suc, ◌≤◌, ◌<◌, ◌≡◌, refl, sym, ap, ◌∙◌, subst, inl, inr, Bool, false, ◌||◌, Option, none,
  some, List, [], ◌∷◌, ◌++◌, arith, length, length-take, length-drop, take, drop, take-append-drop,
  text_eq, if◌then◌else◌, Bool-cases, Bytes, Text, ok,
}
use rabbit_storage_explorer.Worker.{ends_with_slash}
use rabbit_storage_explorer.Storage.S3.Client.{S3Client}
use rabbit_storage_explorer.Storage.S3.CopySource.{AllBytes, encode_copy_source}
use rabbit_storage_explorer.Storage.S3.{
  S3Backend, on_client, batches, copy_one, delete_batches, delete, rename,
}

abbrev pub among : List Text → Text → Bool
among [] k = false
among (j ∷ js) k = text_eq j k || among js k

-- A service that is up: it copies an object of at most 5 GiB to another key, and deletes up to 1000
-- keys at a time.
pub record IsBucket (C : S3Client) (bucket : Text) : Type 0 where
  pub objects : C.State → Text → Option Bytes
  pub copy :
      (from to : Text) (content : Bytes) (s : C.State)
      → AllBytes from
      → text_eq from to ≡ false
      → length content ≤ 5368709120
      → objects s from ≡ some content
      → (s' : C.State) × (C.copy_object (encode_copy_source bucket from) to s ≡ (ok tt, s'))
        × ((k : Text) → objects s' k ≡ (if text_eq to k then some content else objects s k))
  pub delete :
      (keys : List Text) (s : C.State)
      → length keys ≤ 1000
      → (s' : C.State) × (C.delete_objects keys s ≡ (ok [], s'))
        × ((k : Text) → objects s' k ≡ (if among keys k then none else objects s k))

abbrev joined : List (List Text) → List Text
joined [] = []
joined (b ∷ bs) = b ++ joined bs

abbrev AllShort : ℕ → List (List Text) → Type 0
AllShort n [] = Unit
AllShort n (b ∷ bs) = (length b ≤ n) × AllShort n bs

batches-joined :
    (size fuel : ℕ) (keys : List Text)
    → 0 < size
    → length keys ≤ fuel
    → (joined (batches size fuel keys) ≡ keys) × AllShort size (batches size fuel keys)
unfolding batches
batches-joined size zero [] pos h = (refl, tt)
batches-joined size zero (k ∷ ks) pos h = absurd (omega arith)
batches-joined size (suc fuel) [] pos h = (refl, tt)
batches-joined size (suc fuel) (k ∷ ks) pos h =
    let (same, short) =
      batches-joined size fuel (drop size (k ∷ ks)) pos
        (omega (arith, length-drop size (k ∷ ks))) in
    (
      ap (λ r. take size (k ∷ ks) ++ r) same ∙ take-append-drop size (k ∷ ks),
      (omega (arith, length-take size (k ∷ ks)), short),
    )

among-append :
    {A : Type 0} (xs ys : List Text) (k : Text) (a b : A)
    → (if among ys k then a else (if among xs k then a else b))
      ≡ (if among (xs ++ ys) k then a else b)
among-append [] ys k a b = elim (Bool-cases (among ys k)) [ inl e ↦ rw e refl | inr n ↦ rw n refl ]
among-append (x ∷ xs) ys k a b = elim (Bool-cases (text_eq x k)) [
  | inl e ↦ rw e (elim (Bool-cases (among ys k)) [ inl f ↦ rw f refl | inr n ↦ rw n refl ])
  | inr n ↦ rw n (among-append xs ys k a b)
]

module _ {C : S3Client} {bucket : Text} (O : IsBucket C bucket) where
  -- Exactly the keys that were named are gone.
  Deleted : List Text → S3Backend C.State → S3Backend C.State → Type 0
  Deleted keys s s' =
      (k : Text) → O.objects s'.client k ≡ (if among keys k then none else O.objects s.client k)

  delete_batches-Deleted :
      (bs : List (List Text)) (s : S3Backend C.State)
      → AllShort 1000 bs
      → (s' : S3Backend C.State) × (delete_batches C bs s ≡ (ok tt, s'))
        × (s'.bucket ≡ s.bucket)
        × Deleted (joined bs) s s'
  unfolding delete_batches Deleted
  delete_batches-Deleted [] s short = (s, refl, refl, λ k. refl)
  delete_batches-Deleted (b ∷ bs) s (one, short) =
      let (c, gone, left) = O.delete b s.client one in
      let (s', rest, same, left') = delete_batches-Deleted bs (record s { client = c }) short in
      (
        s',
        rw (delete_batches, gone) rest,
        same,
        λ k.
            left' k
            ∙ ap (λ x. if among (joined bs) k then none else x) (left k)
            ∙ among-append b (joined bs) k none (O.objects s.client k),
      )

  -- On a service that is up, deleting any number of keys succeeds, and exactly the keys that were
  -- named are gone.
  pub delete-Deleted :
      (keys : List Text) (s : S3Backend C.State)
      → (s' : S3Backend C.State) × (delete C keys s ≡ (ok tt, s'))
        × (s'.bucket ≡ s.bucket)
        × ((k : Text)
            → O.objects s'.client k ≡ (if among keys k then none else O.objects s.client k))
  unfolding delete Deleted
  delete-Deleted keys s =
      let (same, short) = batches-joined 1000 (length keys) keys (omega arith) (omega arith) in
      let (s', gone, kept, left) =
        delete_batches-Deleted (batches 1000 (length keys) keys) s short in
      (
        s',
        gone,
        kept,
        λ k. left k ∙ ap (λ ks. if among ks k then none else O.objects s.client k) same,
      )

  copies :
      (from to : Text) (s : S3Backend C.State) (c : C.State)
      → s.bucket ≡ bucket
      → C.copy_object (encode_copy_source bucket from) to s.client ≡ (ok tt, c)
      → copy_one C from to s ≡ (ok tt, record s { client = c })
  unfolding copy_one
  copies from to s c named copied =
      subst
        (λ b.
          on_client (C.copy_object (encode_copy_source b from) to) s
          ≡ (ok tt, record s { client = c }))
        (sym named) (rw copied refl)

  -- On a service that is up, renaming an object of at most 5 GiB that is no folder to another key
  -- succeeds: its content is at the new key, the old key is gone, and every other object is as it
  -- was.
  pub rename-moved :
      (fuel : ℕ) (from to : Text) (content : Bytes) (s : S3Backend C.State)
      → s.bucket ≡ bucket
      → AllBytes from
      → text_eq from to ≡ false
      → length content ≤ 5368709120
      → ends_with_slash from ≡ false
      → O.objects s.client from ≡ some content
      → (s' : S3Backend C.State) × (rename C fuel from to s ≡ (ok tt, s'))
        × ((k : Text)
            → O.objects s'.client k ≡ (
                if text_eq from k
                then none
                else (if text_eq to k then some content else O.objects s.client k)))
  unfolding rename
  rename-moved fuel from to content s named all other small file there =
      let (c, copied, now) = O.copy from to content s.client all other small there in
      let (s', gone, kept, left) = delete-Deleted (from ∷ []) (record s { client = c }) in
      (
        s',
        rw (rename, file) (rw (copies from to s c named copied) gone),
        λ k. elim (Bool-cases (text_eq from k)) [
          | inl e ↦ rw e (left k ∙ rw e refl)
          | inr n ↦ rw n (left k ∙ rw n (now k))
        ],
      )
