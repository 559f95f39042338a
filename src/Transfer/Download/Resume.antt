-- ===== src/Transfer/Download/Resume.antt =====
-- A download that may be interrupted anywhere, and goes on from its part file.
use rabbit_storage_explorer.Base.{
  ℕ, zero, suc, ◌+◌, ◌-◌, ◌*◌, ◌/◌, ◌%◌, ◌≤◌, ◌<◌, ◌≡◌, ◌⊎◌, inl, inr, refl, sym, ap, ◌∙◌, subst,
  Bool, true, false, ◌&&◌, Option, none, some, [], ◌∷◌, ◌++◌, append-nil, arith, length,
  length-append, take, drop, take-append-drop, leb, ltb, ◌==◌, Bytes, Text, Result, ok, err, Error,
  Bool-cases, Option-cases, if◌then◌else◌, u32_mod, text_eq, text_eq_refl, text_eq_iff,
  append_assoc, >>=-eq-ok, ok-injective,
}
use rabbit_storage_explorer.Base.Dict
use rabbit_storage_explorer.Base.Dict.{get-insert, get-remove, get-insert_same, get-insert_other}
use rabbit_storage_explorer.Storage.{StorageBackend, Reader}
use rabbit_storage_explorer.Crypto.Primitives.{Primitives, IsLawful}
use rabbit_storage_explorer.Crypto.Layout.{
  chunk, cipher_chunk, header_len, prefix_len, encrypted_size,
}
use rabbit_storage_explorer.Crypto.Stream.{
  VaultKeys, encrypt_bytes, seal_data, new_encryptor, header,
}
use rabbit_storage_explorer.Crypto.Stream.Chunks.{length-concat, last_length-le}
use rabbit_storage_explorer.Crypto.Stream.Roundtrip.{decrypt_bytes-encrypt_bytes}
use rabbit_storage_explorer.Transfer.Download.Chunks.{
  pieces, pieces-IsChunked, concat-pieces, size-pieces,
}
use rabbit_storage_explorer.Crypto.Stream.Pieces.{take_all}
use rabbit_storage_explorer.Transfer.Progress.{Float}
use rabbit_storage_explorer.Transfer.Multipart.Parts.{object_of}
use rabbit_storage_explorer.Transfer.Download.{
  OutPath, path_text, part_path, Local, contents, content_or_none, resized, set_len, whole_part,
  rename_file, receive, open_source, cipher_off, finish, fetch, download_one, created, show_row,
  source_length,
}
use rabbit_storage_explorer.Transfer.Download.Receive.{
  IsObject, Smooth, Received, receive_plain, receive_start, receive_rest,
}

absurd_result : {X : Type 0} {e : Error} → ok (tt {0}) ≡ err e → X
absurd_result h = cc

text_eq_sym : (s t : Text) → text_eq s t ≡ false → text_eq t s ≡ false
text_eq_sym s t h = ground (arith, text_eq_iff s t, text_eq_iff t s)

take_front : (n : ℕ) (xs ys : Bytes) → n ≤ length xs → take n xs ≡ take n (xs ++ ys)
take_front zero xs ys h = refl
take_front (suc n) [] ys h = absurd (omega arith)
take_front (suc n) (x ∷ xs) ys h = ap (λ zs. x ∷ zs) (take_front n xs ys (omega arith))

whole_part-le : (keys : Option VaultKeys) (n : ℕ) → whole_part keys n ≤ n
whole_part-le none n = omega arith
whole_part-le (some keys) n = omega arith

resized_less : (n : ℕ) (b : Bytes) → n ≤ length b → resized n b ≡ take n b
resized_less n b h = let none : n - length b ≡ 0 = omega arith in rw none (append-nil (take n b))

there_is : (o : Option Bytes) (b : Bytes) → content_or_none o ≡ b → 0 < length b → o ≡ some b
there_is none b h pos = absurd (omega (arith, ap length h))
there_is (some c) b h pos = ap some h

-- A part of whole chunks that is not the file ends before the last chunk.
before_last :
    (plain : Bytes) (blob_len : ℕ)
    → length plain ≤ (u32_mod - 1) * chunk
    → blob_len ≡ encrypted_size (length plain)
    → (k : ℕ) → k * chunk < length plain
    → (k < length (pieces plain)) × (header_len + k * cipher_chunk ≤ blob_len)
before_last plain blob_len fits total k lt =
    let (lengths, some_piece) = length-concat (pieces plain) (pieces-IsChunked plain) in
    let small = last_length-le chunk (pieces plain) (pieces-IsChunked plain) in
    let few : k < length (pieces plain) =
      omega (arith, lengths, some_piece, small, ap length (concat-pieces plain)) in
    (few, omega (arith, few, total, size-pieces plain fits))

-- There is no part file, or it holds the first bytes of the file.
abbrev pub Held : {S : Type 0} {F : Float} → Text → Bytes → Local S F → Type 0
Held tmp plain l =
    (Dict.get l.disk tmp ≡ none)
    ⊎ ((part : Bytes) × (left : Bytes) × (Dict.get l.disk tmp ≡ some part) × (part ++ left ≡ plain))

module _ (P : Primitives) (lawful : IsLawful P) {B : StorageBackend} {key : Text} {blob : Bytes}
    (O : IsObject B key blob) {F : Float} (is_cancelled : ℕ → Bool) (clock : ℕ → ℕ)
    (tmp path plain : Bytes) (id : ℕ) (up : Bool) where
  -- How an attempt leaves things: the object and the part file are still good for another one, the
  -- file is whole if the attempt succeeded and is left alone if not, and it did succeed if all went
  -- smoothly.
  pub record Downloaded (l : Local B.State F) (out : Result (Unit {0}) × Local B.State F)
      : Type 0 where
    pub good : O.Good up out.1.remote
    pub held : Held tmp plain out.1
    pub done : out.0 ≡ ok tt → Dict.get out.1.disk path ≡ some plain
    pub kept : (e : Error) → out.0 ≡ err e → Dict.get out.1.disk path ≡ Dict.get l.disk path
    pub ends : Smooth is_cancelled up → out.0 ≡ ok tt

  module _ (apart : text_eq tmp path ≡ false) where
    renamed :
        (l l0 : Local B.State F)
        → Dict.get l.disk tmp ≡ some plain
        → O.Good up l.remote
        → Downloaded l0 (finish P B is_cancelled clock tmp path (ok tt) l)
    unfolding rename_file
    renamed l l0 at good =
        let none_left : Dict.get (Dict.insert (Dict.remove l.disk tmp) path plain) tmp ≡ none =
          get-insert_other (Dict.remove l.disk tmp) path tmp plain (text_eq_sym tmp path apart)
          ∙ get-remove l.disk tmp tmp
          ∙ rw (text_eq_refl tmp) refl in
        rw (rename_file, at)
          (record {
            good = good;
            held = inl none_left;
            done = λ q. get-insert_same (Dict.remove l.disk tmp) path plain;
            kept = λ e q. absurd_result q;
            ends = λ s. refl;
          })

    -- What the loop leaves, renamed if it is all there.
    finished :
        (before more : Bytes) (l0 l : Local B.State F) (out : Result (Unit {0}) × Local B.State F)
        → before ++ more ≡ plain
        → Dict.get l.disk path ≡ Dict.get l0.disk path
        → Received P lawful O is_cancelled clock tmp id up before more l out
        → Downloaded l0 (finish P B is_cancelled clock tmp path out.0 out.1)
    finished before more l0 l (ok done, l3) whole same (l1, good, disk, g) =
        let all : g.got ≡ more =
          sym (append-nil g.got) ∙ ap (λ x. g.got ++ x) (sym (g.full refl)) ∙ g.joined in
        renamed l3 l0 (g.file ∙ ap some (ap (λ x. before ++ x) all ∙ whole))
          (subst (O.Good up) (sym g.remote) good)
    finished before more l0 l (err e, l3) whole same (l1, good, disk, g) = record {
      good = subst (O.Good up) (sym g.remote) good;
      held = inr (
        before ++ g.got,
        g.left,
        g.file,
        append_assoc before g.got g.left ∙ ap (λ x. before ++ x) g.joined ∙ whole,
      );
      done = λ q. absurd_result (sym q);
      kept = λ e' q. g.others path apart ∙ ap (λ d. Dict.get d path) disk ∙ same;
      ends = λ s. absurd_result (sym (g.alive s));
    }

    -- The part file holds the `done` first bytes, and nothing else has changed since `l0`.
    record Ready (done : ℕ) (l0 l : Local B.State F) : Type 0 where
      part : contents l.disk tmp ≡ take done plain
      within : done ≤ length plain
      same : Dict.get l.disk path ≡ Dict.get l0.disk path
      remote : l.remote ≡ l0.remote

    Ready-Held : (done : ℕ) (l0 l : Local B.State F) → Ready done l0 l → Held tmp plain l
    Ready-Held done l0 l ready = elim (Option-cases (Dict.get l.disk tmp)) [
      | inl e ↦ inl e
      | inr (b, e) ↦ inr (
        b,
        drop done plain,
        e,
        ap (λ x. x ++ drop done plain) (rw e at ready.part) ∙ take-append-drop done plain,
      )
    ]

    first_bytes :
        (l : Local B.State F)
        → Held tmp plain l
        → (left : Bytes) × (contents l.disk tmp ++ left ≡ plain)
    first_bytes l (inl h) = (plain, rw h refl)
    first_bytes l (inr (part, left, h, joined)) = (left, rw h joined)

    prepared :
        (keys : Option VaultKeys) (l : Local B.State F)
        → Held tmp plain l
        → let found = length (contents l.disk tmp) in
          let done = whole_part keys found in
          Ready done l (if done == found then l else record l { disk = set_len tmp done l.disk })
    prepared keys l h =
        let b = contents l.disk tmp in
        let done = whole_part keys (length b) in
        let (left, joined) = first_bytes l h in
        let le = whole_part-le keys (length b) in
        let front : take done b ≡ take done plain =
          take_front done b left le ∙ ap (take done) joined in
        let within : done ≤ length plain =
          omega (arith, le, ap length joined, length-append b left) in
        elim (Bool-cases (done == length b)) [
          | inl e ↦
              let full : length b ≤ done = ground (arith, e) in
              rw e (record {
                part = sym (take_all done b full) ∙ front;
                within = within;
                same = refl;
                remote = refl;
              })
          | inr n ↦ rw n (record {
            part =
                rw (get-insert_same l.disk tmp (resized done b)) (resized_less done b le ∙ front);
            within = within;
            same = get-insert_other l.disk tmp path (resized done b) apart;
            remote = refl;
          })
        ]

    -- All is there already.
    fetch_complete :
        (keys : Option VaultKeys) (name : Text) (done : ℕ) (l0 l : Local B.State F)
        → (ltb 0 done && leb (length plain) done) ≡ true
        → O.Good up l.remote
        → Ready done l0 l
        → Downloaded l0
            (fetch P B is_cancelled clock keys key tmp path id name (length plain) done l)
    unfolding fetch
    fetch_complete keys name done l0 l full good ready =
        let le : length plain ≤ done = ground arith in
        let pos : 0 < length plain = ground (arith, ready.within) in
        let whole : contents l.disk tmp ≡ plain = ready.part ∙ take_all done plain le in
        let exact : ltb (length plain) (length (contents l.disk tmp)) ≡ false =
          ground (arith, ap length whole) in
        rw (fetch, full, exact) (renamed l l0 (there_is (Dict.get l.disk tmp) plain whole pos) good)

    -- What the source delivers from `done` on is received and renamed.
    fetch_from :
        (keys : Option VaultKeys) (name : Text) (done : ℕ) (l0 l : Local B.State F)
        (source : Result (ℕ × Reader)) (s' : B.State)
        → (ltb 0 done && leb (length plain) done) ≡ false
        → open_source P B is_cancelled clock keys key done l ≡ (source, record l { remote = s' })
        → O.Good up s'
        → Ready done l0 l
        → ((e : Error) → source ≡ err e → up ≡ false)
        → ((len : ℕ) (r : Reader) (l2 : Local B.State F)
            → source ≡ ok (len, r)
            → O.Good up l2.remote
            → Dict.get l2.disk tmp ≡ some (take done plain)
            → Received P lawful O is_cancelled clock tmp id up
                (take done plain)
                (drop done plain)
                l2
                (receive P B is_cancelled clock keys key tmp id
                  (source_length keys (length plain))
                  done
                  r
                  l2))
        → Downloaded l0
            (fetch P B is_cancelled clock keys key tmp path id name (length plain) done l)
    unfolding fetch
    fetch_from keys name done l0 l (err e) s' partial opened good ready down goes_on =
        rw (fetch, partial, opened)
          (record {
            good = good;
            held = Ready-Held done l0 l ready;
            done = λ q. absurd_result (sym q);
            kept = λ e' q. ready.same;
            ends = λ (quiet, on). let off = down e refl in cc;
          })
    fetch_from keys name done l0 l (ok (len, r)) s' partial opened good ready down goes_on =
        let l2 : Local B.State F =
          show_row P B is_cancelled clock id name (length plain) done
            (created P B is_cancelled clock tmp (record l { remote = s' })) in
        let at : Dict.get l2.disk tmp ≡ some (take done plain) =
          get-insert_same l.disk tmp (contents l.disk tmp) ∙ ap some ready.part in
        rw (fetch, partial, opened)
          (finished (take done plain) (drop done plain) l0 l2 _ (take-append-drop done plain)
            (get-insert_other l.disk tmp path (contents l.disk tmp) apart ∙ ready.same)
            (goes_on len r l2 refl good at))

    fetch_plain :
        (name : Text) (done : ℕ) (l0 l : Local B.State F)
        → blob ≡ plain
        → O.Good up l.remote
        → Ready done l0 l
        → Downloaded l0
            (fetch P B is_cancelled clock none key tmp path id name (length plain) done l)
    fetch_plain name done l0 l exact good ready =
        elim (Bool-cases (ltb 0 done && leb (length plain) done)) [
          | inl full ↦ fetch_complete none name done l0 l full good ready
          | inr partial ↦ elim (Bool-cases (ltb 0 done)) [
            | inl later ↦
                let (good', source) =
                  O.range up done l.remote good (omega (arith, ready.within, ap length exact)) in
                fetch_from none name done l0 l (B.get_range key done l.remote).0
                  (B.get_range key done l.remote).1 partial (rw later refl) good' ready
                  (λ e failed. rw failed at source)
                  (λ len r l2 got good2 at.
                    let (missing, split, whole, stays) = rw got at source in
                    receive_plain P lawful O is_cancelled clock tmp id up done r missing
                      (take done plain) (drop done plain) (length plain) l2 good2
                      (split ∙ ap (drop done) exact) whole stays at)
            | inr first ↦
                let (good', source) = O.stream up l.remote good in
                let start : done ≡ 0 = ground arith in
                fetch_from none name done l0 l (B.get_stream key l.remote).0
                  (B.get_stream key l.remote).1 partial (rw first refl) good' ready
                  (λ e failed. rw failed at source)
                  (λ len r l2 got good2 at.
                    let (missing, split, whole, stays) = rw got at source in
                    receive_plain P lawful O is_cancelled clock tmp id up done r missing
                      (take done plain) (drop done plain) (length plain) l2 good2
                      (split ∙ exact ∙ ap (λ n. drop n plain) (sym start)) whole stays at)
          ]
        ]

    module _ (keys : VaultKeys) (prefix body : Bytes) (sized : length prefix ≡ prefix_len)
        (fits : length plain ≤ (u32_mod - 1) * chunk)
        (sealed : seal_data P (new_encryptor keys prefix) plain ≡ ok body)
        (object : blob ≡ header (new_encryptor keys prefix) ++ body)
        (total : length blob ≡ encrypted_size (length plain)) where
      fetch_sealed :
          (name : Text) (k : ℕ) (l0 l : Local B.State F)
          → O.Good up l.remote
          → Ready (k * chunk) l0 l
          → Downloaded l0 (
              fetch P B is_cancelled clock
                (some keys)
                key
                tmp
                path
                id
                name
                (length plain)
                (k * chunk)
                l)
      fetch_sealed name k l0 l good ready =
          elim (Bool-cases (ltb 0 (k * chunk) && leb (length plain) (k * chunk))) [
            | inl full ↦ fetch_complete (some keys) name (k * chunk) l0 l full good ready
            | inr partial ↦ elim (Bool-cases (ltb 0 (k * chunk))) [
              | inl later ↦
                  let (few, inside) = before_last plain (length blob) fits total k (ground arith) in
                  let off : cipher_off (some keys) (k * chunk) ≡ header_len + k * cipher_chunk =
                    omega arith in
                  let (good', source) =
                    O.range up (header_len + k * cipher_chunk) l.remote good inside in
                  fetch_from (some keys) name (k * chunk) l0 l
                    (B.get_range key (header_len + k * cipher_chunk) l.remote).0
                    (B.get_range key (header_len + k * cipher_chunk) l.remote).1 partial
                    (rw (later, off) refl) good' ready (λ e failed. rw failed at source)
                    (λ len r l2 got good2 at.
                      let (missing, split, whole, stays) = rw got at source in
                      receive_rest P lawful O is_cancelled clock tmp id up keys prefix plain body
                        sized fits sealed object k r missing (take (k * chunk) plain) l2 good2
                        (ground arith) few split (λ on. whole (stays on)) at refl)
              | inr first ↦
                  let (good', source) = O.stream up l.remote good in
                  let start : k ≡ 0 = ground arith in
                  let some_piece = (length-concat (pieces plain) (pieces-IsChunked plain)).1 in
                  fetch_from (some keys) name (k * chunk) l0 l (B.get_stream key l.remote).0
                    (B.get_stream key l.remote).1 partial (rw first refl) good' ready
                    (λ e failed. rw failed at source)
                    (λ len r l2 got good2 at.
                      let (missing, split, whole, stays) = rw got at source in
                      subst
                        (λ n.
                          Received P lawful O is_cancelled clock tmp id up (take (n * chunk) plain)
                            (drop (n * chunk) plain) l2
                            (receive P B is_cancelled clock (some keys) key tmp id
                              (encrypted_size (length plain)) (n * chunk) r l2))
                        (sym start)
                        (receive_start P lawful O is_cancelled clock tmp id up keys prefix plain
                          body sized fits sealed object r missing [] l2 good2 some_piece split
                          (λ on. whole (stays on)) (rw start at at) refl))
            ]
          ]

      fetch_at :
          (name : Text) (k done : ℕ) (l0 l : Local B.State F)
          → done ≡ k * chunk
          → O.Good up l.remote
          → Ready done l0 l
          → Downloaded l0
              (fetch P B is_cancelled clock (some keys) key tmp path id name (length plain) done l)
      fetch_at name k done l0 l e good ready = rw e (fetch_sealed name k l0 l good (rw e at ready))

    attempt :
        (keys : Option VaultKeys) (prefix : Bytes) (name : Text) (l : Local B.State F)
        → length prefix ≡ prefix_len
        → length plain ≤ (u32_mod - 1) * chunk
        → object_of P keys prefix plain ≡ ok blob
        → O.Good up l.remote
        → Held tmp plain l
        → let found = length (contents l.disk tmp) in
          let done = whole_part keys found in
          Downloaded l (
            fetch P B is_cancelled clock keys key tmp path id name
              (length plain)
              done
              (if done == found then l else record l { disk = set_len tmp done l.disk }))
    unfolding encrypt_bytes
    attempt none prefix name l sized fits stored good held =
        let ready = prepared none l held in
        fetch_plain name _ l _ (sym (ok-injective stored))
          (subst (O.Good up) (sym ready.remote) good) ready
    attempt (some keys) prefix name l sized fits stored good held =
        let ready = prepared (some keys) l held in
        let found = length (contents l.disk tmp) in
        let whole : found - found % chunk ≡ found / chunk * chunk = omega arith in
        let (blob', made, size, reads) =
          decrypt_bytes-encrypt_bytes P lawful keys prefix plain sized fits in
        let same : blob' ≡ blob = ok-injective (sym made ∙ stored) in
        let (body, sealed, h) =
          >>=-eq-ok (seal_data P (new_encryptor keys prefix) plain) _ stored in
        let start : Local B.State F =
          if whole_part (some keys) found == found
          then l
          else record l { disk = set_len tmp (whole_part (some keys) found) l.disk } in
        fetch_at keys prefix body sized fits sealed (sym (ok-injective h))
          (ap length (sym same) ∙ size) name (found / chunk) (whole_part (some keys) found) l start
          whole (subst (O.Good up) (sym ready.remote) good) ready

-- With lawful primitives, a storage that has at `key` what was uploaded for the file `plain` of at most 2^32 - 1
-- chunks, and a part file that is absent or holds the first bytes of it: an attempt to download it, whatever is cancelled or
-- breaks on the way, leaves the object and such a part file; if it succeeds, the target is `plain`, and
-- if it fails, the target is as before; and it succeeds if no check finds it cancelled and the storage
-- stays up. The part file has another path than the target.
pub download_one-Downloaded :
    (P : Primitives) (lawful : IsLawful P) {B : StorageBackend} {key : Text} {blob : Bytes}
    (O : IsObject B key blob) {F : Float} (is_cancelled : ℕ → Bool) (clock : ℕ → ℕ)
    (keys : Option VaultKeys) (prefix plain : Bytes) (id : ℕ) (name : Text) (out : OutPath)
    (up : Bool) (l : Local B.State F)
    → length prefix ≡ prefix_len
    → length plain ≤ (u32_mod - 1) * chunk
    → object_of P keys prefix plain ≡ ok blob
    → text_eq (path_text (part_path P.is_utf8 out)) (path_text out) ≡ false
    → O.Good up l.remote
    → Held (path_text (part_path P.is_utf8 out)) plain l
    → Downloaded P lawful O is_cancelled clock
        (path_text (part_path P.is_utf8 out))
        (path_text out)
        plain
        id
        up
        l
        (download_one P B is_cancelled clock keys key id name (length plain) out l)
unfolding download_one
download_one-Downloaded P lawful {B} {key} {blob} O is_cancelled clock keys prefix plain id name out
      up l sized fits stored apart good held =
    elim (Bool-cases (is_cancelled 0)) [
      | inl y ↦ rw y (record {
        good = good;
        held = held;
        done = λ q. absurd_result (sym q);
        kept = λ e q. refl;
        ends = λ (quiet, on). let off = quiet 0 in cc;
      })
      | inr n ↦ rw n (
          attempt P lawful O is_cancelled clock _ (path_text out) plain id up apart keys prefix name
            l sized fits stored good held)
    ]
