-- ===== src/Transfer/Download.antt =====
-- `download_one` of src/worker.rs, and the local files it works on: a dictionary by their paths, in
-- which every directory is there and the calls of tokio::fs fail on a missing file alone. The
-- answers of the cancellation token are a function of the number of the check, and the clock one of
-- the round. The waits of the download limiter change nothing and are left out; `read_or_stall` turns
-- a dead connection into an error, as a broken `Reader` does. Events to the window are left out.
pub mod Loops
pub mod Resume
pub mod Receive
pub mod Chunks
use rabbit_storage_explorer.Base.{
  ℕ, zero, suc, ◌+◌, ◌-◌, ◌*◌, ◌/◌, ◌%◌, Bool, true, false, ◌&&◌, not, Option, none, some, [], ◌∷◌,
  ◌++◌, length, take, drop, replicate, leb, ltb, ◌==◌, if◌then◌else◌, Bytes, Text, text, Result, ok,
  err, Error, u32_mod, cancelled, reading_header, reading_chunk, read_failed, no_such_file,
  file_too_short, out_of_fuel,
}
use rabbit_storage_explorer.Base.Dict
use rabbit_storage_explorer.Base.Dict.{Dict}
use rabbit_storage_explorer.Base.Exec.{Exec, ◌>>=◌, pure, fail, lift, outcome}
use rabbit_storage_explorer.Storage.{StorageBackend, Reader}
use rabbit_storage_explorer.Crypto.Primitives.{Primitives}
use rabbit_storage_explorer.Crypto.Layout.{
  chunk, cipher_chunk, header_len, encrypted_size, chunk_layout,
}
use rabbit_storage_explorer.Crypto.Stream.{VaultKeys, Decryptor, new_decryptor, seek_to, open_chunk}
use rabbit_storage_explorer.Transfer.Progress.{
  Float, Progress, download, file_start, file_resume, tick,
}

-- A path as its directory and its last component, if that is a name.
pub record OutPath : Type 0 where
  pub dir : Text
  pub file_name : Option Text

abbrev joined : Text → Option Text → Text
joined dir none = dir
joined dir (some n) = dir ++ (47 ∷ n)

abbrev pub path_text : OutPath → Text
path_text out = joined out.dir out.file_name

abbrev name_or : (Text → Bool) → Option Text → Text
name_or is_utf8 none = text "download"
name_or is_utf8 (some n) = if is_utf8 n then n else text "download"

unfoldable pub part_path : (Text → Bool) → OutPath → OutPath
part_path is_utf8 out = record out {
  file_name = some (name_or is_utf8 out.file_name ++ text ".rse-part");
}

abbrev pub content_or_none : Option Bytes → Bytes
content_or_none none = []
content_or_none (some b) = b

abbrev pub contents : Dict Bytes → Text → Bytes
contents disk path = content_or_none (Dict.get disk path)

-- `File::set_len`
abbrev pub resized : ℕ → Bytes → Bytes
resized n b = take n b ++ replicate (n - length b) 0

abbrev pub set_len : Text → ℕ → Dict Bytes → Dict Bytes
set_len path n disk = Dict.insert disk path (resized n (contents disk path))

abbrev moved : Text → Text → Option Bytes → Dict Bytes → Result (Unit {0}) × Dict Bytes
moved from to none disk = (err no_such_file, disk)
moved from to (some b) disk = (ok tt, Dict.insert (Dict.remove disk from) to b)

unfoldable pub rename_file : Text → Text → Dict Bytes → Result (Unit {0}) × Dict Bytes
rename_file from to disk = moved from to (Dict.get disk from) disk

unfoldable pub read_exact : Error → Reader → ℕ → Result (Bytes × Reader)
read_exact e r n =
    if leb n (length r.ready)
    then ok (take n r.ready, record r { ready = drop n r.ready })
    else err e

-- The plaintext bytes that a download goes on from: whole chunks of an encrypted file.
abbrev pub whole_part : Option VaultKeys → ℕ → ℕ
whole_part none done = done
whole_part (some keys) done = done - done % chunk

abbrev pub source_length : Option VaultKeys → ℕ → ℕ
source_length none expected_len = expected_len
source_length (some keys) expected_len = encrypted_size expected_len

abbrev pub cipher_off : Option VaultKeys → ℕ → ℕ
cipher_off none done = done
cipher_off (some keys) done = header_len + done / chunk * cipher_chunk

-- What a download acts on.
pub record Local (S : Type 0) (F : Float) : Type 0 where
  pub remote : S
  pub disk : Dict Bytes
  pub progress : Progress F

module _ {S : Type 0} {F : Float} where
  abbrev pub on_remote : {X : Type 0} → Exec S X → Exec (Local S F) X
  on_remote call l = let (r, s) = call l.remote in (r, record l { remote = s })

  abbrev pub on_disk : (Dict Bytes → Result (Unit {0}) × Dict Bytes) → Exec (Local S F) (Unit {0})
  on_disk call l = let (r, d) = call l.disk in (r, record l { disk = d })

  -- `write_all` at the end of the file, and the tick that follows.
  abbrev pub append_ticked : Text → ℕ → ℕ → Bytes → Local S F → Local S F
  append_ticked tmp id now piece l = record l {
    disk = Dict.insert l.disk tmp (contents l.disk tmp ++ piece);
    progress = (tick now id (length piece) l.progress).0;
  }

module _ (P : Primitives) (B : StorageBackend) {F : Float} (is_cancelled : ℕ → Bool)
    (clock : ℕ → ℕ) where
  -- The loop of a plain file.
  unfoldable pub plain_loop : Text → ℕ → ℕ → ℕ → Reader → Exec (Local B.State F) (Unit {0})
  plain_loop tmp id zero round r = fail out_of_fuel
  plain_loop tmp id (suc fuel) round r = elim (is_cancelled (1 + 2 * round)) [
    | true ↦ fail cancelled
    | false ↦
        let piece = take 262144 r.ready in
        elim (length piece == 0) [
          | true ↦ if r.broken then fail read_failed else pure tt
          | false ↦ elim (is_cancelled (2 + 2 * round)) [
            | true ↦ fail cancelled
            | false ↦ λ l.
                plain_loop tmp id fuel (round + 1) (record r { ready = drop 262144 r.ready })
                  (append_ticked tmp id (clock round) piece l)
          ]
        ]
  ]

  -- The loop of an encrypted file, by the chunks that are left.
  unfoldable pub chunk_loop :
      Text → ℕ → ℕ → ℕ → Decryptor → ℕ → Reader → Exec (Local B.State F) (Unit {0})
  chunk_loop tmp id last_len zero dec round r = pure tt
  chunk_loop tmp id last_len (suc left) dec round r = elim (is_cancelled (1 + 2 * round)) [
    | true ↦ fail cancelled
    | false ↦
        let last = left == 0 in
        let clen = if last then last_len else cipher_chunk in
        lift (read_exact reading_chunk r clen) >>= λ got. elim (is_cancelled (2 + 2 * round)) [
          | true ↦ fail cancelled
          | false ↦ lift (open_chunk P dec got.0 last) >>= λ opened. λ l.
              chunk_loop tmp id last_len left opened.1 (round + 1) got.1
                (append_ticked tmp id (clock round) opened.0 l)
        ]
  ]

  -- The header, from the stream or, where that starts behind it, by a read of its own.
  unfoldable pub get_header : Text → ℕ → Reader → Exec (Local B.State F) (Bytes × Reader)
  unfolding read_exact
  get_header key completed r =
      if completed == 0
      then lift (read_exact reading_header r header_len)
      else on_remote (B.read_header key header_len) >>= λ head.
          if ltb (length head) header_len
          then fail file_too_short
          else pure (take header_len head, r)

  unfoldable pub receive :
      Option VaultKeys → Text → Text → ℕ → ℕ → ℕ → Reader → Exec (Local B.State F) (Unit {0})
  unfolding plain_loop chunk_loop get_header
  receive none key tmp id cipher_len done r = plain_loop tmp id (suc (length r.ready)) 0 r
  receive (some keys) key tmp id cipher_len done r = do
    layout ← lift (chunk_layout cipher_len)
    let completed = done / chunk
    got ← get_header key completed r
    dec ← lift (new_decryptor keys got.0)
    chunk_loop tmp id layout.1 (layout.0 - completed) (seek_to dec (completed % u32_mod)) 0 got.1

  abbrev pub open_source : Option VaultKeys → Text → ℕ → Exec (Local B.State F) (ℕ × Reader)
  open_source keys key done =
      if ltb 0 done
      then on_remote (B.get_range key (cipher_off keys done))
      else on_remote (B.get_stream key)

  abbrev pub show_row : ℕ → Text → ℕ → ℕ → Local B.State F → Local B.State F
  show_row id name total done l = record l {
    progress =
        if ltb 0 done
        then file_resume (clock 0) id download name total done l.progress
        else file_start (clock 0) id download name total l.progress;
  }

  -- `OpenOptions::create`
  abbrev pub created : Text → Local B.State F → Local B.State F
  created tmp l = record l { disk = Dict.insert l.disk tmp (contents l.disk tmp) }

  abbrev pub finish : Text → Text → Result (Unit {0}) → Exec (Local B.State F) (Unit {0})
  finish tmp out (ok done) = on_disk (rename_file tmp out)
  finish tmp out (err e) = fail e

  -- From the point on where the part file holds `done` bytes that are kept.
  unfoldable pub fetch :
      Option VaultKeys → Text → Text → Text → ℕ → Text → ℕ → ℕ → Exec (Local B.State F) (Unit {0})
  unfolding receive rename_file
  fetch keys key tmp out id name expected_len done l =
      if ltb 0 done && leb expected_len done
      then on_disk (rename_file tmp out) (
          if ltb expected_len (length (contents l.disk tmp))
          then record l { disk = set_len tmp expected_len l.disk }
          else l)
      else (do
        source ← open_source keys key done
        result ← λ l'.
            outcome (receive keys key tmp id (source_length keys expected_len) done source.1)
              (show_row id name expected_len done (created tmp l'))
        finish tmp out result)
          l

  unfoldable pub download_one :
      Option VaultKeys → Text → ℕ → Text → ℕ → OutPath → Exec (Local B.State F) (Unit {0})
  unfolding fetch part_path
  download_one keys key id name expected_len out l =
      if is_cancelled 0
      then (err cancelled, l)
      else let tmp = path_text (part_path P.is_utf8 out) in
        let found = length (contents l.disk tmp) in
        let done = whole_part keys found in
        fetch keys key tmp (path_text out) id name expected_len done
          (if done == found then l else record l { disk = set_len tmp done l.disk })
