-- ===== src/Storage/Nfs/Files.antt =====
-- Reading and writing files over NFS: src/storage/nfs.rs. Waits for the rate limiter change no
-- state, and are left out. A stream is pumped into its channel when it is opened; `fuel` bounds the
-- rounds of the loops that end where the server says so.
pub mod Writing
pub mod Reading
pub mod Storing
pub mod View
pub mod Streams
pub mod Bare
use rabbit_storage_explorer.Base.{
  ℕ, zero, suc, ◌+◌, ◌-◌, min, Bool, true, false, Option, none, some, List, [], ◌∷◌, ◌++◌, length,
  take, drop, ◌==◌, ltb, if◌then◌else◌, Bytes, Text, Result, ok, err, Error, created_not_found,
  zero_bytes_accepted, not_found, out_of_fuel,
}
use rabbit_storage_explorer.Base.Exec.{Exec, ◌>>=◌, pure, fail}
use rabbit_storage_explorer.Storage.{Reader}
use rabbit_storage_explorer.Storage.Nfs.Server.{
  NfsServer, Handle, Attr, Reply, done, refused, ReadReply,
}
use rabbit_storage_explorer.Storage.Nfs.{
  NfsBackend, called, on_conn, accepted, lookup, resolve_parent, file_handle,
}

-- READ_CHUNK and WRITE_CHUNK: 256 KiB.
abbrev pub read_chunk : ℕ
read_chunk = 262144

abbrev pub write_chunk : ℕ
write_chunk = 262144

-- `on_bytes`, if there is one.
abbrev pub report : {S : Type 0} → Bool → ℕ → NfsBackend S → NfsBackend S
report on_bytes n s = if on_bytes then record s { reported = s.reported + n } else s

module _ (N : NfsServer) where
  abbrev pub made : Option (Handle × Option Attr) → Exec (NfsBackend N.State) Handle
  made none = fail created_not_found
  made (some x) = pure x.0

  -- Truncates the file that there is, or makes one.
  abbrev pub truncate_or_create :
      Handle → Text → Option (Handle × Option Attr) → Exec (NfsBackend N.State) Handle
  truncate_or_create dir name (some x) = called (N.set_size x.0 0) >>= λ t. pure x.0
  truncate_or_create dir name none = do
    t ← called (N.create dir name)
    o ← lookup N dir name
    made o

  unfoldable pub create_truncated : Text → Exec (NfsBackend N.State) Handle
  create_truncated key = do
    at ← resolve_parent N key
    o ← lookup N at.0 at.1
    truncate_or_create at.0 at.1 o

  -- One chunk: what a short write left is written again, and each round takes at least a byte.
  unfoldable pub write_part : Bool → Handle → ℕ → ℕ → Bytes → Exec (NfsBackend N.State) ℕ
  write_part on_bytes fh fuel offset [] = pure offset
  write_part on_bytes fh zero offset (b ∷ bs) = fail out_of_fuel
  write_part on_bytes fh (suc fuel) offset (b ∷ bs) =
      called (N.write fh offset (b ∷ bs)) >>= λ count. elim (count == 0) [
        | true ↦ fail zero_bytes_accepted
        | false ↦ λ s.
            write_part on_bytes fh fuel (offset + count) (drop count (b ∷ bs))
              (report on_bytes count s)
      ]

  -- `data.chunks(size)`, each of them written.
  unfoldable pub write_chunks : Bool → Handle → ℕ → ℕ → ℕ → Bytes → Exec (NfsBackend N.State) ℕ
  write_chunks on_bytes fh size fuel offset [] = pure offset
  write_chunks on_bytes fh size zero offset (b ∷ bs) = fail out_of_fuel
  write_chunks on_bytes fh size (suc fuel) offset (b ∷ bs) =
      write_part on_bytes fh size offset (take size (b ∷ bs)) >>= λ next.
      write_chunks on_bytes fh size fuel next (drop size (b ∷ bs))

  unfoldable pub write_at : Bool → Handle → ℕ → Bytes → Exec (NfsBackend N.State) ℕ
  write_at on_bytes fh offset content =
      write_chunks on_bytes fh write_chunk (length content) offset content

  unfoldable pub commit : Handle → Exec (NfsBackend N.State) (Unit {0})
  commit fh = called (N.commit fh)

  unfoldable pub put : Text → Bytes → Exec (NfsBackend N.State) (Unit {0})
  put key content = do fh ← create_truncated key; end ← write_at false fh 0 content; commit fh

  unfoldable pub put_throttled : Text → Bytes → Exec (NfsBackend N.State) (Unit {0})
  put_throttled key content = do
    fh ← create_truncated key
    end ← write_at false fh 0 content
    committed ← commit fh
    pure tt

  -- The loop of `get`.
  unfoldable pub read_all : Handle → ℕ → ℕ → ℕ → Bytes → Exec (NfsBackend N.State) Bytes
  read_all fh size zero offset out = fail out_of_fuel
  read_all fh size (suc fuel) offset out = called (N.read fh offset size) >>= λ r. elim r.eof [
    | true ↦ pure (out ++ r.content)
    | false ↦ read_all fh size fuel (offset + r.count) (out ++ r.content)
  ]

  abbrev pub read_found : ℕ → Option (Handle × ℕ) → Exec (NfsBackend N.State) (Option Bytes)
  read_found fuel none = pure none
  read_found fuel (some x) = read_all x.0 read_chunk fuel 0 [] >>= λ out. pure (some out)

  unfoldable pub get : ℕ → Text → Exec (NfsBackend N.State) (Option Bytes)
  get fuel key = file_handle N key >>= read_found fuel

  -- What is sent on the channel before a read: its error ends the stream.
  abbrev pub pumped :
      (ReadReply → Exec (NfsBackend N.State) Reader)
      → Bytes
      → Result (Reply ReadReply) × NfsBackend N.State
      → Result Reader × NfsBackend N.State
  pumped next out (err e, s) = (ok (record { ready = out; broken = true }), s)
  pumped next out (ok (refused stat), s) = (ok (record { ready = out; broken = true }), s)
  pumped next out (ok (done r), s) = next r s

  -- The task that `get_stream` and `get_range` spawn.
  unfoldable pub pump : Handle → ℕ → ℕ → ℕ → Bytes → Exec (NfsBackend N.State) Reader
  pump fh size zero offset out s = (err out_of_fuel, s)
  pump fh size (suc fuel) offset out s =
      pumped
        (λ r. elim r.eof [
          | true ↦ pure (record { ready = out ++ r.content; broken = false })
          | false ↦ pump fh size fuel (offset + r.count) (out ++ r.content)
        ])
        out (on_conn (N.read fh offset size) s)

  abbrev pub stream_found : ℕ → ℕ → Option (Handle × ℕ) → Exec (NfsBackend N.State) (ℕ × Reader)
  stream_found fuel offset none = fail not_found
  stream_found fuel offset (some x) =
      pump x.0 read_chunk fuel (min offset x.1) [] >>= λ r. pure (x.1, r)

  unfoldable pub get_stream : ℕ → Text → Exec (NfsBackend N.State) (ℕ × Reader)
  get_stream fuel key = file_handle N key >>= stream_found fuel 0

  unfoldable pub get_range : ℕ → Text → ℕ → Exec (NfsBackend N.State) (ℕ × Reader)
  get_range fuel key offset = file_handle N key >>= stream_found fuel offset

  -- The loop of `read_header`: each round but the last takes at least one byte of those wanted.
  unfoldable pub read_front : Handle → ℕ → ℕ → ℕ → Bytes → Exec (NfsBackend N.State) Bytes
  read_front fh len zero offset out =
      if ltb (length out) len then fail out_of_fuel else pure (take len out)
  read_front fh len (suc fuel) offset out = elim (ltb (length out) len) [
    | false ↦ pure (take len out)
    | true ↦ called (N.read fh offset (len - length out)) >>= λ r. elim (length r.content == 0) [
      | true ↦ pure (take len out)
      | false ↦ elim r.eof [
        | true ↦ pure (take len (out ++ r.content))
        | false ↦ read_front fh len fuel (offset + length r.content) (out ++ r.content)
      ]
    ]
  ]

  abbrev pub front_found : ℕ → Option (Handle × ℕ) → Exec (NfsBackend N.State) Bytes
  front_found len none = fail not_found
  front_found len (some x) = read_front x.0 len len 0 []

  unfoldable pub read_header : Text → ℕ → Exec (NfsBackend N.State) Bytes
  read_header key len = file_handle N key >>= front_found len
