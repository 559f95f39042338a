-- ===== src/Storage/Nfs/Files/Streams.antt =====
-- Streams over an NFS server that is up, from the start and from an offset.
use rabbit_storage_explorer.Base.{
  ℕ, ◌≤◌, ◌<◌, min, ◌≡◌, refl, ap, ◌∙◌, true, false, Option, none, some, [], append-nil, arith,
  length, take, drop, Bytes, Text, ok,
}
use rabbit_storage_explorer.Storage.{Reader}
use rabbit_storage_explorer.Storage.Nfs.Server.{NfsServer, Handle, Attr, IsServer, Fits}
use rabbit_storage_explorer.Storage.Nfs.{NfsBackend, file_handle, with_size, size_of}
use rabbit_storage_explorer.Storage.Nfs.Resolve.{IsCached, Kept, Kept-both, Answers, tree_of}
use rabbit_storage_explorer.Storage.Nfs.Changes.{place}
use rabbit_storage_explorer.Storage.Nfs.Files.{
  stream_found, get_stream, get_range, read_header, read_chunk,
}
use rabbit_storage_explorer.Storage.Nfs.Files.Reading.{pump_lem, read_front_lem}
use rabbit_storage_explorer.Storage.Nfs.Files.View.{file_handle_found}
use rabbit_storage_explorer.Storage.Nfs.Backend.{nfs}
use rabbit_storage_explorer.Transfer.Download.Receive.{IsObject}

abbrev whole : Bytes → Reader
whole b = record { ready = b; broken = false }

module _ {N : NfsServer} (L : IsServer N) (key : Text) (blob : Bytes) where
  -- The backend has the object, and its cache is right.
  pub record HasObject (fh : Handle) (s : NfsBackend N.State) : Type 0 where
    pub cached : IsCached L s
    pub dir : Handle
    pub name : Text
    pub placed : place (tree_of L s) s.root key ≡ some (dir, name)
    pub found : (tree_of L s).entry dir name ≡ some fh
    pub content : (tree_of L s).file fh ≡ blob

  pub HasObject-Kept :
      (fh : Handle) (s s' : NfsBackend N.State) → Kept L s s' → HasObject fh s → HasObject fh s'
  HasObject-Kept fh s s' k h = record {
    cached = k.cached;
    dir = h.dir;
    name = h.name;
    placed = rw (k.trees, k.root) h.placed;
    found = rw k.trees h.found;
    content = rw k.trees h.content;
  }

  handle_found :
      (fh : Handle) (s : NfsBackend N.State) (h : HasObject fh s)
      → (a : Option Attr) × (s' : NfsBackend N.State) × (file_handle N key s
          ≡ (ok (some (fh, size_of N a)), s'))
        × Fits L.attributed a blob
        × Kept L s s'
  handle_found fh s h =
      let (o, s', got, answers, kept) = file_handle_found L key h.dir h.name s h.cached h.placed in
      let answer : Answers L (tree_of L s) (some fh) o = rw (h.placed, h.found) at answers in
      let (a, something, fits) = answer in
      (a, s', got ∙ ap (λ x. (ok (with_size N x), s')) something, rw h.content at fits, kept)

  full_size :
      (a : Option Attr) → L.attributed ≡ true → Fits L.attributed a blob → size_of N a ≡ length blob
  full_size none always fits = absurd cc
  full_size (some a) always fits = fits

  module _ (fuel : ℕ) (enough : length blob < fuel) where
    -- From an offset, as far as the size that LOOKUP gave allows it.
    streams_from :
        (offset size : ℕ) (fh : Handle) (s : NfsBackend N.State) (h : HasObject fh s)
        → min offset size ≤ length blob
        → (s' : NfsBackend N.State) × (stream_found N fuel offset (some (fh, size)) s
            ≡ (ok (size, whole (drop (min offset size) blob)), s'))
          × Kept L s s'
    streams_from offset size fh s h le =
        let (s', pumped, kept) =
          pump_lem L fh read_chunk (omega arith) fuel (min offset size) [] s h.cached
            (rw h.content le) (rw h.content (omega (arith, enough))) in
        (s', rw pumped (rw h.content refl), kept)

    -- On a server that gives attributes, a stream from an offset inside the object is the rest of
    -- it, and the length given is that of the whole.
    pub get_range_lem :
        (offset : ℕ) (fh : Handle) (s : NfsBackend N.State) (h : HasObject fh s)
        → L.attributed ≡ true
        → offset ≤ length blob
        → (s' : NfsBackend N.State) × (get_range N fuel key offset s
            ≡ (ok (length blob, record { ready = drop offset blob; broken = false }), s'))
          × Kept L s s'
    unfolding get_range
    get_range_lem offset fh s h always le =
        let (a, s1, got, fits, k1) = handle_found fh s h in
        let size : size_of N a ≡ length blob = full_size a always fits in
        let at : min offset (size_of N a) ≡ offset = omega (arith, size, le) in
        let (s2, streamed, k2) =
          streams_from offset (size_of N a) fh s1 (HasObject-Kept fh s s1 k1 h)
            (omega (arith, at, le)) in
        (
          s2,
          rw got (
              streamed
              ∙ ap (λ n. (ok (n, whole (drop (min offset (size_of N a)) blob)), s2)) size
              ∙ ap (λ n. (ok (length blob, whole (drop n blob)), s2)) at),
          Kept-both L s s1 s2 k1 k2,
        )

    -- A stream from the start is the whole object.
    pub get_stream_lem :
        (fh : Handle) (s : NfsBackend N.State) (h : HasObject fh s)
        → (size : ℕ) × (s' : NfsBackend N.State) × (get_stream N fuel key s
            ≡ (ok (size, record { ready = blob; broken = false }), s'))
          × Kept L s s'
    unfolding get_stream
    get_stream_lem fh s h =
        let (a, s1, got, fits, k1) = handle_found fh s h in
        let start : min 0 (size_of N a) ≡ 0 = omega arith in
        let (s2, streamed, k2) =
          streams_from 0 (size_of N a) fh s1 (HasObject-Kept fh s s1 k1 h) (omega (arith, start)) in
        (
          size_of N a,
          s2,
          rw got (streamed ∙ ap (λ n. (ok (size_of N a, whole (drop n blob)), s2)) start),
          Kept-both L s s1 s2 k1 k2,
        )

    -- The bare server: what `get_range` makes of a size that it does not know.
    pub streams_bare :
        (offset : ℕ) (fh : Handle) (s s1 : NfsBackend N.State) (h : HasObject fh s)
        → file_handle N key s ≡ (ok (some (fh, 0)), s1)
        → Kept L s s1
        → (s' : NfsBackend N.State) × (get_range N fuel key offset s
            ≡ (ok (0, record { ready = blob; broken = false }), s'))
    unfolding get_range
    streams_bare offset fh s s1 h got k1 =
        let start : min offset 0 ≡ 0 = omega arith in
        let (s2, streamed, k2) =
          streams_from offset 0 fh s1 (HasObject-Kept fh s s1 k1 h) (omega (arith, start)) in
        (s2, rw got (streamed ∙ ap (λ n. (ok (0, whole (drop n blob)), s2)) start))

  -- The first bytes, or all where there are fewer.
  pub read_header_lem :
      (len : ℕ) (fh : Handle) (s : NfsBackend N.State) (h : HasObject fh s)
      → (s' : NfsBackend N.State) × (read_header N key len s ≡ (ok (take len blob), s'))
        × Kept L s s'
  unfolding read_header
  read_header_lem len fh s h =
      let (a, s1, got, fits, k1) = handle_found fh s h in
      let (s2, front, k2) = read_front_lem L fh len len 0 [] s1 k1.cached refl refl (omega arith) in
      let same : (tree_of L s1).file fh ≡ blob = (HasObject-Kept fh s s1 k1 h).content in
      (s2, rw got (front ∙ ap (λ b. (ok (take len b), s2)) same), Kept-both L s s1 s2 k1 k2)

  -- A server that is up and gives attributes is a storage that has the object, as the downloads of
  -- the worker want it.
  unfoldable pub nfs-IsObject :
      (fuel : ℕ) → length blob < fuel → L.attributed ≡ true → IsObject (nfs N fuel) key blob
  nfs-IsObject fuel enough always = record {
    Good = λ up s. (fh : Handle) × HasObject fh s;
    stream = λ up s (fh, h).
        let (size, s', got, kept) = get_stream_lem fuel enough fh s h in
        rw got ((fh, HasObject-Kept fh s s' kept h), ([], append-nil blob, λ b. refl, λ on. refl));
    range = λ up off s (fh, h) le.
        let (s', got, kept) = get_range_lem fuel enough off fh s h always le in
        rw got (
          (fh, HasObject-Kept fh s s' kept h),
          ([], append-nil (drop off blob), λ b. refl, λ on. refl),
        );
    head = λ up n s (fh, h).
        let (s', got, kept) = read_header_lem n fh s h in
        rw got ((fh, HasObject-Kept fh s s' kept h), refl);
  }
