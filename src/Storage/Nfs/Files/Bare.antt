-- ===== src/Storage/Nfs/Files/Bare.antt =====
-- NFS servers that leave the attributes out of their replies to LOOKUP, as the protocol allows.
use rabbit_storage_explorer.Base.{
  ℕ, ◌<◌, ◌≡◌, refl, ap, ◌∙◌, false, Option, none, some, length, Bytes, Text, Result, ok, err,
}
use rabbit_storage_explorer.Base.Exec.{and_then}
use rabbit_storage_explorer.Storage.Nfs.Server.{
  NfsServer, Handle, Attr, IsServer, noent, exist, other, Reply, done, refused,
}
use rabbit_storage_explorer.Storage.Nfs.{NfsBackend, lookup, found, file_handle}
use rabbit_storage_explorer.Storage.Nfs.Resolve.{Answers, lookup-Answers, Kept-both, tree_of}
use rabbit_storage_explorer.Storage.Nfs.Files.{get_range}
use rabbit_storage_explorer.Storage.Nfs.Files.Storing.{resolve_parent_found}
use rabbit_storage_explorer.Storage.Nfs.Files.Streams.{HasObject, streams_bare}

module _ (N : NfsServer)
    (bare : (dir : Handle) (name : Text) (fh : Handle) (a : Option Attr) (s s' : N.State)
      → N.lookup dir name s ≡ (ok (done (fh, a)), s')
      → a ≡ none) where
  -- What comes out of `lookup` came in.
  lookup_bare :
      (dir : Handle) (name : Text) (fh : Handle) (a : Option Attr) (s s' : NfsBackend N.State)
      → lookup N dir name s ≡ (ok (some (fh, a)), s')
      → a ≡ none
  unfolding lookup
  lookup_bare dir name fh a s s' h = by_reply (N.lookup dir name s.conn) refl h
    where
      by_reply :
          (r : Result (Reply (Handle × Option Attr)) × N.State)
          → N.lookup dir name s.conn ≡ r
          → and_then (found {S = N.State}) (r.0, record s { conn = r.1 }) ≡ (ok (some (fh, a)), s')
          → a ≡ none
      by_reply (err e, k) came out = absurd cc
      by_reply (ok (refused noent), k) came out = absurd cc
      by_reply (ok (refused exist), k) came out = absurd cc
      by_reply (ok (refused (other n)), k) came out = absurd cc
      by_reply (ok (done (g, b)), k) came out =
          let nothing : b ≡ none = bare dir name g b s.conn k came in cc

  -- Where the server is up but its lookups carry no attributes, a stream that is asked for from any
  -- offset is announced with the length 0, and is the whole object from its first byte.
  pub get_range_bare :
      (L : IsServer N) (key : Text) (blob : Bytes) (fuel offset : ℕ) (fh : Handle)
      (s : NfsBackend N.State)
      → length blob < fuel
      → HasObject L key blob fh s
      → (s' : NfsBackend N.State) × (get_range N fuel key offset s
          ≡ (ok (0, record { ready = blob; broken = false }), s'))
  unfolding file_handle
  get_range_bare L key blob fuel offset fh s enough h =
      let (s1, found, k1) = resolve_parent_found L key h.dir h.name s h.cached h.placed in
      let (o, s2, looked, answers, k2) = lookup-Answers L h.dir h.name s1 k1.cached in
      let there : (tree_of L s1).entry h.dir h.name ≡ some fh = rw k1.trees h.found in
      let answer : Answers L (tree_of L s1) (some fh) o = rw there at answers in
      let (a, something, fits) = answer in
      let nothing : a ≡ none =
        lookup_bare h.dir h.name fh a s1 s2 (looked ∙ ap (λ x. (ok x, s2)) something) in
      streams_bare L key blob fuel enough offset fh s s2 h
        (rw found (rw looked (rw something (rw nothing refl)))) (Kept-both L s s1 s2 k1 k2)
