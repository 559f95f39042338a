-- ===== src/Tests/Nfs.antt =====
-- A small file server whose writes and reads are short: it takes at most three bytes at a time, and
-- gives at most four.
use mathlib.Core.Path.{fun_ext}
use mathlib.Core.Option.{some-injective}
use rabbit_storage_explorer.Base.{
  ℕ, zero, suc, ◌+◌, ◌-◌, ◌≤◌, ◌<◌, min, max, ◌≡◌, refl, sym, ap, true, false, ◌&&◌, inl, inr,
  Option, none, some, List, [], ◌∷◌, arith, length, length-take, length-drop, length-replicate,
  take, drop, take-append-drop, replicate, leb, text_eq, if◌then◌else◌, Bool-cases, Bytes, Text,
  text, pos, ok, ok-injective,
}
use rabbit_storage_explorer.Base.Dict
use rabbit_storage_explorer.Base.Dict.{Dict, get-insert}
use rabbit_storage_explorer.Storage.Nfs.Server.{
  NfsServer, Handle, Attr, Tree, Reply, done, refused, noent, exist, other, ReadReply, DirEntry,
  IsServer, IsRead, set_file, overwritten,
}

pub record Disk : Type 0 where
  pub names : List (Handle × Text × Handle)
  pub files : Dict Bytes

abbrev found_in : List (Handle × Text × Handle) → Handle → Text → Option Handle
found_in [] d n = none
found_in ((dir, name, fh) ∷ rest) d n =
    let later = found_in rest d n in if text_eq dir d && text_eq name n then some fh else later

abbrev longest : List (Handle × Text × Handle) → ℕ
longest [] = 0
longest ((dir, name, fh) ∷ rest) = max (length fh) (longest rest)

-- A handle that is longer than all others.
abbrev new_handle : Disk → Handle
new_handle s = replicate (suc (longest s.names)) 0

abbrev content_or : Option Bytes → Bytes
content_or none = []
content_or (some b) = b

abbrev file_in : Disk → Handle → Bytes
file_in s fh = content_or (Dict.get s.files fh)

abbrev tree_in : Disk → Tree
tree_in s = record { entry = found_in s.names; file = file_in s }

abbrev store : Handle → Bytes → Disk → Disk
store fh b s = record s { files = Dict.insert s.files fh b }

abbrev attributes : Bytes → Attr
attributes b = record { is_directory = false; size = length b; seconds = pos 0 }

abbrev piece : Disk → Handle → ℕ → ℕ → ReadReply
piece s fh off n =
    let b = take (min n 4) (drop off (file_in s fh)) in
    record { count = length b; content = b; eof = leb (length (file_in s fh)) (off + length b) }

abbrev an_entry : ℕ → Text → DirEntry
an_entry cookie name = record {
  cookie = cookie;
  name = name;
  name_attributes = some (attributes (text "hello"));
}

abbrev pub all_entries : List DirEntry
all_entries = an_entry 1 (text ".") ∷ an_entry 2 (text "a") ∷ an_entry 3 (text "b") ∷ []

-- The verifier that belongs to a cookie.
abbrev pub expected : ℕ → Bytes
expected zero = []
expected (suc n) = 7 ∷ []

abbrev looked_up : Disk → Option Handle → Reply (Handle × Option Attr)
looked_up s none = refused noent
looked_up s (some fh) = done (fh, some (attributes (file_in s fh)))

abbrev pub small_server : NfsServer
small_server = record {
  State = Disk;
  getattr = λ fh s. (ok (done tt), s);
  lookup = λ dir name s. (ok (looked_up s (found_in s.names dir name)), s);
  set_size = λ fh n s. (ok (done tt), store fh (take n (file_in s fh)) s);
  create = λ dir name s. (
    ok (done tt),
    record {
      names = (dir, name, new_handle s) ∷ s.names;
      files = Dict.insert s.files (new_handle s) [];
    },
  );
  write = λ fh off part s. (
    ok (done (min 3 (length part))),
    store fh (overwritten (file_in s fh) off (take (min 3 (length part)) part)) s,
  );
  commit = λ fh s. (ok (done tt), s);
  read = λ fh off n s. (ok (done (piece s fh off n)), s);
  remove = λ dir name s. (ok (refused noent), s);
  rmdir = λ dir name s. (ok (refused noent), s);
  mkdir = λ dir name s. (ok (refused exist), s);
  readdirplus = λ dir cookie verf s. (
    ok (
        if text_eq verf (expected cookie)
        then done (record {
          cookieverf = 7 ∷ [];
          entries = take 1 (drop cookie all_entries);
          eof = false;
        })
        else refused exist),
    s,
  );
  from_utf8_lossy = λ b. b;
}

pub found_in-longest :
    (names : List (Handle × Text × Handle)) (d : Handle) (n : Text) (fh : Handle)
    → found_in names d n ≡ some fh
    → length fh ≤ longest names
found_in-longest [] d n fh h = absurd cc
found_in-longest ((dir, name, g) ∷ rest) d n fh h =
    elim (Bool-cases (text_eq dir d && text_eq name n)) [
      | inl e ↦ omega (arith, ap length (some-injective _ _ (rw e at h)))
      | inr e ↦ omega (arith, found_in-longest rest d n fh (rw e at h))
    ]

pub stored_file :
    (fh : Handle) (b : Bytes) (s : Disk)
    → (λ g. content_or (Dict.get (Dict.insert s.files fh b) g)) ≡ (set_file (tree_in s) fh b).file
stored_file fh b s = fun_ext λ g. elim (Bool-cases (text_eq fh g)) [
  | inl e ↦ rw (get-insert s.files fh g b, e) refl
  | inr e ↦ rw (get-insert s.files fh g b, e) refl
]

pub stored_tree :
    (fh : Handle) (b : Bytes) (s : Disk) → tree_in (store fh b s) ≡ set_file (tree_in s) fh b
stored_tree fh b s = ap (λ f. record { entry = found_in s.names; file = f }) (stored_file fh b s)

pub piece-IsRead :
    (s : Disk) (fh : Handle) (off n : ℕ)
    → off ≤ length (file_in s fh)
    → 0 < n
    → IsRead (piece s fh off n) n (drop off (file_in s fh))
piece-IsRead s fh off n le p =
    let left = drop off (file_in s fh) in
    let k = min n 4 in
    let size : length (take k left) ≡ min k (length left) = length-take k left in
    let rest : length left ≡ length (file_in s fh) - off = length-drop off (file_in s fh) in
    record {
      behind = drop k left;
      cut = sym (take-append-drop k left);
      counted = refl;
      bounded = omega (arith, size);
      ended = λ e. ground (arith, size, rest, length-drop k left);
      more = λ e. ground (arith, size, rest);
    }

unfoldable pub small_server-IsServer : IsServer small_server
small_server-IsServer = record {
  tree = tree_in;
  attributed = true;
  lookup_found = λ dir name fh s h. (some (attributes (file_in s fh)), s, rw h refl, refl, refl);
  lookup_missing = λ dir name s h. (s, rw h refl, refl);
  truncate = λ fh s. (store fh [] s, refl, stored_tree fh [] s);
  create = λ dir name s free. (
    new_handle s,
    _,
    refl,
    λ d n h. omega (
      arith,
      found_in-longest s.names d n (new_handle s) h,
      length-replicate {A = ℕ} (suc (longest s.names)) 0,
    ),
    ap (λ f. record { entry = found_in ((dir, name, new_handle s) ∷ s.names); file = f })
        (stored_file (new_handle s) [] s),
  );
  write = λ fh off part s le p. (
    min 3 (length part),
    _,
    refl,
    omega (arith, p),
    omega arith,
    stored_tree fh (overwritten (file_in s fh) off (take (min 3 (length part)) part)) s,
  );
  commit = λ fh s. (s, refl, refl);
  read = λ fh off n s le p. (piece s fh off n, s, refl, refl, piece-IsRead s fh off n le p);
}

-- It leaves the attributes out of its replies to LOOKUP.
abbrev bare_reply : Option Handle → Reply (Handle × Option Attr)
bare_reply none = refused noent
bare_reply (some fh) = done (fh, none)

abbrev pub bare_server : NfsServer
bare_server = record small_server {
  lookup = λ dir name s. (ok (bare_reply (found_in s.names dir name)), s);
}

unfoldable pub bare_server-IsServer : IsServer bare_server
unfolding small_server-IsServer
bare_server-IsServer = record {
  tree = tree_in;
  attributed = false;
  lookup_found = λ dir name fh s h. (none, s, rw h refl, refl, refl);
  lookup_missing = λ dir name s h. (s, rw h refl, refl);
  truncate = small_server-IsServer.truncate;
  create = small_server-IsServer.create;
  write = small_server-IsServer.write;
  commit = small_server-IsServer.commit;
  read = small_server-IsServer.read;
}

-- It has no space left.
abbrev pub full_server : NfsServer
full_server = record small_server { write = λ fh off part s. (ok (refused (other 28)), s) }

pub bare_server_bare :
    (dir : Handle) (name : Text) (fh : Handle) (a : Option Attr) (s s' : Disk)
    → bare_server.lookup dir name s ≡ (ok (done (fh, a)), s')
    → a ≡ none
bare_server_bare dir name fh a s s' h =
    by_name (found_in s.names dir name) (ok-injective (ap (λ r. r.0) h))
  where
    by_name : (o : Option Handle) → bare_reply o ≡ done (fh, a) → a ≡ none
    by_name none h = absurd cc
    by_name (some g) h = cc
