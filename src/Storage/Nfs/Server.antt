-- ===== src/Storage/Nfs/Server.antt =====
-- What the NFSv3 backend asks of its client crate: the calls of the protocol, and what a file
-- server that is up does on them.
use rabbit_storage_explorer.Base.{
  ℕ, ℤ, ◌+◌, ◌≤◌, ◌<◌, ◌≡◌, ◌≢◌, Bool, true, false, Option, none, some, List, [], ◌++◌, length,
  take, drop, text_eq, ◌&&◌, if◌then◌else◌, Bytes, Text, ok,
}
use rabbit_storage_explorer.Base.Exec.{Exec}

-- `nfs_fh3`: bytes that the server chose.
abbrev pub Handle : Type 0
Handle = Bytes

-- `nfsstat3`, as far as the backend tells its values apart.
pub data Stat : Type 0 where
  noent : Stat
  exist : Stat
  other : ℕ → Stat

-- `Nfs3Result`
pub data Reply (X : Type 0) : Type 0 where
  done : X → Reply X
  refused : Stat → Reply X

-- The attributes that the backend reads of `fattr3`.
pub record Attr : Type 0 where
  pub is_directory : Bool
  pub size : ℕ
  pub seconds : ℤ

pub record ReadReply : Type 0 where
  pub count : ℕ
  pub content : Bytes
  pub eof : Bool

pub record DirEntry : Type 0 where
  pub cookie : ℕ
  pub name : Bytes
  pub name_attributes : Option Attr

pub record Page : Type 0 where
  pub cookieverf : Bytes
  pub entries : List DirEntry
  pub eof : Bool

-- The calls, over the state of the server and its network; each may also fail as an RPC.
pub record NfsServer : Type 1 where
  pub State : Type 0
  pub getattr : Handle → Exec State (Reply (Unit {0}))
  pub lookup : Handle → Text → Exec State (Reply (Handle × Option Attr))
  pub set_size : Handle → ℕ → Exec State (Reply (Unit {0}))
  pub create : Handle → Text → Exec State (Reply (Unit {0}))
  pub write : Handle → ℕ → Bytes → Exec State (Reply ℕ)
  pub commit : Handle → Exec State (Reply (Unit {0}))
  pub read : Handle → ℕ → ℕ → Exec State (Reply ReadReply)
  pub remove : Handle → Text → Exec State (Reply (Unit {0}))
  pub rmdir : Handle → Text → Exec State (Reply (Unit {0}))
  pub mkdir : Handle → Text → Exec State (Reply (Unit {0}))
  pub readdirplus : Handle → ℕ → Bytes → Exec State (Reply Page)
  pub from_utf8_lossy : Bytes → Text

-- The files of a server: what a name in a directory stands for, and what a file holds.
pub record Tree : Type 0 where
  pub entry : Handle → Text → Option Handle
  pub file : Handle → Bytes

abbrev pub set_file : Tree → Handle → Bytes → Tree
set_file t fh content = record t { file = λ g. if text_eq fh g then content else t.file g }

abbrev pub add_entry : Tree → Handle → Text → Handle → Tree
add_entry t dir name fh = record t {
  entry = λ d n. if text_eq dir d && text_eq name n then some fh else t.entry d n;
}

-- Bytes written over what a file holds.
abbrev pub overwritten : Bytes → ℕ → Bytes → Bytes
overwritten content off part = take off content ++ (part ++ drop (off + length part) content)

-- The attributes in a reply to LOOKUP: none, unless the server always gives them.
abbrev pub Fits : Bool → Option Attr → Bytes → Type 0
Fits always none content = always ≡ false
Fits always (some a) content = a.size ≡ length content

-- What one read delivers of what is left of a file: some of it, and the end where nothing is left.
pub record IsRead (r : ReadReply) (n : ℕ) (left : Bytes) : Type 0 where
  pub behind : Bytes
  pub cut : left ≡ r.content ++ behind
  pub counted : r.count ≡ length r.content
  pub bounded : r.count ≤ n
  pub ended : r.eof ≡ true → length behind ≡ 0
  pub more : r.eof ≡ false → 0 < r.count

-- A server that is up. A write takes at least one byte, but perhaps not all.
pub record IsServer (N : NfsServer) : Type 0 where
  pub tree : N.State → Tree
  pub attributed : Bool
  pub lookup_found :
      (dir : Handle) (name : Text) (fh : Handle) (s : N.State)
      → (tree s).entry dir name ≡ some fh
      → (a : Option Attr) × (s' : N.State) × (N.lookup dir name s ≡ (ok (done (fh, a)), s'))
        × (tree s' ≡ tree s)
        × Fits attributed a ((tree s).file fh)
  pub lookup_missing :
      (dir : Handle) (name : Text) (s : N.State)
      → (tree s).entry dir name ≡ none
      → (s' : N.State) × (N.lookup dir name s ≡ (ok (refused noent), s')) × (tree s' ≡ tree s)
  pub truncate :
      (fh : Handle) (s : N.State)
      → (s' : N.State) × (N.set_size fh 0 s ≡ (ok (done tt), s'))
        × (tree s' ≡ set_file (tree s) fh [])
  pub create :
      (dir : Handle) (name : Text) (s : N.State)
      → (tree s).entry dir name ≡ none
      → (fh : Handle) × (s' : N.State) × (N.create dir name s ≡ (ok (done tt), s'))
        × ((d : Handle) (n : Text) → (tree s).entry d n ≢ some fh)
        × (tree s' ≡ add_entry (set_file (tree s) fh []) dir name fh)
  pub write :
      (fh : Handle) (off : ℕ) (part : Bytes) (s : N.State)
      → off ≤ length ((tree s).file fh)
      → 0 < length part
      → (n : ℕ) × (s' : N.State) × (N.write fh off part s ≡ (ok (done n), s'))
        × (0 < n)
        × (n ≤ length part)
        × (tree s' ≡ set_file (tree s) fh (overwritten ((tree s).file fh) off (take n part)))
  pub commit :
      (fh : Handle) (s : N.State)
      → (s' : N.State) × (N.commit fh s ≡ (ok (done tt), s')) × (tree s' ≡ tree s)
  pub read :
      (fh : Handle) (off n : ℕ) (s : N.State)
      → off ≤ length ((tree s).file fh)
      → 0 < n
      → (r : ReadReply) × (s' : N.State) × (N.read fh off n s ≡ (ok (done r), s'))
        × (tree s' ≡ tree s)
        × IsRead r n (drop off ((tree s).file fh))
