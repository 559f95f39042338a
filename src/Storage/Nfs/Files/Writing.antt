-- ===== src/Storage/Nfs/Files/Writing.antt =====
-- What is written to an NFS server that is up: everything, though each write may be short.
use rabbit_storage_explorer.Base.{
  ℕ, zero, suc, ◌+◌, ◌≤◌, ◌<◌, ◌≡◌, refl, sym, ap, ◌∙◌, subst, Bool, false, [], ◌∷◌, ◌++◌,
  append-nil, append_assoc, arith, length, length-append, length-take, length-drop, take, drop,
  take-append-drop, ◌==◌, Bool-cases, inl, inr, text_eq, text_eq_refl, if◌then◌else◌, Bytes, ok,
  Result,
}
use rabbit_storage_explorer.Base.Exec.{and_then}
use rabbit_storage_explorer.Storage.Nfs.Server.{
  NfsServer, Handle, Tree, set_file, overwritten, IsServer, done,
}
use rabbit_storage_explorer.Storage.Nfs.{NfsBackend}
use rabbit_storage_explorer.Storage.Nfs.Files.{
  report, write_part, write_chunks, write_at, write_chunk,
}

-- One file grew by `part`; names and other files are as they were.
pub record Appended (t t' : Tree) (fh : Handle) (part : Bytes) : Type 0 where
  pub entries : t'.entry ≡ t.entry
  pub grown : t'.file fh ≡ t.file fh ++ part
  pub others : (g : Handle) → text_eq fh g ≡ false → t'.file g ≡ t.file g

-- What a sink is told.
abbrev pub credit : Bool → ℕ → ℕ
credit on_bytes n = if on_bytes then n else 0

pub take-length : (b : Bytes) → take (length b) b ≡ b
take-length [] = refl
take-length (x ∷ b) = ap (λ r. x ∷ r) (take-length b)

pub drop_past : (b : Bytes) (n : ℕ) → length b ≤ n → drop n b ≡ []
drop_past [] zero h = refl
drop_past [] (suc n) h = refl
drop_past (x ∷ b) zero h = absurd (omega arith)
drop_past (x ∷ b) (suc n) h = drop_past b n (omega arith)

overwritten_end : (b part : Bytes) (off : ℕ) → off ≡ length b → overwritten b off part ≡ b ++ part
overwritten_end b part off h =
    rw (h, take-length b, drop_past b (length b + length part) (omega arith), append-nil part) refl

Appended-none : (t : Tree) (fh : Handle) → Appended t t fh []
Appended-none t fh = record {
  entries = refl;
  grown = sym (append-nil (t.file fh));
  others = λ g h. refl;
}

Appended-both :
    (t u v : Tree) (fh : Handle) (p q : Bytes)
    → Appended t u fh p
    → Appended u v fh q
    → Appended t v fh (p ++ q)
Appended-both t u v fh p q a b = record {
  entries = b.entries ∙ a.entries;
  grown = b.grown ∙ ap (λ x. x ++ q) a.grown ∙ append_assoc (t.file fh) p q;
  others = λ g h. b.others g h ∙ a.others g h;
}

Appended-set :
    (t : Tree) (fh : Handle) (b part : Bytes)
    → b ≡ t.file fh ++ part
    → Appended t (set_file t fh b) fh part
Appended-set t fh b part h = record {
  entries = refl;
  grown = rw (text_eq_refl fh) h;
  others = λ g n. rw n refl;
}

module _ {N : NfsServer} (L : IsServer N) (on_bytes : Bool) (fh : Handle) where
  abbrev pub written : NfsBackend N.State → N.State → ℕ → ℕ → Result ℕ × NfsBackend N.State
  written s c offset k =
      (ok (offset + k), record s { conn = c; reported = s.reported + credit on_bytes k })

  -- All of `part` is at the end of the file, and reported.
  abbrev pub Wrote : NfsBackend N.State → ℕ → Bytes → Result ℕ × NfsBackend N.State → Type 0
  Wrote s offset part out =
      (c : N.State) × (out ≡ written s c offset (length part))
      × Appended (L.tree s.conn) (L.tree c) fh part

  Wrote-none : (s : NfsBackend N.State) (offset : ℕ) → Wrote s offset [] (ok offset, s)
  Wrote-none s offset = elim (Bool-cases on_bytes) [
    | inl on ↦ (s.conn, rw on (ground arith), Appended-none (L.tree s.conn) fh)
    | inr off ↦ (s.conn, rw off (ground arith), Appended-none (L.tree s.conn) fh)
  ]

  -- A part that was written, and the rest behind it.
  two_parts :
      (s : NfsBackend N.State) (c c' : N.State) (offset n m k : ℕ)
      → n + m ≡ k
      → written (report on_bytes n (record s { conn = c })) c' (offset + n) m
        ≡ written s c' offset k
  two_parts s c c' offset n m k h = elim (Bool-cases on_bytes) [
    | inl on ↦ rw on (ground (arith, h))
    | inr off ↦ rw off (ground (arith, h))
  ]

  after_chunk :
      (s : NfsBackend N.State) (c c' : N.State) (offset n m k : ℕ)
      → n + m ≡ k
      → written (written s c offset n).1 c' (offset + n) m ≡ written s c' offset k
  after_chunk s c c' offset n m k h = elim (Bool-cases on_bytes) [
    | inl on ↦ rw on (ground (arith, h))
    | inr off ↦ rw off (ground (arith, h))
  ]

  reported_conn : (s : NfsBackend N.State) (n : ℕ) → (report on_bytes n s).conn ≡ s.conn
  reported_conn s n = elim (Bool-cases on_bytes) [ inl on ↦ rw on refl | inr off ↦ rw off refl ]

  -- After the first `n` bytes, the rest.
  Wrote-on :
      (s : NfsBackend N.State) (c : N.State) (offset n : ℕ) (part : Bytes)
      (out : Result ℕ × NfsBackend N.State)
      → n ≤ length part
      → Appended (L.tree s.conn) (L.tree c) fh (take n part)
      → Wrote (report on_bytes n (record s { conn = c })) (offset + n) (drop n part) out
      → Wrote s offset part out
  Wrote-on s c offset n part out le first (c', rest, later) = (
    c',
    rest
        ∙ two_parts s c c' offset n (length (drop n part)) (length part)
            (omega (arith, length-drop n part)),
    subst (Appended (L.tree s.conn) (L.tree c') fh) (take-append-drop n part) (
        Appended-both (L.tree s.conn) (L.tree c) (L.tree c') fh (take n part) (drop n part) first
          (rw (reported_conn (record s { conn = c }) n) at later)),
  )

  write_step :
      (fuel offset n b : ℕ) (bs : Bytes) (s : NfsBackend N.State) (c : N.State)
      → N.write fh offset (b ∷ bs) s.conn ≡ (ok (done n), c)
      → 0 < n
      → write_part N on_bytes fh (suc fuel) offset (b ∷ bs) s
        ≡ write_part N on_bytes fh fuel
            (offset + n)
            (drop n (b ∷ bs))
            (report on_bytes n (record s { conn = c }))
  unfolding write_part
  write_step fuel offset n b bs s c wrote pos =
      let more : (n == 0) ≡ false = ground arith in rw wrote cc

  pub write_part-Wrote :
      (fuel offset : ℕ) (part : Bytes) (s : NfsBackend N.State)
      → length part ≤ fuel
      → offset ≡ length ((L.tree s.conn).file fh)
      → Wrote s offset part (write_part N on_bytes fh fuel offset part s)
  unfolding write_part
  write_part-Wrote fuel offset [] s h at = Wrote-none s offset
  write_part-Wrote zero offset (b ∷ bs) s h at = absurd (omega arith)
  write_part-Wrote (suc fuel) offset (b ∷ bs) s h at =
      let (n, c, wrote, pos, le, now) =
        L.write fh offset (b ∷ bs) s.conn (omega (arith, at)) (omega arith) in
      let mid : NfsBackend N.State = report on_bytes n (record s { conn = c }) in
      let first : Appended (L.tree s.conn) (L.tree c) fh (take n (b ∷ bs)) =
        subst (λ t. Appended (L.tree s.conn) t fh (take n (b ∷ bs))) (sym now)
          (Appended-set (L.tree s.conn) fh _ (take n (b ∷ bs))
            (overwritten_end ((L.tree s.conn).file fh) (take n (b ∷ bs)) offset at)) in
      let there : offset + n ≡ length ((L.tree mid.conn).file fh) =
        rw (reported_conn (record s { conn = c }) n) (
          omega (
            arith,
            at,
            ap length first.grown,
            length-append ((L.tree s.conn).file fh) (take n (b ∷ bs)),
            length-take n (b ∷ bs),
          )) in
      rw (write_step fuel offset n b bs s c wrote pos) (
        Wrote-on s c offset n (b ∷ bs) _ le first (
          write_part-Wrote fuel (offset + n) (drop n (b ∷ bs)) mid
            (omega (arith, length-drop n (b ∷ bs))) there))

  -- A chunk that was written, and the chunks behind it.
  chunk_on :
      (s : NfsBackend N.State) (offset n : ℕ) (part : Bytes)
      (next : ℕ → NfsBackend N.State → Result ℕ × NfsBackend N.State)
      (first : Result ℕ × NfsBackend N.State)
      → Wrote s offset (take n part) first
      → ((mid : NfsBackend N.State) (at : ℕ)
          → at ≡ length ((L.tree mid.conn).file fh)
          → Wrote mid at (drop n part) (next at mid))
      → offset ≡ length ((L.tree s.conn).file fh)
      → Wrote s offset part (and_then next first)
  chunk_on s offset n part next first (c, wrote, app) rest at =
      let k = length (take n part) in
      let mid : NfsBackend N.State = (written s c offset k).1 in
      let (c', more, app') = rest mid (offset + k) (
        omega (
          arith,
          at,
          ap length app.grown,
          length-append ((L.tree s.conn).file fh) (take n part),
        )) in
      rw wrote (
        c',
        more
            ∙ after_chunk s c c' offset k (length (drop n part)) (length part)
                (omega (arith, length-drop n part, length-take n part)),
        subst (Appended (L.tree s.conn) (L.tree c') fh) (take-append-drop n part) (
            Appended-both (L.tree s.conn) (L.tree c) (L.tree c') fh (take n part) (drop n part) app
              app'),
      )

  write_chunks-Wrote :
      (size fuel offset : ℕ) (part : Bytes) (s : NfsBackend N.State)
      → 0 < size
      → length part ≤ fuel
      → offset ≡ length ((L.tree s.conn).file fh)
      → Wrote s offset part (write_chunks N on_bytes fh size fuel offset part s)
  unfolding write_chunks
  write_chunks-Wrote size fuel offset [] s pos h at = Wrote-none s offset
  write_chunks-Wrote size zero offset (b ∷ bs) s pos h at = absurd (omega arith)
  write_chunks-Wrote size (suc fuel) offset (b ∷ bs) s pos h at =
      chunk_on s offset size (b ∷ bs)
        (λ next. write_chunks N on_bytes fh size fuel next (drop size (b ∷ bs)))
        (write_part N on_bytes fh size offset (take size (b ∷ bs)) s)
        (write_part-Wrote size offset (take size (b ∷ bs)) s
          (omega (arith, length-take size (b ∷ bs))) at)
        (λ mid next there.
          write_chunks-Wrote size fuel next (drop size (b ∷ bs)) mid pos
            (omega (arith, length-drop size (b ∷ bs))) there)
        at

  -- On a server that is up, whatever the sizes of its short writes, the bytes handed over are
  -- appended to the file, the offset returned is that of its end, the sink is told of every byte
  -- once, and no name and no other file changes.
  pub write_at-Wrote :
      (offset : ℕ) (part : Bytes) (s : NfsBackend N.State)
      → offset ≡ length ((L.tree s.conn).file fh)
      → Wrote s offset part (write_at N on_bytes fh offset part s)
  unfolding write_at
  write_at-Wrote offset part s at =
      write_chunks-Wrote write_chunk (length part) offset part s (omega arith) (omega arith) at
