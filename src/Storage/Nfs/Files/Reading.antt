-- ===== src/Storage/Nfs/Files/Reading.antt =====
-- The loops that read a file over NFS, on a server that is up: they end, with what is left of it.
use rabbit_storage_explorer.Base.{
  ℕ, zero, suc, ◌+◌, ◌-◌, ◌≤◌, ◌<◌, ◌≡◌, refl, sym, ap, ◌∙◌, inl, inr, true, false, [], ◌∷◌, ◌++◌,
  append-nil, append_assoc, arith, length, length-append, length-drop, take, drop, drop-append,
  Bool-cases, Bytes, ok, ◌==◌, ltb,
}
use rabbit_storage_explorer.Storage.{Reader}
use rabbit_storage_explorer.Storage.Nfs.Server.{
  NfsServer, Handle, IsServer, IsRead, ReadReply, done,
}
use rabbit_storage_explorer.Storage.Nfs.{NfsBackend, on_conn}
use rabbit_storage_explorer.Storage.Nfs.Resolve.{
  IsCached, Kept, Kept-self, Kept-both, Kept-conn, tree_of,
}
use rabbit_storage_explorer.Storage.Nfs.Files.{read_all, pump, read_front}

drop-drop : (b : Bytes) (n m k : ℕ) → k ≡ n + m → drop m (drop n b) ≡ drop k b
drop-drop b zero m k h = ap (λ i. drop i b) (omega (arith, h))
drop-drop [] (suc n) zero zero h = refl
drop-drop [] (suc n) zero (suc k) h = refl
drop-drop [] (suc n) (suc m) zero h = refl
drop-drop [] (suc n) (suc m) (suc k) h = refl
drop-drop (x ∷ b) (suc n) m zero h = absurd (omega (arith, h))
drop-drop (x ∷ b) (suc n) m (suc k) h = drop-drop b n m k (omega (arith, h))

empty : (x : Bytes) → length x ≡ 0 → x ≡ []
empty [] h = refl
empty (c ∷ x) h = absurd (omega (arith, h))

-- A read from `offset` on: what it delivered, and what is left behind it.
read_on :
    (b : Bytes) (r : ReadReply) (n offset : ℕ)
    → IsRead r n (drop offset b)
    → offset ≤ length b
    → (drop offset b ≡ r.content ++ drop (offset + r.count) b)
      × (offset + r.count ≤ length b)
      × (r.eof ≡ true → drop offset b ≡ r.content)
read_on b r n offset q le =
    let behind : drop (offset + r.count) b ≡ q.behind =
      sym (drop-drop b offset r.count (offset + r.count) refl)
      ∙ ap (drop r.count) q.cut
      ∙ drop-append r.content q.behind r.count q.counted in
    (
      q.cut ∙ ap (λ x. r.content ++ x) (sym behind),
      omega (
        arith,
        le,
        q.counted,
        ap length q.cut,
        length-append r.content q.behind,
        length-drop offset b,
      ),
      λ end. q.cut ∙ ap (λ x. r.content ++ x) (empty q.behind (q.ended end)) ∙ append-nil r.content,
    )

take_front : (n : ℕ) (out rest : Bytes) → n ≤ length out → take n (out ++ rest) ≡ take n out
take_front zero out rest h = refl
take_front (suc n) [] rest h = absurd (omega arith)
take_front (suc n) (x ∷ out) rest h = ap (λ t. x ∷ t) (take_front n out rest (omega arith))

module _ {N : NfsServer} (L : IsServer N) (fh : Handle) (size : ℕ) (pos : 0 < size) where
  -- The call that a round makes.
  a_read :
      (offset : ℕ) (s : NfsBackend N.State)
      → IsCached L s
      → offset ≤ length ((tree_of L s).file fh)
      → (r : ReadReply) × (s' : NfsBackend N.State) × (on_conn (N.read fh offset size) s
          ≡ (ok (done r), s'))
        × Kept L s s'
        × IsRead r size (drop offset ((tree_of L s).file fh))
  a_read offset s c le =
      let (r, k, got, same, q) = L.read fh offset size s.conn le pos in
      (r, record s { conn = k }, rw got refl, Kept-conn L s k same c, q)

  read_all_end :
      (fuel offset : ℕ) (out : Bytes) (s s' : NfsBackend N.State) (r : ReadReply)
      → on_conn (N.read fh offset size) s ≡ (ok (done r), s')
      → r.eof ≡ true
      → read_all N fh size (suc fuel) offset out s ≡ (ok (out ++ r.content), s')
  unfolding read_all
  read_all_end fuel offset out s s' r got e = rw (read_all, got) cc

  read_all_more :
      (fuel offset : ℕ) (out : Bytes) (s s' : NfsBackend N.State) (r : ReadReply)
      → on_conn (N.read fh offset size) s ≡ (ok (done r), s')
      → r.eof ≡ false
      → read_all N fh size (suc fuel) offset out s
        ≡ read_all N fh size fuel (offset + r.count) (out ++ r.content) s'
  unfolding read_all
  read_all_more fuel offset out s s' r got e = rw (read_all, got) cc

  pump_end :
      (fuel offset : ℕ) (out : Bytes) (s s' : NfsBackend N.State) (r : ReadReply)
      → on_conn (N.read fh offset size) s ≡ (ok (done r), s')
      → r.eof ≡ true
      → pump N fh size (suc fuel) offset out s
        ≡ (ok (record { ready = out ++ r.content; broken = false }), s')
  unfolding pump
  pump_end fuel offset out s s' r got e = rw (pump, got) cc

  pump_more :
      (fuel offset : ℕ) (out : Bytes) (s s' : NfsBackend N.State) (r : ReadReply)
      → on_conn (N.read fh offset size) s ≡ (ok (done r), s')
      → r.eof ≡ false
      → pump N fh size (suc fuel) offset out s
        ≡ pump N fh size fuel (offset + r.count) (out ++ r.content) s'
  unfolding pump
  pump_more fuel offset out s s' r got e = rw (pump, got) cc

  -- With more rounds than bytes left, the loop ends, and has them all.
  pub read_all_lem :
      (fuel offset : ℕ) (out : Bytes) (s : NfsBackend N.State)
      → IsCached L s
      → offset ≤ length ((tree_of L s).file fh)
      → length ((tree_of L s).file fh) < fuel + offset
      → (s' : NfsBackend N.State) × (read_all N fh size fuel offset out s
          ≡ (ok (out ++ drop offset ((tree_of L s).file fh)), s'))
        × Kept L s s'
  read_all_lem zero offset out s c le enough = absurd (omega arith)
  read_all_lem (suc fuel) offset out s c le enough =
      let b = (tree_of L s).file fh in
      let (r, s1, got, kept, q) = a_read offset s c le in
      let (cut, le1, end) = read_on b r size offset q le in
      elim (Bool-cases r.eof) [
        | inl e ↦ (
          s1,
          read_all_end fuel offset out s s1 r got e ∙ ap (λ x. (ok (out ++ x), s1)) (sym (end e)),
          kept,
        )
        | inr more ↦
            let same : (tree_of L s1).file fh ≡ b = ap (λ t. t.file fh) kept.trees in
            let forward = q.more more in
            let (s2, rest, kept2) =
              read_all_lem fuel (offset + r.count) (out ++ r.content) s1 kept.cached (rw same le1)
                (rw same (omega (arith, enough, forward))) in
            (
              s2,
              read_all_more fuel offset out s s1 r got more
                  ∙ rest
                  ∙ ap (λ x. (ok x, s2))
                      (append_assoc out r.content _
                        ∙ ap (λ x. out ++ x)
                            (ap (λ x. r.content ++ drop (offset + r.count) x) same ∙ sym cut)),
              Kept-both L s s1 s2 kept kept2,
            )
      ]

  -- The stream delivers what is left, and is whole.
  pub pump_lem :
      (fuel offset : ℕ) (out : Bytes) (s : NfsBackend N.State)
      → IsCached L s
      → offset ≤ length ((tree_of L s).file fh)
      → length ((tree_of L s).file fh) < fuel + offset
      → (s' : NfsBackend N.State) × (pump N fh size fuel offset out s ≡ (
        ok (record { ready = out ++ drop offset ((tree_of L s).file fh); broken = false }),
        s',
      ))
        × Kept L s s'
  pump_lem zero offset out s c le enough = absurd (omega arith)
  pump_lem (suc fuel) offset out s c le enough =
      let b = (tree_of L s).file fh in
      let (r, s1, got, kept, q) = a_read offset s c le in
      let (cut, le1, end) = read_on b r size offset q le in
      let whole : Bytes → Reader = λ x. record { ready = x; broken = false } in
      elim (Bool-cases r.eof) [
        | inl e ↦ (
          s1,
          pump_end fuel offset out s s1 r got e
              ∙ ap (λ x. (ok (whole (out ++ x)), s1)) (sym (end e)),
          kept,
        )
        | inr more ↦
            let same : (tree_of L s1).file fh ≡ b = ap (λ t. t.file fh) kept.trees in
            let forward = q.more more in
            let (s2, rest, kept2) =
              pump_lem fuel (offset + r.count) (out ++ r.content) s1 kept.cached (rw same le1)
                (rw same (omega (arith, enough, forward))) in
            (
              s2,
              pump_more fuel offset out s s1 r got more
                  ∙ rest
                  ∙ ap (λ x. (ok (whole x), s2))
                      (append_assoc out r.content _
                        ∙ ap (λ x. out ++ x)
                            (ap (λ x. r.content ++ drop (offset + r.count) x) same ∙ sym cut)),
              Kept-both L s s1 s2 kept kept2,
            )
      ]

module _ {N : NfsServer} (L : IsServer N) (fh : Handle) (len : ℕ) where
  front_full :
      (fuel offset : ℕ) (out : Bytes) (s : NfsBackend N.State)
      → ltb (length out) len ≡ false
      → read_front N fh len fuel offset out s ≡ (ok (take len out), s)
  unfolding read_front
  front_full zero offset out s full = rw (read_front, full) refl
  front_full (suc fuel) offset out s full = rw (read_front, full) refl

  front_end :
      (fuel offset : ℕ) (out : Bytes) (s s' : NfsBackend N.State) (r : ReadReply)
      → ltb (length out) len ≡ true
      → on_conn (N.read fh offset (len - length out)) s ≡ (ok (done r), s')
      → r.eof ≡ true
      → read_front N fh len (suc fuel) offset out s ≡ (ok (take len (out ++ r.content)), s')
  unfolding read_front
  front_end fuel offset out s s' r short got e = elim (Bool-cases (length r.content == 0)) [
    | inl nothing ↦
        let same : take len (out ++ r.content) ≡ take len out =
          ap (take len) (ap (λ x. out ++ x) (empty r.content (ground arith)) ∙ append-nil out) in
        rw (read_front, short) (rw got cc)
    | inr more ↦ rw (read_front, short) (rw got cc)
  ]

  front_more :
      (fuel offset : ℕ) (out : Bytes) (s s' : NfsBackend N.State) (r : ReadReply)
      → ltb (length out) len ≡ true
      → on_conn (N.read fh offset (len - length out)) s ≡ (ok (done r), s')
      → r.eof ≡ false
      → 0 < length r.content
      → read_front N fh len (suc fuel) offset out s
        ≡ read_front N fh len fuel (offset + length r.content) (out ++ r.content) s'
  unfolding read_front
  front_more fuel offset out s s' r short got e some_bytes =
      let more : (length r.content == 0) ≡ false = ground arith in
      rw (read_front, short) (rw got cc)

  -- `len` rounds are enough for the first `len` bytes, or all where the file has fewer.
  pub read_front_lem :
      (fuel offset : ℕ) (out : Bytes) (s : NfsBackend N.State)
      → IsCached L s
      → offset ≡ length out
      → out ++ drop offset ((tree_of L s).file fh) ≡ (tree_of L s).file fh
      → len ≤ fuel + length out
      → (s' : NfsBackend N.State) × (read_front N fh len fuel offset out s
          ≡ (ok (take len ((tree_of L s).file fh)), s'))
        × Kept L s s'
  read_front_lem zero offset out s c at whole enough = (
    s,
    front_full zero offset out s (ground arith)
        ∙ ap (λ x. (ok x, s)) (sym (take_front len out _ (omega arith)) ∙ ap (take len) whole),
    Kept-self L s c,
  )
  read_front_lem (suc fuel) offset out s c at whole enough =
      elim (Bool-cases (ltb (length out) len)) [
        | inr full ↦ (
          s,
          front_full (suc fuel) offset out s full
              ∙ ap (λ x. (ok x, s))
                  (sym (take_front len out _ (ground arith)) ∙ ap (take len) whole),
          Kept-self L s c,
        )
        | inl short ↦
            let b = (tree_of L s).file fh in
            let size = len - length out in
            let inside : offset ≤ length b =
              omega (arith, at, ap length whole, length-append out (drop offset b)) in
            let (r, s1, got, kept, q) = a_read L fh size (ground arith) offset s c inside in
            let (cut, le1, end) = read_on b r size offset q inside in
            elim (Bool-cases r.eof) [
              | inl e ↦ (
                s1,
                front_end fuel offset out s s1 r short got e
                    ∙ ap (λ x. (ok (take len x), s1)) (ap (λ x. out ++ x) (sym (end e)) ∙ whole),
                kept,
              )
              | inr more ↦
                  let forward = q.more more in
                  let same : (tree_of L s1).file fh ≡ b = ap (λ t. t.file fh) kept.trees in
                  let counted : offset + r.count ≡ offset + length r.content =
                    omega (arith, q.counted) in
                  let (s2, rest, kept2) =
                    read_front_lem fuel (offset + length r.content) (out ++ r.content) s1
                      kept.cached (omega (arith, at, length-append out r.content))
                      (rw same (
                        append_assoc out r.content _
                        ∙ ap (λ x. out ++ x)
                            (ap (λ n. r.content ++ drop n b) (sym counted) ∙ sym cut)
                        ∙ whole))
                      (omega (arith, enough, forward, q.counted, length-append out r.content)) in
                  (
                    s2,
                    front_more fuel offset out s s1 r short got more
                          (omega (arith, forward, q.counted))
                        ∙ rest
                        ∙ ap (λ x. (ok (take len x), s2)) same,
                    Kept-both L s s1 s2 kept kept2,
                  )
            ]
      ]
