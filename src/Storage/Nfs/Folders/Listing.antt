-- ===== src/Storage/Nfs/Folders/Listing.antt =====
-- Listing a folder over NFS by pages: no entry is lost or repeated.
use rabbit_storage_explorer.Base.{
  ℕ, zero, suc, ◌<◌, ◌≡◌, refl, sym, ap, subst, ◌∙◌, ◌⊎◌, inl, inr, true, false, some, List, [],
  ◌∷◌, ◌++◌, append-nil, append_assoc, arith, length, length-append, Bool-cases, Bytes, Text, ok,
  ok_or, remote_directory_not_found,
}
use rabbit_storage_explorer.Storage.{RawObject}
use rabbit_storage_explorer.Storage.Walk.{is_dot}
use rabbit_storage_explorer.Storage.Nfs.Server.{
  NfsServer, Handle, Tree, IsServer, DirEntry, Page, done,
}
use rabbit_storage_explorer.Storage.Nfs.{NfsBackend, called}
use rabbit_storage_explorer.Storage.Nfs.Resolve.{
  IsCached, Kept, Kept-both, Kept-conn, tree_of, dir_at, resolve_dir-Resolved,
}
use rabbit_storage_explorer.Storage.Nfs.Folders.{
  object_at, last_cookie, objects_of, list_pages, list_dir,
}

-- A directory that holds the entries `es` while the server's files are those of `t`. A listing
-- begins with the cookie 0 and no verifier; it goes on with the cookie of the last entry that it got
-- and the verifier that came with it, and other verifiers may be refused. A page has the entries
-- behind the cookie, in order, as many as the server likes; it is empty only at the end.
pub record IsDirectory {N : NfsServer} (L : IsServer N) (t : Tree) (dir : Handle)
    (es : List DirEntry) : Type 1 where
  pub behind : ℕ → List DirEntry
  pub start : behind 0 ≡ es
  pub GoesOn : N.State → ℕ → Bytes → Type 0
  pub begins : (s : N.State) → L.tree s ≡ t → GoesOn s 0 []
  pub page :
      (cookie : ℕ) (verf : Bytes) (s : N.State)
      → L.tree s ≡ t
      → GoesOn s cookie verf
      → (p : Page) × (s' : N.State) × (N.readdirplus dir cookie verf s ≡ (ok (done p), s'))
        × (L.tree s' ≡ t)
        × GoesOn s' (last_cookie cookie p.entries) p.cookieverf
        × (behind cookie ≡ p.entries ++ behind (last_cookie cookie p.entries))
        × (p.eof ≡ true → behind (last_cookie cookie p.entries) ≡ [])
        × (length p.entries ≡ 0 → behind cookie ≡ [])

entries_cases :
    (xs : List DirEntry) → (xs ≡ []) ⊎ ((e : DirEntry) × (rest : List DirEntry) × (xs ≡ e ∷ rest))
entries_cases [] = inl refl
entries_cases (e ∷ rest) = inr (e, rest, refl)

module _ (N : NfsServer) (prefix : Text) where
  objects_of-append :
      (xs ys : List DirEntry)
      → objects_of N prefix (xs ++ ys) ≡ objects_of N prefix xs ++ objects_of N prefix ys
  unfolding objects_of
  objects_of-append [] ys = refl
  objects_of-append (x ∷ xs) ys = elim (Bool-cases (is_dot (N.from_utf8_lossy x.name))) [
    | inl e ↦ rw e (objects_of-append xs ys)
    | inr n ↦ rw n (
        ap (λ r. object_at (prefix ++ N.from_utf8_lossy x.name) x.name_attributes ∷ r)
          (objects_of-append xs ys))
  ]

module _ {N : NfsServer} (L : IsServer N) (t : Tree) (dir : Handle) (es : List DirEntry)
    (D : IsDirectory L t dir es) (prefix : Text) where
  -- One page: the end, or the pages behind it.
  list_pages_empty :
      (fuel cookie : ℕ) (verf : Bytes) (out : List RawObject) (p : Page) (s s' : NfsBackend N.State)
      → called (N.readdirplus dir cookie verf) s ≡ (ok p, s')
      → p.entries ≡ []
      → list_pages N dir prefix (suc fuel) cookie verf out s ≡ (ok out, s')
  unfolding list_pages
  list_pages_empty fuel cookie verf out p s s' got none = rw (list_pages, got) (rw none refl)

  list_pages_last :
      (fuel cookie : ℕ) (verf : Bytes) (out : List RawObject) (p : Page) (e : DirEntry)
      (rest : List DirEntry) (s s' : NfsBackend N.State)
      → called (N.readdirplus dir cookie verf) s ≡ (ok p, s')
      → p.entries ≡ e ∷ rest
      → p.eof ≡ true
      → list_pages N dir prefix (suc fuel) cookie verf out s
        ≡ (ok (out ++ objects_of N prefix (e ∷ rest)), s')
  unfolding list_pages
  list_pages_last fuel cookie verf out p e rest s s' got some_entries end =
      rw (list_pages, got) (rw some_entries (rw end refl))

  list_pages_more :
      (fuel cookie : ℕ) (verf : Bytes) (out : List RawObject) (p : Page) (e : DirEntry)
      (rest : List DirEntry) (s s' : NfsBackend N.State)
      → called (N.readdirplus dir cookie verf) s ≡ (ok p, s')
      → p.entries ≡ e ∷ rest
      → p.eof ≡ false
      → list_pages N dir prefix (suc fuel) cookie verf out s
        ≡ list_pages N dir prefix fuel
            (last_cookie cookie (e ∷ rest))
            p.cookieverf
            (out ++ objects_of N prefix (e ∷ rest))
            s'
  unfolding list_pages
  list_pages_more fuel cookie verf out p e rest s s' got some_entries more =
      rw (list_pages, got) (rw some_entries (rw more refl))

  a_page :
      (cookie : ℕ) (verf : Bytes) (s : NfsBackend N.State)
      → IsCached L s
      → tree_of L s ≡ t
      → D.GoesOn s.conn cookie verf
      → (p : Page) × (s' : NfsBackend N.State) × (called (N.readdirplus dir cookie verf) s
          ≡ (ok p, s'))
        × Kept L s s'
        × D.GoesOn s'.conn (last_cookie cookie p.entries) p.cookieverf
        × (D.behind cookie ≡ p.entries ++ D.behind (last_cookie cookie p.entries))
        × (p.eof ≡ true → D.behind (last_cookie cookie p.entries) ≡ [])
        × (length p.entries ≡ 0 → D.behind cookie ≡ [])
  a_page cookie verf s c same on =
      let (p, k, got, still, next, cut, end, nothing) = D.page cookie verf s.conn same on in
      (
        p,
        record s { conn = k },
        rw got refl,
        Kept-conn L s k (still ∙ sym same) c,
        next,
        cut,
        end,
        nothing,
      )

  -- With more rounds than entries, the loop ends with all of them.
  list_pages_lem :
      (fuel cookie : ℕ) (verf : Bytes) (out : List RawObject) (s : NfsBackend N.State)
      → IsCached L s
      → tree_of L s ≡ t
      → D.GoesOn s.conn cookie verf
      → length (D.behind cookie) < fuel
      → (s' : NfsBackend N.State) × (list_pages N dir prefix fuel cookie verf out s
          ≡ (ok (out ++ objects_of N prefix (D.behind cookie)), s'))
        × Kept L s s'
  unfolding objects_of
  list_pages_lem zero cookie verf out s c same on enough = absurd (omega arith)
  list_pages_lem (suc fuel) cookie verf out s c same on enough =
      let (p, s1, got, kept, next, cut, end, nothing) = a_page cookie verf s c same on in
      elim (entries_cases p.entries) [
        | inl none ↦
            let done : D.behind cookie ≡ [] = nothing (ap length none) in
            (
              s1,
              list_pages_empty fuel cookie verf out p s s1 got none
                  ∙ ap (λ x. (ok x, s1))
                      (sym (append-nil out) ∙ ap (λ x. out ++ objects_of N prefix x) (sym done)),
              kept,
            )
        | inr (e, rest, are) ↦
            let later = last_cookie cookie (e ∷ rest) in
            let left : D.behind cookie ≡ (e ∷ rest) ++ D.behind later =
              cut ∙ ap (λ x. x ++ D.behind (last_cookie cookie x)) are in
            let whole : out ++ objects_of N prefix (D.behind cookie)
                ≡ (out ++ objects_of N prefix (e ∷ rest)) ++ objects_of N prefix (D.behind later) =
              ap (λ x. out ++ x)
                (ap (objects_of N prefix) left
                  ∙ objects_of-append N prefix (e ∷ rest) (D.behind later))
              ∙ sym (append_assoc out _ _) in
            elim (Bool-cases p.eof) [
              | inl last ↦
                  let none_left : D.behind later ≡ [] =
                    ap (λ x. D.behind (last_cookie cookie x)) (sym are) ∙ end last in
                  (
                    s1,
                    list_pages_last fuel cookie verf out p e rest s s1 got are last
                        ∙ ap (λ x. (ok x, s1))
                            (sym (append-nil _)
                              ∙ ap
                                  (λ x.
                                    (out ++ objects_of N prefix (e ∷ rest))
                                    ++ objects_of N prefix x)
                                  (sym none_left)
                              ∙ sym whole),
                    kept,
                  )
              | inr more ↦
                  let (s2, listed, kept2) =
                    list_pages_lem fuel later p.cookieverf (out ++ objects_of N prefix (e ∷ rest))
                      s1 kept.cached (kept.trees ∙ same)
                      (subst (λ x. D.GoesOn s1.conn (last_cookie cookie x) p.cookieverf) are next)
                      (omega (
                        arith,
                        enough,
                        ap length left,
                        length-append (e ∷ rest) (D.behind later),
                      )) in
                  (
                    s2,
                    list_pages_more fuel cookie verf out p e rest s s1 got are more
                        ∙ listed
                        ∙ ap (λ x. (ok x, s2)) (sym whole),
                    Kept-both L s s1 s2 kept kept2,
                  )
            ]
      ]

  -- On a server that is up, and with a right cache, however the server cuts a directory into pages,
  -- and also if it goes on only with the cookie and the verifier that it gave last: with more rounds
  -- than the directory has entries, its listing ends, and has the object of each entry but `.` and
  -- `..`, once and in the server's order.
  pub list_dir_lem :
      (fuel : ℕ) (s : NfsBackend N.State)
      → IsCached L s
      → tree_of L s ≡ t
      → dir_at t s.root prefix ≡ some dir
      → length es < fuel
      → (s' : NfsBackend N.State) × (list_dir N fuel prefix s ≡ (ok (objects_of N prefix es), s'))
        × Kept L s s'
  unfolding list_dir
  list_dir_lem fuel s c same at enough =
      let (s1, resolved, k1) = resolve_dir-Resolved L prefix s c in
      let there : dir_at (tree_of L s) s.root prefix ≡ some dir = rw same at in
      let (s2, listed, k2) =
        list_pages_lem fuel 0 [] [] s1 k1.cached (k1.trees ∙ same)
          (D.begins s1.conn (k1.trees ∙ same)) (rw D.start enough) in
      (
        s2,
        rw (resolved ∙ ap (λ w. (ok_or w remote_directory_not_found, s1)) there)
            (listed ∙ ap (λ x. (ok (objects_of N prefix x), s2)) D.start),
        Kept-both L s s1 s2 k1 k2,
      )
