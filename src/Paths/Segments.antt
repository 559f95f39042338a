-- ===== src/Paths/Segments.antt =====
-- Paths put together at a slash: what `map_segments` of src/crypto.rs makes of them.
use rabbit_storage_explorer.Base.{
  ◌≡◌, refl, sym, ap, ◌∙◌, ◌⊎◌, Error, List, [], ◌∷◌, ◌++◌, append_assoc, ◌==◌, Text, slash, inl,
  inr, Bool-cases, Result, ok, err, Result-cases, ◌>>=◌, if◌then◌else◌,
}
use rabbit_storage_explorer.Paths.{
  is_empty, split_slash, join_slash, cons_first, map_each, map_segments,
}

pub split_slash-some : (s : Text) → (t : Text) × (ts : List Text) × (split_slash s ≡ t ∷ ts)
unfolding split_slash
split_slash-some [] = ([], [], refl)
split_slash-some (c ∷ s) = elim (Bool-cases (c == slash)) [
  | inl e ↦ rw e ([], split_slash s, refl)
  | inr n ↦ let (t, ts, h) = split_slash-some s in rw n (c ∷ t, ts, rw h refl)
]

pub split_slash-append :
    (a b : Text) → split_slash (a ++ (slash ∷ b)) ≡ split_slash a ++ split_slash b
unfolding split_slash
split_slash-append [] b = refl
split_slash-append (c ∷ a) b = elim (Bool-cases (c == slash)) [
  | inl e ↦ rw e (ap (λ ts. [] ∷ ts) (split_slash-append a b))
  | inr n ↦
      let (t, ts, h) = split_slash-some a in
      rw n (ap (cons_first c) (split_slash-append a b) ∙ rw h refl)
]

join_slash-append :
    (u v : Text) (us vs : List Text)
    → join_slash ((u ∷ us) ++ (v ∷ vs)) ≡ join_slash (u ∷ us) ++ (slash ∷ join_slash (v ∷ vs))
unfolding join_slash
join_slash-append u v [] vs = refl
join_slash-append u v (w ∷ us) vs =
    ap (λ x. u ++ (slash ∷ x)) (join_slash-append w v us vs)
    ∙ sym (append_assoc u (slash ∷ join_slash (w ∷ us)) (slash ∷ join_slash (v ∷ vs)))

chain_nil : (q : Result (List Text)) → q ≡ (q >>= λ vs. ok vs)
chain_nil (err e) = refl
chain_nil (ok vs) = refl

-- The order in which segments fail does not depend on where the list is cut.
chain_cons :
    (first : Result Text) (p q : Result (List Text))
    → (first >>= λ t. (p >>= λ us. q >>= λ vs. ok (us ++ vs)) >>= λ ts. ok (t ∷ ts))
      ≡ ((first >>= λ t. p >>= λ ts. ok (t ∷ ts)) >>= λ us. q >>= λ vs. ok (us ++ vs))
chain_cons (err e) p q = refl
chain_cons (ok t) (err e) q = refl
chain_cons (ok t) (ok us) (err e) = refl
chain_cons (ok t) (ok us) (ok vs) = refl

module _ (f : Text → Result Text) where
  map_each-append :
      (xs ys : List Text)
      → map_each f (xs ++ ys) ≡ (map_each f xs >>= λ us. map_each f ys >>= λ vs. ok (us ++ vs))
  unfolding map_each
  map_each-append [] ys = chain_nil (map_each f ys)
  map_each-append (x ∷ xs) ys =
      rw (map_each-append xs ys)
        (chain_cons (if is_empty x then ok [] else f x) (map_each f xs) (map_each f ys))

  -- A segment at least is left, or there is an error.
  map_each-some :
      (x : Text) (xs : List Text)
      → ((u : Text) × (us : List Text) × (map_each f (x ∷ xs) ≡ ok (u ∷ us)))
        ⊎ ((e : Error) × (map_each f (x ∷ xs) ≡ err e))
  unfolding map_each
  map_each-some x xs = elim (Result-cases (if is_empty x then ok [] else f x)) [
    | inr (e, h) ↦ inr (e, rw h refl)
    | inl (u, h) ↦ elim (Result-cases (map_each f xs)) [
      | inr (e, k) ↦ inr (e, rw h (rw k refl))
      | inl (us, k) ↦ inl (u, us, rw h (rw k refl))
    ]
  ]

  -- The path of two texts at a slash is that of the first, a slash and that of the second; where one
  -- of them fails, the whole fails, with the first error.
  pub map_segments-append :
      (a b : Text)
      → map_segments (a ++ (slash ∷ b)) f
        ≡ (map_segments a f >>= λ x. map_segments b f >>= λ y. ok (x ++ (slash ∷ y)))
  unfolding map_segments
  map_segments-append a b =
      let (s, ss, p) = split_slash-some a in
      let (t, ts, q) = split_slash-some b in
      rw (split_slash-append a b, map_each-append (split_slash a) (split_slash b), p, q)
        (elim (map_each-some s ss) [
          | inr (e, h) ↦ rw h refl
          | inl (u, us, h) ↦ elim (map_each-some t ts) [
            | inr (e, k) ↦ rw (h, k) refl
            | inl (v, vs, k) ↦ rw (h, k) (ap ok (join_slash-append u v us vs))
          ]
        ])
