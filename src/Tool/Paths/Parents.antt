-- ===== src/Tool/Paths/Parents.antt =====
-- Which directories `make_parent_dirs` makes, and what is there when it returns true.
use mathlib.Core.List.{append_assoc, append-nil}
use hai_code.Base.{
  Bytes, ℕ, ◌≡◌, refl, ap, ◌∙◌, sym, subst, none, some, Bool, true, false, List, [], ◌∷◌, ◌++◌,
  arith, All, any, ◌==◌, inl, inr, ◌⊎◌, Bool-cases, Option-cases,
}
use hai_code.Permission.Path.{slash, is_empty}
use hai_code.Tool.Paths.{
  MkdirAnswer, made, exists_already, failed, components, before_last_slash, make_each,
  make_parent_dirs,
}

MkdirAnswer-cases : (m : MkdirAnswer) → (m ≡ failed) ⊎ ((m ≡ made) ⊎ (m ≡ exists_already))
MkdirAnswer-cases failed = inl refl
MkdirAnswer-cases made = inr (inl refl)
MkdirAnswer-cases exists_already = inr (inr refl)

-- A directory above a path.
abbrev pub IsAbove : Bytes → Bytes → Type 0
IsAbove path d = (t : Bytes) × (path ≡ d ++ slash ∷ t)

has_slash : Bytes → Bool
has_slash = any (λ c. c == slash)

before_last_slash-none : (s : Bytes) → before_last_slash s ≡ none → has_slash s ≡ false
unfolding before_last_slash has_slash
before_last_slash-none [] h = refl
before_last_slash-none (c ∷ s) h = elim (Option-cases (before_last_slash s)) [
  | inr (u, e) ↦ absurd (ground arith)
  | inl e ↦ ground (arith, before_last_slash-none s e)
]

slash_inside : (a b s : Bytes) → s ≡ a ++ slash ∷ b → has_slash s ≡ false → ⊥
unfolding has_slash
slash_inside [] b [] f g = cc
slash_inside [] b (x ∷ s) f g = ground arith
slash_inside (y ∷ a) b [] f g = cc
slash_inside (y ∷ a) b (x ∷ s) f g = slash_inside a b s (ground arith) (ground arith)

before_last_slash-split :
    (path dir : Bytes)
    → before_last_slash path ≡ some dir
    → (name : Bytes) × (path ≡ dir ++ slash ∷ name) × (has_slash name ≡ false)
unfolding before_last_slash has_slash
before_last_slash-split [] dir h = cc
before_last_slash-split (c ∷ s) dir h = elim (Option-cases (before_last_slash s)) [
  | inr (t, e) ↦ let (name, f, g) = before_last_slash-split s t e in (name, ground arith, g)
  | inl e ↦ (s, ground arith, before_last_slash-none s e)
]

-- The components are directories above the path.
components-IsAbove :
    (path front s name : Bytes)
    → path ≡ front ++ (s ++ slash ∷ name)
    → All (IsAbove path) (components front s)
unfolding components
components-IsAbove path front [] name e = ((name, e), tt)
components-IsAbove path front (c ∷ s) name e =
    let rest =
      components-IsAbove path (front ++ c ∷ []) s name
        (e ∙ sym (append_assoc front (c ∷ []) (s ++ slash ∷ name))) in
    elim (Bool-cases (c == slash)) [
      | inl f ↦ rw f ((s ++ slash ∷ name, ground arith), rest)
      | inr f ↦ rw f rest
    ]

module _ (P : Bytes → Type 0) where
  components_rest :
      (front : Bytes) (c : ℕ) (s : Bytes)
      → All P (components front (c ∷ s))
      → All P (components (front ++ c ∷ []) s)
  unfolding components
  components_rest front c s h = elim (Bool-cases (c == slash)) [
    | inl f ↦ (rw f at h).1
    | inr f ↦ rw f at h
  ]

  -- They are the whole text and all that stands in front of a slash in it.
  components_whole : (front s : Bytes) → All P (components front s) → P (front ++ s)
  unfolding components
  components_whole front [] h = rw append-nil h.0
  components_whole front (c ∷ s) h =
      subst P (append_assoc front (c ∷ []) s)
        (components_whole (front ++ c ∷ []) s (components_rest front c s h))

  components_part :
      (front s t u : Bytes) → All P (components front s) → s ≡ t ++ slash ∷ u → P (front ++ t)
  unfolding components
  components_part front [] [] u h e = cc
  components_part front [] (d ∷ t) u h e = cc
  components_part front (c ∷ s) [] u h e =
      let at_slash : (c == slash) ≡ true = ground arith in rw append-nil (rw at_slash at h).0
  components_part front (c ∷ s) (d ∷ t) u h e =
      let same : c ≡ d = ground arith in
      subst (λ x. P (front ++ x ∷ t)) same
        (subst P (append_assoc front (c ∷ []) t)
          (components_part (front ++ c ∷ []) s t u (components_rest front c s h) (ground arith)))

-- A text in front of a slash is all that stands in front of the last one, or ends in front of a slash
-- in that.
earlier :
    (dir name a b : Bytes)
    → has_slash name ≡ false
    → dir ++ slash ∷ name ≡ a ++ slash ∷ b
    → (a ≡ dir) ⊎ ((u : Bytes) × (dir ≡ a ++ slash ∷ u))
unfolding has_slash
earlier [] name [] b h e = inl refl
earlier [] name (c ∷ a) b h e = absurd (slash_inside a b name (ground arith) h)
earlier (d ∷ dir) name [] b h e = inr (dir, ground arith)
earlier (d ∷ dir) name (c ∷ a) b h e = elim (earlier dir name a b h (ground arith)) [
  | inl f ↦ inl (ground arith)
  | inr (u, f) ↦ inr (u, ground arith)
]

module _ (exists : Bytes → Bool) (mkdir : Bytes → MkdirAnswer) where
  -- There already, or made.
  abbrev pub IsThere : Bytes → Type 0
  IsThere d = (exists d ≡ true) ⊎ ((mkdir d ≡ made) ⊎ (mkdir d ≡ exists_already))

  make_each-IsThere : (ds : List Bytes) → (make_each exists mkdir ds).0 ≡ true → All IsThere ds
  unfolding make_each
  make_each-IsThere [] h = tt
  make_each-IsThere (d ∷ ds) h = elim (Bool-cases (exists d)) [
    | inl e ↦ (inl e, make_each-IsThere ds (ground arith))
    | inr e ↦ elim (MkdirAnswer-cases (mkdir d)) [
      | inl f ↦ absurd (ground arith)
      | inr (inl m) ↦ (inr (inl m), make_each-IsThere ds (ground arith))
      | inr (inr m) ↦ (inr (inr m), make_each-IsThere ds (ground arith))
    ]
  ]

  make_each-calls :
      (P : Bytes → Type 0) (ds : List Bytes) → All P ds → All P (make_each exists mkdir ds).1
  unfolding make_each
  make_each-calls P [] h = tt
  make_each-calls P (d ∷ ds) h = elim (Bool-cases (exists d)) [
    | inl e ↦ rw e (make_each-calls P ds h.1)
    | inr e ↦ elim (MkdirAnswer-cases (mkdir d)) [
      | inl f ↦ rw (e, f) (h.0, tt)
      | inr (inl m) ↦ rw (e, m) (h.0, make_each-calls P ds h.1)
      | inr (inr m) ↦ rw (e, m) (h.0, make_each-calls P ds h.1)
    ]
  ]

  each_below :
      (path : Bytes) (c : ℕ) (s : Bytes)
      → before_last_slash path ≡ some (c ∷ s)
      → make_parent_dirs exists mkdir path ≡ make_each exists mkdir (components (c ∷ []) s)
  unfolding make_parent_dirs
  each_below path c s e = ground arith

  nothing_below :
      (path : Bytes)
      → (before_last_slash path ≡ none) ⊎ (before_last_slash path ≡ some [])
      → make_parent_dirs exists mkdir path ≡ (true, [])
  unfolding make_parent_dirs
  nothing_below path (inl e) = ground arith
  nothing_below path (inr e) = ground arith

  -- Only directories above the file are made.
  calls-IsAbove : (path : Bytes) → All (IsAbove path) (make_parent_dirs exists mkdir path).1
  calls-IsAbove path = elim (Option-cases (before_last_slash path)) [
    | inl n ↦ rw (nothing_below path (inl n)) tt
    | inr ([], e) ↦ rw (nothing_below path (inr e)) tt
    | inr (c ∷ s, e) ↦
        let (name, f, _) = before_last_slash-split path (c ∷ s) e in
        rw (each_below path c s e) (
          make_each-calls (IsAbove path) (components (c ∷ []) s)
            (components-IsAbove path (c ∷ []) s name f))
  ]

  above-IsThere :
      (path d : Bytes)
      → (make_parent_dirs exists mkdir path).0 ≡ true
      → IsAbove path d
      → is_empty d ≡ false
      → IsThere d
  unfolding is_empty
  above-IsThere path [] h k n = cc
  above-IsThere path (x ∷ d) h (t, g) n = elim (Option-cases (before_last_slash path)) [
    | inl e ↦ absurd (slash_inside (x ∷ d) t path g (before_last_slash-none path e))
    | inr ([], e) ↦
        let (name, f, m) = before_last_slash-split path [] e in
        absurd (slash_inside d t name (ground arith) m)
    | inr (c ∷ s, e) ↦
        let (name, f, m) = before_last_slash-split path (c ∷ s) e in
        let there =
          make_each-IsThere (components (c ∷ []) s)
            (ap (λ r. r.0) (sym (each_below path c s e)) ∙ h) in
        elim (earlier (c ∷ s) name (x ∷ d) t m (sym f ∙ g)) [
          | inl same ↦ subst IsThere (sym same) (components_whole IsThere (c ∷ []) s there)
          | inr (u, front) ↦
              let first : c ≡ x = ground arith in
              subst (λ y. IsThere (y ∷ d)) first
                (components_part IsThere (c ∷ []) s d u there (ground arith))
        ]
  ]

  -- Only directories above the file are made, and where true is returned, each directory above the
  -- file but the root is there already, or `mkdir` has made it or found it there.
  pub make_parent_dirs-IsAbove :
      (path : Bytes)
      → All (IsAbove path) (make_parent_dirs exists mkdir path).1
        × ((make_parent_dirs exists mkdir path).0 ≡ true
            → (d : Bytes) → IsAbove path d
            → is_empty d ≡ false
            → IsThere d)
  make_parent_dirs-IsAbove path = (calls-IsAbove path, λ h d k n. above-IsThere path d h k n)
