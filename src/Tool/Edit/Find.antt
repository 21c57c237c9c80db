-- ===== src/Tool/Edit/Find.antt =====
-- What `find` finds: the first place where a text occurs in another.
use mathlib.Core.Bool.{false≢true}
use hai_code.Base.{
  Bytes, ℕ, ◌≡◌, refl, ap, ◌∙◌, sym, none, some, true, false, [], ◌∷◌, ◌++◌, arith, inl, inr,
  length, drop, starts_with, starts_with_sound, Bool-cases, Option-cases,
}
use hai_code.Permission.Path.{is_empty}
use hai_code.Tool.Edit.{find}

drop-append : (p t : Bytes) → drop (length p) (p ++ t) ≡ t
unfolding drop
drop-append [] t = refl
drop-append (c ∷ p) t = drop-append p t

starts_with-more : (p s t : Bytes) → starts_with p s ≡ true → starts_with p (s ++ t) ≡ true
unfolding starts_with
starts_with-more [] s t h = refl
starts_with-more (a ∷ p) [] t h = cc
starts_with-more (a ∷ p) (b ∷ s) t h = ground (arith, starts_with-more p s t)

-- The text is the part in front, the occurrence and the part behind.
pub find_parts : (old s b a : Bytes) → find old s ≡ some (b, a) → s ≡ b ++ (old ++ a)
unfolding find is_empty
find_parts [] [] b a h = ground arith
find_parts (o ∷ old) [] b a h = ground arith
find_parts old (c ∷ s) b a h = elim (Bool-cases (starts_with old (c ∷ s))) [
  | inl e ↦
      let (t, f) = starts_with_sound old (c ∷ s) e in
      let rest : drop (length old) (c ∷ s) ≡ t = ap (drop (length old)) f ∙ drop-append old t in
      ground arith
  | inr e ↦ elim (Option-cases (find old s)) [
    | inl n ↦ ground arith
    | inr ((b', a'), f) ↦ let later = find_parts old s b' a' f in ground arith
  ]
]

not_earlier :
    (old b a s : Bytes) (c : ℕ)
    → starts_with old (c ∷ s) ≡ false
    → s ≡ b ++ a
    → starts_with old (c ∷ b) ≡ false
not_earlier old b a s c h e = elim (Bool-cases (starts_with old (c ∷ b))) [
  | inr f ↦ f
  | inl f ↦
      let more = starts_with-more old (c ∷ b) a f in
      absurd (false≢true (sym h ∙ ap (λ t. starts_with old (c ∷ t)) e ∙ more))
]

-- In the part in front it does not occur.
pub find_first :
    (old s b a : Bytes) → is_empty old ≡ false → find old s ≡ some (b, a) → find old b ≡ none
unfolding find is_empty
find_first [] s b a n h = cc
find_first (o ∷ old) [] b a n h = cc
find_first (o ∷ old) (c ∷ s) b a n h = elim (Bool-cases (starts_with (o ∷ old) (c ∷ s))) [
  | inl e ↦ let front : b ≡ [] = ground arith in rw front refl
  | inr e ↦ elim (Option-cases (find (o ∷ old) s)) [
    | inl f ↦ ground arith
    | inr ((b', a'), f) ↦
        let rec = find_first (o ∷ old) s b' a' n f in
        let clear =
          not_earlier (o ∷ old) b' ((o ∷ old) ++ a') s c e (find_parts (o ∷ old) s b' a' f) in
        let front : b ≡ c ∷ b' = ground arith in rw (front, find, clear, rec) refl
  ]
]
