-- ===== src/Permission/Bash/Substitution.antt =====
-- A command substitution outside quotes marks a segment that only the pattern `*` authorizes.
use mathlib.Core.List.{reverse-cons}
use hai_code.Base.{
  any-append, Bytes, ℕ, ◌≡◌, refl, ap, ◌∙◌, ◌⊎◌, Bool, true, false, not, ◌||◌, Option, none, some,
  List, [], ◌∷◌, ◌++◌, arith, inl, inr, reverse, any,
}
use hai_code.Permission.Bash.Quoting.{ends_outside, step-none, IsPlain, Step-cases}
use hai_code.Permission.Bash.Split.{scan-Reads}
use hai_code.Permission.Bash.{
  Scan, Step, one, two, step, scan, flush, start, split_segments, trim, drop_blanks, push_segment,
  in_quote, unquoted, mark, marks_subst, round, is_blank, is,
}

-- Some byte is not blank.
abbrev is_solid : ℕ → Bool
is_solid c = not (is_blank c)

any-reverse : (p : ℕ → Bool) (xs : Bytes) → any p (reverse xs) ≡ any p xs
any-reverse p [] = refl
any-reverse p (x ∷ xs) =
    rw (reverse-cons x xs) (ground (arith, any-append p (reverse xs) (x ∷ []), any-reverse p xs))

any-drop_blanks : (s : Bytes) → any is_solid (drop_blanks s) ≡ any is_solid s
unfolding drop_blanks
any-drop_blanks [] = refl
any-drop_blanks (c ∷ s) = ground (arith, any-drop_blanks s)

any-trim : (s : Bytes) → any is_solid (trim s) ≡ any is_solid s
unfolding trim
any-trim s =
    any-reverse is_solid (drop_blanks (reverse (drop_blanks s)))
    ∙ any-drop_blanks (reverse (drop_blanks s))
    ∙ any-reverse is_solid (drop_blanks s)
    ∙ any-drop_blanks s

-- A substitution is on record, or in a segment that is sure to be recorded.
abbrev pub marked : List (Bytes × Bool) → Bool
marked = any (λ p. p.1)

abbrev IsTainted : Scan → Type 0
IsTainted st = (marked st.segments ≡ true) ⊎ ((st.cur_subst ≡ true) × (any is_solid st.cur ≡ true))

marked-append : (xs ys : List (Bytes × Bool)) → marked (xs ++ ys) ≡ (marked xs || marked ys)
marked-append [] ys = refl
marked-append (x ∷ xs) ys = ground (arith, marked-append xs ys)

push_segment-IsTainted :
    (s : Bytes) (st : Scan)
    → any is_solid s ≡ any is_solid st.cur
    → IsTainted st
    → marked (push_segment s st).segments ≡ true
unfolding push_segment
push_segment-IsTainted [] st e t = ground arith
push_segment-IsTainted (c ∷ s) st e t =
    ground (arith, marked-append st.segments ((c ∷ s, st.cur_subst) ∷ []))

flush-IsTainted : (st : Scan) → IsTainted st → marked (flush st).segments ≡ true
unfolding flush
flush-IsTainted st t = push_segment-IsTainted (trim st.cur) st (any-trim st.cur) t

abbrev Tainted : Step → Type 0
Tainted (one st) = IsTainted st
Tainted (two st) = IsTainted st

mark-IsTainted : (b : Bool) (st : Scan) → IsTainted st → IsTainted (mark b st)
unfolding mark
mark-IsTainted true st t = ground arith
mark-IsTainted false st t = t

unquoted-Tainted :
    (prev : Option ℕ) (c : ℕ) (look : Option ℕ) (st : Scan)
    → IsTainted st
    → Tainted (unquoted prev c look st)
unfolding unquoted step
unquoted-Tainted prev c none st t =
    ground (arith, flush-IsTainted st, any-append is_solid st.cur (c ∷ []))
unquoted-Tainted prev c (some d) st t = ground (
  arith,
  flush-IsTainted st,
  any-append is_solid st.cur (c ∷ []),
  any-append is_solid st.cur (c ∷ d ∷ []),
)

in_quote-Tainted :
    (q c : ℕ) (look : Option ℕ) (st : Scan) → IsTainted st → Tainted (in_quote q c look st)
unfolding in_quote step
in_quote-Tainted q c none st t = ground (arith, any-append is_solid st.cur (c ∷ []))
in_quote-Tainted q c (some d) st t =
    ground (arith, any-append is_solid st.cur (c ∷ []), any-append is_solid st.cur (c ∷ d ∷ []))

step-Tainted :
    (prev : Option ℕ) (c : ℕ) (look : Option ℕ) (st : Scan)
    → IsTainted st
    → Tainted (step prev c look st)
unfolding step
step-Tainted prev c look st t = go st.quote
  where
    go : (q : Option ℕ) → Tainted (round q prev c look st)
    go none = unquoted-Tainted prev c look st t
    go (some q) =
        in_quote-Tainted q c look (mark (marks_subst c look) st)
          (mark-IsTainted (marks_subst c look) st t)

scan-marked :
    (s : Bytes) (st : Scan) (prev : Option ℕ)
    → IsTainted st
    → marked (scan st prev s).segments ≡ true
unfolding scan
scan-marked [] st prev t = flush-IsTainted st t
scan-marked (c ∷ []) st prev t =
    let kept = step-Tainted prev c none st t in
    elim (Step-cases (step prev c none st)) [
      | inl (st', e) ↦ rw (e, scan) (flush-IsTainted st' (rw e at kept))
      | inr (st', e) ↦ rw (e, scan) (flush-IsTainted st' (rw e at kept))
    ]
scan-marked (c ∷ d ∷ rest) st prev t =
    let kept = step-Tainted prev c (some d) st t in
    elim (Step-cases (step prev c (some d) st)) [
      | inl (st', e) ↦ rw (e, scan) (scan-marked (d ∷ rest) st' (some c) (rw e at kept))
      | inr (st', e) ↦ rw (e, scan) (scan-marked rest st' (some d) (rw e at kept))
    ]

unfoldable pub first : Bytes → Option ℕ
first [] = none
first (c ∷ s) = some c

unquoted_opens :
    (prev : Option ℕ) (c : ℕ) (look : Option ℕ) (st : Scan)
    → marks_subst c look ≡ true
    → Tainted (unquoted prev c look st)
unfolding unquoted step is_blank
unquoted_opens prev c look st h = ground (arith, any-append is_solid st.cur (c ∷ []))

opens-Tainted :
    (prev : Option ℕ) (c : ℕ) (look : Option ℕ) (st : Scan)
    → st.quote ≡ none
    → marks_subst c look ≡ true
    → Tainted (step prev c look st)
unfolding step
opens-Tainted prev c look st e h = rw (step-none prev c look st e) (unquoted_opens prev c look st h)

scan-opens :
    (c : ℕ) (rest : Bytes) (st : Scan) (prev : Option ℕ)
    → st.quote ≡ none
    → marks_subst c (first rest) ≡ true
    → marked (scan st prev (c ∷ rest)).segments ≡ true
unfolding scan first
scan-opens c [] st prev e h =
    let kept = opens-Tainted prev c none st e h in
    elim (Step-cases (step prev c none st)) [
      | inl (st', e') ↦ rw (e', scan) (flush-IsTainted st' (rw e' at kept))
      | inr (st', e') ↦ rw (e', scan) (flush-IsTainted st' (rw e' at kept))
    ]
scan-opens c (d ∷ rest) st prev e h =
    let kept = opens-Tainted prev c (some d) st e h in
    elim (Step-cases (step prev c (some d) st)) [
      | inl (st', e') ↦ rw (e', scan) (scan-marked (d ∷ rest) st' (some c) (rw e' at kept))
      | inr (st', e') ↦ rw (e', scan) (scan-marked rest st' (some d) (rw e' at kept))
    ]

opens-IsPlain : (c : ℕ) (look : Option ℕ) → marks_subst c look ≡ true → IsPlain c
unfolding marks_subst
opens-IsPlain c look h = ground arith

-- A backtick, or a `$` before a `(`.
abbrev pub OpensSubstitution : ℕ → Bytes → Type 0
OpensSubstitution c b = (c ≡ b'`') ⊎ ((c ≡ b'$') × (first b ≡ some b'('))

pub OpensSubstitution-marks_subst :
    (c : ℕ) (b : Bytes) → OpensSubstitution c b → marks_subst c (first b) ≡ true
unfolding marks_subst is
OpensSubstitution-marks_subst c b (inl e) = rw e refl
OpensSubstitution-marks_subst c b (inr (e, f)) = rw (e, f) refl

-- A backtick, or a `$` before a `(`, outside quotes and escapes leaves a marked segment.
pub split_segments-marked :
    (a : Bytes) (c : ℕ) (b : Bytes)
    → ends_outside none a ≡ true
    → marks_subst c (first b) ≡ true
    → marked (split_segments (a ++ c ∷ b)) ≡ true
unfolding split_segments
split_segments-marked a c b h m =
    let (st, at, k, r) = scan-Reads a start none none c (opens-IsPlain c (first b) m) refl h in
    ap (λ s. marked s.segments) (r b) ∙ scan-opens c b st at k m
