-- ===== src/Permission/Bash/Prefix.antt =====
-- The loop of `bash_pattern_authorizes` only adds to the segments that it starts with.
use mathlib.Core.List.{append_assoc}
use hai_code.Base.{
  Bytes, ℕ, ◌≡◌, refl, ap, ◌∙◌, Bool, Option, none, some, List, [], ◌∷◌, ◌++◌, arith, inl, inr,
}
use hai_code.Permission.Bash.Quoting.{Step-cases}
use hai_code.Permission.Bash.{
  Scan, Step, one, two, step, scan, flush, trim, push_segment, in_quote, unquoted, mark,
  marks_subst, round,
}

-- Segments found earlier stay in front and change nothing else.
abbrev pub with_prefix : List (Bytes × Bool) → Scan → Scan
with_prefix xs st = record st { segments = xs ++ st.segments }

abbrev pub step_prefix : List (Bytes × Bool) → Step → Step
step_prefix xs (one st) = one (with_prefix xs st)
step_prefix xs (two st) = two (with_prefix xs st)

push_segment-with_prefix :
    (xs : List (Bytes × Bool)) (s : Bytes) (st : Scan)
    → push_segment s (with_prefix xs st) ≡ with_prefix xs (push_segment s st)
unfolding push_segment
push_segment-with_prefix xs [] st = refl
push_segment-with_prefix xs (c ∷ s) st =
    ground (arith, append_assoc xs st.segments ((c ∷ s, st.cur_subst) ∷ []))

flush-with_prefix :
    (xs : List (Bytes × Bool)) (st : Scan) → flush (with_prefix xs st) ≡ with_prefix xs (flush st)
unfolding flush
flush-with_prefix xs st = push_segment-with_prefix xs (trim st.cur) st

unquoted-with_prefix :
    (xs : List (Bytes × Bool)) (prev : Option ℕ) (c : ℕ) (look : Option ℕ) (st : Scan)
    → unquoted prev c look (with_prefix xs st) ≡ step_prefix xs (unquoted prev c look st)
unfolding unquoted step
unquoted-with_prefix xs prev c look st = ground (arith, flush-with_prefix xs st)

in_quote-with_prefix :
    (xs : List (Bytes × Bool)) (q c : ℕ) (look : Option ℕ) (b : Bool) (st : Scan)
    → in_quote q c look (mark b (with_prefix xs st))
      ≡ step_prefix xs (in_quote q c look (mark b st))
unfolding in_quote step
in_quote-with_prefix xs q c look b st = ground arith

step-with_prefix :
    (xs : List (Bytes × Bool)) (prev : Option ℕ) (c : ℕ) (look : Option ℕ) (st : Scan)
    → step prev c look (with_prefix xs st) ≡ step_prefix xs (step prev c look st)
unfolding step
step-with_prefix xs prev c look st = go st.quote
  where
    go :
        (q : Option ℕ)
        → round q prev c look (with_prefix xs st) ≡ step_prefix xs (round q prev c look st)
    go none = unquoted-with_prefix xs prev c look st
    go (some q) = in_quote-with_prefix xs q c look (marks_subst c look) st

pub scan-with_prefix :
    (xs : List (Bytes × Bool)) (st : Scan) (prev : Option ℕ) (s : Bytes)
    → scan (with_prefix xs st) prev s ≡ with_prefix xs (scan st prev s)
unfolding scan
scan-with_prefix xs st prev [] = flush-with_prefix xs st
scan-with_prefix xs st prev (c ∷ []) = elim (Step-cases (step prev c none st)) [
  | inl (s, e) ↦
      let e' = step-with_prefix xs prev c none st ∙ ap (step_prefix xs) e in
      rw (e, e', scan) (flush-with_prefix xs s)
  | inr (s, e) ↦
      let e' = step-with_prefix xs prev c none st ∙ ap (step_prefix xs) e in
      rw (e, e', scan) (flush-with_prefix xs s)
]
scan-with_prefix xs st prev (c ∷ d ∷ rest) = elim (Step-cases (step prev c (some d) st)) [
  | inl (s, e) ↦
      let e' = step-with_prefix xs prev c (some d) st ∙ ap (step_prefix xs) e in
      rw (e, e', scan) (scan-with_prefix xs s (some c) (d ∷ rest))
  | inr (s, e) ↦
      let e' = step-with_prefix xs prev c (some d) st ∙ ap (step_prefix xs) e in
      rw (e, e', scan) (scan-with_prefix xs s (some d) rest)
]
