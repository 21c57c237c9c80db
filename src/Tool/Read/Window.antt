-- ===== src/Tool/Read/Window.antt =====
-- Which lines `ReadTool` shows: `limit` lines from the line `offset` on, with their numbers.
use mathlib.Core.List.{append_assoc, append-nil}
use hai_code.Base.{
  Bytes, ℕ, zero, suc, ◌+◌, ◌-◌, ◌<◌, ◌≤◌, ◌≡◌, refl, ◌∙◌, sym, true, false, ◌&&◌, List, [], ◌∷◌,
  ◌++◌, arith, length, take, drop, length-append, ltb, leb, ◌==◌, if◌then◌else◌, inl, inr,
  Bool-cases, All, drop_nil, take_nil, subst, ◌⊎◌,
}
use hai_code.Tool.Read.{max_output, entry, last_line, read_loop}
use hai_code.Tool.Read.Lines.{IsLine, file_of, line_loop, read_loop-line_loop}

-- Lines with their numbers, from a number on.
unfoldable pub render : ℕ → List Bytes → Bytes
render k [] = []
render k (l ∷ ls) = entry k l ++ render (k + 1) ls

-- The lines with the last one, where it has a byte.
unfoldable pub all_lines : List Bytes → Bytes → List Bytes
all_lines ls [] = ls
all_lines ls (c ∷ p) = ls ++ (c ∷ p) ∷ []

-- At most `limit` of them, or all for the limit 0.
unfoldable pub at_most : ℕ → List Bytes → List Bytes
at_most limit ls = if limit == 0 then ls else take limit ls

-- What is left to show where `printed` lines have been shown.
left : ℕ → ℕ → List Bytes → List Bytes
left limit printed ls = if limit == 0 then ls else take (limit - printed) ls

abbrev Goes : ℕ → ℕ → Type 0
Goes limit printed = ((limit == 0) ≡ true) ⊎ (printed < limit)

left-cons :
    (limit printed : ℕ) (x : Bytes) (ls : List Bytes)
    → Goes limit printed
    → left limit printed (x ∷ ls) ≡ x ∷ left limit (printed + 1) ls
unfolding left take
left-cons limit printed x ls (inl e) = rw e
left-cons limit printed x ls (inr h) =
    let nonzero : (limit == 0) ≡ false = ground arith in
    let more : limit - printed ≡ suc (limit - (printed + 1)) = omega arith in rw (nonzero, more)

-- The limit is reached.
left_stop :
    (limit printed : ℕ) (ls : List Bytes)
    → (ltb 0 limit && leb limit (printed + 1)) ≡ true
    → left limit (printed + 1) ls ≡ []
unfolding left take
left_stop limit printed ls h =
    let nonzero : (limit == 0) ≡ false = ground arith in
    let none_left : limit - (printed + 1) ≡ 0 = ground arith in rw (nonzero, none_left)

Goes-on :
    (limit printed : ℕ)
    → (ltb 0 limit && leb limit (printed + 1)) ≡ false
    → Goes limit (printed + 1)
Goes-on limit printed h = elim (Bool-cases (limit == 0)) [
  | inl e ↦ inl e
  | inr e ↦ inr (ground arith)
]

left_nil : (limit printed : ℕ) → left limit printed [] ≡ []
unfolding left
left_nil limit printed = elim (Bool-cases (limit == 0)) [ inl e ↦ rw e | inr e ↦ rw (e, take_nil) ]

left-at_most : (limit : ℕ) (ls : List Bytes) → left limit 0 ls ≡ at_most limit ls
unfolding left at_most
left-at_most limit ls = let same : limit - 0 ≡ limit = omega arith in rw same

all_lines-cons :
    (x : Bytes) (ls : List Bytes) (p : Bytes) → all_lines (x ∷ ls) p ≡ x ∷ all_lines ls p
unfolding all_lines
all_lines-cons x ls [] = refl
all_lines-cons x ls (c ∷ p) = refl

module _ (offset limit : ℕ) where
  last-shown :
      (lineno printed : ℕ) (output p : Bytes)
      → offset ≤ lineno + 1
      → Goes limit printed
      → last_line offset limit lineno p output
        ≡ output ++ render (lineno + 1) (left limit printed (all_lines [] p))
  unfolding last_line all_lines render
  last-shown lineno printed output [] o l = rw (left_nil limit printed, render, append-nil)
  last-shown lineno printed output (c ∷ p) o l =
      let shows : leb offset (lineno + 1) ≡ true = ground arith in
      rw (
        shows,
        left-cons limit printed (c ∷ p) [] l,
        left_nil limit (printed + 1),
        render,
        append-nil,
      )

  -- From a line on that is shown.
  line_loop-shown :
      (lineno printed : ℕ) (output : Bytes) (ls : List Bytes) (p : Bytes)
      → offset ≤ lineno + 1
      → Goes limit printed
      → length (output ++ render (lineno + 1) (left limit printed (all_lines ls p))) < max_output
      → line_loop offset limit lineno printed output ls p
        ≡ output ++ render (lineno + 1) (left limit printed (all_lines ls p))
  unfolding line_loop render
  line_loop-shown lineno printed output [] p o l h = last-shown lineno printed output p o l
  line_loop-shown lineno printed output (x ∷ ls) p o l h =
      let shown = output ++ entry (lineno + 1) x in
      let rest = render (lineno + 1 + 1) (left limit (printed + 1) (all_lines ls p)) in
      let split : output ++ render (lineno + 1) (left limit printed (all_lines (x ∷ ls) p))
          ≡ shown ++ rest =
        rw (all_lines-cons x ls p, left-cons limit printed x (all_lines ls p) l, render)
          (sym (append_assoc output (entry (lineno + 1) x) rest)) in
      let fits : length (shown ++ rest) < max_output = rw split at h in
      let shows : leb offset (lineno + 1) ≡ true = ground arith in
      let small : leb max_output (length shown) ≡ false =
        ground (arith, length-append shown rest) in
      elim (Bool-cases (ltb 0 limit && leb limit (printed + 1))) [
        | inl e ↦
            let ends : rest ≡ [] = rw (left_stop limit printed (all_lines ls p) e) in
            rw (shows, small, e, split, ends) (sym (append-nil shown))
        | inr e ↦
            rw (shows, small, e, split)
              (line_loop-shown (lineno + 1) (printed + 1) shown ls p (omega arith)
                (Goes-on limit printed e) fits)
      ]

  -- From a line on that is `d` lines in front of the first that is shown.
  line_loop_window :
      (d lineno : ℕ) (ls : List Bytes) (p : Bytes)
      → lineno + d + 1 ≡ offset
      → length (render offset (left limit 0 (drop d (all_lines ls p)))) < max_output
      → line_loop offset limit lineno 0 [] ls p
        ≡ render offset (left limit 0 (drop d (all_lines ls p)))
  unfolding line_loop drop render last_line left all_lines take
  line_loop_window zero lineno ls p e h =
      let first : lineno + 1 ≡ offset = omega arith in
      let goes : Goes limit 0 = elim (Bool-cases (limit == 0)) [
        | inl z ↦ inl z
        | inr z ↦ inr (ground arith)
      ] in
      subst
        (λ k. line_loop offset limit lineno 0 [] ls p ≡ render k (left limit 0 (all_lines ls p)))
        first (line_loop-shown lineno 0 [] ls p (omega arith) goes (rw first h))
  line_loop_window (suc d) lineno [] [] e h = rw (left_nil limit 0)
  line_loop_window (suc d) lineno [] (c ∷ p) e h =
      let hidden : leb offset (lineno + 1) ≡ false = ground arith in
      rw (hidden, drop_nil, left_nil limit 0)
  line_loop_window (suc d) lineno (x ∷ ls) p e h =
      let hidden : leb offset (lineno + 1) ≡ false = ground arith in
      let cons = all_lines-cons x ls p in
      rw (hidden, cons) (line_loop_window d (lineno + 1) ls p (omega arith) (rw cons at h))

  -- Where the lines from `offset` on, `limit` of them at most, come to less than the cap of 102400
  -- bytes with their numbers, they are what is shown, and so is a last line without a newline; the
  -- limit 0 is none.
  pub read_loop_window :
      (ls : List Bytes) (p : Bytes)
      → 1 ≤ offset
      → All IsLine ls
      → IsLine p
      → length (render offset (at_most limit (drop (offset - 1) (all_lines ls p)))) < max_output
      → read_loop offset limit 0 0 [] [] (file_of ls p)
        ≡ render offset (at_most limit (drop (offset - 1) (all_lines ls p)))
  read_loop_window ls p o h k fits =
      let same = left-at_most limit (drop (offset - 1) (all_lines ls p)) in
      read_loop-line_loop offset limit 0 0 [] ls p h k
      ∙ subst
          (λ w.
            length (render offset w) < max_output
            → line_loop offset limit 0 0 [] ls p ≡ render offset w)
          same (line_loop_window (offset - 1) 0 ls p (omega arith)) fits
