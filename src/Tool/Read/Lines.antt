-- ===== src/Tool/Read/Lines.antt =====
-- The loop of `ReadTool` over bytes as a loop over the lines of the file.
use mathlib.Core.List.{append_assoc, append-nil}
use hai_code.Base.{
  Bytes, ℕ, ◌+◌, ◌<◌, ◌≤◌, ◌≡◌, ap, ◌∙◌, sym, false, ◌&&◌, List, [], ◌∷◌, ◌++◌, arith, length, take,
  length-take, length-append, ltb, leb, ◌==◌, if◌then◌else◌, All,
}
use hai_code.Tool.Read.{max_output, entry, truncated, last_line, read_loop}

-- No newline in a text.
abbrev pub IsLine : Bytes → Type 0
IsLine l = All (λ c. (c == 10) ≡ false) l

-- The file that has these lines, each ended by a newline, and then a text without one.
pub file_of : List Bytes → Bytes → Bytes
file_of [] p = p
file_of (l ∷ ls) p = l ++ 10 ∷ file_of ls p

module _ (offset limit : ℕ) where
  -- One round for each line.
  unfoldable pub line_loop : ℕ → ℕ → Bytes → List Bytes → Bytes → Bytes
  line_loop lineno printed output [] p = last_line offset limit lineno p output
  line_loop lineno printed output (l ∷ ls) p =
      let shown = output ++ entry (lineno + 1) l in
      let next = line_loop (lineno + 1) (printed + 1) shown ls p in
      let skipped = line_loop (lineno + 1) printed output ls p in
      if leb offset (lineno + 1)
      then (if leb max_output (length shown)
          then take max_output shown ++ truncated
          else if ltb 0 limit && leb limit (printed + 1)
          then shown
          else next)
      else skipped

  read_loop-part :
      (lineno printed : ℕ) (line output l s : Bytes)
      → IsLine l
      → read_loop offset limit lineno printed line output (l ++ s)
        ≡ read_loop offset limit lineno printed (line ++ l) output s
  unfolding read_loop
  read_loop-part lineno printed line output [] s h = rw append-nil
  read_loop-part lineno printed line output (c ∷ l) s h = rw h.0 (
      read_loop-part lineno printed (line ++ c ∷ []) output l s h.1
      ∙ ap (λ m. read_loop offset limit lineno printed m output s) (append_assoc line (c ∷ []) l))

  read_loop-last :
      (lineno printed : ℕ) (output p : Bytes)
      → IsLine p
      → read_loop offset limit lineno printed [] output p ≡ last_line offset limit lineno p output
  unfolding read_loop
  read_loop-last lineno printed output p h =
      ap (read_loop offset limit lineno printed [] output) (sym (append-nil p))
      ∙ read_loop-part lineno printed [] output p [] h

  -- The loop over the bytes reads the lines.
  pub read_loop-line_loop :
      (lineno printed : ℕ) (output : Bytes) (ls : List Bytes) (p : Bytes)
      → All IsLine ls
      → IsLine p
      → read_loop offset limit lineno printed [] output (file_of ls p)
        ≡ line_loop lineno printed output ls p
  unfolding line_loop file_of read_loop
  read_loop-line_loop lineno printed output [] p h k = read_loop-last lineno printed output p k
  read_loop-line_loop lineno printed output (l ∷ ls) p h k =
      read_loop-part lineno printed [] output l (10 ∷ file_of ls p) h.0
      ∙ rw (
        read_loop,
        read_loop-line_loop (lineno + 1) (printed + 1) (output ++ entry (lineno + 1) l) ls p h.1 k,
        read_loop-line_loop (lineno + 1) printed output ls p h.1 k,
      )

  -- What a cut leaves.
  pub cut-length :
      (shown : Bytes)
      → max_output ≤ length shown
      → length (take max_output shown ++ truncated) ≡ max_output + 19
  cut-length shown h = rw (length-append, length-take max_output shown h)

  -- The output of a file that ends in a newline is bounded.
  pub line_loop_bounds :
      (lineno printed : ℕ) (output : Bytes) (ls : List Bytes)
      → length output < max_output
      → length (line_loop lineno printed output ls []) ≤ max_output + 19
  unfolding line_loop last_line
  line_loop_bounds lineno printed output [] h = omega arith
  line_loop_bounds lineno printed output (l ∷ ls) h = ground (
    arith,
    cut-length (output ++ entry (lineno + 1) l),
    line_loop_bounds (lineno + 1) (printed + 1) (output ++ entry (lineno + 1) l) ls,
    line_loop_bounds (lineno + 1) printed output ls,
  )
