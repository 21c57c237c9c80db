-- ===== src/Permission/Bash.antt =====
-- `bash_pattern_authorizes` of lib/src/permission/permission.cpp: the split of a command at the
-- shell's separators, and the test of every segment against the pattern.
pub mod Quoting
pub mod Prefix
pub mod Split
pub mod Substitution
pub mod Authorize
mod Examples
use hai_code.Base.{
  Bytes, ℕ, ◌≡◌, Bool, true, false, not, ◌&&◌, ◌||◌, Option, none, some, List, [], ◌∷◌, ◌++◌,
  reverse, codes, eq, all, ◌==◌, if◌then◌else◌,
}

-- The locals of the loop. `segments` and `has_subst` are one list of pairs; `quote` 0 is `none`.
pub record Scan : Type 0 where
  pub segments : List (Bytes × Bool)
  pub cur : Bytes
  pub cur_subst : Bool
  pub quote : Option ℕ

abbrev pub backslash : ℕ
backslash = 92

-- One of " \t\r".
unfoldable pub is_blank : ℕ → Bool
is_blank c = c == 32 || c == 9 || c == 13

pub drop_blanks : Bytes → Bytes
drop_blanks [] = []
drop_blanks (c ∷ s) = if is_blank c then drop_blanks s else c ∷ s

-- The substring from the first to the last byte that is not blank.
pub trim : Bytes → Bytes
trim s = reverse (drop_blanks (reverse (drop_blanks s)))

push_segment : Bytes → Scan → Scan
push_segment [] st = record st { cur = []; cur_subst = false }
push_segment (c ∷ s) st = record st {
  segments = st.segments ++ (c ∷ s, st.cur_subst) ∷ [];
  cur = [];
  cur_subst = false;
}

-- The lambda `flush`.
pub flush : Scan → Scan
unfolding push_segment trim drop_blanks is_blank
flush st = push_segment (trim st.cur) st

is : ℕ → Option ℕ → Bool
is x none = false
is x (some c) = c == x

-- The lambda `marks_subst`: a backtick, or a `$` before a `(`.
pub marks_subst : ℕ → Option ℕ → Bool
unfolding is
marks_subst c look = c == b'`' || (c == b'$' && is b'(' look)

-- `prev_sp` and `next_sp`.
after_space : Option ℕ → Bool
after_space none = false
after_space (some c) = c == 32 || c == 9

before_space : Option ℕ → Bool
before_space none = true
before_space (some c) = c == 32 || c == 9 || c == 10

-- One round of the loop reads one byte, or two.
pub data Step : Type 0 where
  one : Scan → Step
  two : Scan → Step

mark : Bool → Scan → Scan
mark b st = if b then record st { cur_subst = true } else st

put : ℕ → Scan → Scan
put c st = record st { cur = st.cur ++ c ∷ [] }

put_two : ℕ → ℕ → Scan → Scan
put_two c d st = record st { cur = st.cur ++ c ∷ d ∷ [] }

close : ℕ → ℕ → Scan → Step
close q c st = one (record st { quote = if c == q then none else some q; cur = st.cur ++ c ∷ [] })

-- Inside quotes.
in_quote : ℕ → ℕ → Option ℕ → Scan → Step
in_quote q c none st = close q c st
in_quote q c (some d) st =
    if q == b'"' && c == backslash then two (put_two c d st) else close q c st

escape : ℕ → Option ℕ → Scan → Step
escape c none st = one st
escape c (some d) st = two (put_two c d st)

-- Outside quotes.
pub unquoted : Option ℕ → ℕ → Option ℕ → Scan → Step
unquoted prev c look st =
    if c == backslash
    then escape c look st
    else if c == 39 || c == b'"'
    then one (record st { quote = some c; cur = st.cur ++ c ∷ [] })
    else if c == b';' || c == 10
    then one (flush st)
    else if c == b'|'
    then (if is b'|' look then two (flush st) else one (flush st))
    else if c == b'&'
    then (if is b'&' look
        then two (flush st)
        else if after_space prev && before_space look
        then one (flush st)
        else one (put c st))
    else one (put c (mark (marks_subst c look) st))

-- One round: `prev` is `command[i - 1]`, `look` is `command[i + 1]`.
round : Option ℕ → Option ℕ → ℕ → Option ℕ → Scan → Step
round none prev c look st = unquoted prev c look st
round (some q) prev c look st = in_quote q c look (mark (marks_subst c look) st)

pub step : Option ℕ → ℕ → Option ℕ → Scan → Step
unfolding round unquoted escape in_quote close put_two put mark before_space after_space marks_subst
step prev c look st = round st.quote prev c look st

-- The loop and the `flush` behind it.
pub scan : Scan → Option ℕ → Bytes → Scan
unfolding step
scan st prev [] = flush st
scan st prev (c ∷ []) = elim (step prev c none st) [ one st' ↦ flush st' | two st' ↦ flush st' ]
scan st prev (c ∷ d ∷ rest) = elim (step prev c (some d) st) [
  | one st' ↦ scan st' (some c) (d ∷ rest)
  | two st' ↦ scan st' (some d) rest
]

abbrev pub start : Scan
start = record { segments = []; cur = []; cur_subst = false; quote = none }

-- The segments of a command, each with whether it holds a command substitution.
pub split_segments : Bytes → List (Bytes × Bool)
unfolding scan flush
split_segments command = (scan start none command).segments

-- `fnmatch(pattern, segment, 0) == 0` is the C library's.
module _ (fnmatch : Bytes → Bytes → Bool) where
  segment_allowed : Bytes → Bytes × Bool → Bool
  segment_allowed pattern (segment, subst) = not subst && fnmatch pattern segment

  pub bash_pattern_authorizes : Bytes → Bytes → Bool
  unfolding split_segments segment_allowed
  bash_pattern_authorizes pattern command =
      if eq pattern (codes "*")
      then true
      else all (segment_allowed pattern) (split_segments command)
