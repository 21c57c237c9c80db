-- ===== src/Tool/Symbols.antt =====
-- `strip_non_code` of lib/src/tool/tools.cpp: a line of C++ with its comments and literals blanked.
pub mod Blanked
pub mod Tokens
pub mod Stripped
use hai_code.Base.{
  Bytes, ℕ, Bool, true, false, not, ◌&&◌, ◌||◌, List, [], ◌∷◌, map, ◌==◌, if◌then◌else◌,
}

-- What is kept from one line to the next.
pub record TokenizerState : Type 0 where
  pub in_block_comment : Bool
  pub in_string : Bool

abbrev pub fresh : TokenizerState
fresh = record { in_block_comment = false; in_string = false }

-- Where a byte stands. A character literal is not kept to the next line.
pub data Place : Type 0 where
  code block_comment string_literal char_literal : Place

pub place_of : TokenizerState → Place
place_of st =
    if st.in_block_comment then block_comment else if st.in_string then string_literal else code

pub state_of : Place → TokenizerState
state_of block_comment = record { in_block_comment = true; in_string = false }
state_of string_literal = record { in_block_comment = false; in_string = true }
state_of _ = record { in_block_comment = false; in_string = false }

abbrev blank : ℕ
blank = 32

abbrev front : ℕ → Bytes × Place → Bytes × Place
front c (out, at) = (c ∷ out, at)

blanks : Bytes → Bytes
blanks = map λ _. blank

-- The place behind a literal's byte, which `q` closes.
abbrev closes : ℕ → ℕ → Place → Place
closes q c inside = if c == q then code else inside

-- The place behind a byte of code that opens no comment.
opens : ℕ → Place
opens c = if c == b'"' then string_literal else if c == 39 then char_literal else code

-- What is left of a byte of code.
kept : ℕ → ℕ
kept c = if c == b'"' || c == 39 then blank else c

-- The loop over the bytes; some rounds take two.
pub strip : Place → Bytes → Bytes × Place
unfolding blanks opens kept
strip at [] = ([], at)
strip block_comment (c ∷ []) = (blank ∷ [], block_comment)
strip string_literal (c ∷ []) = (blank ∷ [], closes b'"' c string_literal)
strip char_literal (c ∷ []) = (blank ∷ [], closes 39 c char_literal)
strip code (c ∷ []) = (kept c ∷ [], opens c)
strip block_comment (c ∷ d ∷ s) =
    let ended = strip code s in
    let rest = strip block_comment (d ∷ s) in
    if c == b'*' && d == b'/' then front blank (front blank ended) else front blank rest
strip string_literal (c ∷ d ∷ s) =
    let escaped = strip string_literal s in
    let rest = strip (closes b'"' c string_literal) (d ∷ s) in
    if c == 92 then front blank (front blank escaped) else front blank rest
strip char_literal (c ∷ d ∷ s) =
    let escaped = strip char_literal s in
    let rest = strip (closes 39 c char_literal) (d ∷ s) in
    if c == 92 then front blank (front blank escaped) else front blank rest
strip code (c ∷ d ∷ s) =
    let comment = strip block_comment s in
    let rest = strip (opens c) (d ∷ s) in
    if c == b'/' && d == b'/'
    then (blank ∷ blank ∷ blanks s, code)
    else if c == b'/' && d == b'*'
    then front blank (front blank comment)
    else front (kept c) rest

pub strip_non_code : Bytes → TokenizerState → Bytes × TokenizerState
unfolding strip place_of state_of
strip_non_code line st = let (out, at) = strip (place_of st) line in (out, state_of at)
