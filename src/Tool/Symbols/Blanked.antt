-- ===== src/Tool/Symbols/Blanked.antt =====
-- What `strip_non_code` leaves of a line.
use hai_code.Base.{Bytes, ◌≡◌, refl, ap, Bool, true, false, not, ◌&&◌, ◌||◌, [], ◌∷◌, arith, ◌==◌}
use hai_code.Tool.Symbols.{
  TokenizerState, Place, code, block_comment, string_literal, char_literal, blanks, opens, kept,
  strip, place_of, state_of, fresh, strip_non_code,
}

-- The same bytes, but for some that are blanks.
pub is_blanked : Bytes → Bytes → Bool
is_blanked [] [] = true
is_blanked (c ∷ s) (d ∷ t) = (d == c || d == 32) && is_blanked s t
is_blanked _ _ = false

-- No quote, and no slash before a slash or a star; `after` says whether a slash stands in front.
pub is_bare : Bool → Bytes → Bool
is_bare after [] = true
is_bare after (c ∷ s) =
    not (c == b'"' || c == 39) && (not (after && (c == b'/' || c == b'*')) && is_bare (c == b'/') s)

is_blanked-blanks : (s : Bytes) → is_blanked s (blanks s) ≡ true
unfolding is_blanked blanks
is_blanked-blanks [] = refl
is_blanked-blanks (c ∷ s) = ground (arith, is_blanked-blanks s)

strip-is_blanked : (at : Place) (s : Bytes) → is_blanked s (strip at s).0 ≡ true
unfolding is_blanked strip
strip-is_blanked at [] = refl
strip-is_blanked block_comment (c ∷ []) = ground arith
strip-is_blanked string_literal (c ∷ []) = ground arith
strip-is_blanked char_literal (c ∷ []) = ground arith
strip-is_blanked code (c ∷ []) = ground arith
strip-is_blanked block_comment (c ∷ d ∷ s) =
    ground (arith, strip-is_blanked code s, strip-is_blanked block_comment (d ∷ s))
strip-is_blanked string_literal (c ∷ d ∷ s) = ground (
  arith,
  strip-is_blanked string_literal s,
  strip-is_blanked code (d ∷ s),
  strip-is_blanked string_literal (d ∷ s),
)
strip-is_blanked char_literal (c ∷ d ∷ s) = ground (
  arith,
  strip-is_blanked char_literal s,
  strip-is_blanked code (d ∷ s),
  strip-is_blanked char_literal (d ∷ s),
)
strip-is_blanked code (c ∷ d ∷ s) = ground (
  arith,
  strip-is_blanked block_comment s,
  is_blanked-blanks s,
  strip-is_blanked (opens c) (d ∷ s),
)

-- A comment would open behind a slash.
opened : Place → Bool → Bytes → Bool
opened code true (d ∷ s) = d == b'/' || d == b'*'
opened _ _ _ = false

blanks-is_bare : (after : Bool) (s : Bytes) → is_bare after (blanks s) ≡ true
unfolding is_bare blanks
blanks-is_bare after [] = refl
blanks-is_bare true (c ∷ s) = blanks-is_bare false s
blanks-is_bare false (c ∷ s) = blanks-is_bare false s

strip-is_bare :
    (at : Place) (after : Bool) (s : Bytes)
    → opened at after s ≡ false
    → is_bare after (strip at s).0 ≡ true
unfolding is_bare strip opened
strip-is_bare at after [] o = refl
strip-is_bare block_comment after (c ∷ []) o = ground arith
strip-is_bare string_literal after (c ∷ []) o = ground arith
strip-is_bare char_literal after (c ∷ []) o = ground arith
strip-is_bare code true (c ∷ []) o = ground arith
strip-is_bare code false (c ∷ []) o = ground arith
strip-is_bare block_comment after (c ∷ d ∷ s) o =
    ground (arith, strip-is_bare code false s, strip-is_bare block_comment false (d ∷ s))
strip-is_bare string_literal after (c ∷ d ∷ s) o = ground (
  arith,
  strip-is_bare string_literal false s,
  strip-is_bare code false (d ∷ s),
  strip-is_bare string_literal false (d ∷ s),
)
strip-is_bare char_literal after (c ∷ d ∷ s) o = ground (
  arith,
  strip-is_bare char_literal false s,
  strip-is_bare code false (d ∷ s),
  strip-is_bare char_literal false (d ∷ s),
)
strip-is_bare code after (c ∷ d ∷ s) o = ground (
  arith,
  strip-is_bare block_comment false s,
  blanks-is_bare false s,
  strip-is_bare (opens c) false (d ∷ s),
  strip-is_bare (opens c) true (d ∷ s),
)

-- Bare text in code is kept as it is.
is_bare-strip : (s : Bytes) → is_bare false s ≡ true → strip code s ≡ (s, code)
unfolding is_bare strip
is_bare-strip [] h = refl
is_bare-strip (c ∷ []) h = ground arith
is_bare-strip (c ∷ d ∷ s) h =
    let stays : opens c ≡ code = ground arith in
    let own : kept c ≡ c = ground arith in
    let later = is_bare-strip (d ∷ s) (ground arith) in
    let no_line : (c == b'/' && d == b'/') ≡ false = ground arith in
    let no_block : (c == b'/' && d == b'*') ≡ false = ground arith in
    rw (no_line, no_block, stays, own, later) refl

not_opened : (at : Place) (s : Bytes) → opened at false s ≡ false
unfolding opened
not_opened code [] = refl
not_opened code (c ∷ s) = refl
not_opened block_comment s = refl
not_opened string_literal s = refl
not_opened char_literal s = refl

-- Whatever the state, a line keeps its length and each byte that is no blank afterwards; what is left
-- has no quote and no start of a comment, and stripping it from the start again changes nothing.
pub strip_non_code_bare :
    (line : Bytes) (st : TokenizerState)
    → (is_blanked line (strip_non_code line st).0 ≡ true)
      × (is_bare false (strip_non_code line st).0 ≡ true)
      × (strip_non_code (strip_non_code line st).0 fresh ≡ ((strip_non_code line st).0, fresh))
unfolding strip_non_code
strip_non_code_bare line st =
    let bare = strip-is_bare (place_of st) false line (not_opened (place_of st) line) in
    let again = is_bare-strip (strip (place_of st) line).0 bare in
    (strip-is_blanked (place_of st) line, bare, ap (λ r. (r.0, state_of r.1)) again)
