-- ===== src/Tool/Symbols/Tokens.antt =====
-- The tokens of a line of C++, and what is kept of them.
use hai_code.Base.{
  Bytes, ℕ, ◌≡◌, Bool, true, false, not, ◌&&◌, ◌||◌, List, [], ◌∷◌, ◌++◌, All, map, ◌==◌,
}
use hai_code.Tool.Symbols.{TokenizerState}

-- A byte of a literal, or a backslash and the byte that it escapes.
pub data LiteralUnit : Type 0 where
  bare escaped : ℕ → LiteralUnit

-- A byte of code; a `/` that opens no comment with the byte behind it; a literal in quotes; a comment.
pub data Token : Type 0 where
  plain over : ℕ → Token
  string char : List LiteralUnit → Token
  comment : Bytes → Token

-- How a line begins: with code, or behind the rest of a string or a comment of the line above.
pub data Begin : Type 0 where
  in_code : Begin
  string_rest : List LiteralUnit → Begin
  comment_rest : Bytes → Begin

-- How a line ends: with code, a line comment, or a string or a comment that goes on.
pub data End : Type 0 where
  code_end : End
  line_comment : Bytes → End
  string_open : List LiteralUnit → End
  comment_open : Bytes → End

unfoldable pub units : List LiteralUnit → Bytes
units [] = []
units (bare c ∷ us) = c ∷ units us
units (escaped c ∷ us) = 92 ∷ c ∷ units us

unfoldable pub token_text : Token → Bytes
unfolding units
token_text (plain c) = c ∷ []
token_text (over c) = b'/' ∷ c ∷ []
token_text (string us) = b'"' ∷ (units us ++ b'"' ∷ [])
token_text (char us) = 39 ∷ (units us ++ 39 ∷ [])
token_text (comment s) = b'/' ∷ b'*' ∷ (s ++ b'*' ∷ b'/' ∷ [])

-- As many blanks as bytes.
unfoldable pub spaces : Bytes → Bytes
spaces = map λ _. 32

-- Code stays, literals and comments are blank.
unfoldable pub token_code : Token → Bytes
unfolding token_text spaces
token_code (plain c) = c ∷ []
token_code (over c) = b'/' ∷ c ∷ []
token_code (string us) = spaces (token_text (string us))
token_code (char us) = spaces (token_text (char us))
token_code (comment s) = spaces (token_text (comment s))

unfoldable pub texts : List Token → Bytes
texts [] = []
texts (t ∷ ts) = token_text t ++ texts ts

unfoldable pub codes_of : List Token → Bytes
codes_of [] = []
codes_of (t ∷ ts) = token_code t ++ codes_of ts

unfoldable pub begin_text : Begin → Bytes
unfolding units
begin_text in_code = []
begin_text (string_rest us) = units us ++ b'"' ∷ []
begin_text (comment_rest s) = s ++ b'*' ∷ b'/' ∷ []

unfoldable pub begin_state : Begin → TokenizerState
begin_state in_code = record { in_block_comment = false; in_string = false }
begin_state (string_rest us) = record { in_block_comment = false; in_string = true }
begin_state (comment_rest s) = record { in_block_comment = true; in_string = false }

unfoldable pub end_text : End → Bytes
unfolding units
end_text code_end = []
end_text (line_comment s) = b'/' ∷ b'/' ∷ s
end_text (string_open us) = b'"' ∷ units us
end_text (comment_open s) = b'/' ∷ b'*' ∷ s

unfoldable pub end_state : End → TokenizerState
end_state code_end = record { in_block_comment = false; in_string = false }
end_state (line_comment s) = record { in_block_comment = false; in_string = false }
end_state (string_open us) = record { in_block_comment = false; in_string = true }
end_state (comment_open s) = record { in_block_comment = true; in_string = false }

-- Neither a slash nor a quote.
abbrev pub IsCode : ℕ → Type 0
IsCode c = (c == b'/' || (c == b'"' || c == 39)) ≡ false

-- A bare byte of a literal is neither its quote nor a backslash.
abbrev pub IsUnit : ℕ → LiteralUnit → Type 0
IsUnit q (bare c) = (c == q || c == 92) ≡ false
IsUnit q (escaped c) = Unit

-- The text of a comment does not close it.
unfoldable pub stays_open : Bytes → Bool
stays_open [] = true
stays_open (c ∷ []) = true
stays_open (c ∷ d ∷ s) = not (c == b'*' && d == b'/') && stays_open (d ∷ s)

abbrev pub IsToken : Token → Type 0
IsToken (plain c) = IsCode c
IsToken (over c) = IsCode c × ((c == b'*') ≡ false)
IsToken (string us) = All (IsUnit b'"') us
IsToken (char us) = All (IsUnit 39) us
IsToken (comment s) = stays_open s ≡ true

abbrev pub IsBegin : Begin → Type 0
IsBegin in_code = Unit
IsBegin (string_rest us) = All (IsUnit b'"') us
IsBegin (comment_rest s) = stays_open s ≡ true

abbrev pub IsEnd : End → Type 0
IsEnd code_end = Unit
IsEnd (line_comment s) = Unit
IsEnd (string_open us) = All (IsUnit b'"') us
IsEnd (comment_open s) = stays_open s ≡ true
