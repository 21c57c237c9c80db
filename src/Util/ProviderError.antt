-- ===== src/Util/ProviderError.antt =====
-- lib/src/util/provider_error.cpp: what kind of error a provider's message is, and how long a retry
-- waits.
pub mod Classes
pub mod Retry
use hai_code.Base.{
  Bytes, ℕ, ◌+◌, Bool, true, false, ◌&&◌, ◌||◌, List, [], ◌∷◌, map, ◌==◌, leb, if◌then◌else◌, any,
  codes, ℤ, pos, negsuc, starts_with, Option, none, some, length, drop,
}

pub data ProviderErrorKind : Type 0 where
  transient overflow fatal : ProviderErrorKind

-- `std::tolower` in the C locale.
unfoldable pub to_lower : ℕ → ℕ
to_lower c = if leb 65 c && leb c 90 then c + 32 else c

pub lower : Bytes → Bytes
unfolding to_lower
lower s = map to_lower s

-- `s.find(marker) != npos`.
pub has_marker : Bytes → Bytes → Bool
has_marker [] marker = starts_with marker []
has_marker (c ∷ s) marker = starts_with marker (c ∷ s) || has_marker s marker

abbrev pub overflow_markers : List Bytes
overflow_markers =
    codes "context_length_exceeded"
    ∷ codes "request_too_large"
    ∷ codes "prompt is too long"
    ∷ codes "input length and `max_tokens` exceed"
    ∷ codes "input length and max_tokens exceed"
    ∷ codes "maximum context length"
    ∷ []

abbrev pub transient_markers : List Bytes
transient_markers =
    codes "overloaded"
    ∷ codes "timeout"
    ∷ codes "timed out"
    ∷ codes "connection"
    ∷ codes "internal server"
    ∷ codes "service unavailable"
    ∷ codes "bad gateway"
    ∷ codes "gateway timeout"
    ∷ codes "temporarily unavailable"
    ∷ codes "429"
    ∷ codes "529"
    ∷ codes "rate limit"
    ∷ codes "too many requests"
    ∷ []

pub classify_provider_error : Bytes → ProviderErrorKind
unfolding lower has_marker
classify_provider_error error =
    let lo = lower error in
    if any (has_marker lo) overflow_markers
    then overflow
    else if any (has_marker lo) transient_markers
    then transient
    else fatal

pub retry_backoff_ms : ℤ → ℕ
retry_backoff_ms (negsuc n) = 500
retry_backoff_ms (pos attempt) =
    if attempt == 0
    then 500
    else if attempt == 1
    then 2000
    else if attempt == 2
    then 8000
    else 10000

abbrev pub retry_marker : Bytes
retry_marker = codes "[retry-after: "

-- `error.rfind(kMarker)`: what is behind the last one.
pub after_last : Bytes → Bytes → Option Bytes
after_last marker [] = if starts_with marker [] then some [] else none
after_last marker (c ∷ s) =
    let rest = after_last marker s in
    elim rest [
      | some t ↦ some t
      | none ↦ if starts_with marker (c ∷ s) then some (drop (length marker) (c ∷ s)) else none
    ]

-- The text before the first ']'; `kMarker` has none.
pub until_bracket : Bytes → Option Bytes
until_bracket [] = none
until_bracket (c ∷ s) =
    let rest = until_bracket s in
    if c == 93 then some [] else elim rest [ none ↦ none | some t ↦ some (c ∷ t) ]

-- The text that is given to `std::stod`.
pub retry_after_text : Bytes → Option Bytes
retry_after_text error = elim (after_last retry_marker error) [
  | none ↦ none
  | some t ↦ until_bracket t
]

-- `stod` is `std::stod`, with `none` where it throws, and `zero_s` is 0.0.
pub parse_retry_after_seconds : {S : Type 0} → (Bytes → Option S) → S → Bytes → S
parse_retry_after_seconds stod zero_s error = elim (retry_after_text error) [
  | none ↦ zero_s
  | some t ↦ elim (stod t) [ none ↦ zero_s | some n ↦ n ]
]
