-- ===== src/Http/Client.antt =====
-- `HttpClient::post_sse` of lib/src/util/util.cpp: the calls that libcurl makes of the request's state,
-- with a `cancel` from another thread between them, and what the caller is told at the end.
pub mod Cancel
pub mod Report
use hai_code.Base.{
  Bytes, ℕ, zero, suc, ◌+◌, ◌-◌, Bool, true, false, not, ◌&&◌, ◌||◌, Option, none, some, List, [],
  ◌∷◌, ◌++◌, ℤ, pos, negsuc, codes, eq, length, leb, take, ◌==◌, if◌then◌else◌, map, all,
}
use hai_code.Permission.Path.{is_empty}
use hai_code.Util.Utf8.{sanitize_utf8}
use hai_code.Util.ProviderError.{to_lower}
use hai_code.Http.Sse.{
  SseCallback, RequestState, ParseState, chomp, newline, write_cb, cancel, start,
}

-- `if (!line.empty() && line.back() == '\n') line.pop_back()`.
pub drop_newline : Bytes → Bytes
drop_newline [] = []
drop_newline (c ∷ []) = if c == newline then [] else c ∷ []
drop_newline (c ∷ d ∷ s) = c ∷ drop_newline (d ∷ s)

-- The parts around the first ':'.
unfoldable pub split_colon : Bytes → Option (Bytes × Bytes)
split_colon [] = none
split_colon (c ∷ s) =
    let rest = split_colon s in
    if c == 58
    then some ([], s)
    else elim rest [ none ↦ none | some (name, value) ↦ some (c ∷ name, value) ]

-- `find_first_not_of(" \t")`: the part behind the blanks, all of it where there is nothing else.
pub skip_blanks : Bytes → Bytes
skip_blanks [] = []
skip_blanks (c ∷ s) = if c == 32 || c == 9 then skip_blanks s else c ∷ s

abbrev pub is_digit : ℕ → Bool
is_digit c = leb 48 c && leb c 57

-- Blanks alone stay, and are no digits either way.
pub retry_after_of : Bytes → Option Bytes
unfolding skip_blanks
retry_after_of value =
    let rest = skip_blanks value in
    if not (is_empty rest) && all is_digit rest then some rest else none

pub header_cb : Bytes → RequestState → RequestState
unfolding drop_newline split_colon retry_after_of
header_cb header st = elim (split_colon (chomp (drop_newline header))) [
  | none ↦ st
  | some (name, value) ↦ elim (eq (map to_lower name) (codes "retry-after")) [
    | false ↦ st
    | true ↦ elim (retry_after_of value) [ none ↦ st | some v ↦ record st { retry_after = v } ]
  ]
]

-- What happens to the state while the request runs.
pub data CurlCall : Type 0 where
  header chunk : Bytes → CurlCall
  progress cancelled : CurlCall

module _ (callback : SseCallback) where
  -- The state, and whether the transfer goes on.
  unfoldable pub step : CurlCall → RequestState → RequestState × Bool
  unfolding header_cb
  step (header h) st = (header_cb h st, true)
  step (chunk c) st = let (st', n) = write_cb callback c st in (st', n == length c)
  step progress st = (st, not st.parse.cancelled)
  step cancelled st = (cancel st, true)

  -- The calls of a transfer, in their order; after one that ends it there are no more.
  unfoldable pub run : List CurlCall → RequestState → RequestState
  run [] st = st
  run (c ∷ cs) st = let (st', going) = step c st in elim going [ true ↦ run cs st' | false ↦ st' ]

-- What the caller is told.
pub record Outcome : Type 0 where
  pub response_code : ℤ
  pub transport_error : Bytes
  pub retry_after : Bytes

abbrev size_cap_error : Bytes
size_cap_error = codes "response line/stream exceeded size cap"

-- The code and the text before the retry suffix. `res` is libcurl's error, `none` for CURLE_OK.
unfoldable pub classify : Option Bytes → ℕ → RequestState → ℤ × Bytes
classify res code st =
    if st.over_cap && not st.parse.aborted_by_callback
    then (negsuc 0, size_cap_error)
    else elim res [
      | none ↦ (pos code, if leb 400 code then sanitize_utf8 (take 500 st.buffer) else [])
      | some error ↦ (
        if st.parse.aborted_by_callback then pos code else negsuc 0,
        if not st.parse.aborted_by_callback && not st.parse.cancelled then error else [],
      )
    ]

pub retry_suffix : Bytes → Bytes
retry_suffix seconds = codes " [retry-after: " ++ (seconds ++ codes "]")

unfoldable pub outcome : Option Bytes → ℕ → RequestState → Outcome
outcome res code st =
    let (response_code, error) = classify res code st in
    if is_empty st.retry_after
    then record { response_code = response_code; transport_error = error; retry_after = [] }
    else (record {
      response_code = response_code;
      transport_error =
          if not (is_empty error) && leb 400 code
          then error ++ retry_suffix st.retry_after
          else error;
      retry_after = st.retry_after;
    })

-- `handle` says whether libcurl has a handle for the request; `calls`, `res` and `code` are what the
-- transfer came to.
unfoldable pub post_sse : SseCallback → Bool → List CurlCall → Option Bytes → ℕ → Outcome
post_sse callback handle calls res code =
    if not handle
    then (record {
      response_code = negsuc 0;
      transport_error = codes "curl handle init failed";
      retry_after = [];
    })
    else outcome res code (run callback calls start)
