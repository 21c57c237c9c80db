-- ===== src/Http/Sse.antt =====
-- `RequestState` of lib/src/util/util.cpp: the parser of a stream of server-sent events, which libcurl
-- calls once for every chunk. What the callback answers is a function of the events it has had before
-- and the one it has now.
pub mod Chunks
pub mod RoundTrip
pub mod Accepted
pub mod Buffer
use hai_code.Base.{
  Bytes, ℕ, zero, suc, ◌+◌, ◌-◌, ◌*◌, Bool, true, false, not, ◌&&◌, ◌||◌, Option, none, some, List,
  [], ◌∷◌, ◌++◌, codes, starts_with, length, drop, ltb, leb, ◌==◌, if◌then◌else◌, all,
}
use hai_code.Permission.Path.{is_empty}

pub record SseEvent : Type 0 where
  pub event : Bytes
  pub payload : Bytes

abbrev pub SseCallback : Type 0
SseCallback = List SseEvent → SseEvent → Bool

-- What the lines of the stream change. `delivered` are the calls of the callback, the last one first.
pub record ParseState : Type 0 where
  pub event_type : Bytes
  pub event_data : Bytes
  pub cancelled : Bool
  pub aborted_by_callback : Bool
  pub delivered : List SseEvent

pub record RequestState : Type 0 where
  pub parse : ParseState
  pub buffer : Bytes
  pub over_cap : Bool
  pub retry_after : Bytes

-- `kSSEStreamCap`.
abbrev pub stream_cap : ℕ
stream_cap = 2097152

abbrev pub newline : ℕ
newline = 10

-- `if (!line.empty() && line.back() == '\r') line.pop_back()`.
unfoldable pub chomp : Bytes → Bytes
chomp [] = []
chomp (c ∷ []) = if c == 13 then [] else c ∷ []
chomp (c ∷ d ∷ s) = c ∷ chomp (d ∷ s)

pub drop_blank : Bytes → Bytes
drop_blank [] = []
drop_blank (c ∷ s) = if c == 32 then s else c ∷ s

-- A `data:` line joins the lines before it.
pub join_data : Bytes → Bytes → Bytes
join_data [] d = d
join_data (c ∷ s) d = (c ∷ s) ++ newline ∷ d

-- The state and whether the loop goes on.
abbrev pub Parsed : Type 0
Parsed = ParseState × Bool

pub store : RequestState → ℕ → Parsed × Bytes → RequestState × ℕ
store st size ((q, going), rest) =
    (record st { parse = q; buffer = rest }, if going then size else 0)

module _ (callback : SseCallback) where
  -- The empty line that ends an event.
  pub end_event : ParseState → Parsed
  end_event p =
      let cleared = record p { event_type = []; event_data = [] } in
      let ev : SseEvent = record { event = p.event_type; payload = p.event_data } in
      if is_empty p.event_data
      then (cleared, true)
      else if callback p.delivered ev
      then (record cleared { delivered = ev ∷ p.delivered }, true)
      else (
        record p { cancelled = true; aborted_by_callback = true; delivered = ev ∷ p.delivered },
        false,
      )

  pub field : Bytes → ParseState → Parsed
  field line p =
      if starts_with (codes "event:") line
      then (record p { event_type = drop_blank (drop 6 line) }, true)
      else if starts_with (codes "data:") line
      then (record p { event_data = join_data p.event_data (drop_blank (drop 5 line)) }, true)
      else (p, true)

  pub on_line : Bytes → ParseState → Parsed
  on_line line p = if is_empty line then end_event p else field line p

  -- The parse loop: `part` is the line so far. What is left is the buffer after `erase(0, pos)`.
  unfoldable pub drain : Bytes → Bytes → ParseState → Parsed × Bytes
  drain part [] p = ((p, true), part)
  drain part (c ∷ s) p =
      let (q, going) = on_line (chomp part) p in
      elim (c == newline) [
        | false ↦ drain (part ++ c ∷ []) s p
        | true ↦ elim going [ true ↦ drain [] s q | false ↦ ((q, false), s) ]
      ]

  -- The state and the number of bytes that libcurl is told were taken; another number than the
  -- chunk's ends the transfer.
  unfoldable pub write_cb : Bytes → RequestState → RequestState × ℕ
  unfolding store
  write_cb bytes st =
      if st.parse.cancelled
      then (st, 0)
      else (let buffer = st.buffer ++ bytes in
          if ltb stream_cap (length buffer)
          then (record st { buffer = buffer; over_cap = true }, 0)
          else store st (length bytes) (drain [] buffer st.parse))

  -- libcurl's calls, chunk by chunk, until one does not take its chunk.
  pub feed : List Bytes → RequestState → RequestState
  feed [] st = st
  feed (c ∷ cs) st =
      let (st', n) = write_cb c st in elim (n == length c) [ true ↦ feed cs st' | false ↦ st' ]

-- `cancel` on the request, from another thread.
pub cancel : RequestState → RequestState
cancel st = record st { parse = record st.parse { cancelled = true } }

-- The state at the start of `post_sse`.
abbrev pub start : RequestState
start = record {
  parse = record {
    event_type = [];
    event_data = [];
    cancelled = false;
    aborted_by_callback = false;
    delivered = [];
  };
  buffer = [];
  over_cap = false;
  retry_after = [];
}
