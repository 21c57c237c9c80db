-- ===== src/Http/Examples.antt =====
-- The theorems on `HttpClient` at concrete inputs.
use hai_code.Base.{
  Bytes, ◌≡◌, ◌≤◌, refl, not, true, false, List, [], ◌∷◌, ◌++◌, some, arith, if◌then◌else◌, codes,
  take, drop, joined, ltb, length, eq,
}
use hai_code.Permission.Path.{is_empty}
use hai_code.Util.ProviderError.{to_lower, retry_after_text}
use hai_code.Http.Sse.{chomp, write_cb, SseCallback, start, drain, feed, stream_cap}
use hai_code.Http.Sse.Chunks.{seen, feed_chunks}
use hai_code.Http.Sse.RoundTrip.{payload_from, IsLine, encode, payload_of, drain-encode}
use hai_code.Http.Sse.Accepted.{consistent}
use hai_code.Http.Sse.Buffer.{IsWithin}
use hai_code.Http.Redirects.{Fetched, get}
use hai_code.Http.Redirects.Hosts.{Behind, get-Behind}
use hai_code.Http.Client.{step, classify, outcome, outcome, CurlCall, header, chunk, run, post_sse}
use hai_code.Http.Client.Cancel.{run-start-consistent}
use hai_code.Http.Client.Report.{post_sse-retry_after_text, run-over_cap}

-- A callback that refuses the last event of a stream.
abbrev until_done : SseCallback
until_done earlier ev = not (eq ev.payload (codes "[DONE]"))

abbrev stream : Bytes
stream =
    codes "event: delta" ++ 10 ∷ codes "data: one" ++ 10 ∷ codes "data: two" ++ 13 ∷ 10 ∷ 10 ∷ []

feed_chunks_example :
    seen (feed until_done (stream ∷ []) start)
    ≡ seen (feed until_done (take 7 stream ∷ (drop 7 stream) ∷ []) start)
unfolding take joined drop
feed_chunks_example =
    feed_chunks until_done (stream ∷ []) (take 7 stream ∷ drop 7 stream ∷ []) start refl refl refl
      (omega arith)

drain-encode_example :
    drain until_done [] (encode (codes "delta") (codes "one" ∷ codes "two" ∷ []) []) start.parse
    ≡ drain until_done [] [] (record start.parse {
      event_type = [];
      event_data = [];
      delivered =
          record { event = codes "delta"; payload = payload_of (codes "one") (codes "two" ∷ []) }
          ∷ [];
    })
unfolding IsLine chomp is_empty eq payload_of payload_from
drain-encode_example =
    drain-encode until_done (codes "delta") (codes "one") (codes "two" ∷ []) [] start.parse
      (refl, refl) (refl, refl) ((refl, refl), tt) refl refl refl

-- "a" leads to "ab", which leads to "b"; a URL's first byte is its host.
abbrev first_byte : Bytes → Bytes
first_byte = take 1

abbrev leading : Bytes → Fetched
leading u = record {
  perform = true;
  code = 302;
  next = if eq u (codes "a") then codes "ab" else codes "b";
  body = u;
  truncated = false;
}

get-Behind_example :
    Behind first_byte (first_byte (codes "a")) (codes "a") (get leading first_byte (codes "a")).0
    × (length (get leading first_byte (codes "a")).0 ≤ 6)
get-Behind_example = get-Behind leading first_byte (codes "a")

abbrev done_calls : List CurlCall
done_calls = chunk stream ∷ chunk (codes "data: [DONE]" ++ 10 ∷ 10 ∷ []) ∷ chunk stream ∷ []

run-start-consistent_example : consistent until_done (run until_done done_calls start).parse ≡ true
run-start-consistent_example = run-start-consistent until_done done_calls

abbrev limited : List CurlCall
limited = header (codes "Retry-After: 12" ++ 13 ∷ 10 ∷ []) ∷ chunk (codes "slow down") ∷ []

post_sse-retry_after_text_example :
    retry_after_text (post_sse until_done true limited (some (codes "reset")) 429).transport_error
    ≡ some (post_sse until_done true limited (some (codes "reset")) 429).retry_after
unfolding to_lower is_empty post_sse outcome run step write_cb chomp eq drain classify
post_sse-retry_after_text_example =
    post_sse-retry_after_text until_done limited (some (codes "reset")) 429 (omega arith) refl refl

run-over_cap_example :
    (run until_done limited start).over_cap
    ≡ ltb stream_cap (length (run until_done limited start).buffer)
unfolding IsWithin
run-over_cap_example = run-over_cap until_done limited start (omega arith, refl)
