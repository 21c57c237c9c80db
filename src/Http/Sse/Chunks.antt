-- ===== src/Http/Sse/Chunks.antt =====
-- Where the network cuts the stream into chunks does not matter.
use hai_code.Base.{
  Bytes, ℕ, ◌+◌, ◌≤◌, ◌<◌, ◌≡◌, refl, sym, ap, ◌∙◌, Bool, true, false, not, List, [], ◌∷◌, ◌++◌,
  length, joined, length-append, ◌==◌, if◌then◌else◌, all, all-append, arith, Bool-cases, inl, inr,
}
use mathlib.Core.List.{append_assoc, append-nil}
use hai_code.Http.Sse.{
  SseCallback, ParseState, RequestState, Parsed, stream_cap, newline, chomp, on_line, end_event,
  field, drain, store, write_cb, feed,
}

-- A line without its end.
abbrev pub no_newline : Bytes → Bool
no_newline = all (λ c. not (c == newline))

-- The state with what a loop has made of it.
ahead : RequestState → Parsed × Bytes → RequestState
ahead st ((q, going), rest) = record st { parse = q; buffer = rest }

module _ (callback : SseCallback) where
  pub drain_mid :
      (part : Bytes) (c : ℕ) (s : Bytes) (p : ParseState)
      → (c == newline) ≡ false
      → drain callback part (c ∷ s) p ≡ drain callback (part ++ c ∷ []) s p
  unfolding drain
  drain_mid part c s p n = ground arith

  pub drain_next :
      (part : Bytes) (c : ℕ) (s : Bytes) (p : ParseState)
      → (c == newline) ≡ true
      → (on_line callback (chomp part) p).1 ≡ true
      → drain callback part (c ∷ s) p ≡ drain callback [] s (on_line callback (chomp part) p).0
  unfolding drain
  drain_next part c s p n g = ground arith

  pub drain_stop :
      (part : Bytes) (c : ℕ) (s : Bytes) (p : ParseState)
      → (c == newline) ≡ true
      → (on_line callback (chomp part) p).1 ≡ false
      → drain callback part (c ∷ s) p ≡ (((on_line callback (chomp part) p).0, false), s)
  unfolding drain
  drain_stop part c s p n g = ground arith

  pub drain-line :
      (line part s : Bytes) (p : ParseState)
      → no_newline line ≡ true
      → drain callback part (line ++ s) p ≡ drain callback (part ++ line) s p
  drain-line [] part s p h = rw append-nil
  drain-line (c ∷ line) part s p h =
      drain_mid part c (line ++ s) p (ground arith)
      ∙ drain-line line (part ++ c ∷ []) s p (ground arith)
      ∙ rw append_assoc

  -- More bytes behind: go on from the buffer, or stay where the loop stopped.
  go_on : Bytes → Parsed × Bytes → Parsed × Bytes
  go_on s ((p, going), rest) = if going then drain callback rest s p else ((p, false), rest ++ s)

  go_on_going :
      (s : Bytes) (d : Parsed × Bytes) → d.0.1 ≡ true → go_on s d ≡ drain callback d.1 s d.0.0
  unfolding go_on
  go_on_going s d g = ground arith

  go_on_stopped :
      (s : Bytes) (d : Parsed × Bytes) → d.0.1 ≡ false → go_on s d ≡ ((d.0.0, false), d.1 ++ s)
  unfolding go_on
  go_on_stopped s d g = ground arith

  drain-append :
      (a part s : Bytes) (p : ParseState)
      → drain callback part (a ++ s) p ≡ go_on s (drain callback part a p)
  unfolding go_on
  drain-append [] part s p = unfold drain in refl
  drain-append (c ∷ a) part s p = elim (Bool-cases (c == newline)) [
    | inr n ↦
        drain_mid part c (a ++ s) p n
        ∙ drain-append a (part ++ c ∷ []) s p
        ∙ ap (go_on s) (sym (drain_mid part c a p n))
    | inl n ↦ elim (Bool-cases (on_line callback (chomp part) p).1) [
      | inl g ↦
          drain_next part c (a ++ s) p n g
          ∙ drain-append a [] s (on_line callback (chomp part) p).0
          ∙ ap (go_on s) (sym (drain_next part c a p n g))
      | inr g ↦ drain_stop part c (a ++ s) p n g ∙ ap (go_on s) (sym (drain_stop part c a p n g))
    ]
  ]

  -- What is left of a text that was read to its end is the start of a line.
  drain-no_newline :
      (s part : Bytes) (p : ParseState)
      → no_newline part ≡ true
      → (drain callback part s p).0.1 ≡ true
      → no_newline (drain callback part s p).1 ≡ true
  drain-no_newline [] part p h g = unfold drain in h
  drain-no_newline (c ∷ s) part p h g = elim (Bool-cases (c == newline)) [
    | inr n ↦
        let same = drain_mid part c s p n in
        let line = all-append (λ d. not (d == newline)) part (c ∷ []) in
        rw same (drain-no_newline s (part ++ c ∷ []) p (ground (arith, line, h)) (rw same at g))
    | inl n ↦ elim (Bool-cases (on_line callback (chomp part) p).1) [
      | inl t ↦
          let same = drain_next part c s p n t in
          rw same (drain-no_newline s [] (on_line callback (chomp part) p).0 refl (rw same at g))
      | inr t ↦ absurd (cc (rw (drain_stop part c s p n t) at g))
    ]
  ]

  on_line_stopped :
      (line : Bytes) (p : ParseState)
      → (on_line callback line p).1 ≡ false
      → (on_line callback line p).0.cancelled ≡ true
  unfolding on_line end_event field
  on_line_stopped line p g = ground arith

  on_line_going :
      (line : Bytes) (p : ParseState)
      → (on_line callback line p).1 ≡ true
      → (on_line callback line p).0.cancelled ≡ p.cancelled
  unfolding on_line end_event field
  on_line_going line p g = ground arith

  -- A loop that stops has read a byte and set the flag.
  drain_stopped :
      (s part : Bytes) (p : ParseState)
      → (drain callback part s p).0.1 ≡ false
      → ((drain callback part s p).0.0.cancelled ≡ true) × (0 < length s)
  drain_stopped [] part p g = let h : true ≡ false = unfold drain in g in absurd (cc h)
  drain_stopped (c ∷ s) part p g = elim (Bool-cases (c == newline)) [
    | inr n ↦
        let same = drain_mid part c s p n in
        (rw same (drain_stopped s (part ++ c ∷ []) p (rw same at g)).0, omega arith)
    | inl n ↦ elim (Bool-cases (on_line callback (chomp part) p).1) [
      | inl t ↦
          let same = drain_next part c s p n t in
          (
            rw same (drain_stopped s [] (on_line callback (chomp part) p).0 (rw same at g)).0,
            omega arith,
          )
      | inr t ↦ (rw (drain_stop part c s p n t) (on_line_stopped (chomp part) p t), omega arith)
    ]
  ]

  -- A loop that reads to the end leaves the flag, and no more than it got.
  drain_going :
      (s part : Bytes) (p : ParseState)
      → (drain callback part s p).0.1 ≡ true
      → ((drain callback part s p).0.0.cancelled ≡ p.cancelled)
        × (length (drain callback part s p).1 ≤ length part + length s)
  drain_going [] part p g = unfold drain in (refl, omega arith)
  drain_going (c ∷ s) part p g = elim (Bool-cases (c == newline)) [
    | inr n ↦
        let same = drain_mid part c s p n in
        let (flag, size) = drain_going s (part ++ c ∷ []) p (rw same at g) in
        rw same (flag, omega (arith, size, length-append part (c ∷ [])))
    | inl n ↦ elim (Bool-cases (on_line callback (chomp part) p).1) [
      | inl t ↦
          let same = drain_next part c s p n t in
          let (flag, size) = drain_going s [] (on_line callback (chomp part) p).0 (rw same at g) in
          rw same (flag ∙ on_line_going (chomp part) p t, omega (arith, size))
      | inr t ↦ absurd (cc (rw (drain_stop part c s p n t) at g))
    ]
  ]

  write_cb_read :
      (c : Bytes) (st : RequestState)
      → st.parse.cancelled ≡ false
      → length st.buffer + length c ≤ stream_cap
      → no_newline st.buffer ≡ true
      → write_cb callback c st ≡ store st (length c) (drain callback st.buffer c st.parse)
  unfolding write_cb
  write_cb_read c st f size line =
      let whole = drain-line st.buffer [] c st.parse line in
      ground (arith, whole, length-append st.buffer c)

  feed_going :
      (c : Bytes) (cs : List Bytes) (st : RequestState) (d : Parsed × Bytes)
      → write_cb callback c st ≡ store st (length c) d
      → d.0.1 ≡ true
      → feed callback (c ∷ cs) st ≡ feed callback cs (ahead st d)
  unfolding feed ahead store
  feed_going c cs st d e g =
      let state : (write_cb callback c st).0 ≡ ahead st d = ap (λ (x : RequestState × ℕ). x.0) e in
      let taken : (write_cb callback c st).1 ≡ length c =
        ap (λ (x : RequestState × ℕ). x.1) e ∙ rw g refl in
      let step : feed callback (c ∷ cs) st ≡ feed callback cs (write_cb callback c st).0 =
        ground (arith, taken) in
      step ∙ ap (feed callback cs) state

  feed_stopped :
      (c : Bytes) (cs : List Bytes) (st : RequestState) (d : Parsed × Bytes)
      → write_cb callback c st ≡ store st (length c) d
      → d.0.1 ≡ false
      → 0 < length c
      → feed callback (c ∷ cs) st ≡ ahead st d
  unfolding feed ahead store
  feed_stopped c cs st d e g l =
      let state : (write_cb callback c st).0 ≡ ahead st d = ap (λ (x : RequestState × ℕ). x.0) e in
      let taken : (write_cb callback c st).1 ≡ 0 =
        ap (λ (x : RequestState × ℕ). x.1) e ∙ rw g refl in
      ground (arith, taken, state)

-- What a caller can see: a request that is over has no use for its buffer.
pub seen : RequestState → RequestState
seen st = record st { buffer = if st.parse.cancelled then [] else st.buffer }

seen-ahead :
    (st : RequestState) (d e : Parsed × Bytes)
    → d.0.0 ≡ e.0.0
    → d.0.0.cancelled ≡ true
    → seen (ahead st d) ≡ seen (ahead st e)
unfolding seen ahead
seen-ahead st d e same f = ground (arith, same)

module _ (callback : SseCallback) where
  feed-joined :
      (cs : List Bytes) (st : RequestState)
      → st.parse.cancelled ≡ false
      → no_newline st.buffer ≡ true
      → length st.buffer + length (joined cs) ≤ stream_cap
      → seen (feed callback cs st) ≡ seen (ahead st (drain callback st.buffer (joined cs) st.parse))
  unfolding joined ahead
  feed-joined [] st f line size = unfold feed drain ahead in refl
  feed-joined (c ∷ cs) st f line size =
      let d = drain callback st.buffer c st.parse in
      let all_read = length-append c (joined cs) in
      let read = write_cb_read callback c st f (omega (arith, all_read, size)) line in
      let split = drain-append callback c st.buffer (joined cs) st.parse in
      elim (Bool-cases d.0.1) [
        | inl g ↦
            let (flag, left) = drain_going callback c st.buffer st.parse g in
            let rest =
              feed-joined cs (ahead st d) (flag ∙ f)
                (drain-no_newline callback c st.buffer st.parse line g)
                (omega (arith, all_read, size, left)) in
            ap seen (feed_going callback c cs st d read g)
            ∙ rest
            ∙ ap (λ (x : Parsed × Bytes). seen (ahead st x))
                (sym (split ∙ go_on_going callback (joined cs) d g))
        | inr g ↦
            let (flag, some_read) = drain_stopped callback c st.buffer st.parse g in
            ap seen (feed_stopped callback c cs st d read g some_read)
            ∙ seen-ahead st d (drain callback st.buffer (c ++ joined cs) st.parse)
                (ap (λ (x : Parsed × Bytes). x.0.0)
                  (sym (split ∙ go_on_stopped callback (joined cs) d g)))
                flag
      ]

  -- However the same bytes are cut into chunks, the request ends in the same state with the same
  -- calls of the callback, as far as it is not cancelled before and no more than the cap is read; a
  -- buffer that nobody reads any more, since the callback has stopped the request, is left out.
  pub feed_chunks :
      (cs ds : List Bytes) (st : RequestState)
      → joined cs ≡ joined ds
      → st.parse.cancelled ≡ false
      → no_newline st.buffer ≡ true
      → length st.buffer + length (joined cs) ≤ stream_cap
      → seen (feed callback cs st) ≡ seen (feed callback ds st)
  feed_chunks cs ds st same f line size =
      feed-joined cs st f line size ∙ rw same (sym (feed-joined ds st f line (rw same at size)))
