-- ===== src/Http/Sse/Accepted.antt =====
-- The callback's answers in the state of a request, call by call.
use hai_code.Base.{
  Bytes, ◌≡◌, refl, ap, sym, Bool, true, false, not, ◌&&◌, List, [], ◌∷◌, ◌++◌, ltb, arith, ◌==◌,
  if◌then◌else◌, length, Bool-cases, inl, inr,
}
use hai_code.Http.Sse.Chunks.{drain_mid, drain_next, drain_stop}
use hai_code.Http.Sse.{
  SseCallback, RequestState, ParseState, SseEvent, write_cb, cancel, chomp, start, on_line,
  end_event, field, drain, store, newline, stream_cap,
}

module _ (callback : SseCallback) where
  pub accepted : List SseEvent → Bool
  accepted [] = true
  accepted (e ∷ es) = callback es e && accepted es

  pub refused : List SseEvent → Bool
  unfolding accepted
  refused [] = false
  refused (e ∷ es) = not (callback es e) && accepted es

  -- The callback accepted each event, but for the last one where it aborted the transfer.
  pub consistent : ParseState → Bool
  unfolding accepted refused
  consistent p =
      if p.aborted_by_callback then p.cancelled && refused p.delivered else accepted p.delivered

  on_line-consistent :
      (line : Bytes) (p : ParseState)
      → p.aborted_by_callback ≡ false
      → consistent p ≡ true
      → (consistent (on_line callback line p).0 ≡ true)
        × ((on_line callback line p).1 ≡ true
            → (on_line callback line p).0.aborted_by_callback ≡ false)
  unfolding on_line end_event field consistent
  on_line-consistent line p h c = (ground arith, λ g. ground arith)

  drain-consistent :
      (part s : Bytes) (p : ParseState)
      → p.aborted_by_callback ≡ false
      → consistent p ≡ true
      → consistent (drain callback part s p).0.0 ≡ true
  drain-consistent part [] p h c = unfold drain in c
  drain-consistent part (x ∷ s) p h c = elim (Bool-cases (x == newline)) [
    | inr more ↦ rw (drain_mid callback part x s p more) (drain-consistent (part ++ x ∷ []) s p h c)
    | inl line ↦
        let (kept, on) = on_line-consistent (chomp part) p h c in
        elim (Bool-cases (on_line callback (chomp part) p).1) [
          | inl go ↦
              rw (drain_next callback part x s p line go)
                (drain-consistent [] s (on_line callback (chomp part) p).0 (on go) kept)
          | inr stop ↦ rw (drain_stop callback part x s p line stop) kept
        ]
  ]

  going-consistent :
      (p : ParseState) → p.cancelled ≡ false → consistent p ≡ true → p.aborted_by_callback ≡ false
  unfolding consistent
  going-consistent p g h = ground arith

  pub write_cb_cancelled :
      (bytes : Bytes) (st : RequestState)
      → st.parse.cancelled ≡ true
      → write_cb callback bytes st ≡ (st, 0)
  unfolding write_cb
  write_cb_cancelled bytes st h = ground arith

  pub cancel_cancelled :
      (st : RequestState) → st.parse.cancelled ≡ true → (cancel st).parse ≡ st.parse
  unfolding cancel
  cancel_cancelled st h = ap (λ b. record st.parse { cancelled = b }) (sym h)

  pub cancel-consistent :
      (st : RequestState) → consistent st.parse ≡ true → consistent (cancel st).parse ≡ true
  unfolding cancel consistent
  cancel-consistent st h = ground arith

  pub start-consistent : consistent start.parse ≡ true
  unfolding consistent
  start-consistent = refl

  pub write_cb-consistent :
      (bytes : Bytes) (st : RequestState)
      → consistent st.parse ≡ true
      → consistent (write_cb callback bytes st).0.parse ≡ true
  unfolding write_cb store
  write_cb-consistent bytes st h = elim (Bool-cases st.parse.cancelled) [
    | inl off ↦ simp off h
    | inr on ↦
        let kept =
          drain-consistent [] (st.buffer ++ bytes) st.parse (going-consistent st.parse on h) h in
        elim (Bool-cases (ltb stream_cap (length (st.buffer ++ bytes)))) [
          | inl over ↦ simp (on, over) h
          | inr within ↦ simp (on, within) kept
        ]
  ]
