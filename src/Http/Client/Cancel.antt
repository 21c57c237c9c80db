-- ===== src/Http/Client/Cancel.antt =====
-- What `cancel` and the callback's refusal do to a running request.
use hai_code.Base.{
  Bytes, ℕ, ◌≡◌, refl, ap, ◌∙◌, true, false, List, [], ◌∷◌, arith, Bool-cases, inl, inr,
}
use hai_code.Http.Sse.{SseCallback, RequestState, ParseState, start}
use hai_code.Http.Sse.Accepted.{
  consistent, write_cb_cancelled, cancel_cancelled, cancel-consistent, start-consistent,
  write_cb-consistent,
}
use hai_code.Http.Client.{CurlCall, header, chunk, progress, cancelled, header_cb, step, run}

header_cb-parse : (h : Bytes) (st : RequestState) → (header_cb h st).parse ≡ st.parse
unfolding header_cb
header_cb-parse h st = ground arith

module _ (callback : SseCallback) where
  pub run_going :
      (c : CurlCall) (cs : List CurlCall) (st : RequestState)
      → (step callback c st).1 ≡ true
      → run callback (c ∷ cs) st ≡ run callback cs (step callback c st).0
  unfolding run
  run_going c cs st g = ground arith

  pub run_stopped :
      (c : CurlCall) (cs : List CurlCall) (st : RequestState)
      → (step callback c st).1 ≡ false
      → run callback (c ∷ cs) st ≡ (step callback c st).0
  unfolding run
  run_stopped c cs st g = ground arith

  step_cancelled :
      (c : CurlCall) (st : RequestState)
      → st.parse.cancelled ≡ true
      → ((step callback c st).0.parse ≡ st.parse)
  unfolding step
  step_cancelled (header x) st h = header_cb-parse x st
  step_cancelled (chunk x) st h =
      ap (λ (r : RequestState × ℕ). r.0.parse) (write_cb_cancelled callback x st h)
  step_cancelled progress st h = refl
  step_cancelled cancelled st h = cancel_cancelled callback st h

  -- Once a request is cancelled, whatever libcurl still calls, no event is delivered and nothing
  -- else of the parse changes.
  pub run_cancelled :
      (cs : List CurlCall) (st : RequestState)
      → st.parse.cancelled ≡ true
      → (run callback cs st).parse ≡ st.parse
  run_cancelled [] st h = unfold run in refl
  run_cancelled (c ∷ cs) st h = elim (Bool-cases (step callback c st).1) [
    | inl go ↦
        let same = step_cancelled c st h in
        let still = ap (λ (p : ParseState). p.cancelled) same ∙ h in
        rw (run_going c cs st go) (run_cancelled cs (step callback c st).0 still ∙ same)
    | inr stop ↦ rw (run_stopped c cs st stop) (step_cancelled c st h)
  ]

  step-consistent :
      (c : CurlCall) (st : RequestState)
      → consistent callback st.parse ≡ true
      → consistent callback (step callback c st).0.parse ≡ true
  unfolding step
  step-consistent (header x) st h = ap (consistent callback) (header_cb-parse x st) ∙ h
  step-consistent (chunk x) st h = write_cb-consistent callback x st h
  step-consistent progress st h = h
  step-consistent cancelled st h = cancel-consistent callback st h

  run-consistent :
      (cs : List CurlCall) (st : RequestState)
      → consistent callback st.parse ≡ true
      → consistent callback (run callback cs st).parse ≡ true
  run-consistent [] st h = unfold run in h
  run-consistent (c ∷ cs) st h = elim (Bool-cases (step callback c st).1) [
    | inl go ↦
        rw (run_going c cs st go)
          (run-consistent cs (step callback c st).0 (step-consistent c st h))
    | inr stop ↦ rw (run_stopped c cs st stop) (step-consistent c st h)
  ]

  -- In whatever order a request's headers, chunks and cancels come, the callback is never called
  -- again after it has refused an event, and the request says that the callback aborted it exactly
  -- where it refused the last event.
  pub run-start-consistent :
      (cs : List CurlCall) → consistent callback (run callback cs start).parse ≡ true
  run-start-consistent cs = run-consistent cs start (start-consistent callback)
