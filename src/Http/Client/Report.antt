-- ===== src/Http/Client/Report.antt =====
-- What the caller of a request learns of its end.
use hai_code.Base.{
  Bytes, ℕ, ◌≡◌, ◌≤◌, ◌↔◌, ◌||◌, refl, ap, ◌∙◌, Bool, true, false, not, ◌&&◌, List, [], ◌∷◌, ◌++◌,
  Option, none, some, arith, ltb, length, Bool-cases, inl, inr, all, negsuc,
}
use hai_code.Permission.Path.{is_empty}
use hai_code.Util.ProviderError.{retry_after_text}
use hai_code.Util.ProviderError.Retry.{plain, retry_after_text-append}
use hai_code.Http.Sse.{SseCallback, RequestState, start, cancel, stream_cap}
use hai_code.Http.Client.Cancel.{run_going, run_stopped}
use hai_code.Http.Sse.Buffer.{IsWithin, write_cb-IsWithin, write_cb-retry_after, cancel-fields}
use hai_code.Http.Client.{
  CurlCall, header, chunk, progress, cancelled, header_cb, step, run, retry_after_of, is_digit,
  outcome, classify, retry_suffix, post_sse,
}

all_digits-plain : (s : Bytes) → all is_digit s ≡ true → plain s ≡ true
all_digits-plain [] h = refl
all_digits-plain (c ∷ s) h = let rest = all_digits-plain s (ground arith) in ground (arith, rest)

skip_digits : (v d : Bytes) → retry_after_of v ≡ some d → all is_digit d ≡ true
unfolding retry_after_of
skip_digits v d h = ground arith

header_cb-digits :
    (h : Bytes) (st : RequestState)
    → all is_digit st.retry_after ≡ true
    → all is_digit (header_cb h st).retry_after ≡ true
unfolding header_cb
header_cb-digits h st a = grind (arith, skip_digits, a)

header_cb-fields :
    (h : Bytes) (st : RequestState)
    → ((header_cb h st).buffer ≡ st.buffer) × ((header_cb h st).over_cap ≡ st.over_cap)
unfolding header_cb
header_cb-fields h st = ground arith

IsWithin-same :
    (a b : RequestState)
    → (a.buffer ≡ b.buffer) × (a.over_cap ≡ b.over_cap)
    → IsWithin b
    → (a.over_cap ≡ ltb stream_cap (length a.buffer)) × IsWithin a
unfolding IsWithin
IsWithin-same a b (e, f) w = rw (e, f) (ground (arith, w), w)

outcome_suffixed :
    (res : Option Bytes) (code : ℕ) (st : RequestState)
    → 400 ≤ code
    → is_empty (outcome res code st).transport_error ≡ false
    → is_empty (outcome res code st).retry_after ≡ false
    → ((outcome res code st).transport_error
        ≡ (classify res code st).1 ++ retry_suffix st.retry_after)
      × ((outcome res code st).retry_after ≡ st.retry_after)
unfolding outcome is_empty
outcome_suffixed res code st k e r = (ground arith, ground arith)

outcome-retry_after_text :
    (res : Option Bytes) (code : ℕ) (st : RequestState)
    → all is_digit st.retry_after ≡ true
    → 400 ≤ code
    → is_empty (outcome res code st).transport_error ≡ false
    → is_empty (outcome res code st).retry_after ≡ false
    → retry_after_text (outcome res code st).transport_error
      ≡ some (outcome res code st).retry_after
unfolding retry_suffix
outcome-retry_after_text res code st d k e r =
    let (text, delay) = outcome_suffixed res code st k e r in
    let plain_delay = all_digits-plain st.retry_after d in
    rw (text, delay) (retry_after_text-append (classify res code st).1 st.retry_after plain_delay)

pub is_some : Option Bytes → Bool
is_some none = false
is_some (some _) = true

outcome_failed :
    (res : Option Bytes) (code : ℕ) (st : RequestState)
    → ((outcome res code st).response_code ≡ negsuc 0)
      ↔ ((not st.parse.aborted_by_callback && (is_some res || st.over_cap)) ≡ true)
unfolding outcome is_some classify
outcome_failed none code st = (λ h. ground (arith, h), λ h. ground (arith, h))
outcome_failed (some error) code st = (λ h. ground (arith, h), λ h. ground (arith, h))

start-IsWithin : IsWithin start
unfolding IsWithin
start-IsWithin = (omega arith, refl)

module _ (callback : SseCallback) where
  step-digits :
      (c : CurlCall) (st : RequestState)
      → all is_digit st.retry_after ≡ true
      → all is_digit (step callback c st).0.retry_after ≡ true
  unfolding step
  step-digits (header h) st a = header_cb-digits h st a
  step-digits (chunk x) st a = ap (all is_digit) (write_cb-retry_after callback x st) ∙ a
  step-digits progress st a = a
  step-digits cancelled st a =
      let (kept, buffer, over) = cancel-fields st in ap (all is_digit) kept ∙ a

  run-digits :
      (cs : List CurlCall) (st : RequestState)
      → all is_digit st.retry_after ≡ true
      → all is_digit (run callback cs st).retry_after ≡ true
  run-digits [] st a = unfold run in a
  run-digits (c ∷ cs) st a = elim (Bool-cases (step callback c st).1) [
    | inl go ↦
        rw (run_going callback c cs st go)
          (run-digits cs (step callback c st).0 (step-digits c st a))
    | inr stop ↦ rw (run_stopped callback c cs st stop) (step-digits c st a)
  ]

  step-IsWithin :
      (c : CurlCall) (st : RequestState)
      → IsWithin st
      → ((step callback c st).0.over_cap ≡ ltb stream_cap (length (step callback c st).0.buffer))
        × ((step callback c st).1 ≡ true → IsWithin (step callback c st).0)
  unfolding step
  step-IsWithin (header h) st w =
      let same = IsWithin-same (header_cb h st) st (header_cb-fields h st) w in
      (same.0, λ g. same.1)
  step-IsWithin (chunk x) st w = write_cb-IsWithin callback x st w
  step-IsWithin progress st w = let same = IsWithin-same st st (refl, refl) w in (same.0, λ g. w)
  step-IsWithin cancelled st w =
      let (kept, buffer, over) = cancel-fields st in
      let same = IsWithin-same (cancel st) st (buffer, over) w in (same.0, λ g. same.1)

  -- `over_cap` says at every moment whether the buffer is over the cap, whatever libcurl has called.
  pub run-over_cap :
      (cs : List CurlCall) (st : RequestState)
      → IsWithin st
      → (run callback cs st).over_cap ≡ ltb stream_cap (length (run callback cs st).buffer)
  unfolding IsWithin
  run-over_cap [] st w = unfold run in ground (arith, w)
  run-over_cap (c ∷ cs) st w = elim (Bool-cases (step callback c st).1) [
    | inl go ↦
        let next = (step-IsWithin c st w).1 go in
        rw (run_going callback c cs st go) (run-over_cap cs (step callback c st).0 next)
    | inr stop ↦ rw (run_stopped callback c cs st stop) (step-IsWithin c st w).0
  ]

  -- A retry delay that the server asked for reaches the caller in both ways: where the outcome has
  -- one and an error text, and the code is 400 or more, the text read back out of the error is that
  -- delay.
  pub post_sse-retry_after_text :
      (calls : List CurlCall) (res : Option Bytes) (code : ℕ)
      → 400 ≤ code
      → is_empty (post_sse callback true calls res code).transport_error ≡ false
      → is_empty (post_sse callback true calls res code).retry_after ≡ false
      → retry_after_text (post_sse callback true calls res code).transport_error
        ≡ some (post_sse callback true calls res code).retry_after
  unfolding post_sse
  post_sse-retry_after_text calls res code k e r =
      outcome-retry_after_text res code (run callback calls start) (run-digits calls start refl) k e
        r

  -- Whatever libcurl called, the caller is told of a failed transfer (code -1) exactly where the
  -- callback has not aborted it, and libcurl reports an error or the unparsed text is over the cap.
  pub post_sse_failed :
      (calls : List CurlCall) (res : Option Bytes) (code : ℕ)
      → ((post_sse callback true calls res code).response_code ≡ negsuc 0) ↔ (
          (not (run callback calls start).parse.aborted_by_callback
            && (is_some res || ltb stream_cap (length (run callback calls start).buffer)))
          ≡ true)
  unfolding post_sse
  post_sse_failed calls res code =
      rw⁻¹ (run-over_cap calls start start-IsWithin)
        (outcome_failed res code (run callback calls start))
