-- ===== src/Http/Sse/Buffer.antt =====
-- The size of the buffer of a request.
use hai_code.Base.{
  Bytes, ◌+◌, ◌≡◌, ◌≤◌, refl, sym, true, false, [], ◌∷◌, ◌++◌, ltb, arith, ◌==◌, length,
  length-append, Bool-cases, inl, inr,
}
use hai_code.Http.Sse.Accepted.{write_cb_cancelled}
use hai_code.Http.Sse.Chunks.{drain_mid, drain_next, drain_stop}
use hai_code.Http.Sse.{
  SseCallback, RequestState, ParseState, write_cb, cancel, chomp, on_line, drain, store, newline,
  stream_cap,
}

-- The buffer is within the cap, and the request knows of no excess.
unfoldable pub IsWithin : RequestState → Type 0
IsWithin st = (length st.buffer ≤ stream_cap) × (st.over_cap ≡ false)

module _ (callback : SseCallback) where
  length-drain :
      (part s : Bytes) (p : ParseState)
      → length (drain callback part s p).1 ≤ length part + length s
  length-drain part [] p = unfold drain in omega arith
  length-drain part (x ∷ s) p = elim (Bool-cases (x == newline)) [
    | inr more ↦
        let rest = length-drain (part ++ x ∷ []) s p in
        rw (drain_mid callback part x s p more) (omega (arith, rest, length-append part (x ∷ [])))
    | inl line ↦
        let rest = length-drain [] s (on_line callback (chomp part) p).0 in
        elim (Bool-cases (on_line callback (chomp part) p).1) [
          | inl go ↦ rw (drain_next callback part x s p line go) (omega (arith, rest))
          | inr stop ↦ rw (drain_stop callback part x s p line stop) (omega arith)
        ]
  ]

  pub write_cb-retry_after :
      (bytes : Bytes) (st : RequestState)
      → (write_cb callback bytes st).0.retry_after ≡ st.retry_after
  unfolding write_cb store
  write_cb-retry_after bytes st = ground arith

  write_cb_over :
      (bytes : Bytes) (st : RequestState)
      → st.parse.cancelled ≡ false
      → ltb stream_cap (length (st.buffer ++ bytes)) ≡ true
      → write_cb callback bytes st ≡ (record st { buffer = st.buffer ++ bytes; over_cap = true }, 0)
  unfolding write_cb
  write_cb_over bytes st n o = ground arith

  write_cb-drain :
      (bytes : Bytes) (st : RequestState)
      → st.parse.cancelled ≡ false
      → ltb stream_cap (length (st.buffer ++ bytes)) ≡ false
      → write_cb callback bytes st
        ≡ store st (length bytes) (drain callback [] (st.buffer ++ bytes) st.parse)
  unfolding write_cb
  write_cb-drain bytes st n o = ground arith

  -- A chunk leaves the buffer within the cap, or sets `over_cap` and ends the transfer.
  pub write_cb-IsWithin :
      (bytes : Bytes) (st : RequestState)
      → IsWithin st
      → ((write_cb callback bytes st).0.over_cap
          ≡ ltb stream_cap (length (write_cb callback bytes st).0.buffer))
        × (((write_cb callback bytes st).1 == length bytes) ≡ true
            → IsWithin (write_cb callback bytes st).0)
  unfolding IsWithin store
  write_cb-IsWithin bytes st h = elim (Bool-cases st.parse.cancelled) [
    | inl off ↦ rw (write_cb_cancelled callback bytes st off) (ground (arith, h), λ g. h)
    | inr on ↦ elim (Bool-cases (ltb stream_cap (length (st.buffer ++ bytes)))) [
      | inl over ↦
          rw (write_cb_over bytes st on over)
            (sym over, λ g. absurd (ground (arith, h, g, over, length-append st.buffer bytes)))
      | inr within ↦
          let left = length-drain [] (st.buffer ++ bytes) st.parse in
          rw (write_cb-drain bytes st on within)
            (ground (arith, h, left, within), λ g. (ground (arith, left, within), h.1))
    ]
  ]

pub cancel-fields :
    (st : RequestState)
    → ((cancel st).retry_after ≡ st.retry_after)
      × ((cancel st).buffer ≡ st.buffer)
      × ((cancel st).over_cap ≡ st.over_cap)
unfolding cancel
cancel-fields st = (refl, refl, refl)
