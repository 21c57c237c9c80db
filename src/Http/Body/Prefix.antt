-- ===== src/Http/Body/Prefix.antt =====
-- What the sink holds at the end.
use hai_code.Base.{
  Bytes, ℕ, ◌+◌, ◌-◌, ◌≤◌, ◌<◌, ◌≡◌, refl, sym, ap, ◌∙◌, true, false, List, [], ◌∷◌, ◌++◌, ltb,
  length, take, joined, take_all, take-append, take-append_left, length-append, arith, Bool-cases,
  inl, inr,
}
use mathlib.Core.List.{append_assoc, append-nil}
use hai_code.Http.Body.{BodySink, empty_sink, write_cb, feed}

feed_over :
    (cap : ℕ) (c : Bytes) (cs : List Bytes) (s : BodySink)
    → length s.body ≤ cap
    → cap < length s.body + length c
    → feed cap (c ∷ cs) s
      ≡ record { body = s.body ++ take (cap - length s.body) c; truncated = true }
unfolding feed write_cb
feed_over cap c cs s h k = ground arith

feed_within :
    (cap : ℕ) (c : Bytes) (cs : List Bytes) (s : BodySink)
    → length s.body + length c ≤ cap
    → feed cap (c ∷ cs) s ≡ feed cap cs (record s { body = s.body ++ c })
unfolding feed write_cb
feed_within cap c cs s h = ground arith

feed_from :
    (cap : ℕ) (cs : List Bytes) (s : BodySink)
    → length s.body ≤ cap
    → s.truncated ≡ false
    → (feed cap cs s).body ≡ take cap (s.body ++ joined cs)
      × ((feed cap cs s).truncated ≡ ltb cap (length s.body + length (joined cs)))
unfolding joined
feed_from cap [] s h k = unfold feed in (rw append-nil (sym (take_all cap s.body h)), ground arith)
feed_from cap (c ∷ cs) s h k = elim (Bool-cases (ltb cap (length s.body + length c))) [
  | inl over ↦
      let stop = feed_over cap c cs s h (ground arith) in
      let cut =
        take-append cap s.body (c ++ joined cs) h
        ∙ ap (λ (t : Bytes). s.body ++ t)
            (take-append_left (cap - length s.body) c (joined cs) (ground arith)) in
      (
        ap (λ (x : BodySink). x.body) stop ∙ sym cut,
        ap (λ (x : BodySink). x.truncated) stop ∙ ground (arith, length-append c (joined cs)),
      )
  | inr within ↦
      let next : BodySink = record s { body = s.body ++ c } in
      let step = feed_within cap c cs s (ground arith) in
      let size = length-append s.body c in
      let (body, cut) = feed_from cap cs next (ground (arith, size)) k in
      (
        ap (λ (x : BodySink). x.body) step
            ∙ body
            ∙ ap (take cap) (append_assoc s.body c (joined cs)),
        ap (λ (x : BodySink). x.truncated) step
            ∙ cut
            ∙ ground (arith, size, length-append c (joined cs)),
      )
]

length-empty : length empty_sink.body ≡ 0
length-empty = omega arith

-- Whatever the chunks are, the sink ends with the first `cap` bytes of the body, and says that it is
-- truncated exactly where the body has more.
pub feed-take :
    (cap : ℕ) (cs : List Bytes)
    → ((feed cap cs empty_sink).body ≡ take cap (joined cs))
      × ((feed cap cs empty_sink).truncated ≡ ltb cap (length (joined cs)))
feed-take cap cs =
    let (held, cut) = feed_from cap cs empty_sink (omega arith) refl in
    (
      held,
      cut
          ∙ ap (λ (n : ℕ). ltb cap (n + length (joined cs))) length-empty
          ∙ ap (ltb cap) (omega arith),
    )
