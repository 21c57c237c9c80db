-- ===== src/Util/Subprocess/Result.antt =====
-- What the result of a command tells.
use hai_code.Base.{
  ℕ, negsuc, ◌≤◌, ◌≡◌, refl, ap, ◌∙◌, Option, none, some, true, false, ◌&&◌, ◌||◌, List, [], ◌∷◌,
  ◌++◌, arith, length, ltb, inl, inr, Bool-cases,
}
use hai_code.Util.Utf8.{sanitize_utf8}
use hai_code.Util.Truncate.Bounds.{truncate_utf8_bounds}
use hai_code.Util.Subprocess.{
  SubprocessResult, PollAnswer, ready, nothing, broken, Tick, Loop, is_done, goes_on, kill,
  poll_pipe, round, loop, start, finish, run_subprocess,
}

module _ (cap : ℕ) where
  poll_pipe-flags :
      (a : PollAnswer) (l : Loop)
      → ((poll_pipe cap a l).timed_out ≡ l.timed_out)
        × ((poll_pipe cap a l).interrupted ≡ l.interrupted)
  unfolding poll_pipe
  poll_pipe-flags nothing l = (refl, refl)
  poll_pipe-flags broken l = (ground arith, ground arith)
  poll_pipe-flags (ready answers) l = (ground arith, ground arith)

  -- A round that goes on sets no flag, and one that leaves the loop not both.
  round-flags :
      (t : Tick) (l : Loop)
      → l.timed_out ≡ false
      → l.interrupted ≡ false
      → (((round cap t l).1.timed_out && (round cap t l).1.interrupted) ≡ false)
        × ((round cap t l).0 ≡ false
            → ((round cap t l).1.timed_out ≡ false) × ((round cap t l).1.interrupted ≡ false))
  unfolding round kill
  round-flags t l h k =
      let (same, same') = poll_pipe-flags t.polled l in
      let (waited, waited') = poll_pipe-flags t.polled (record l { status = t.waited }) in
      ground arith

  loop-flags :
      (ticks : List Tick) (l l' : Loop)
      → loop cap ticks l ≡ some l'
      → l.timed_out ≡ false
      → l.interrupted ≡ false
      → (l'.timed_out && l'.interrupted) ≡ false
  unfolding loop
  loop-flags [] l l' e h k = cc
  loop-flags (t ∷ ticks) l l' e h k =
      let (both, each) = round-flags t l h k in
      elim (Bool-cases (goes_on l t)) [
        | inr stops ↦ ground arith
        | inl goes ↦ elim (Bool-cases (round cap t l).0) [
          | inl left ↦ ground arith
          | inr stays ↦
              loop-flags ticks (round cap t l).1 l' (ground arith) (each stays).0 (each stays).1
        ]
      ]

  -- Behind a round that goes on past the deadline, the child is reaped.
  late_reaped :
      (t : Tick) (l : Loop)
      → t.late ≡ true
      → (round cap t l).0 ≡ false
      → is_done (round cap t l).1.status ≡ true
  unfolding round is_done poll_pipe
  late_reaped t l h e = ground arith

  loop_stops :
      (t : Tick) (ticks : List Tick) (l : Loop)
      → goes_on l t ≡ false
      → loop cap (t ∷ ticks) l ≡ some l
  unfolding loop
  loop_stops t ticks l e = ground arith

  loop_leaves :
      (t : Tick) (ticks : List Tick) (l : Loop)
      → goes_on l t ≡ true
      → (round cap t l).0 ≡ true
      → loop cap (t ∷ ticks) l ≡ some (round cap t l).1
  unfolding loop
  loop_leaves t ticks l e f = ground arith

  loop_goes :
      (t : Tick) (ticks : List Tick) (l : Loop)
      → goes_on l t ≡ true
      → (round cap t l).0 ≡ false
      → loop cap (t ∷ ticks) l ≡ loop cap ticks (round cap t l).1
  unfolding loop
  loop_goes t ticks l e f = ground arith

  -- One step of an argument that the loop returns.
  loop-returns :
      (t : Tick) (ticks : List Tick) (l : Loop)
      → ((round cap t l).0 ≡ false → (l' : Loop) × (loop cap ticks (round cap t l).1 ≡ some l'))
      → (l' : Loop) × (loop cap (t ∷ ticks) l ≡ some l')
  loop-returns t ticks l next = elim (Bool-cases (goes_on l t)) [
    | inr stops ↦ (l, loop_stops t ticks l stops)
    | inl goes ↦ elim (Bool-cases (round cap t l).0) [
      | inl left ↦ ((round cap t l).1, loop_leaves t ticks l goes left)
      | inr stays ↦ let (l', e) = next stays in (l', loop_goes t ticks l goes stays ∙ e)
    ]
  ]

  outside_grace :
      (t : Tick) (l : Loop) → t.in_grace ≡ false → is_done l.status ≡ true → goes_on l t ≡ false
  unfolding goes_on
  outside_grace t l h d = ground arith

  loop_ends :
      (before : List Tick) (t t' : Tick) (ticks : List Tick) (l : Loop)
      → t.late ≡ true
      → t'.in_grace ≡ false
      → (l' : Loop) × (loop cap (before ++ t ∷ t' ∷ ticks) l ≡ some l')
  loop_ends [] t t' ticks l h k = loop-returns t (t' ∷ ticks) l (λ stays.
      let l' = (round cap t l).1 in
      (l', loop_stops t' ticks l' (outside_grace t' l' k (late_reaped t l h stays))))
  loop_ends (u ∷ before) t t' ticks l h k =
      loop-returns u (before ++ t ∷ t' ∷ ticks) l (λ stays. loop_ends before t t' ticks _ h k)

  finish-output : (l : Loop) → length (finish cap l).output ≤ cap
  unfolding finish
  finish-output l =
      let output = sanitize_utf8 l.pipe.output in
      let bounds = truncate_utf8_bounds output cap in
      elim (Bool-cases (ltb cap (length output))) [
        | inl e ↦ rw e bounds.1
        | inr e ↦ rw e (ground arith)
      ]

  finish-flags :
      (l : Loop)
      → (l.timed_out && l.interrupted) ≡ false
      → ((finish cap l).timed_out && (finish cap l).interrupted) ≡ false
  unfolding finish
  finish-flags l h = h

  finish-exit :
      (l : Loop)
      → ((finish cap l).timed_out || (finish cap l).interrupted) ≡ true
      → (finish cap l).exit_code ≡ negsuc 0
  unfolding finish
  finish-exit l h = ground arith

  run-finish :
      (ticks : List Tick) (l : Loop)
      → loop cap ticks (start cap) ≡ some l
      → run_subprocess cap none ticks ≡ some (finish cap l)
  unfolding run_subprocess
  run-finish ticks l e =
      ap
        (λ (o : Option Loop). elim o as (λ _. Option SubprocessResult) [
          | none ↦ none
          | some l' ↦ some (finish cap l')
        ])
        e

  -- Where a round sees the deadline passed and the grace window of the pipe is over at the next one, a
  -- command that was started returns, whatever happened before: its output is at most `cap` bytes, it
  -- is not both timed out and interrupted, and where it is either its exit code is -1.
  pub run_subprocess_returns :
      (before : List Tick) (t t' : Tick) (ticks : List Tick)
      → t.late ≡ true
      → t'.in_grace ≡ false
      → (r : SubprocessResult) × (run_subprocess cap none (before ++ t ∷ t' ∷ ticks) ≡ some r)
        × (length r.output ≤ cap)
        × ((r.timed_out && r.interrupted) ≡ false)
        × ((r.timed_out || r.interrupted) ≡ true → r.exit_code ≡ negsuc 0)
  run_subprocess_returns before t t' ticks h k =
      let (l, e) = loop_ends before t t' ticks (start cap) h k in
      (
        finish cap l,
        run-finish (before ++ t ∷ t' ∷ ticks) l e,
        finish-output l,
        finish-flags l (loop-flags (before ++ t ∷ t' ∷ ticks) (start cap) l e refl refl),
        finish-exit l,
      )
