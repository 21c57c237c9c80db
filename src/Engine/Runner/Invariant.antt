-- ===== src/Engine/Runner/Invariant.antt =====
-- What holds of a session and its runner between two steps.
use mathlib.Core.Bool.{false≢true}
use hai_code.Base.{
  Bytes, ◌≡◌, refl, ap, ◌∙◌, sym, Option, none, some, Bool, true, false, ◌||◌, List, [], ◌∷◌, arith,
  ◌==◌, inl, inr, Bool-cases,
}
use hai_code.Engine.Runner.{
  Phase, idle, starting, in_turn, draining, announcing, stopping, Session, new_session,
  begin_shutdown, begin_delete, run_turn, next_prompt, decide, advance, Event, submitted, injected,
  continued, interrupt_began, interrupt_ended, shut_down, retired, ran, apply, run,
}

unfoldable pub is_active : Phase → Bool
is_active idle = false
is_active _ = true

unfoldable pub is_stopping : Phase → Bool
is_stopping stopping = true
is_stopping _ = false

-- Shutting down or deleted: the queue is discarded.
unfoldable pub is_stopped : Session → Bool
is_stopped s = s.shutting_down || s.retiring

-- The session is marked as running exactly while there is a runner, there is no queue without one, and
-- the runner only leaves its loop early in a session that has been stopped.
pub record Consistent (s : Session) : Type 0 where
  pub marked : s.running ≡ is_active s.phase
  pub drained : s.running ≡ false → s.queue ≡ []
  pub halted : is_stopping s.phase ≡ true → is_stopped s ≡ true

next_prompt-Consistent :
    (stored : Bool) (queue : List Bytes) (s : Session)
    → s.running ≡ true
    → is_active s.phase ≡ true
    → Consistent (next_prompt stored queue s)
unfolding next_prompt is_active is_stopping is_stopped
next_prompt-Consistent stored [] s h k = ground arith
next_prompt-Consistent stored (row ∷ rows) s h k = ground arith

decide-Consistent :
    (queue : List Bytes) (s : Session) → s.running ≡ true → Consistent (decide queue s)
unfolding decide is_active is_stopping is_stopped
decide-Consistent [] s h = ground arith
decide-Consistent (row ∷ rows) s h = ground arith

run_turn-Consistent :
    (stored : Bool) (row : Option Bytes) (s : Session)
    → s.running ≡ true
    → Consistent (run_turn stored row s)
unfolding run_turn is_active is_stopping is_stopped
run_turn-Consistent stored none s h = ground arith
run_turn-Consistent stored (some row) s h = ground arith

advance-Consistent :
    (stored : Bool) (phase : Phase) (s : Session)
    → Consistent s
    → s.phase ≡ phase
    → Consistent (advance stored phase s)
unfolding advance is_active is_stopping is_stopped
advance-Consistent stored idle s c e = c
advance-Consistent stored (starting row) s c e = elim (Bool-cases (s.interrupts == 0)) [
  | inl z ↦ rw z (run_turn-Consistent stored row s (c.marked ∙ ap is_active e))
  | inr z ↦ rw z c
]
advance-Consistent stored in_turn s c e = ground (arith, c.marked, ap is_active e)
advance-Consistent stored draining s c e = elim (Bool-cases (s.interrupts == 0)) [
  | inl z ↦
      rw z (next_prompt-Consistent stored s.queue s (c.marked ∙ ap is_active e) (ap is_active e))
  | inr z ↦ rw z c
]
advance-Consistent stored announcing s c e = decide-Consistent s.queue s (c.marked ∙ ap is_active e)
advance-Consistent stored stopping s c e = ground arith

-- Every step of every thread keeps this: the session is marked as running exactly while there is a
-- runner, while there is none, no prompt stands in the queue, and the runner only leaves its loop
-- early in a session that has been stopped.
pub apply-Consistent : (e : Event) (s : Session) → Consistent s → Consistent (apply e s)
unfolding apply begin_shutdown begin_delete is_active is_stopping is_stopped
apply-Consistent (submitted row) s c = ground arith
apply-Consistent (injected row) s c = ground arith
apply-Consistent continued s c = ground arith
apply-Consistent interrupt_began s c = ground arith
apply-Consistent interrupt_ended s c = ground arith
apply-Consistent shut_down s c = ground arith
apply-Consistent retired s c = ground arith
apply-Consistent (ran stored) s c = advance-Consistent stored s.phase s c refl

pub new_session-Consistent : Consistent new_session
unfolding is_active is_stopping
new_session-Consistent = ground arith

pub run-Consistent : (es : List Event) (s : Session) → Consistent s → Consistent (run es s)
unfolding run
run-Consistent [] s c = c
run-Consistent (e ∷ es) s c = run-Consistent es (apply e s) (apply-Consistent e s c)

-- What has been stopped stays stopped.
pub advance_stopped :
    (stored : Bool) (phase : Phase) (s : Session)
    → is_stopped (advance stored phase s) ≡ is_stopped s
unfolding advance is_stopped
advance_stopped stored idle s = refl
advance_stopped stored (starting none) s = ground arith
advance_stopped stored (starting (some row)) s = ground arith
advance_stopped stored in_turn s = refl
advance_stopped stored draining s = ground arith
advance_stopped stored announcing s = ground arith
advance_stopped stored stopping s = refl

apply_stopped : (e : Event) (s : Session) → is_stopped s ≡ true → is_stopped (apply e s) ≡ true
unfolding apply begin_shutdown begin_delete is_stopped
apply_stopped (submitted row) s h = ground arith
apply_stopped (injected row) s h = ground arith
apply_stopped continued s h = ground arith
apply_stopped interrupt_began s h = h
apply_stopped interrupt_ended s h = h
apply_stopped shut_down s h = ground arith
apply_stopped retired s h = ground arith
apply_stopped (ran stored) s h = advance_stopped stored s.phase s ∙ h

run_stopped : (es : List Event) (s : Session) → is_stopped s ≡ true → is_stopped (run es s) ≡ true
unfolding run
run_stopped [] s h = h
run_stopped (e ∷ es) s h = run_stopped es (apply e s) (apply_stopped e s h)

pub run_unstopped :
    (es : List Event) (s : Session) → is_stopped (run es s) ≡ false → is_stopped s ≡ false
run_unstopped es s h = elim (Bool-cases (is_stopped s)) [
  | inl t ↦ absurd (false≢true (sym h ∙ run_stopped es s t))
  | inr f ↦ f
]
