-- ===== src/Engine/Runner/Fifo.antt =====
-- Which prompts a session has accepted, and which its runner has taken.
use mathlib.Core.List.{append_assoc, append-nil}
use hai_code.Base.{
  map, Bytes, ◌≡◌, refl, ap, ◌∙◌, sym, Option, none, some, false, List, [], ◌∷◌, ◌++◌, arith, ◌==◌,
  if◌then◌else◌, inl, inr, Bool-cases, Bool, true,
}
use hai_code.Engine.Runner.Turns.{all_turned, all_stored, run-all_turned}
use hai_code.Engine.Runner.Invariant.{
  is_active, is_stopping, is_stopped, Consistent, apply-Consistent, new_session-Consistent,
  run_unstopped,
}
use hai_code.Engine.Runner.{
  Phase, idle, starting, in_turn, draining, announcing, stopping, Session, new_session,
  interrupt_begin, interrupt_end, begin_shutdown, begin_delete, run_turn, next_prompt, decide,
  advance, spawn_runner_locked, Event, submitted, injected, continued, interrupt_began,
  interrupt_ended, shut_down, retired, ran, apply, run,
}

-- The row that the runner has not begun with.
pub waiting : Phase → List Bytes
waiting (starting (some row)) = row ∷ []
waiting _ = []

-- The rows that the runner has taken, in order.
unfoldable pub rows_of : List (Bytes × Bool) → List Bytes
rows_of = map λ p. p.0

rows_of-snoc :
    (taken : List (Bytes × Bool)) (row : Bytes) (stored : Bool)
    → rows_of (taken ++ (row, stored) ∷ []) ≡ rows_of taken ++ row ∷ []
unfolding rows_of
rows_of-snoc [] row stored = refl
rows_of-snoc (p ∷ taken) row stored = ap (λ rows. p.0 ∷ rows) (rows_of-snoc taken row stored)

-- The prompts that the runner has taken, then the one that it is about to take, then those in the queue.
unfoldable pub handled : Session → List Bytes
unfolding waiting rows_of
handled s = rows_of s.taken ++ (waiting s.phase ++ s.queue)

-- The prompts that a step accepts to run.
unfoldable pub accepted : Event → Session → List Bytes
unfolding is_stopped
accepted (submitted row) s = if is_stopped s then [] else row ∷ []
accepted (injected row) s = if is_stopped s then [] else if s.running then row ∷ [] else []
accepted _ s = []

turn_waits : (stored : Bool) → waiting (if stored then in_turn else draining) ≡ []
unfolding waiting
turn_waits true = refl
turn_waits false = refl

next_prompt-handled :
    (stored : Bool) (queue : List Bytes) (s : Session)
    → is_stopped s ≡ false
    → s.queue ≡ queue
    → handled (next_prompt stored queue s) ≡ rows_of s.taken ++ queue
unfolding next_prompt handled is_stopped
next_prompt-handled stored [] s h e = rw (h, e) refl
next_prompt-handled stored (row ∷ rows) s h e =
    rw (h, rows_of-snoc s.taken row stored, turn_waits stored)
      (append_assoc (rows_of s.taken) (row ∷ []) rows)

decide-handled :
    (queue : List Bytes) (s : Session)
    → is_stopped s ≡ false
    → s.queue ≡ queue
    → handled (decide queue s) ≡ rows_of s.taken ++ queue
unfolding decide handled is_stopped
decide-handled [] s h e = ground (arith)
decide-handled (row ∷ rows) s h e = ground (arith)

run_turn-handled :
    (stored : Bool) (row : Option Bytes) (s : Session)
    → handled (run_turn stored row s) ≡ rows_of s.taken ++ (waiting (starting row) ++ s.queue)
unfolding run_turn handled
run_turn-handled stored none s = refl
run_turn-handled stored (some row) s =
    rw (rows_of-snoc s.taken row stored, turn_waits stored)
      (append_assoc (rows_of s.taken) (row ∷ []) s.queue)

-- What is handled, in a known phase.
handled-in :
    (phase : Phase) (s : Session)
    → s.phase ≡ phase
    → rows_of s.taken ++ (waiting phase ++ s.queue) ≡ handled s
unfolding handled
handled-in phase s e = ap (λ p. rows_of s.taken ++ (waiting p ++ s.queue)) (sym e)

advance-handled :
    (stored : Bool) (phase : Phase) (s : Session)
    → Consistent s
    → s.phase ≡ phase
    → is_stopped s ≡ false
    → handled (advance stored phase s) ≡ handled s
unfolding advance is_stopping handled
advance-handled stored idle s c e h = refl
advance-handled stored (starting row) s c e h = elim (Bool-cases (s.interrupts == 0)) [
  | inl z ↦ rw z (run_turn-handled stored row s ∙ handled-in (starting row) s e)
  | inr z ↦ rw z refl
]
advance-handled stored in_turn s c e h = handled-in in_turn s e
advance-handled stored draining s c e h = elim (Bool-cases (s.interrupts == 0)) [
  | inl z ↦ rw z (next_prompt-handled stored s.queue s h refl ∙ handled-in draining s e)
  | inr z ↦ rw z refl
]
advance-handled stored announcing s c e h =
    decide-handled s.queue s h refl ∙ handled-in announcing s e
advance-handled stored stopping s c e h = absurd (ground (arith, c.halted, ap is_stopping e))

pub inactive-waiting : (phase : Phase) → is_active phase ≡ false → waiting phase ≡ []
unfolding is_active waiting
inactive-waiting idle h = refl
inactive-waiting (starting row) h = cc
inactive-waiting in_turn h = refl
inactive-waiting draining h = refl
inactive-waiting announcing h = refl
inactive-waiting stopping h = refl

queued-handled :
    (row : Bytes) (s : Session)
    → handled (record s { queue = s.queue ++ row ∷ [] }) ≡ handled s ++ row ∷ []
unfolding handled
queued-handled row s =
    ap (λ t. rows_of s.taken ++ t) (sym (append_assoc (waiting s.phase) s.queue (row ∷ [])))
    ∙ sym (append_assoc (rows_of s.taken) (waiting s.phase ++ s.queue) (row ∷ []))

spawned-handled :
    (row : Bytes) (s : Session)
    → Consistent s
    → s.running ≡ false
    → handled (spawn_runner_locked (some row) s) ≡ handled s ++ row ∷ []
unfolding handled spawn_runner_locked
spawned-handled row s c h =
    let none_waits = inactive-waiting s.phase (sym c.marked ∙ h) in
    rw (c.drained h, none_waits, append-nil) refl

nothing : (s t : Session) → handled t ≡ handled s → handled t ≡ handled s ++ []
nothing s t e = rw append-nil e

continued-handled :
    (s : Session)
    → Consistent s
    → s.running ≡ false
    → handled (spawn_runner_locked none s) ≡ handled s
unfolding handled spawn_runner_locked
continued-handled s c h = rw (inactive-waiting s.phase (sym c.marked ∙ h)) refl

module _ (s : Session) where
  written : (row : Bytes) → handled (record s { transcript = s.transcript ++ row ∷ [] }) ≡ handled s
  unfolding handled
  written row = refl

  begun : handled (interrupt_begin s) ≡ handled s
  unfolding handled interrupt_begin
  begun = refl

  ended : handled (interrupt_end s) ≡ handled s
  unfolding handled interrupt_end
  ended = refl

-- A step whose result and whose accepted prompts are known.
by_branch :
    (e : Event) (s t : Session) (rows : List Bytes)
    → apply e s ≡ t
    → accepted e s ≡ rows
    → handled t ≡ handled s ++ rows
    → handled (apply e s) ≡ handled s ++ accepted e s
by_branch e s t rows f a h = ap handled f ∙ h ∙ ap (λ r. handled s ++ r) (sym a)

apply-handled :
    (e : Event) (s : Session)
    → Consistent s
    → is_stopped s ≡ false
    → is_stopped (apply e s) ≡ false
    → handled (apply e s) ≡ handled s ++ accepted e s
unfolding apply begin_shutdown begin_delete accepted is_stopped spawn_runner_locked
apply-handled (submitted row) s c h k = elim (Bool-cases s.running) [
  | inl r ↦
      by_branch (submitted row) s (record s { queue = s.queue ++ row ∷ [] }) (row ∷ [])
        (ground arith) (ground arith) (queued-handled row s)
  | inr r ↦
      by_branch (submitted row) s (spawn_runner_locked (some row) s) (row ∷ []) (ground arith)
        (ground arith) (spawned-handled row s c r)
]
apply-handled (injected row) s c h k = elim (Bool-cases s.running) [
  | inl r ↦
      by_branch (injected row) s (record s { queue = s.queue ++ row ∷ [] }) (row ∷ [])
        (ground arith) (ground arith) (queued-handled row s)
  | inr r ↦
      by_branch (injected row) s (record s { transcript = s.transcript ++ row ∷ [] }) []
        (ground arith) (ground arith)
        (nothing s (record s { transcript = s.transcript ++ row ∷ [] }) (written s row))
]
apply-handled continued s c h k = elim (Bool-cases s.running) [
  | inl r ↦ by_branch continued s s [] (ground arith) refl (nothing s s refl)
  | inr r ↦
      by_branch continued s (spawn_runner_locked none s) [] (ground arith) refl
        (nothing s (spawn_runner_locked none s) (continued-handled s c r))
]
apply-handled interrupt_began s c h k = nothing s (interrupt_begin s) (begun s)
apply-handled interrupt_ended s c h k = nothing s (interrupt_end s) (ended s)
apply-handled shut_down s c h k = absurd (ground arith)
apply-handled retired s c h k = absurd (ground arith)
apply-handled (ran stored) s c h k = nothing s _ (advance-handled stored s.phase s c refl h)

-- What all steps accept, in order.
unfoldable pub all_accepted : List Event → Session → List Bytes
all_accepted [] s = []
all_accepted (e ∷ es) s = accepted e s ++ all_accepted es (apply e s)

pub run-handled :
    (es : List Event) (s : Session)
    → Consistent s
    → is_stopped (run es s) ≡ false
    → handled (run es s) ≡ handled s ++ all_accepted es s
unfolding run all_accepted
run-handled [] s c h = sym (append-nil (handled s))
run-handled (e ∷ es) s c h =
    run-handled es (apply e s) (apply-Consistent e s c) h
    ∙ ap (λ t. t ++ all_accepted es (apply e s))
        (apply-handled e s c (run_unstopped (e ∷ es) s h) (run_unstopped es (apply e s) h))
    ∙ append_assoc (handled s) (accepted e s) (all_accepted es (apply e s))

-- In a session that is neither shut down nor deleted, whatever steps the threads take in whatever
-- order: the prompts that the runner has taken, the one that it is about to take, and those in the
-- queue are, in this order, exactly the prompts that were accepted; none is taken twice or overtaken.
-- Where no row of a prompt was refused when it was stored, a turn has been begun for each prompt that
-- the runner has taken.
pub run-fifo :
    (es : List Event)
    → is_stopped (run es new_session) ≡ false
    → (handled (run es new_session) ≡ all_accepted es new_session)
      × (all_stored es ≡ true → all_turned (run es new_session) ≡ true)
unfolding handled rows_of all_turned
run-fifo es h =
    (run-handled es new_session new_session-Consistent h, λ st. run-all_turned es new_session st)
