-- ===== src/Engine/Runner/Drain.antt =====
-- What the runner of a session has left to do.
use mathlib.Core.List.{append-nil}
use hai_code.Base.{
  Bytes, ℕ, suc, ◌+◌, ◌*◌, ◌≤◌, ◌<◌, ◌≡◌, refl, ap, ◌∙◌, sym, none, some, true, false, List, [],
  ◌∷◌, ◌++◌, arith, length, ◌==◌, inl, inr, Bool-cases, Bool, map, all, ◌&&◌,
}
use hai_code.Engine.Runner.{
  runner_step, Phase, idle, starting, in_turn, draining, announcing, stopping, Session, next_prompt,
  decide, advance, Event, ran, apply, run,
}
use hai_code.Engine.Runner.Invariant.{
  is_active, is_stopped, Consistent, run-Consistent, advance_stopped,
}
use hai_code.Engine.Runner.Turns.{all_turned, all_stored, run-all_turned}
use hai_code.Engine.Runner.Fifo.{
  rows_of, handled, accepted, all_accepted, run-handled, inactive-waiting,
}

-- How many steps the runner has left at most.
unfoldable pub steps_left : Phase → List Bytes → ℕ
steps_left idle queue = 0
steps_left (starting row) queue = 4 + 2 * length queue
steps_left in_turn queue = 3 + 2 * length queue
steps_left draining queue = 2 + 2 * length queue
steps_left announcing [] = 1
steps_left announcing (row ∷ rows) = 5 + 2 * length rows
steps_left stopping queue = 1

-- The runner's next steps, each with whether the row that it may come to can be stored.
pub rans : List Bool → List Event
rans = map ran

next_prompt-steps_left :
    (stored : Bool) (queue : List Bytes) (s : Session)
    → is_stopped s ≡ false
    → s.queue ≡ queue
    → steps_left (next_prompt stored queue s).phase (next_prompt stored queue s).queue
      < 2 + 2 * length queue
unfolding next_prompt steps_left is_stopped
next_prompt-steps_left stored [] s h e = rw (h, e) (omega arith)
next_prompt-steps_left true (row ∷ rows) s h e = rw h (omega arith)
next_prompt-steps_left false (row ∷ rows) s h e = rw h (omega arith)

decide-steps_left :
    (queue : List Bytes) (s : Session)
    → s.queue ≡ queue
    → steps_left (decide queue s).phase (decide queue s).queue < steps_left announcing queue
unfolding decide steps_left
decide-steps_left [] s e = elim (Bool-cases s.shutting_down) [
  | inl h ↦ rw h (omega arith)
  | inr h ↦ rw h (omega arith)
]
decide-steps_left (row ∷ rows) s e = elim (Bool-cases s.shutting_down) [
  | inl h ↦ rw h (omega arith)
  | inr h ↦ rw (h, e) (omega arith)
]

advance-steps_left :
    (stored : Bool) (phase : Phase) (s : Session)
    → s.interrupts ≡ 0
    → is_stopped s ≡ false
    → is_active phase ≡ true
    → steps_left (advance stored phase s).phase (advance stored phase s).queue
      < steps_left phase s.queue
unfolding advance steps_left is_active
advance-steps_left stored idle s z h a = cc
advance-steps_left stored (starting none) s z h a = rw z (omega arith)
advance-steps_left true (starting (some row)) s z h a = rw z (omega arith)
advance-steps_left false (starting (some row)) s z h a = rw z (omega arith)
advance-steps_left stored in_turn s z h a = omega arith
advance-steps_left stored draining s z h a =
    let free : (s.interrupts == 0) ≡ true = rw z refl in
    rw free (next_prompt-steps_left stored s.queue s h refl)
advance-steps_left stored announcing s z h a = decide-steps_left s.queue s refl
advance-steps_left stored stopping s z h a = omega arith

advance-interrupts :
    (stored : Bool) (phase : Phase) (s : Session)
    → (advance stored phase s).interrupts ≡ s.interrupts
unfolding advance
advance-interrupts stored idle s = refl
advance-interrupts stored (starting none) s = ground arith
advance-interrupts stored (starting (some row)) s = ground arith
advance-interrupts stored in_turn s = refl
advance-interrupts stored draining s = ground arith
advance-interrupts stored announcing s = ground arith
advance-interrupts stored stopping s = refl

inactive-idle :
    (stored : Bool) (phase : Phase) (queue : List Bytes) (s : Session)
    → is_active phase ≡ false
    → (steps_left phase queue ≡ 0) × (advance stored phase s ≡ s)
unfolding is_active steps_left advance
inactive-idle stored idle queue s h = (refl, refl)
inactive-idle stored (starting row) queue s h = cc
inactive-idle stored in_turn queue s h = cc
inactive-idle stored draining queue s h = cc
inactive-idle stored announcing queue s h = cc
inactive-idle stored stopping queue s h = cc

-- A step fewer is left, unless none is.
advance-fewer :
    (stored : Bool) (n : ℕ) (s : Session)
    → s.interrupts ≡ 0
    → is_stopped s ≡ false
    → steps_left s.phase s.queue ≤ suc n
    → steps_left (advance stored s.phase s).phase (advance stored s.phase s).queue ≤ n
advance-fewer stored n s z h l = elim (Bool-cases (is_active s.phase)) [
  | inl a ↦ omega (arith, advance-steps_left stored s.phase s z h a)
  | inr a ↦
      let (none_left, same) = inactive-idle stored s.phase s.queue s a in
      omega (arith, none_left, ap (λ t. steps_left t.phase t.queue) same)
]

active-steps_left :
    (phase : Phase) (queue : List Bytes) → steps_left phase queue ≤ 0 → is_active phase ≡ false
unfolding steps_left is_active
active-steps_left idle queue h = refl
active-steps_left (starting row) queue h = absurd (omega arith)
active-steps_left in_turn queue h = absurd (omega arith)
active-steps_left draining queue h = absurd (omega arith)
active-steps_left announcing [] h = absurd (omega arith)
active-steps_left announcing (row ∷ rows) h = absurd (omega arith)
active-steps_left stopping queue h = absurd (omega arith)

rans-idle :
    (stores : List Bool) (s : Session)
    → s.interrupts ≡ 0
    → is_stopped s ≡ false
    → steps_left s.phase s.queue ≤ length stores
    → (is_active (run (rans stores) s).phase ≡ false) × (is_stopped (run (rans stores) s) ≡ false)
unfolding run rans apply runner_step
rans-idle [] s z h l = (active-steps_left s.phase s.queue l, h)
rans-idle (b ∷ stores) s z h l =
    rans-idle stores (advance b s.phase s) (advance-interrupts b s.phase s ∙ z)
      (advance_stopped b s.phase s ∙ h) (advance-fewer b (length stores) s z h l)

rans-accept : (stores : List Bool) (s : Session) → all_accepted (rans stores) s ≡ []
unfolding rans all_accepted accepted
rans-accept [] s = refl
rans-accept (b ∷ stores) s = rans-accept stores (apply (ran b) s)

rans-all_stored : (stores : List Bool) → all_stored (rans stores) ≡ all (λ b. b) stores
unfolding rans all_stored
rans-all_stored [] = refl
rans-all_stored (b ∷ stores) = ap (λ t. b && t) (rans-all_stored stores)

ended :
    (t : Session)
    → Consistent t
    → is_active t.phase ≡ false
    → (t.running ≡ false) × (t.queue ≡ []) × (handled t ≡ rows_of t.taken)
unfolding handled
ended t c a =
    let off = c.marked ∙ a in
    let empty = c.drained off in
    (off, empty, rw (inactive-waiting t.phase a, empty) (append-nil (rows_of t.taken)))

-- With no interrupt under way in a session that is neither shut down nor deleted, the runner's own
-- steps, as many as are left at most, bring it to an end, whichever rows can be stored: it is idle with
-- an empty queue, and has taken all prompts that were accepted, in their order. Where all rows can be
-- stored, and a turn has been begun for each prompt taken before, one has for each of them.
pub rans-drained :
    (s : Session) (stores : List Bool)
    → Consistent s
    → s.interrupts ≡ 0
    → is_stopped s ≡ false
    → steps_left s.phase s.queue ≤ length stores
    → let t = run (rans stores) s in
      (t.running ≡ false)
      × (t.queue ≡ [])
      × (rows_of t.taken ≡ handled s)
      × (all (λ b. b) stores ≡ true → all_turned s ≡ true → all_turned t ≡ true)
rans-drained s stores c z h l =
    let (a, f) = rans-idle stores s z h l in
    let (off, empty, taken) = ended (run (rans stores) s) (run-Consistent (rans stores) s c) a in
    (
      off,
      empty,
      sym taken
          ∙ run-handled (rans stores) s c f
          ∙ ap (λ r. handled s ++ r) (rans-accept stores s)
          ∙ append-nil (handled s),
      λ st before. run-all_turned (rans stores) s (rans-all_stored stores ∙ st) ∙ before,
    )
