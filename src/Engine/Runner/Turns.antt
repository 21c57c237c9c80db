-- ===== src/Engine/Runner/Turns.antt =====
-- That the runner of a session begins a turn for each prompt whose row can be stored.
use hai_code.Base.{
  all, all-append, Bytes, ◌≡◌, refl, ap, ◌∙◌, Option, none, some, false, List, [], ◌∷◌, arith, inl,
  inr, Bool-cases, Bool, true, ◌&&◌,
}
use hai_code.Engine.Runner.Invariant.{is_stopped}
use hai_code.Engine.Runner.{
  Phase, idle, starting, in_turn, draining, announcing, stopping, Session, begin_shutdown,
  begin_delete, run_turn, next_prompt, decide, advance, Event, submitted, injected, continued,
  interrupt_began, interrupt_ended, shut_down, retired, ran, apply, run,
}

-- A turn has been begun for each row that the runner has taken.
unfoldable pub all_turned : Session → Bool
all_turned s = all (λ p. p.1) s.taken

-- No row was refused.
unfoldable pub all_stored : List Event → Bool
all_stored [] = true
all_stored (ran stored ∷ es) = stored && all_stored es
all_stored (_ ∷ es) = all_stored es

run_turn-all_turned :
    (row : Option Bytes) (s : Session) → all_turned (run_turn true row s) ≡ all_turned s
unfolding run_turn all_turned
run_turn-all_turned none s = refl
run_turn-all_turned (some row) s = all-append (λ p. p.1) s.taken ((row, true) ∷ []) ∙ ground arith

next_prompt-all_turned :
    (queue : List Bytes) (s : Session) → all_turned (next_prompt true queue s) ≡ all_turned s
unfolding next_prompt all_turned
next_prompt-all_turned [] s = elim (Bool-cases (is_stopped s)) [
  | inl e ↦ ground arith
  | inr e ↦ ground arith
]
next_prompt-all_turned (row ∷ rows) s =
    ground (arith, all-append (λ p. p.1) s.taken ((row, true) ∷ []))

decide-all_turned : (queue : List Bytes) (s : Session) → all_turned (decide queue s) ≡ all_turned s
unfolding decide all_turned
decide-all_turned [] s = ground arith
decide-all_turned (row ∷ rows) s = ground arith

advance-all_turned :
    (phase : Phase) (s : Session) → all_turned (advance true phase s) ≡ all_turned s
unfolding advance
advance-all_turned idle s = refl
advance-all_turned (starting row) s = ground (arith, run_turn-all_turned row s)
advance-all_turned in_turn s = unfold all_turned in refl
advance-all_turned draining s = ground (arith, next_prompt-all_turned s.queue s)
advance-all_turned announcing s = decide-all_turned s.queue s
advance-all_turned stopping s = unfold all_turned in refl

other-all_turned : (s t : Session) → t.taken ≡ s.taken → all_turned t ≡ all_turned s
unfolding all_turned
other-all_turned s t e = ap (λ l. all (λ p. p.1) l) e

apply-all_turned :
    (e : Event) (s : Session) → all_stored (e ∷ []) ≡ true → all_turned (apply e s) ≡ all_turned s
unfolding all_stored apply begin_shutdown begin_delete
apply-all_turned (submitted row) s h = other-all_turned s _ (ground arith)
apply-all_turned (injected row) s h = other-all_turned s _ (ground arith)
apply-all_turned continued s h = other-all_turned s _ (ground arith)
apply-all_turned interrupt_began s h = other-all_turned s _ (ground arith)
apply-all_turned interrupt_ended s h = other-all_turned s _ (ground arith)
apply-all_turned shut_down s h = other-all_turned s _ (ground arith)
apply-all_turned retired s h = other-all_turned s _ (ground arith)
apply-all_turned (ran true) s h = advance-all_turned s.phase s
apply-all_turned (ran false) s h = cc

all_stored-cons :
    (e : Event) (es : List Event)
    → all_stored (e ∷ es) ≡ true
    → (all_stored (e ∷ []) ≡ true) × (all_stored es ≡ true)
unfolding all_stored
all_stored-cons (ran stored) es h = ground arith
all_stored-cons (submitted row) es h = (refl, h)
all_stored-cons (injected row) es h = (refl, h)
all_stored-cons continued es h = (refl, h)
all_stored-cons interrupt_began es h = (refl, h)
all_stored-cons interrupt_ended es h = (refl, h)
all_stored-cons shut_down es h = (refl, h)
all_stored-cons retired es h = (refl, h)

pub run-all_turned :
    (es : List Event) (s : Session) → all_stored es ≡ true → all_turned (run es s) ≡ all_turned s
unfolding run
run-all_turned [] s h = refl
run-all_turned (e ∷ es) s h =
    let (first, rest) = all_stored-cons e es h in
    run-all_turned es (apply e s) rest ∙ apply-all_turned e s first
