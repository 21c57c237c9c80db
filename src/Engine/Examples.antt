-- ===== src/Engine/Examples.antt =====
-- The theorems on the engine at concrete inputs.
use hai_code.Engine.Runner.Turns.{all_turned, all_stored}
use hai_code.Base.{
  Bool, true, all, arith, Bytes, ◌≡◌, refl, Option, none, false, List, [], ◌∷◌, codes, reverse,
}
use hai_code.Engine.Repair.{user, assistant, tool_use, tool_result, plain, blocks, Message, repair}
use hai_code.Engine.Repair.Paired.{Paired, repair-Paired}
use hai_code.Engine.Runner.{
  Session, new_session, Event, submitted, interrupt_began, interrupt_ended, ran, run, apply,
}
use hai_code.Engine.Runner.Invariant.{
  is_stopped, Consistent, apply-Consistent, run-Consistent, new_session-Consistent,
}
use hai_code.Engine.Runner.Fifo.{rows_of, handled, all_accepted, run-fifo}
use hai_code.Engine.Runner.Drain.{steps_left, rans, rans-drained}

-- A call whose result comes after a prompt, and one without a result.
abbrev rows : List (Message Bytes × Option Bytes)
rows =
    (
      record {
        role = assistant;
        content = blocks (tool_use (codes "1") [] ∷ tool_use (codes "2") [] ∷ []);
      },
      none,
    )
    ∷ (record { role = user; content = plain (codes "go on") }, none)
    ∷ (
      record { role = user; content = blocks (tool_result (codes "1") false (codes "ok") ∷ []) },
      none,
    )
    ∷ []

repair-Paired_example : Paired (reverse (repair (codes "not run") rows))
repair-Paired_example = repair-Paired (codes "not run") rows

abbrev steps : List Event
steps =
    submitted (codes "a")
    ∷ ran true
    ∷ submitted (codes "b")
    ∷ interrupt_began
    ∷ ran true
    ∷ interrupt_ended
    ∷ []

abbrev session : Session
session = run steps new_session

run-fifo_example :
    (handled session ≡ all_accepted steps new_session)
    × (all_stored steps ≡ true → all_turned session ≡ true)
unfolding is_stopped run apply
run-fifo_example = run-fifo steps refl

apply-Consistent_example : Consistent (apply (ran true) session)
apply-Consistent_example =
    apply-Consistent (ran true) session (run-Consistent steps new_session new_session-Consistent)

-- The second row cannot be stored.
abbrev stores : List Bool
stores = true ∷ true ∷ false ∷ true ∷ true ∷ []

rans-drained_example :
    let t = run (rans stores) session in
    (t.running ≡ false)
    × (t.queue ≡ [])
    × (rows_of t.taken ≡ handled session)
    × (all (λ b. b) stores ≡ true → all_turned session ≡ true → all_turned t ≡ true)
unfolding run apply is_stopped steps_left
rans-drained_example =
    rans-drained session stores (run-Consistent steps new_session new_session-Consistent) refl refl
      (omega arith)
