-- ===== src/Engine/Runner.antt =====
-- The runner of one session in `SessionEngine` of lib/src/engine/engine.cpp: prompts that are submitted,
-- the queue behind a running turn, interrupts, and the thread that drains the queue. What the code does
-- under `mu_` at one time is one step here; steps of different threads come in any order.
pub mod Invariant
pub mod Turns
pub mod Fifo
pub mod Drain
use hai_code.Base.{
  Bytes, ℕ, zero, suc, ◌+◌, ◌-◌, Option, none, some, Bool, true, false, not, ◌&&◌, ◌||◌, List, [],
  ◌∷◌, ◌++◌, ◌==◌, if◌then◌else◌,
}

-- Where the runner's thread is: it waits to start, with a row or with none; in a turn; at the head of
-- the inner loop of `drain_queue_and_finish`; where `TurnEnded` is published; behind the outer loop.
pub data Phase : Type 0 where
  idle : Phase
  starting : Option Bytes → Phase
  in_turn draining announcing stopping : Phase

-- The members of the engine that are about the session. `taken` has the rows that the runner has taken,
-- each with whether it was stored and a turn was begun for it; `transcript` the rows that were written without a turn.
pub record Session : Type 0 where
  pub queue : List Bytes
  pub running : Bool
  pub shutting_down : Bool
  pub retiring : Bool
  pub interrupts : ℕ
  pub interrupt_flag : Option Bool
  pub phase : Phase
  pub taken : List (Bytes × Bool)
  pub transcript : List Bytes

abbrev pub new_session : Session
new_session = record {
  queue = [];
  running = false;
  shutting_down = false;
  retiring = false;
  interrupts = 0;
  interrupt_flag = none;
  phase = idle;
  taken = [];
  transcript = [];
}

-- The flag of the last runner, where there has been one.
set_flag : Bool → Option Bool → Option Bool
set_flag b none = none
set_flag b (some _) = some b

-- `spawn_runner_locked`.
pub spawn_runner_locked : Option Bytes → Session → Session
spawn_runner_locked row s = record s {
  running = true;
  interrupt_flag = some false;
  phase = starting row;
}

-- The block of `submit_prompt` that persists or queues.
pub submit_prompt : Bytes → Session → Session
unfolding spawn_runner_locked
submit_prompt row s =
    if s.shutting_down || s.retiring
    then s
    else if s.running
    then record s { queue = s.queue ++ row ∷ [] }
    else spawn_runner_locked (some row) s

pub inject_message : Bytes → Session → Session
inject_message row s =
    if s.shutting_down || s.retiring
    then s
    else if s.running
    then record s { queue = s.queue ++ row ∷ [] }
    else record s { transcript = s.transcript ++ row ∷ [] }

pub continue_session : Session → Session
unfolding spawn_runner_locked
continue_session s =
    if s.shutting_down || s.retiring then s else if s.running then s else spawn_runner_locked none s

-- The first and the last block of `interrupt`.
pub interrupt_begin : Session → Session
unfolding set_flag
interrupt_begin s = record s {
  interrupts = s.interrupts + 1;
  interrupt_flag = set_flag true s.interrupt_flag;
}

pub interrupt_end : Session → Session
interrupt_end s = record s { interrupts = s.interrupts - 1 }

-- The first block of `shutdown`.
pub begin_shutdown : Session → Session
unfolding set_flag
begin_shutdown s =
    if s.shutting_down
    then s
    else record s { shutting_down = true; interrupt_flag = set_flag true s.interrupt_flag }

-- The first block of `delete_session` for a session that the store still has; it discards the queue.
pub begin_delete : Session → Session
unfolding set_flag
begin_delete s =
    if s.shutting_down
    then s
    else record s { retiring = true; queue = []; interrupt_flag = set_flag true s.interrupt_flag }

-- `run_turn_barried`: where there is a row, it is stored, and where that fails (the row does not parse, or
-- the database refuses it) there is no turn. `stored` is whether it succeeds.
pub run_turn : Bool → Option Bytes → Session → Session
run_turn stored none s = record s { phase = in_turn }
run_turn stored (some row) s = record s {
  phase = if stored then in_turn else draining;
  taken = s.taken ++ (row, stored) ∷ [];
}

-- The flag clears and the queue is discarded.
unfoldable pub finish : Session → Session
finish s = record s { queue = []; running = false; phase = idle }

-- The block at the head of the inner loop.
pub next_prompt : Bool → List Bytes → Session → Session
unfolding run_turn set_flag
next_prompt stored queue s =
    if s.shutting_down || s.retiring then record s { phase = stopping } else elim queue [
      | [] ↦ record s { phase = announcing }
      | row ∷ rows ↦
          run_turn stored (some row)
            (record s { queue = rows; interrupt_flag = set_flag false s.interrupt_flag })
    ]

-- The block behind `TurnEnded`.
unfoldable pub decide : List Bytes → Session → Session
unfolding finish
decide queue s =
    if s.shutting_down
    then finish s
    else elim queue [ [] ↦ finish s | row ∷ rows ↦ record s { phase = draining } ]

-- The runner's next step, where the wait of `run_cv_` lets it go on.
pub advance : Bool → Phase → Session → Session
unfolding run_turn next_prompt decide finish
advance stored idle s = s
advance stored (starting row) s = if s.interrupts == 0 then run_turn stored row s else s
advance stored in_turn s = record s { phase = draining }
advance stored draining s = if s.interrupts == 0 then next_prompt stored s.queue s else s
advance stored announcing s = decide s.queue s
advance stored stopping s = finish s

pub runner_step : Bool → Session → Session
unfolding advance
runner_step stored s = advance stored s.phase s

pub data Event : Type 0 where
  submitted injected : Bytes → Event
  continued interrupt_began interrupt_ended shut_down retired : Event
  ran : Bool → Event

-- One step of some thread, the runner's with whether the row that it may come to can be stored; what `retry_last_turn` does behind its own check is that of `continued`.
unfoldable pub apply : Event → Session → Session
unfolding submit_prompt inject_message continue_session interrupt_begin interrupt_end begin_shutdown
    begin_delete runner_step
apply (submitted row) s = submit_prompt row s
apply (injected row) s = inject_message row s
apply continued s = continue_session s
apply interrupt_began s = interrupt_begin s
apply interrupt_ended s = interrupt_end s
apply shut_down s = begin_shutdown s
apply retired s = begin_delete s
apply (ran stored) s = runner_step stored s

unfoldable pub run : List Event → Session → Session
run [] s = s
run (e ∷ es) s = run es (apply e s)
