-- ===== src/Util/Subprocess.antt =====
-- `run_subprocess` of lib/src/util/subprocess.cpp, on the parent's side. The system calls are a parameter,
-- by their answers; what is modelled is what is made of them.
pub mod Output
pub mod Result
use hai_code.Base.{
  Bytes, ℕ, ℤ, pos, negsuc, ◌+◌, ◌-◌, Option, none, some, Bool, true, false, not, ◌&&◌, ◌||◌, List,
  [], ◌∷◌, ◌++◌, length, take, ltb, codes, if◌then◌else◌, ◌==◌,
}
use hai_code.Util.Utf8.{sanitize_utf8}
use hai_code.Util.Truncate.{truncate_utf8}

pub record SubprocessResult : Type 0 where
  pub exit_code : ℤ
  pub timed_out : Bool
  pub interrupted : Bool
  pub truncated : Bool
  pub output : Bytes

-- What is read from the pipe and kept.
pub record Pipe : Type 0 where
  pub output : Bytes
  pub truncated : Bool

-- An answer of `read`: bytes, at least one; `EINTR`; or the end of the pipe or an error. Where the answers
-- end, nothing more is there now.
pub data ReadAnswer : Type 0 where
  got : Bytes → ReadAnswer
  again : ReadAnswer
  closed : ReadAnswer

-- `command.c_str()`, which is what the shell gets: the bytes in front of the first zero.
unfoldable pub c_str : Bytes → Bytes
c_str [] = []
c_str (c ∷ s) = if c == 0 then [] else c ∷ c_str s

min : ℕ → ℕ → ℕ
min a b = if ltb b a then b else a

pub absorb : ℕ → Bytes → Pipe → Pipe
unfolding min
absorb cap buf p =
    let room = min (length buf) (cap - length p.output) in
    if ltb (length p.output) cap
    then record {
      output = p.output ++ take room buf;
      truncated = p.truncated || ltb room (length buf);
    }
    else record p { truncated = true }

-- `drain_available`: whether the pipe stays open, and what is kept.
pub drain_available : ℕ → List ReadAnswer → Pipe → Bool × Pipe
unfolding absorb
drain_available cap [] p = (true, p)
drain_available cap (got buf ∷ answers) p = drain_available cap answers (absorb cap buf p)
drain_available cap (again ∷ answers) p = drain_available cap answers p
drain_available cap (closed ∷ answers) p = (false, p)

-- How the direct child ended.
pub data ExitStatus : Type 0 where
  exited : ℕ → ExitStatus
  signalled : ExitStatus

-- The answer of `poll`: something to read, nothing, or an error that is not `EINTR`.
pub data PollAnswer : Type 0 where
  ready : List ReadAnswer → PollAnswer
  nothing : PollAnswer
  broken : PollAnswer

-- What one round of the loop sees: whether the grace window is open, whether the child was reaped, the
-- interrupt flag, the deadline, the pipe; and where the child is killed, its end and the last reads, of
-- which the second is where `poll` finds something more.
pub record Tick : Type 0 where
  pub in_grace : Bool
  pub waited : Option ExitStatus
  pub interrupt : Bool
  pub late : Bool
  pub polled : PollAnswer
  pub killed : ExitStatus
  pub last : List ReadAnswer
  pub rest : Option (List ReadAnswer)

-- The locals of the loop; `status` is none while the child lives.
pub record Loop : Type 0 where
  pub pipe : Pipe
  pub pipe_open : Bool
  pub status : Option ExitStatus
  pub timed_out : Bool
  pub interrupted : Bool

is_done : Option ExitStatus → Bool
is_done none = false
is_done (some _) = true

-- The condition of the loop.
pub goes_on : Loop → Tick → Bool
unfolding is_done
goes_on l t = not (is_done l.status) || (l.pipe_open && (not l.pipe.truncated && t.in_grace))

module _ (cap : ℕ) where
  -- The reads behind a kill.
  pub drain_last : Tick → Pipe → Pipe
  drain_last t p =
      let (open_still, p') = drain_available cap t.last p in
      if open_still
      then elim t.rest [ none ↦ p' | some answers ↦ (drain_available cap answers p').1 ]
      else p'

  -- The child is killed, and the loop left.
  pub kill : Tick → Loop → Loop
  unfolding drain_last
  kill t l = record l {
    interrupted = t.interrupt;
    timed_out = not t.interrupt;
    status = some t.killed;
    pipe = if l.pipe_open then drain_last t l.pipe else l.pipe;
  }

  -- The part of a round that reads.
  pub poll_pipe : PollAnswer → Loop → Loop
  poll_pipe nothing l = l
  poll_pipe broken l = if l.pipe_open then record l { pipe_open = false } else l
  poll_pipe (ready answers) l =
      let (open_still, p) = drain_available cap answers l.pipe in
      if l.pipe_open then record l { pipe_open = open_still; pipe = p } else l

  -- A round: whether the loop is left, and the locals.
  unfoldable pub round : Tick → Loop → Bool × Loop
  unfolding kill poll_pipe is_done
  round t l =
      if is_done l.status
      then (false, poll_pipe t.polled l)
      else if is_done t.waited
      then (false, poll_pipe t.polled (record l { status = t.waited }))
      else if t.interrupt || t.late
      then (true, kill t l)
      else (false, poll_pipe t.polled l)

  -- The loop, with a tick for each time that its condition is read; none where the ticks end first.
  unfoldable pub loop : List Tick → Loop → Option Loop
  unfolding round goes_on
  loop [] l = none
  loop (t ∷ ticks) l =
      let (left, l') = round t l in
      let next = loop ticks l' in
      if not (goes_on l t) then some l else if left then some l' else next

  exit_code : Option ExitStatus → ℤ
  exit_code (some (exited n)) = pos n
  exit_code _ = negsuc 0

  unfoldable pub finish : Loop → SubprocessResult
  unfolding exit_code
  finish l =
      let output = sanitize_utf8 l.pipe.output in
      record {
        exit_code = if not l.timed_out && not l.interrupted then exit_code l.status else negsuc 0;
        timed_out = l.timed_out;
        interrupted = l.interrupted;
        truncated = l.pipe.truncated;
        output = if ltb cap (length output) then truncate_utf8 output cap else output;
      }

  abbrev pub start : Loop
  start = record {
    pipe = record { output = []; truncated = false };
    pipe_open = true;
    status = none;
    timed_out = false;
    interrupted = false;
  }

  -- `run_subprocess`: where `pipe` or `fork` fails, with the text of that; else with the rounds.
  pub run_subprocess : Option Bytes → List Tick → Option SubprocessResult
  unfolding loop finish
  run_subprocess (some failed) ticks = some (record {
    exit_code = negsuc 0;
    timed_out = false;
    interrupted = false;
    truncated = false;
    output = failed;
  })
  run_subprocess none ticks = elim (loop ticks start) [ none ↦ none | some l ↦ some (finish l) ]
