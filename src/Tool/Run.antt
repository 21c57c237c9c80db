-- ===== src/Tool/Run.antt =====
-- The tools of lib/src/tool/tools.cpp that run a command: `BashTool`, `GrepTool`, `FindTool` and
-- `GitTool`. `run_subprocess` is a parameter: what it returns for what it is given.
pub mod Started
use mathlib.Core.Option
use hai_code.Base.{
  Bytes, ℕ, ℤ, pos, negsuc, ◌+◌, Option, none, some, Bool, true, false, not, ◌&&◌, ◌||◌, List, [],
  ◌∷◌, ◌++◌, codes, eq, contains, ltb, to_string, int_to_string, ◌==◌, if◌then◌else◌,
}
use hai_code.Permission.Types.{ToolResult}
use hai_code.Permission.Path.{is_empty}
use hai_code.Permission.Git.{git_invocation_is_readonly}
use hai_code.Util.Subprocess.{SubprocessResult}
use hai_code.Tool.Paths.{resolve_path, ShownInput, missing_field}
use hai_code.Tool.Shell.{git_allowed, git_command, grep_command, find_command}

-- What a command is started with.
pub record Command : Type 0 where
  pub line : Bytes
  pub directory : Bytes
  pub timeout_sec : ℕ
  pub env : List (Bytes × Bytes)

-- The result of a call, and the command that it has started.
abbrev pub Outcome : Type 0
Outcome = ToolResult × Option Command

pub result : Bool → Bytes → Bytes → ToolResult
result success output error = record {
  success = success;
  output = output;
  error = error;
  denied = false;
}

pub is_zero : ℤ → Bool
is_zero (pos n) = n == 0
is_zero (negsuc n) = false

pub with_mark : SubprocessResult → Bytes
with_mark r = if r.truncated then r.output ++ (10 ∷ codes "[output truncated]") else r.output

-- The timeout: at least a second, at most ten minutes, and 30 seconds where it is not positive.
pub clamp_timeout : ℤ → ℕ
clamp_timeout (pos n) = if n == 0 then 30 else if ltb 600 n then 600 else n
clamp_timeout (negsuc n) = 30

pub bash_result : ℕ → SubprocessResult → ToolResult
unfolding result is_zero with_mark
bash_result timeout r =
    if r.interrupted
    then result false r.output (codes "Command interrupted")
    else if r.timed_out
    then result false r.output
        (codes "Command timed out after " ++ (to_string timeout ++ codes "s"))
    else result (is_zero r.exit_code) (with_mark r)
        (if is_zero r.exit_code then [] else codes "Exit code: " ++ int_to_string r.exit_code)

or_text : Bytes → Bytes → Bytes
or_text text [] = text
or_text text (c ∷ s) = c ∷ s

pub grep_result : SubprocessResult → ToolResult
unfolding result with_mark or_text
grep_result r =
    if (elim r.exit_code [ pos n ↦ n == 2 | negsuc n ↦ false ]) || (r.timed_out || r.interrupted)
    then result false r.output (
        if r.timed_out
        then codes "grep timed out"
        else if r.interrupted
        then codes "grep interrupted"
        else codes "grep error")
    else result true (or_text (codes "(no matches)") (with_mark r)) []

pub find_result : SubprocessResult → ToolResult
unfolding result is_zero with_mark or_text
find_result r =
    if r.timed_out || (r.interrupted || not (is_zero r.exit_code))
    then result false [] (
        if r.timed_out
        then codes "find timed out"
        else if r.interrupted
        then codes "find interrupted"
        else codes "find error: " ++ r.output)
    else result true (or_text (codes "(no matches)") (with_mark r)) []

pub git_result : SubprocessResult → ToolResult
unfolding result is_zero with_mark
git_result r =
    if r.timed_out
    then result false r.output (codes "git timed out after 300s")
    else if r.interrupted
    then result false r.output (codes "git interrupted")
    else if not (is_zero r.exit_code) && is_empty (with_mark r)
    then result false [] (codes "git exited with code " ++ int_to_string r.exit_code)
    else result (is_zero r.exit_code) (with_mark r)
        (if is_zero r.exit_code then [] else with_mark r)

pub git_env : Bool → List (Bytes × Bytes)
git_env readonly =
    (codes "GIT_TERMINAL_PROMPT", codes "0")
    ∷ (if readonly then (codes "GIT_OPTIONAL_LOCKS", codes "0") ∷ [] else [])

module _ (run_subprocess : Command → SubprocessResult) (realpath : Bytes → Option Bytes) where
  started : Command → (SubprocessResult → ToolResult) → Outcome
  started c finish = (finish (run_subprocess c), some c)

  -- `BashTool::execute`.
  pub bash_execute : Bytes → ℤ → ShownInput → Bytes → Outcome
  unfolding started result
  bash_execute command timeout input working_dir =
      if is_empty command
      then (result false [] (missing_field (codes "bash") (codes "command") input), none)
      else started
          (record {
            line = codes "{ " ++ (command ++ codes "; }");
            directory = working_dir;
            timeout_sec = clamp_timeout timeout;
            env = [];
          })
          (bash_result (clamp_timeout timeout))

  -- `GitTool::execute`, with the texts among `args`.
  unfoldable pub git_execute : Bytes → List Bytes → ShownInput → Bytes → Outcome
  unfolding started result
  git_execute sub args input working_dir =
      let readonly = git_invocation_is_readonly realpath sub args working_dir in
      if is_empty sub
      then (result false [] (missing_field (codes "git") (codes "subcommand") input), none)
      else if not (contains git_allowed sub)
      then (result false [] (codes "git: subcommand not allowed: " ++ sub), none)
      else started
          (record {
            line = git_command working_dir sub readonly args;
            directory = codes ".";
            timeout_sec = 300;
            env = git_env readonly;
          })
          git_result

  -- `FindTool::execute`.
  pub find_execute :
      Bytes → Option ℤ → Option Bytes → Option Bytes → Option Bytes → Option Bytes → Bytes → Outcome
  unfolding started
  find_execute path maxdepth type name mtime size working_dir =
      let target = if is_empty path then working_dir else resolve_path path working_dir in
      started
        (record {
          line = find_command target maxdepth type name mtime size;
          directory = codes ".";
          timeout_sec = 60;
          env = [];
        })
        find_result

  -- `GrepTool::execute`, where the path is none if it is missing or no text.
  pub grep_execute : Bytes → Option Bytes → Bytes → Bool → ShownInput → Bytes → Outcome
  unfolding started result
  grep_execute pattern path include line_numbers input working_dir =
      let target : Bytes = elim path [
        | none ↦ if is_empty working_dir then codes "." else working_dir
        | some p ↦ resolve_path p working_dir
      ] in
      if is_empty pattern
      then (result false [] (missing_field (codes "grep") (codes "pattern") input), none)
      else started
          (record {
            line = grep_command pattern include line_numbers target;
            directory = codes ".";
            timeout_sec = 60;
            env = [];
          })
          grep_result
