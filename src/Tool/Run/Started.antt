-- ===== src/Tool/Run/Started.antt =====
-- What `GitTool` starts, and when it reports a success.
use hai_code.Base.{pos, Bytes, ◌≡◌, Option, false, List, codes}
use hai_code.Permission.Git.{git_invocation_is_readonly}
use hai_code.Tool.Shell.{git_command}
use hai_code.Util.Subprocess.{SubprocessResult}
use hai_code.Tool.Run.{Command, git_env}

-- The command ran to its end and reported no failure.
pub record Ended (r : SubprocessResult) : Type 0 where
  pub zero_exit : r.exit_code ≡ pos 0
  pub in_time : r.timed_out ≡ false
  pub undisturbed : r.interrupted ≡ false

module _ (run_subprocess : Command → SubprocessResult) (realpath : Bytes → Option Bytes) where
  -- The command that an allowed subcommand is run by.
  abbrev pub git_started : Bytes → List Bytes → Bytes → Command
  git_started sub args working_dir =
      let readonly = git_invocation_is_readonly realpath sub args working_dir in
      record {
        line = git_command working_dir sub readonly args;
        directory = codes ".";
        timeout_sec = 300;
        env = git_env readonly;
      }
