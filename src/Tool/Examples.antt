-- ===== src/Tool/Examples.antt =====
-- The theorems on the tools at concrete inputs.
use hai_code.Base.{List}
use hai_code.Tool.Shell.Words.{has_zero}
use hai_code.Base.{
  starts_with, to_string, take, arith, Bytes, ℕ, pos, ◌-◌, ◌≡◌, ◌≤◌, refl, Bool, true, false, [],
  ◌∷◌, Option, none, some, codes, drop,
}
use hai_code.Tool.Edit.{find, save, save_edited, FileRead, contents, edit_execute, edit_content}
use hai_code.Permission.Types.{ToolResult}
use hai_code.Permission.Path.{is_empty, is_absolute}
use hai_code.Permission.Git.{git_invocation_is_readonly}
use hai_code.Util.Subprocess.{SubprocessResult}
use hai_code.Util.AtomicWrite.{
  Kernel, Calls, wrote, atomic_write_file, write_loop, effective_mode, created, mode_set,
  wrote_bytes, attributes_copied, flushed, closed, renamed,
}
use hai_code.Tool.Shell.{git_command, find_command}
use hai_code.Tool.Shell.Words.{shell_words}
use hai_code.Tool.Shell.Search.{find_argv, shell_words-find_command}
use hai_code.Tool.Run.{Command, git_execute, git_env}
use hai_code.Tool.Paths.{resolve_path, empty_object}
use hai_code.Tool.Read.{
  Disk, opened, is_binary, execute, read_loop, resource, first_line, line_limit, entry,
}
use hai_code.Tool.Read.Lines.{file_of}
use hai_code.Tool.Read.Window.{render, all_lines, at_most, read_loop_window}
use hai_code.Tool.Read.Links.{OpensAs, execute_opened}
use hai_code.Tool.Edit.Replaced.{Pieces}
use hai_code.Tool.Edit.Written.{Replaces, edit_execute-Replaces}
use hai_code.Tool.Symbols.Tokens.{Token, plain, over, string, bare, escaped}

abbrev kernel : Kernel
kernel = record {
  is_link = false;
  realpath = none;
  stat_mode = some 420;
  mkstemp = some (codes "t1");
  fchmod = true;
  writes = wrote 1 ∷ wrote 2 ∷ [];
  fsync = true;
  close = true;
  rename = true;
  unlink = true;
  strerror = codes "Unknown";
}

abbrev file : Bytes → FileRead
file path = contents (codes "aba")

shell_words-find_command_example :
    shell_words (
      find_command (codes "a;b") (some (pos 2)) none (some (codes "*.c")) none (some (codes "+1k")))
    ≡ some
        (find_argv (codes "a;b") (some (pos 2)) none (some (codes "*.c")) none (some (codes "+1k")))
unfolding has_zero
shell_words-find_command_example =
    shell_words-find_command (codes "a;b") (some (pos 2)) none (some (codes "*.c")) none
      (some (codes "+1k")) refl refl

abbrev ran_well : Command → SubprocessResult
ran_well c = record {
  exit_code = pos 0;
  timed_out = false;
  interrupted = false;
  truncated = false;
  output = codes "ok";
}

abbrev here : Bytes → Option Bytes
here path = some path

abbrev readonly : Bool
readonly = git_invocation_is_readonly here (codes "log") (codes "-1" ∷ []) (codes "/w")

abbrev git_call : Command
git_call = record {
  line = git_command (codes "/w") (codes "log") readonly (codes "-1" ∷ []);
  directory = codes ".";
  timeout_sec = 300;
  env = git_env readonly;
}

abbrev git_answer : ToolResult
git_answer = (git_execute ran_well here (codes "log") (codes "-1" ∷ []) empty_object (codes "/w")).0

read_loop_window_example :
    read_loop 2 1 0 0 [] [] (file_of (codes "a" ∷ codes "b" ∷ []) (codes "c"))
    ≡ render 2 (at_most 1 (drop (2 - 1) (all_lines (codes "a" ∷ codes "b" ∷ []) (codes "c"))))
unfolding to_string take render all_lines at_most drop entry
read_loop_window_example =
    read_loop_window 2 1 (codes "a" ∷ codes "b" ∷ []) (codes "c") (omega arith)
      ((refl, tt), ((refl, tt), tt)) (refl, tt) (ground arith)

abbrev disk : Disk
disk = record {
  open_nofollow = λ path. some (opened (codes "int"));
  open_following = λ path. opened (codes "int");
  realpath = λ path. some (codes "/boot/system/develop/headers/a.h");
}

execute_opened_example :
    (s : Bytes) × OpensAs disk (resource (codes "a.h") (codes "/w")) (codes "/w") s
    × (is_binary s ≡ false)
    × ((execute disk (codes "a.h") (pos 0) (pos 0) empty_object (codes "/w")).output
        ≡ read_loop (first_line (pos 0)) (line_limit (pos 0)) 0 0 [] [] s)
unfolding execute is_empty take
execute_opened_example =
    execute_opened disk (codes "a.h") (pos 0) (pos 0) empty_object (codes "/w") refl

-- The end of a string, a call with a string that has an escaped quote, and a comment that goes on.
abbrev tokens : List Token
tokens =
    plain b'f' ∷ plain b'(' ∷ string (escaped b'"' ∷ bare b'{' ∷ []) ∷ over b'x' ∷ plain b')' ∷ []

abbrev done : Bytes → ToolResult
done output = record { success = true; output = output; error = []; denied = false }

abbrev calls : Bytes → Bytes → Bytes → Calls
calls path first rest =
    (created (codes "t1"), true)
    ∷ (mode_set 420, true)
    ∷ (wrote_bytes first, true)
    ∷ (wrote_bytes rest, true)
    ∷ (attributes_copied path, true)
    ∷ (flushed, true)
    ∷ (closed, true)
    ∷ (renamed (codes "t1") path, true)
    ∷ []

edit_execute-Replaces_example :
    (text content content' : Bytes) × (n : ℕ) × (some (codes "c") ≡ some text)
    × (file (resolve_path (codes "/f") (codes "/")) ≡ contents content)
    × Pieces (codes "b") text content content' n
    × (1 ≤ n)
    × (false ≡ false → n ≡ 1)
    × Replaces kernel
        (resolve_path (codes "/f") (codes "/"))
        content'
        (calls (codes "/f") (codes "a") (codes "ca"))
unfolding edit_execute is_empty save_edited edit_content take find starts_with drop save
    atomic_write_file write_loop resolve_path effective_mode is_absolute
edit_execute-Replaces_example =
    edit_execute-Replaces kernel file (codes "/f") (codes "b") (some (codes "c")) false empty_object
      (codes "/") (done (codes "Edited /f")) (calls (codes "/f") (codes "a") (codes "ca")) refl refl
