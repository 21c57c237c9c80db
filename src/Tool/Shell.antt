-- ===== src/Tool/Shell.antt =====
-- The command lines that the tools of lib/src/tool/tools.cpp give to `/bin/sh -c`.
pub mod Words
pub mod Reading
pub mod Git
pub mod Search
use hai_code.Base.{
  Bytes, ℕ, zero, Option, none, some, Bool, true, false, not, ◌&&◌, ◌||◌, List, [], ◌∷◌, ◌++◌,
  codes, eq, contains, ℤ, int_to_string, ◌==◌, if◌then◌else◌,
}
use mathlib.Core.Option
use hai_code.Permission.Path.{is_empty}
use hai_code.Permission.Git.{git_invocation_is_readonly}

abbrev pub quote : ℕ
quote = 39

-- The loop of `sq`: a single quote becomes '\''.
pub escaped : Bytes → Bytes
escaped [] = []
escaped (c ∷ s) = if c == quote then quote ∷ 92 ∷ quote ∷ quote ∷ escaped s else c ∷ escaped s

pub sq : Bytes → Bytes
sq s = quote ∷ (escaped s ++ quote ∷ [])

-- `GitTool::kAllowed`.
abbrev pub git_allowed : List Bytes
git_allowed =
    codes "status"
    ∷ codes "diff"
    ∷ codes "log"
    ∷ codes "show"
    ∷ codes "branch"
    ∷ codes "blame"
    ∷ codes "stash"
    ∷ codes "add"
    ∷ codes "commit"
    ∷ codes "checkout"
    ∷ codes "reset"
    ∷ codes "remote"
    ∷ codes "merge"
    ∷ codes "rebase"
    ∷ codes "pull"
    ∷ codes "push"
    ∷ codes "fetch"
    ∷ codes "tag"
    ∷ codes "shortlog"
    ∷ codes "describe"
    ∷ codes "rev-parse"
    ∷ codes "ls-files"
    ∷ codes "merge-base"
    ∷ codes "rev-list"
    ∷ codes "ls-tree"
    ∷ codes "cat-file"
    ∷ codes "grep"
    ∷ codes "range-diff"
    ∷ codes "for-each-ref"
    ∷ []

abbrev pub git_head : Bytes
git_head =
    codes "git -c core.fsmonitor= -c core.hooksPath=/dev/null"
    ++ (codes " -c gpg.program=false -c gpg.ssh.program=false"
        ++ codes " -c gpg.x509.program=false -c log.showSignature=false -C ")

-- The options behind the subcommand of an invocation that reads only.
pub render_flags : Bytes → Bytes
render_flags sub =
    if eq sub (codes "diff") || (eq sub (codes "log") || eq sub (codes "show"))
    then codes " --no-ext-diff --no-textconv"
    else if eq sub (codes "blame")
    then codes " --no-textconv"
    else []

-- The loop over `args` from the second on.
pub more_args : List Bytes → Bytes
more_args [] = []
more_args (a ∷ args) = 32 ∷ (sq a ++ more_args args)

-- The loop over `args`.
pub git_args : Bytes → Bool → List Bytes → Bytes
git_args sub readonly [] = []
git_args sub readonly (a ∷ args) =
    32
    ∷ (sq a
        ++ ((if eq sub (codes "stash") && readonly
              then codes " --no-ext-diff --no-textconv"
              else [])
            ++ more_args args))

-- `cmd` of `GitTool::execute`.
pub git_command : Bytes → Bytes → Bool → List Bytes → Bytes
git_command working_dir sub readonly args =
    (if readonly
      then git_head ++ (sq working_dir ++ (32 ∷ (sub ++ render_flags sub)))
      else codes "git -C " ++ (sq working_dir ++ (32 ∷ sub)))
    ++ git_args sub readonly args

-- `cmd` of `GrepTool::execute`.
pub grep_command : Bytes → Bytes → Bool → Bytes → Bytes
grep_command pattern include line_numbers path =
    codes "/bin/grep -r -E --color=never"
    ++ ((if line_numbers then codes " -n" else [])
        ++ ((if is_empty include then [] else codes " --include=" ++ sq include)
            ++ (codes " -e " ++ (sq pattern ++ (32 ∷ sq path)))))

abbrev pub option : Bytes → Option Bytes → Bytes
option name none = []
option name (some v) = name ++ v

-- `t` where it is one of the three letters.
pub find_type : Option Bytes → Option Bytes
find_type none = none
find_type (some t) =
    if eq t (codes "f") || (eq t (codes "d") || eq t (codes "l")) then some t else none

abbrev pub quoted : Bytes → Option Bytes → Bytes
quoted name none = []
quoted name (some v) = name ++ sq v

-- `cmd` of `FindTool::execute`: the members that the input has, each of the type that is read.
pub find_command :
    Bytes → Option ℤ → Option Bytes → Option Bytes → Option Bytes → Option Bytes → Bytes
find_command path maxdepth type name mtime size =
    codes "find "
    ++ (sq path
        ++ (option (codes " -maxdepth ") (Option.map int_to_string maxdepth)
            ++ (option (codes " -type ") (find_type type)
                ++ (quoted (codes " -name ") name
                    ++ (quoted (codes " -mtime ") mtime ++ quoted (codes " -size ") size)))))

-- `cmd` of `DiffTool::execute`.
pub diff_command : Bytes → Bytes → Bytes
diff_command path tmp = codes "diff -u " ++ (sq path ++ (32 ∷ sq tmp))
