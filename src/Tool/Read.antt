-- ===== src/Tool/Read.antt =====
-- `ReadTool` of lib/src/tool/tools.cpp: which file is opened, and the numbered lines that are shown.
pub mod Lines
pub mod Links
pub mod Window
use hai_code.Base.{
  Bytes, ℕ, ℤ, pos, negsuc, zero, suc, ◌+◌, ◌-◌, Option, none, some, Bool, true, false, not, ◌&&◌,
  ◌||◌, List, [], ◌∷◌, ◌++◌, codes, length, take, ltb, leb, to_string, ◌==◌, any, if◌then◌else◌,
}
use hai_code.Permission.Types.{ToolResult}
use hai_code.Permission.Path.{is_empty, path_is_always_readable}
use hai_code.Tool.Paths.{resolve_path, ShownInput, missing_field}

abbrev pub max_output : ℕ
max_output = 102400

-- `offset`, at least 1.
pub first_line : ℤ → ℕ
first_line (pos n) = if ltb n 1 then 1 else n
first_line (negsuc n) = 1

-- `limit`, where 0 is none: the loop asks whether it is above 0.
pub line_limit : ℤ → ℕ
line_limit (pos n) = n
line_limit (negsuc n) = 0

unfoldable pub entry : ℕ → Bytes → Bytes
entry lineno line = to_string lineno ++ (9 ∷ (line ++ 10 ∷ []))

abbrev pub truncated : Bytes
truncated = 10 ∷ codes "[output truncated]"

module _ (offset limit : ℕ) where
  -- Behind the loop: the line that no newline ends.
  pub last_line : ℕ → Bytes → Bytes → Bytes
  last_line lineno [] output = output
  last_line lineno (c ∷ line) output =
      if leb offset (lineno + 1) then output ++ entry (lineno + 1) (c ∷ line) else output

  -- The loop over the bytes that `fgetc` returns.
  pub read_loop : ℕ → ℕ → Bytes → Bytes → Bytes → Bytes
  unfolding last_line entry
  read_loop lineno printed line output [] = last_line lineno line output
  read_loop lineno printed line output (c ∷ s) =
      let shown = output ++ entry (lineno + 1) line in
      let next = read_loop (lineno + 1) (printed + 1) [] shown s in
      let skipped = read_loop (lineno + 1) printed [] output s in
      let more = read_loop lineno printed (line ++ c ∷ []) output s in
      if c == 10
      then (if leb offset (lineno + 1)
          then (if leb max_output (length shown)
              then take max_output shown ++ truncated
              else if ltb 0 limit && leb limit (printed + 1)
              then shown
              else next)
          else skipped)
      else more

-- What `open` and `fdopen` answer: a file's bytes, an error of `open` with its text, or no
-- stream.
pub data Stream : Type 0 where
  opened : Bytes → Stream
  unopened : Bytes → Stream
  unbuffered : Stream

-- The first 8192 bytes have a zero.
pub is_binary : Bytes → Bool
is_binary s = any (λ c. c == 0) (take 8192 s)

pub failure : Bytes → ToolResult
failure error = record { success = false; output = []; error = error; denied = false }

-- What the system answers for a path: opened with `O_NOFOLLOW`, which refuses a link as the last
-- component only (nothing is `ELOOP`; links in front of it are followed), opened without it, and
-- resolved.
pub record Disk : Type 0 where
  pub open_nofollow : Bytes → Option Stream
  pub open_following : Bytes → Stream
  pub realpath : Bytes → Option Bytes

pub show_file : ℕ → ℕ → Bytes → Stream → ToolResult
unfolding is_binary failure read_loop
show_file offset limit path (unopened why) =
    failure (codes "Cannot open file: " ++ (path ++ (codes ": " ++ why)))
show_file offset limit path unbuffered = failure (codes "Cannot open file: " ++ path)
show_file offset limit path (opened s) =
    if is_binary s then failure (codes "Binary file, cannot display: " ++ path) else record {
      success = true;
      output = read_loop offset limit 0 0 [] [] s;
      error = [];
      denied = false;
    }

module _ (disk : Disk) where
  -- The target of a link, where it resolves and is always readable.
  pub link_target : Bytes → Bytes → Option Bytes
  link_target path working_dir = elim (disk.realpath path) [
    | none ↦ none
    | some resolved ↦
        if path_is_always_readable disk.realpath resolved working_dir then some resolved else none
  ]

  pub read_path : ℕ → ℕ → Bytes → Bytes → ToolResult
  unfolding show_file link_target failure
  read_path offset limit path working_dir = elim (disk.open_nofollow path) [
    | some file ↦ show_file offset limit path file
    | none ↦ elim (link_target path working_dir) [
      | none ↦ failure (codes "Cannot read through symlink: " ++ path)
      | some resolved ↦ show_file offset limit path (disk.open_following resolved)
    ]
  ]

  -- `execute`, with the members of its input, and how the input is shown.
  unfoldable pub execute : Bytes → ℤ → ℤ → ShownInput → Bytes → ToolResult
  unfolding read_path failure
  execute path offset limit input working_dir =
      if is_empty path
      then failure (missing_field (codes "read") (codes "path") input)
      else read_path (first_line offset) (line_limit limit) (resolve_path path working_dir)
          working_dir

-- `resource`: what the permission gate is asked about.
pub resource : Bytes → Bytes → Bytes
resource path working_dir = if is_empty path then working_dir else resolve_path path working_dir
