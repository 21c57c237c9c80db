-- ===== src/Tool/Edit.antt =====
-- `EditTool` and `WriteTool` of lib/src/tool/tools.cpp. Both end in `atomic_write_file`.
pub mod Find
pub mod Written
pub mod Replaced
use hai_code.Base.{
  Bytes, ℕ, zero, suc, ◌+◌, Option, none, some, Bool, true, false, not, ◌&&◌, List, [], ◌∷◌, ◌++◌,
  codes, length, take, drop, any, ltb, starts_with, to_string, ◌==◌, if◌then◌else◌,
}
use hai_code.Permission.Types.{ToolResult}
use hai_code.Permission.Path.{is_empty}
use hai_code.Util.AtomicWrite.{Kernel, Calls, atomic_write_file}
use hai_code.Tool.Paths.{resolve_path, ShownInput, missing_field, make_parent_dirs, MkdirAnswer}

pub behind : ℕ → Option (Bytes × Bytes) → Option (Bytes × Bytes)
behind c none = none
behind c (some (b, a)) = some (c ∷ b, a)

-- `s.find(old)`, as the text in front of the first occurrence and the text behind it.
unfoldable pub find : Bytes → Bytes → Option (Bytes × Bytes)
unfolding behind
find old [] = if is_empty old then some ([], []) else none
find old (c ∷ s) =
    let rest = find old s in
    if starts_with old (c ∷ s) then some ([], drop (length old) (c ∷ s)) else behind c rest

-- The loop that counts, which goes on behind each occurrence.
unfoldable pub count : ℕ → Bytes → Bytes → ℕ
count zero old s = 0
count (suc fuel) old s = elim (find old s) [ none ↦ 0 | some (b, a) ↦ suc (count fuel old a) ]

-- The loop of `replace_all`, with what it appends behind its end.
pub replace : ℕ → Bytes → Bytes → Bytes → Bytes
replace zero old new s = s
replace (suc fuel) old new s = elim (find old s) [
  | none ↦ s
  | some (b, a) ↦ b ++ (new ++ replace fuel old new a)
]

-- Rounds enough for a text: each takes a byte at least.
pub rounds : Bytes → ℕ
rounds s = suc (length s)

-- Without `replace_all`: the first occurrence is replaced.
pub replace_first : Bytes → Bytes → Bytes → Bytes
replace_first old new s = elim (find old s) [ none ↦ s | some (b, a) ↦ b ++ (new ++ a) ]

pub looks_binary : Bytes → Bool
looks_binary s = any (λ c. c == 0) (take 8192 s)

-- What is edited, or the error that is returned.
pub data Edited : Type 0 where
  refused : Bytes → Edited
  edited : Bytes → Bytes → Edited

-- From the file's content on: the new content and the summary.
unfoldable pub edit_content : Bytes → Bytes → Bytes → Bool → Bytes → Edited
unfolding count replace replace_first rounds looks_binary
edit_content path old new replace_all content =
    let n = count (rounds content) old content in
    if looks_binary content
    then refused (codes "Binary file, cannot edit: " ++ path)
    else if n == 0
    then refused (
        codes "old_string not found in "
        ++ (path ++ codes ". Read the file and copy the exact text (including whitespace)."))
    else if not replace_all && ltb 1 n
    then refused (
        codes "old_string appears "
        ++ (to_string n
            ++ (codes " times in "
                ++ (path
                    ++ (codes ". Include more surrounding context to make it unique, "
                        ++ codes "or set replace_all=true.")))))
    else if replace_all
    then edited (replace (rounds content) old new content)
        (codes "Replaced " ++ (to_string n ++ (codes " occurrences in " ++ path)))
    else edited (replace_first old new content) (codes "Edited " ++ path)

pub failure : Bytes → ToolResult
failure error = record { success = false; output = []; error = error; denied = false }

pub success : Bytes → ToolResult
success output = record { success = true; output = output; error = []; denied = false }

-- What reading a file gives: its bytes, or the text of the error.
pub data FileRead : Type 0 where
  contents : Bytes → FileRead
  unreadable : Bytes → FileRead

-- Behind `atomic_write_file`: its error, or the summary.
pub saved : Bytes → Bytes × Calls → ToolResult × Calls
unfolding failure success
saved summary ([], calls) = (success summary, calls)
saved summary (c ∷ err, calls) = (failure (c ∷ err), calls)

module _ (k : Kernel) where
  unfoldable pub save : Bytes → Bytes → Bytes → Option (ToolResult × Calls)
  unfolding saved
  save path content summary = elim (atomic_write_file k path content 0) [
    | none ↦ none
    | some r ↦ some (saved summary r)
  ]

  unfoldable pub save_edited : Bytes → Edited → Option (ToolResult × Calls)
  unfolding failure
  save_edited path (refused error) = some (failure error, [])
  save_edited path (edited content summary) = save path content summary

  -- `EditTool::execute`, where `new_string` is none if it is missing or no text, and with what the
  -- system makes of reading a path; the calls are those of `atomic_write_file`.
  unfoldable pub edit_execute :
      (Bytes → FileRead)
      → Bytes
      → Bytes
      → Option Bytes
      → Bool
      → ShownInput
      → Bytes
      → Option (ToolResult × Calls)
  unfolding failure
  edit_execute read path old new replace_all input working_dir =
      if is_empty path
      then some (failure (missing_field (codes "edit") (codes "path") input), [])
      else if is_empty old
      then some (
        failure (
            codes "edit: old_string is empty; nothing to find. "
            ++ codes "To delete text, provide both old_string and an empty new_string."),
        [],
      )
      else elim new [
        | none ↦ some (failure (missing_field (codes "edit") (codes "new_string") input), [])
        | some text ↦ elim (read (resolve_path path working_dir)) [
          | unreadable why ↦ some (
            failure (
                codes "Cannot open file: "
                ++ (resolve_path path working_dir ++ (codes ": " ++ why))),
            [],
          )
          | contents content ↦
              save_edited (resolve_path path working_dir)
                (edit_content (resolve_path path working_dir) old text replace_all content)
        ]
      ]

  -- `WriteTool::execute`, where `content` is none if it is missing or no text. The directories that
  -- are made come first.
  pub write_execute :
      (Bytes → Bool)
      → (Bytes → MkdirAnswer)
      → Bytes
      → Option Bytes
      → ShownInput
      → Bytes
      → Option (ToolResult × List Bytes × Calls)
  unfolding failure
  write_execute exists mkdir path content input working_dir =
      if is_empty path
      then some (failure (missing_field (codes "write") (codes "path") input), [], [])
      else elim content [
        | none ↦ some (failure (missing_field (codes "write") (codes "content") input), [], [])
        | some text ↦
            let target = resolve_path path working_dir in
            let (ok, dirs) = make_parent_dirs exists mkdir target in
            if not ok
            then some (
              failure (
                  codes "Cannot create parent directories for: "
                  ++ (target ++ (codes ": " ++ k.strerror))),
              dirs,
              [],
            )
            else elim (save target text
                (codes "Written " ++ (to_string (length text) ++ (codes " bytes to " ++ target)))) [
                  | none ↦ none
                  | some (r, calls) ↦ some (r, dirs, calls)
                ]
      ]
