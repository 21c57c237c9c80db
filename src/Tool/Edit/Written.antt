-- ===== src/Tool/Edit/Written.antt =====
-- What the tools `write` and `edit` have done to the file where they succeed.
use mathlib.Core.Bool.{false≢true}
use hai_code.Base.{
  Bytes, ℕ, ◌≡◌, ◌≤◌, refl, ap, ◌∙◌, sym, Option, none, some, Bool, true, false, List, [], ◌∷◌,
  ◌++◌, arith, codes, to_string, inl, inr, ◌⊎◌, length, Option-cases,
}
use hai_code.Permission.Types.{ToolResult}
use hai_code.Permission.Path.{is_empty}
use hai_code.Util.AtomicWrite.{Kernel, Calls, atomic_write_file, effective_mode, write_path_of}
use hai_code.Util.AtomicWrite.Outcome.{Committed, Discarded, Untouched, atomic_write_file_outcomes}
use hai_code.Tool.Paths.{resolve_path, ShownInput, make_parent_dirs, MkdirAnswer}
use hai_code.Tool.Edit.{
  Edited, edited, refused, FileRead, contents, unreadable, failure, success, saved, save,
  save_edited, edit_content, edit_execute, write_execute,
}
use hai_code.Tool.Edit.Replaced.{Pieces, edit_content-Pieces}

-- The file at a path has been replaced whole by this content.
pub record Replaces (k : Kernel) (path content : Bytes) (calls : Calls) : Type 0 where
  pub tmp : Bytes
  pub target : Bytes
  pub made : k.mkstemp ≡ some tmp
  pub found : write_path_of k path ≡ some target
  pub committed : Committed k content tmp target (effective_mode 0 k.stat_mode) ([], calls)

saved_success :
    (summary : Bytes) (w : Bytes × Calls) (r : ToolResult) (calls : Calls)
    → saved summary w ≡ (r, calls)
    → r.success ≡ true
    → w ≡ ([], calls)
unfolding saved failure success
saved_success summary ([], calls') r calls e h = ground arith
saved_success summary (c ∷ err, calls') r calls e h = ground arith

module _ (k : Kernel) (path content summary : Bytes) (r : ToolResult) (calls : Calls) where
  save_success :
      save k path content summary ≡ some (r, calls)
      → r.success ≡ true
      → atomic_write_file k path content 0 ≡ some ([], calls)
  unfolding save
  save_success e h = elim (Option-cases (atomic_write_file k path content 0)) [
    | inl n ↦ absurd (ground arith)
    | inr (w, f) ↦ f ∙ ap some (saved_success summary w r calls (ground arith) h)
  ]

  no_error : atomic_write_file k path content 0 ≡ some ([], calls) → Replaces k path content calls
  unfolding Untouched Discarded is_empty
  no_error e = elim (atomic_write_file_outcomes k path content 0 ([], calls) e) [
    | inl u ↦ absurd (false≢true (sym u.0))
    | inr (tmp, target, m, f, inl d) ↦ absurd (false≢true (sym d.0))
    | inr (tmp, target, m, f, inr c) ↦ record {
      tmp = tmp;
      target = target;
      made = m;
      found = f;
      committed = c;
    }
  ]

  pub save-Replaces :
      save k path content summary ≡ some (r, calls)
      → r.success ≡ true
      → Replaces k path content calls
  save-Replaces e h = no_error (save_success e h)

write_target :
    (k : Kernel) (exists : Bytes → Bool) (mkdir : Bytes → MkdirAnswer) (path : Bytes)
    (content : Option Bytes) (input : ShownInput) (working_dir : Bytes) (r : ToolResult)
    (dirs : List Bytes) (calls : Calls)
    → write_execute k exists mkdir path content input working_dir ≡ some (r, dirs, calls)
    → r.success ≡ true
    → (text : Bytes) × (summary : Bytes) × (content ≡ some text)
      × (make_parent_dirs exists mkdir (resolve_path path working_dir) ≡ (true, dirs))
      × (save k (resolve_path path working_dir) text summary ≡ some (r, calls))
unfolding write_execute failure
write_target k exists mkdir path none input working_dir r dirs calls e h = absurd (ground arith)
write_target k exists mkdir path (some text) input working_dir r dirs calls e h =
    let target = resolve_path path working_dir in
    let summary = codes "Written " ++ (to_string (length text) ++ (codes " bytes to " ++ target)) in
    elim (Option-cases (save k target text summary)) [
      | inl n ↦ absurd (ground arith)
      | inr ((r', calls'), s) ↦ (text, summary, refl, ground arith, ground arith)
    ]

-- Where `write` succeeds, its input had a content, the directories above the file are there, and the
-- file has been replaced whole by the content: a temporary file took all of it, was flushed and
-- closed, and then took the file's place.
pub write_execute-Replaces :
    (k : Kernel) (exists : Bytes → Bool) (mkdir : Bytes → MkdirAnswer) (path : Bytes)
    (content : Option Bytes) (input : ShownInput) (working_dir : Bytes) (r : ToolResult)
    (dirs : List Bytes) (calls : Calls)
    → write_execute k exists mkdir path content input working_dir ≡ some (r, dirs, calls)
    → r.success ≡ true
    → (text : Bytes) × (content ≡ some text)
      × (make_parent_dirs exists mkdir (resolve_path path working_dir) ≡ (true, dirs))
      × Replaces k (resolve_path path working_dir) text calls
write_execute-Replaces k exists mkdir path content input working_dir r dirs calls e h =
    let (text, summary, given, there, done) =
      write_target k exists mkdir path content input working_dir r dirs calls e h in
    (
      text,
      given,
      there,
      save-Replaces k (resolve_path path working_dir) text summary r calls done h,
    )

FileRead-cases :
    (f : FileRead) → ((s : Bytes) × (f ≡ contents s)) ⊎ ((why : Bytes) × (f ≡ unreadable why))
FileRead-cases (contents s) = inl (s, refl)
FileRead-cases (unreadable why) = inr (why, refl)

Edited-cases :
    (d : Edited) → ((error : Bytes) × (d ≡ refused error)) ⊎ ((s t : Bytes) × (d ≡ edited s t))
Edited-cases (refused error) = inl (error, refl)
Edited-cases (edited s t) = inr (s, t, refl)

edit_target :
    (k : Kernel) (read : Bytes → FileRead) (path old : Bytes) (new : Option Bytes)
    (replace_all : Bool) (input : ShownInput) (working_dir : Bytes) (r : ToolResult) (calls : Calls)
    → edit_execute k read path old new replace_all input working_dir ≡ some (r, calls)
    → r.success ≡ true
    → (text content content' summary : Bytes) × (is_empty old ≡ false)
      × (new ≡ some text)
      × (read (resolve_path path working_dir) ≡ contents content)
      × (edit_content (resolve_path path working_dir) old text replace_all content
          ≡ edited content' summary)
      × (save k (resolve_path path working_dir) content' summary ≡ some (r, calls))
unfolding edit_execute save_edited failure
edit_target k read path old none replace_all input working_dir r calls e h = absurd (ground arith)
edit_target k read path old (some text) replace_all input working_dir r calls e h =
    let target = resolve_path path working_dir in
    elim (FileRead-cases (read target)) [
      | inr (why, f) ↦ absurd (ground arith)
      | inl (content, f) ↦ elim (Edited-cases (edit_content target old text replace_all content)) [
        | inl (error, g) ↦ absurd (ground arith)
        | inr (content', summary, g) ↦
            (text, content, content', summary, ground arith, refl, f, g, ground arith)
      ]
    ]

-- Where `edit` succeeds, its input had a new text, and the file has been replaced whole by what the
-- edit makes of the content that was read: the same pieces between the occurrences of `old_string`,
-- with the new text for each; without `replace_all` there was one occurrence.
pub edit_execute-Replaces :
    (k : Kernel) (read : Bytes → FileRead) (path old : Bytes) (new : Option Bytes)
    (replace_all : Bool) (input : ShownInput) (working_dir : Bytes) (r : ToolResult) (calls : Calls)
    → edit_execute k read path old new replace_all input working_dir ≡ some (r, calls)
    → r.success ≡ true
    → (text content content' : Bytes) × (n : ℕ) × (new ≡ some text)
      × (read (resolve_path path working_dir) ≡ contents content)
      × Pieces old text content content' n
      × (1 ≤ n)
      × (replace_all ≡ false → n ≡ 1)
      × Replaces k (resolve_path path working_dir) content' calls
edit_execute-Replaces k read path old new replace_all input working_dir r calls e h =
    let (text, content, content', summary, nonempty, given, was, made, done) =
      edit_target k read path old new replace_all input working_dir r calls e h in
    let target = resolve_path path working_dir in
    let (_, (n, pieces, least, single)) =
      edit_content-Pieces target old text content replace_all content' summary nonempty made in
    (
      text,
      content,
      content',
      n,
      given,
      was,
      pieces,
      least,
      single,
      save-Replaces k target content' summary r calls done h,
    )
