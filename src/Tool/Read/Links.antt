-- ===== src/Tool/Read/Links.antt =====
-- What `ReadTool` shows through a symbolic link, and what the gate is asked about.
use mathlib.Core.Bool.{false≢true}
use hai_code.Base.{
  subst, sym, ap, ◌∙◌, Bytes, ℕ, ℤ, ◌≡◌, refl, none, some, [], true, false, arith, inl, inr, ◌⊎◌,
  Bool-cases, Option-cases,
}
use hai_code.Permission.Path.{is_empty, path_is_always_readable}
use hai_code.Permission.Types.{ToolResult}
use hai_code.Tool.Paths.{ShownInput, resolve_path}
use hai_code.Tool.Read.{
  Disk, Stream, opened, unopened, unbuffered, show_file, is_binary, read_loop, failure, link_target,
  read_path, execute, resource, first_line, line_limit,
}

show_file-success :
    (offset limit : ℕ) (path : Bytes) (file : Stream)
    → (show_file offset limit path file).success ≡ true
    → (s : Bytes) × (file ≡ opened s)
      × (is_binary s ≡ false)
      × ((show_file offset limit path file).output ≡ read_loop offset limit 0 0 [] [] s)
unfolding show_file failure
show_file-success offset limit path (unopened why) h = cc
show_file-success offset limit path unbuffered h = cc
show_file-success offset limit path (opened s) h = elim (Bool-cases (is_binary s)) [
  | inl e ↦ absurd (ground arith)
  | inr e ↦ (s, refl, e, rw e refl)
]

link_target-readable :
    (disk : Disk) (path working_dir resolved : Bytes)
    → link_target disk path working_dir ≡ some resolved
    → (disk.realpath path ≡ some resolved)
      × (path_is_always_readable disk.realpath resolved working_dir ≡ true)
unfolding link_target
link_target-readable disk path working_dir resolved h = ground arith

-- A path is opened as it is, refusing a link as its last component, or that is one and what it resolves to
-- is always readable.
abbrev pub OpensAs : Disk → Bytes → Bytes → Bytes → Type 0
OpensAs disk target working_dir s =
    (disk.open_nofollow target ≡ some (opened s))
    ⊎ ((resolved : Bytes) × (disk.open_nofollow target ≡ none)
        × (disk.realpath target ≡ some resolved)
        × (path_is_always_readable disk.realpath resolved working_dir ≡ true)
        × (disk.open_following resolved ≡ opened s))

-- What is returned is that of showing a file's file, or a failure.
abbrev Shown : Disk → ℕ → ℕ → Bytes → Bytes → ToolResult → Type 0
Shown disk offset limit target working_dir r =
    (s : Bytes) × OpensAs disk target working_dir s
    × (is_binary s ≡ false)
    × (r.output ≡ read_loop offset limit 0 0 [] [] s)

file-Shown :
    (disk : Disk) (offset limit : ℕ) (target working_dir : Bytes) (file : Stream)
    → ((s : Bytes) → file ≡ opened s → OpensAs disk target working_dir s)
    → (show_file offset limit target file).success ≡ true
    → Shown disk offset limit target working_dir (show_file offset limit target file)
file-Shown disk offset limit target working_dir file opens h =
    let (s, f, b, o) = show_file-success offset limit target file h in (s, opens s f, b, o)

module _ (disk : Disk) (offset limit : ℕ) (target working_dir : Bytes) where
  read_path_direct :
      (file : Stream)
      → disk.open_nofollow target ≡ some file
      → show_file offset limit target file ≡ read_path disk offset limit target working_dir
  unfolding read_path
  read_path_direct file e = ground arith

  read_path_refused :
      disk.open_nofollow target ≡ none
      → link_target disk target working_dir ≡ none
      → (read_path disk offset limit target working_dir).success ≡ false
  unfolding read_path failure
  read_path_refused e t = ground arith

  read_path_link :
      (resolved : Bytes)
      → disk.open_nofollow target ≡ none
      → link_target disk target working_dir ≡ some resolved
      → show_file offset limit target (disk.open_following resolved)
        ≡ read_path disk offset limit target working_dir
  unfolding read_path
  read_path_link resolved e t = ground arith

  Succeeds : ToolResult → Type 0
  Succeeds r = r.success ≡ true → Shown disk offset limit target working_dir r

  read_path-Shown : Succeeds (read_path disk offset limit target working_dir)
  unfolding Succeeds
  read_path-Shown = elim (Option-cases (disk.open_nofollow target)) [
    | inr (file, e) ↦
        subst Succeeds (read_path_direct file e)
          (file-Shown disk offset limit target working_dir file (λ s f. inl (e ∙ ap some f)))
    | inl e ↦ elim (Option-cases (link_target disk target working_dir)) [
      | inl t ↦ λ k. absurd (false≢true (sym (read_path_refused e t) ∙ k))
      | inr (resolved, t) ↦
          let (r, a) = link_target-readable disk target working_dir resolved t in
          subst Succeeds (read_path_link resolved e t) (
            file-Shown disk offset limit target working_dir (disk.open_following resolved)
              (λ s f. inr (resolved, e, r, a, f)))
    ]
  ]

-- Where a read succeeds, the path that the gate was asked about was opened with `O_NOFOLLOW`, so that
-- its last component is no link (directories in front may be), or that was refused as a link, and the
-- path that it resolves to is always readable and was opened; what is shown are lines of what was
-- opened, which is not binary.
pub execute_opened :
    (disk : Disk) (path : Bytes) (offset limit : ℤ) (input : ShownInput) (working_dir : Bytes)
    → (execute disk path offset limit input working_dir).success ≡ true
    → (s : Bytes) × OpensAs disk (resource path working_dir) working_dir s
      × (is_binary s ≡ false)
      × ((execute disk path offset limit input working_dir).output
          ≡ read_loop (first_line offset) (line_limit limit) 0 0 [] [] s)
unfolding execute resource failure Succeeds
execute_opened disk path offset limit input working_dir h = elim (Bool-cases (is_empty path)) [
  | inl e ↦ absurd (ground arith)
  | inr e ↦ rw e (
      read_path-Shown disk (first_line offset) (line_limit limit) (resolve_path path working_dir)
        working_dir (rw e at h))
]
