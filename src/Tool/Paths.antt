-- ===== src/Tool/Paths.antt =====
-- The helpers of lib/src/tool/tools.cpp on paths and missing members, and `make_parent_dirs`.
pub mod Resolved
pub mod Parents
use hai_code.Base.{
  Bytes, ℕ, zero, suc, Option, none, some, Bool, true, false, not, ◌&&◌, ◌||◌, List, [], ◌∷◌, ◌++◌,
  codes, eq, contains, map, leb, ◌+◌, ◌==◌, if◌then◌else◌,
}
use hai_code.Permission.Path.{slash, is_empty, is_absolute}

put_before : ℕ → Bytes → Bytes
put_before c [] = if c == slash then [] else c ∷ []
put_before c (d ∷ s) = c ∷ d ∷ s

-- The loop that takes slashes off the end.
unfoldable pub without_end_slashes : Bytes → Bytes
unfolding put_before
without_end_slashes [] = []
without_end_slashes (c ∷ s) = put_before c (without_end_slashes s)

-- `base.empty() ? "." : base`.
pub or_dot : Bytes → Bytes
or_dot [] = codes "."
or_dot (c ∷ s) = c ∷ s

unfoldable pub resolve_path : Bytes → Bytes → Bytes
unfolding or_dot without_end_slashes
resolve_path path working_dir =
    if is_empty path
    then path
    else if is_absolute path
    then path
    else or_dot (without_end_slashes working_dir) ++ slash ∷ path

-- What the input of a call is in an error's text: an object without members, or what `dump` writes.
pub data ShownInput : Type 0 where
  empty_object : ShownInput
  dumped : Bytes → ShownInput

abbrev lost : Bytes
lost =
    codes " Input is empty "
    ++ 226
      ∷ 128
      ∷ 148
      ∷ codes " the tool arguments were likely lost in streaming. Retry the tool call."

pub missing_field : Bytes → Bytes → ShownInput → Bytes
missing_field tool field input =
    tool
    ++ (codes ": missing or empty '"
        ++ (field
            ++ (codes "'." ++ elim input [
              | empty_object ↦ lost
              | dumped text ↦ codes " Received input: " ++ text
            ])))

abbrev pub source_exts : List Bytes
source_exts =
    codes ".cpp"
    ∷ codes ".cc"
    ∷ codes ".cxx"
    ∷ codes ".c"
    ∷ codes ".h"
    ∷ codes ".hpp"
    ∷ codes ".hxx"
    ∷ codes ".hh"
    ∷ []

-- `::tolower` of the C locale.
tolower : ℕ → ℕ
tolower c = if leb b'A' c && leb c b'Z' then c + 32 else c

-- `path.substr(path.rfind(b))`, or nothing where the byte is not there.
from_last : ℕ → Bytes → Option Bytes
from_last b [] = none
from_last b (c ∷ s) = elim (from_last b s) [
  | some t ↦ some t
  | none ↦ if c == b then some (c ∷ s) else none
]

pub has_source_ext : Bytes → Bool
unfolding from_last tolower
has_source_ext path = elim (from_last b'.' path) [
  | none ↦ false
  | some ext ↦ contains source_exts (map tolower ext)
]

-- Where `stat` fails for a directory: what `mkdir` answers.
pub data MkdirAnswer : Type 0 where
  made exists_already failed : MkdirAnswer

-- The directories up to each slash of `dir` but one at its start, and `dir` itself: `front` is what
-- has been read of it.
unfoldable pub components : Bytes → Bytes → List Bytes
components front [] = front ∷ []
components front (c ∷ s) =
    let rest = components (front ++ c ∷ []) s in if c == slash then front ∷ rest else rest

-- `path.substr(0, path.rfind('/'))`, or nothing where there is no slash.
pub before_last_slash : Bytes → Option Bytes
before_last_slash [] = none
before_last_slash (c ∷ s) = elim (before_last_slash s) [
  | some t ↦ some (c ∷ t)
  | none ↦ if c == slash then some [] else none
]

module _ (exists : Bytes → Bool) (mkdir : Bytes → MkdirAnswer) where
  -- The loop: whether all directories are there, and the calls of `mkdir`.
  pub make_each : List Bytes → Bool × List Bytes
  make_each [] = (true, [])
  make_each (d ∷ ds) =
      let (ok, calls) = make_each ds in
      if exists d
      then (ok, calls)
      else elim (mkdir d) [ failed ↦ (false, d ∷ []) | _ ↦ (ok, d ∷ calls) ]

  pub make_parent_dirs : Bytes → Bool × List Bytes
  unfolding make_each components before_last_slash
  make_parent_dirs path = elim (before_last_slash path) [
    | none ↦ (true, [])
    | some [] ↦ (true, [])
    | some (c ∷ s) ↦ make_each (components (c ∷ []) s)
  ]
