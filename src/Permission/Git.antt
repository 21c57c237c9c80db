-- ===== src/Permission/Git.antt =====
-- The classification of git invocations in lib/src/permission/permission.cpp: which subcommands
-- with which arguments are known to read only.
pub mod Options
pub mod Arguments
mod Examples
use hai_code.Base.{
  Bytes, ℕ, ◌≡◌, Bool, true, false, not, ◌&&◌, ◌||◌, Option, none, some, List, [], ◌∷◌, ◌++◌, codes,
  eq, any, contains, starts_with, ◌==◌, if◌then◌else◌,
}
use hai_code.Permission.Path.{
  slash, dot_dot, is_empty, is_absolute, normalize_path, path_resolves_within,
}

-- `kGitUnsafeLongOptions`.
abbrev pub unsafe_long_options : List Bytes
unsafe_long_options =
    codes "--output"
    ∷ codes "--ext-diff"
    ∷ codes "--textconv"
    ∷ codes "--filters"
    ∷ codes "--no-index"
    ∷ codes "--contents"
    ∷ codes "--ignore-revs-file"
    ∷ codes "--open-files-in-pager"
    ∷ codes "--file"
    ∷ []

-- `arg.substr(0, arg.find('='))`.
pub option_name : Bytes → Bytes
option_name [] = []
option_name (c ∷ s) = if c == b'=' then [] else c ∷ option_name s

-- `arg.size() > 2` and the first two bytes are `--`.
pub is_long : Bytes → Bool
is_long (a ∷ b ∷ c ∷ s) = a == b'-' && b == b'-'
is_long _ = false

-- The three options that an exact name keeps allowed.
pub is_exempt : Bytes → Bytes → Bool
is_exempt subcommand name =
    (eq name (codes "--text") && not (eq subcommand (codes "cat-file")))
    || (eq name (codes "--ignore-rev") && eq subcommand (codes "blame"))
    || (eq name (codes "--filter") && eq subcommand (codes "rev-list"))

pub git_arg_is_unsafe_long_option : Bytes → Bytes → Bool
unfolding is_long
git_arg_is_unsafe_long_option subcommand arg =
    if not (is_long arg)
    then false
    else if is_exempt subcommand (option_name arg)
    then false
    else any (starts_with (option_name arg)) unsafe_long_options

-- `unsafe` and `value_letter`; 0 is no letter.
unsafe_letters : Bytes → Bytes
unsafe_letters subcommand =
    if eq subcommand (codes "grep")
    then codes "Of"
    else if eq subcommand (codes "blame")
    then codes "S"
    else []

value_letter : Bytes → ℕ
value_letter subcommand =
    if eq subcommand (codes "grep") then b'e' else if eq subcommand (codes "blame") then b'L' else 0

-- The result, and `*value_next`.
cluster : Bytes → ℕ → Bytes → Bool × Bool
cluster unsafe letter [] = (false, false)
cluster unsafe letter (c ∷ rest) =
    let on = cluster unsafe letter rest in
    if not (c == 0) && any (λ x. x == c) unsafe
    then (true, false)
    else if c == letter
    then (false, is_empty rest)
    else on

pub git_short_cluster_is_unsafe : Bytes → Bytes → Bool × Bool
unfolding cluster unsafe_letters value_letter
git_short_cluster_is_unsafe subcommand (a ∷ b ∷ s) =
    if a == b'-' && not (b == b'-')
    then cluster (unsafe_letters subcommand) (value_letter subcommand) (b ∷ s)
    else (false, false)
git_short_cluster_is_unsafe subcommand _ = (false, false)

-- The first loop of `git_invocation_is_readonly`: whether it runs to its end.
pub options_safe : Bytes → Bool → List Bytes → Bool
options_safe subcommand skip_value [] = true
options_safe subcommand true (a ∷ args) = options_safe subcommand false args
options_safe subcommand false (a ∷ args) =
    let (unsafe, value_next) = git_short_cluster_is_unsafe subcommand a in
    let rest = options_safe subcommand value_next args in
    if git_arg_is_unsafe_long_option subcommand a then false else if unsafe then false else rest

pub starts_dash : Bytes → Bool
starts_dash [] = false
starts_dash (c ∷ _) = c == b'-'

abbrev pub always : List Bytes
always =
    codes "status"
    ∷ codes "diff"
    ∷ codes "log"
    ∷ codes "show"
    ∷ codes "blame"
    ∷ codes "ls-files"
    ∷ codes "shortlog"
    ∷ codes "describe"
    ∷ codes "rev-parse"
    ∷ codes "merge-base"
    ∷ codes "rev-list"
    ∷ codes "ls-tree"
    ∷ codes "cat-file"
    ∷ codes "grep"
    ∷ codes "for-each-ref"
    ∷ []

abbrev listing_flags : List Bytes
listing_flags =
    codes "-l"
    ∷ codes "--list"
    ∷ codes "-a"
    ∷ codes "--all"
    ∷ codes "-r"
    ∷ codes "--remotes"
    ∷ codes "-v"
    ∷ codes "-vv"
    ∷ codes "--verbose"
    ∷ codes "-q"
    ∷ codes "--quiet"
    ∷ codes "-n"
    ∷ codes "--show-current"
    ∷ []

abbrev listing_prefixes : List Bytes
listing_prefixes =
    codes "--format="
    ∷ codes "--contains"
    ∷ codes "--merged"
    ∷ codes "--no-merged"
    ∷ codes "--points-at"
    ∷ codes "--sort="
    ∷ []

pub is_listing_flag : Bytes → Bool
is_listing_flag a = contains listing_flags a || any (λ p. starts_with p a) listing_prefixes

-- The loop over the arguments of `branch` and `tag`.
pub only_lists : Bool → List Bytes → Bool
only_lists list_mode [] = true
only_lists list_mode (a ∷ args) =
    let rest = only_lists list_mode args in
    if is_listing_flag a
    then rest
    else if list_mode && (not (is_empty a) && not (starts_dash a))
    then rest
    else false

pub list_mode : Bytes → Bytes → Bool
list_mode subcommand a = eq a (codes "--list") || (eq subcommand (codes "tag") && eq a (codes "-l"))

pub branch_or_tag : Bytes → List Bytes → Bool
branch_or_tag subcommand [] = true
branch_or_tag subcommand (a ∷ args) = only_lists (list_mode subcommand a) (a ∷ args)

pub stash : List Bytes → Bool
stash [] = false
stash (a ∷ args) = eq a (codes "list") || eq a (codes "show")

module _ (realpath : Bytes → Option Bytes) where
  pub git_arg_escapes : Bytes → Bytes → Bool
  git_arg_escapes arg working_dir =
      if is_empty arg
      then false
      else if is_empty working_dir
      then (if is_absolute arg
          then true
          else eq (normalize_path arg) dot_dot || starts_with (codes "../") (normalize_path arg))
      else not (
          path_resolves_within realpath
            (if is_absolute arg then arg else working_dir ++ slash ∷ arg) working_dir)

  -- The loop over the arguments of `diff`.
  pub paths_inside : Bytes → Bool → List Bytes → Bool
  paths_inside working_dir after_separator [] = true
  paths_inside working_dir after_separator (a ∷ args) =
      let opened = paths_inside working_dir true args in
      let rest = paths_inside working_dir after_separator args in
      if not after_separator && eq a (codes "--")
      then opened
      else if not after_separator && (not (is_empty a) && starts_dash a)
      then rest
      else if git_arg_escapes a working_dir
      then false
      else rest

  pub git_invocation_is_readonly : Bytes → List Bytes → Bytes → Bool
  git_invocation_is_readonly subcommand args working_dir =
      if not (options_safe subcommand false args)
      then false
      else if eq subcommand (codes "diff") && not (paths_inside working_dir false args)
      then false
      else if contains always subcommand
      then true
      else if eq subcommand (codes "branch") || eq subcommand (codes "tag")
      then branch_or_tag subcommand args
      else if eq subcommand (codes "stash")
      then stash args
      else false
