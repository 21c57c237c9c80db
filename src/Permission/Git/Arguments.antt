-- ===== src/Permission/Git/Arguments.antt =====
-- Which positional arguments an invocation that passes as read-only can have.
use hai_code.Base.{
  Bytes, ◌≡◌, refl, ◌⊎◌, inl, inr, Bool, true, false, ◌||◌, Option, none, List, [], ◌∷◌, ◌++◌,
  codes, eq, eq_iff, contains, starts_with, if◌then◌else◌, arith, All, Bool-cases,
}
use hai_code.Permission.Path.Below.{NoClimb, is_path_within-join}
use hai_code.Permission.Path.Containment.{is_absolute-not_empty}
use hai_code.Permission.Path.{slash, is_empty, is_absolute, path_resolves_within}
use hai_code.Permission.Git.{
  always, is_listing_flag, only_lists, list_mode, branch_or_tag, starts_dash, git_arg_escapes,
  paths_inside, git_invocation_is_readonly,
}

is_listing_flag-starts_dash : (a : Bytes) → is_listing_flag a ≡ true → starts_dash a ≡ true
unfolding is_listing_flag starts_dash contains starts_with eq
is_listing_flag-starts_dash [] h = cc
is_listing_flag-starts_dash (c ∷ s) h = ground arith

only_lists-dash :
    (args : List Bytes) → only_lists false args ≡ true → All (λ a. starts_dash a ≡ true) args
unfolding only_lists
only_lists-dash [] h = tt
only_lists-dash (a ∷ args) h = ground (arith, is_listing_flag-starts_dash a, only_lists-dash args)

not_always :
    (subcommand : Bytes)
    → (eq subcommand (codes "branch") || eq subcommand (codes "tag")) ≡ true
    → contains always subcommand ≡ false
unfolding contains eq
not_always subcommand h = elim (Bool-cases (eq subcommand (codes "branch"))) [
  | inl e ↦ rw ((eq_iff subcommand (codes "branch")).0 e)
  | inr e ↦ rw ((eq_iff subcommand (codes "tag")).0 (ground arith))
]

starts_dash-not_empty : (a : Bytes) → starts_dash a ≡ true → is_empty a ≡ false
unfolding starts_dash is_empty
starts_dash-not_empty [] h = cc
starts_dash-not_empty (c ∷ s) h = refl

-- The arguments that `diff` reads as paths: those without a dash, and all after `--`.
pub path_args : Bool → List Bytes → List Bytes
path_args after_separator [] = []
path_args true (a ∷ args) = a ∷ path_args true args
path_args false (a ∷ args) =
    let opened = path_args true args in
    let rest = path_args false args in
    if eq a (codes "--") then opened else if starts_dash a then rest else a ∷ rest

module _ (realpath : Bytes → Option Bytes) where
  -- `git branch` and `git tag` that pass as read-only have dashes before all their arguments, or
  -- begin with the flag that makes the others patterns.
  pub git_invocation_is_readonly-branch :
      (subcommand a : Bytes) (args : List Bytes) (working_dir : Bytes)
      → (eq subcommand (codes "branch") || eq subcommand (codes "tag")) ≡ true
      → git_invocation_is_readonly realpath subcommand (a ∷ args) working_dir ≡ true
      → (list_mode subcommand a ≡ true) ⊎ All (λ x. starts_dash x ≡ true) (a ∷ args)
  unfolding git_invocation_is_readonly branch_or_tag
  git_invocation_is_readonly-branch subcommand a args working_dir h k = ground (
    arith,
    not_always subcommand h,
    only_lists-dash (a ∷ args),
    Bool-cases (list_mode subcommand a),
  )

  paths_inside-escapes :
      (working_dir : Bytes) (after : Bool) (args : List Bytes)
      → paths_inside realpath working_dir after args ≡ true
      → All (λ a. git_arg_escapes realpath a working_dir ≡ false) (path_args after args)
  unfolding paths_inside path_args
  paths_inside-escapes working_dir true [] h = tt
  paths_inside-escapes working_dir false [] h = tt
  paths_inside-escapes working_dir true (a ∷ args) h =
      ground (arith, paths_inside-escapes working_dir true args)
  paths_inside-escapes working_dir false (a ∷ args) h = ground (
    arith,
    starts_dash-not_empty a,
    paths_inside-escapes working_dir true args,
    paths_inside-escapes working_dir false args,
  )

  -- Every argument of a `git diff` that passes as read-only and that is not an option before `--`
  -- does not escape the working directory.
  pub git_invocation_is_readonly-diff :
      (args : List Bytes) (working_dir : Bytes)
      → git_invocation_is_readonly realpath (codes "diff") args working_dir ≡ true
      → All (λ a. git_arg_escapes realpath a working_dir ≡ false) (path_args false args)
  unfolding git_invocation_is_readonly eq
  git_invocation_is_readonly-diff args working_dir h =
      ground (arith, paths_inside-escapes working_dir false args)

  -- Where `realpath` fails on it, a relative argument without `..` never counts as an escape from an
  -- absolute working directory.
  pub git_arg_escapes-inside :
      (arg working_dir : Bytes)
      → is_absolute working_dir ≡ true
      → is_absolute arg ≡ false
      → NoClimb arg
      → realpath (working_dir ++ slash ∷ arg) ≡ none
      → git_arg_escapes realpath arg working_dir ≡ false
  unfolding git_arg_escapes path_resolves_within
  git_arg_escapes-inside arg working_dir h k inside missing =
      let within = is_path_within-join working_dir arg h inside in
      ground (arith, is_absolute-not_empty working_dir h)
