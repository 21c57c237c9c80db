-- ===== src/Permission/Git/Examples.antt =====
-- The theorems on git invocations at concrete inputs.
use hai_code.Base.{
  arith, Bytes, ◌≡◌, refl, true, false, Option, none, some, [], ◌∷◌, codes, eq, contains,
  starts_with,
}
use hai_code.Permission.Path.{is_absolute, is_empty}
use hai_code.Permission.Path.Segments.{split_from}
use hai_code.Permission.Git.{
  is_long, is_exempt, git_short_cluster_is_unsafe, options_safe, git_arg_is_unsafe_long_option,
  option_name, starts_dash, git_arg_escapes, paths_inside, git_invocation_is_readonly,
}
use hai_code.Permission.Git.Options.{
  IsAbbreviation, awaits_value, takes_next, ends_at, letter_of, with_value,
  git_invocation_is_readonly-abbreviation,
}
use hai_code.Permission.Git.Arguments.{git_arg_escapes-inside}

-- A file system where nothing resolves.
empty_disk : Bytes → Option Bytes
empty_disk path = none

abbreviated : IsAbbreviation (codes "blame") (codes "--content") (codes "--contents")
unfolding is_long is_exempt contains eq starts_with
abbreviated = record {
  listed = refl;
  begins = refl;
  first = b'c';
  rest = codes "ontent";
  long = refl;
  bare = refl;
  no_text = λ h. absurd (ground arith);
  no_ignore = λ h. absurd (ground arith);
  no_filter = λ h. absurd (ground arith);
}

git_invocation_is_readonly-abbreviation_example :
    git_invocation_is_readonly empty_disk
      (codes "blame")
      (codes "-w" ∷ with_value (codes "--content") (some (codes "/etc/passwd")) ∷ codes "a.c" ∷ [])
      (codes "/srv/project")
    ≡ false
unfolding awaits_value takes_next ends_at letter_of is_empty eq
git_invocation_is_readonly-abbreviation_example =
    git_invocation_is_readonly-abbreviation empty_disk (codes "blame") (codes "--content")
      (codes "--contents") (some (codes "/etc/passwd")) (codes "-w" ∷ []) (codes "a.c" ∷ [])
      (codes "/srv/project") abbreviated refl

file_inside : git_arg_escapes empty_disk (codes "src/a.c") (codes "/srv/project") ≡ false
unfolding is_absolute split_from empty_disk eq
file_inside =
    git_arg_escapes-inside empty_disk (codes "src/a.c") (codes "/srv/project") refl refl
      (refl, (refl, tt)) refl

diff_passes :
    git_invocation_is_readonly empty_disk
      (codes "diff")
      (codes "--stat" ∷ codes "--" ∷ codes "src/a.c" ∷ [])
      (codes "/srv/project")
    ≡ true
unfolding git_invocation_is_readonly paths_inside options_safe starts_dash
    git_arg_is_unsafe_long_option is_exempt eq option_name starts_with git_short_cluster_is_unsafe
    is_empty contains
diff_passes = rw file_inside refl
