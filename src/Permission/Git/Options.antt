-- ===== src/Permission/Git/Options.antt =====
-- The unsafe long options of git, in full and abbreviated, never pass as read-only.
use hai_code.Base.{
  Bytes, ◌≡◌, refl, Bool, true, false, Option, none, some, List, [], ◌∷◌, ◌++◌, eq_iff, any,
  contains, starts_with, ◌==◌, arith, ap, ◌∙◌, inl, inr, Bool-cases, not, ◌&&◌, codes, eq, ℕ,
  if◌then◌else◌,
}
use hai_code.Permission.Git.{
  unsafe_long_options, option_name, is_long, is_exempt, git_arg_is_unsafe_long_option,
  git_short_cluster_is_unsafe, options_safe, git_invocation_is_readonly, cluster, unsafe_letters,
  value_letter,
}
use hai_code.Permission.Path.{is_empty}

-- An option as it is typed: its name, or its name with a value.
abbrev pub with_value : Bytes → Option Bytes → Bytes
with_value name none = name
with_value name (some v) = name ++ b'=' ∷ v

option_name-with_value :
    (name : Bytes) (value : Option Bytes)
    → any (λ c. c == b'=') name ≡ false
    → option_name (with_value name value) ≡ name
unfolding option_name
option_name-with_value [] none h = refl
option_name-with_value [] (some v) h = refl
option_name-with_value (c ∷ name) none h = ground (arith, option_name-with_value name none)
option_name-with_value (c ∷ name) (some v) h = ground (arith, option_name-with_value name (some v))

is_long-with_value :
    (name : Bytes) (value : Option Bytes)
    → is_long name ≡ true
    → is_long (with_value name value) ≡ true
unfolding is_long
is_long-with_value name none h = h
is_long-with_value [] (some v) h = cc
is_long-with_value (a ∷ []) (some v) h = cc
is_long-with_value (a ∷ b ∷ []) (some v) h = cc
is_long-with_value (a ∷ b ∷ c ∷ s) (some v) h = h

any-contains :
    (p : Bytes → Bool) (xs : List Bytes) (o : Bytes)
    → contains xs o ≡ true
    → p o ≡ true
    → any p xs ≡ true
unfolding contains
any-contains p [] o h k = cc
any-contains p (x ∷ xs) o h k = ground (arith, eq_iff x o, any-contains p xs o)

-- The name is an unsafe option, or its beginning; and it is none of the three names that an exact
-- match keeps allowed, with the subcommands for which it does.
pub record IsAbbreviation (subcommand name o : Bytes) : Type 0 where
  pub listed :
      contains
        (codes "--output"
          ∷ codes "--ext-diff"
          ∷ codes "--textconv"
          ∷ codes "--filters"
          ∷ codes "--no-index"
          ∷ codes "--contents"
          ∷ codes "--ignore-revs-file"
          ∷ codes "--open-files-in-pager"
          ∷ codes "--file"
          ∷ [])
        o
      ≡ true
  pub begins : starts_with name o ≡ true
  pub first : ℕ
  pub rest : Bytes
  pub long : name ≡ b'-' ∷ b'-' ∷ first ∷ rest
  pub bare : any (λ c. c == b'=') name ≡ false
  pub no_text : eq name (codes "--text") ≡ true → eq subcommand (codes "cat-file") ≡ true
  pub no_ignore : eq name (codes "--ignore-rev") ≡ true → eq subcommand (codes "blame") ≡ false
  pub no_filter : eq name (codes "--filter") ≡ true → eq subcommand (codes "rev-list") ≡ false

not_exempt :
    (subcommand name o : Bytes)
    → IsAbbreviation subcommand name o
    → is_exempt subcommand name ≡ false
unfolding is_exempt
not_exempt subcommand name o h = ground (arith, h.no_text, h.no_ignore, h.no_filter)

dashes-is_long :
    (name : Bytes) (c : ℕ) (s : Bytes) → name ≡ b'-' ∷ b'-' ∷ c ∷ s → is_long name ≡ true
unfolding is_long
dashes-is_long name c s e = rw e refl

abbreviation_unsafe :
    (subcommand name o : Bytes) (value : Option Bytes)
    → IsAbbreviation subcommand name o
    → git_arg_is_unsafe_long_option subcommand (with_value name value) ≡ true
unfolding git_arg_is_unsafe_long_option
abbreviation_unsafe subcommand name o value h =
    let long = dashes-is_long name h.first h.rest h.long in
    rw
      (
        is_long-with_value name value long,
        option_name-with_value name value h.bare,
        not_exempt subcommand name o h,
      )
      (any-contains (starts_with name) unsafe_long_options o h.listed h.begins)

-- The letter of a subcommand that takes a value; 0 is none.
unfoldable pub letter_of : Bytes → ℕ
letter_of subcommand =
    if eq subcommand (codes "grep") then b'e' else if eq subcommand (codes "blame") then b'L' else 0

-- The letter is there, and its first place is the last one.
unfoldable pub ends_at : ℕ → Bytes → Bool
ends_at x [] = false
ends_at x (c ∷ s) = let later = ends_at x s in if c == x then is_empty s else later

-- A cluster of short options whose letter has its value in the next argument.
unfoldable pub takes_next : Bytes → Bytes → Bool
unfolding ends_at letter_of
takes_next subcommand (a ∷ b ∷ s) =
    a == b'-' && (not (b == b'-') && ends_at (letter_of subcommand) (b ∷ s))
takes_next subcommand _ = false

-- Whether the argument after these is the value of the last one.
unfoldable pub awaits_value : Bytes → Bool → List Bytes → Bool
unfolding takes_next
awaits_value subcommand skip [] = skip
awaits_value subcommand true (a ∷ args) = awaits_value subcommand false args
awaits_value subcommand false (a ∷ args) = awaits_value subcommand (takes_next subcommand a) args

cluster-ends_at :
    (unsafe : Bytes) (x : ℕ) (s : Bytes)
    → (cluster unsafe x s).0 ≡ false
    → (cluster unsafe x s).1 ≡ ends_at x s
unfolding cluster ends_at
cluster-ends_at unsafe x [] h = refl
cluster-ends_at unsafe x (c ∷ s) h = ground (arith, cluster-ends_at unsafe x s)

short-takes_next :
    (subcommand a : Bytes)
    → (git_short_cluster_is_unsafe subcommand a).0 ≡ false
    → (git_short_cluster_is_unsafe subcommand a).1 ≡ takes_next subcommand a
unfolding git_short_cluster_is_unsafe takes_next letter_of value_letter
short-takes_next subcommand [] h = refl
short-takes_next subcommand (a ∷ []) h = refl
short-takes_next subcommand (a ∷ b ∷ s) h =
    ground (arith, cluster-ends_at (unsafe_letters subcommand) (value_letter subcommand) (b ∷ s))

options_safe-unsafe :
    (subcommand : Bytes) (skip : Bool) (before : List Bytes) (a : Bytes) (after : List Bytes)
    → awaits_value subcommand skip before ≡ false
    → git_arg_is_unsafe_long_option subcommand a ≡ true
    → options_safe subcommand skip (before ++ a ∷ after) ≡ false
unfolding options_safe awaits_value
options_safe-unsafe subcommand true [] a after h k = cc
options_safe-unsafe subcommand false [] a after h k = rw k
options_safe-unsafe subcommand true (b ∷ before) a after h k =
    options_safe-unsafe subcommand false before a after h k
options_safe-unsafe subcommand false (b ∷ before) a after h k =
    elim (Bool-cases (git_short_cluster_is_unsafe subcommand b).0) [
      | inl e ↦ ground arith
      | inr e ↦
          let same = short-takes_next subcommand b e in
          let later =
            options_safe-unsafe subcommand (git_short_cluster_is_unsafe subcommand b).1 before a
              after (ap (λ t. awaits_value subcommand t before) same ∙ h) k in
          ground (arith, later)
    ]

module _ (realpath : Bytes → Option Bytes) where
  -- An unsafe long option in full or abbreviated, with or without a value, anywhere but in the
  -- place of another option's value, makes the invocation not read-only, whatever the rest is; but for
  -- --text, --ignore-rev of blame and --filter of rev-list, which are options of their own (--text is
  -- none for cat-file). The next argument is a value behind a cluster of short options whose first e
  -- (grep) or L (blame) is its last byte; for other subcommands it is behind one that ends in its first
  -- zero byte.
  pub git_invocation_is_readonly-abbreviation :
      (subcommand name o : Bytes) (value : Option Bytes) (before after : List Bytes)
      (working_dir : Bytes)
      → IsAbbreviation subcommand name o
      → awaits_value subcommand false before ≡ false
      → git_invocation_is_readonly realpath subcommand
          (before ++ with_value name value ∷ after)
          working_dir
        ≡ false
  unfolding git_invocation_is_readonly
  git_invocation_is_readonly-abbreviation subcommand name o value before after working_dir h k =
      rw (
        options_safe-unsafe subcommand false before (with_value name value) after k
          (abbreviation_unsafe subcommand name o value h))
