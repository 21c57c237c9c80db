-- ===== src/Tool/Shell/Git.antt =====
-- What the shell makes of the command line of `GitTool`.
use mathlib.Core.List.{append_assoc}
use hai_code.Base.{
  any, any-append, arith, Bytes, ◌≡◌, refl, ap, ◌∙◌, some, Bool, true, false, ◌&&◌, ◌||◌, List, [],
  ◌∷◌, ◌++◌, codes, eq, contains, if◌then◌else◌, inl, inr, Bool-cases,
}
use hai_code.Permission.Path.{is_empty}
use hai_code.Tool.Shell.Words.{
  has_zero, shell_words, shell_words_whole, zero_free, between, read, next, raw_words, is_plain,
  is_special, is_space,
}
use hai_code.Tool.Shell.{sq, git_allowed, render_flags, more_args, git_args, git_command}
use hai_code.Tool.Shell.Reading.{
  IsAt, raw_words-append, Adds, Adds-append, Adds-nil, Adds-arg, Adds-word, all_words, is_word,
  Adds-if,
}

allowed-is_word : (sub : Bytes) → contains git_allowed sub ≡ true → is_word sub ≡ true
unfolding is_word is_empty is_plain is_special is_space
allowed-is_word sub h = all_words git_allowed sub refl h

-- The options that keep git from running what the repository names.
abbrev pub hardening : List Bytes
hardening =
    codes "-c"
    ∷ codes "core.fsmonitor="
    ∷ codes "-c"
    ∷ codes "core.hooksPath=/dev/null"
    ∷ codes "-c"
    ∷ codes "gpg.program=false"
    ∷ codes "-c"
    ∷ codes "gpg.ssh.program=false"
    ∷ codes "-c"
    ∷ codes "gpg.x509.program=false"
    ∷ codes "-c"
    ∷ codes "log.showSignature=false"
    ∷ []

no_drivers : List Bytes
no_drivers = codes "--no-ext-diff" ∷ codes "--no-textconv" ∷ []

pub flag_words : Bytes → List Bytes
unfolding no_drivers
flag_words sub =
    if eq sub (codes "diff") || (eq sub (codes "log") || eq sub (codes "show"))
    then no_drivers
    else if eq sub (codes "blame")
    then codes "--no-textconv" ∷ []
    else []

-- The arguments that git is meant to get.
pub arg_words : Bytes → Bool → List Bytes → List Bytes
unfolding no_drivers
arg_words sub readonly [] = []
arg_words sub readonly (a ∷ args) =
    a ∷ ((if eq sub (codes "stash") && readonly then no_drivers else []) ++ args)

pub git_argv : Bytes → Bytes → Bool → List Bytes → List Bytes
git_argv working_dir sub readonly args =
    codes "git"
    ∷ ((if readonly then hardening else [])
        ++ codes "-C"
          ∷ working_dir
          ∷ sub
          ∷ ((if readonly then flag_words sub else []) ++ arg_words sub readonly args))

Adds-no_drivers : Adds no_drivers (codes " --no-ext-diff --no-textconv")
unfolding no_drivers is_word is_plain is_special is_space is_empty
Adds-no_drivers =
    Adds-append (codes "--no-ext-diff" ∷ []) (codes "--no-textconv" ∷ []) (codes " --no-ext-diff")
      (codes " --no-textconv") (Adds-word (codes "--no-ext-diff") refl)
      (Adds-word (codes "--no-textconv") refl)

Adds-render_flags : (sub : Bytes) → Adds (flag_words sub) (render_flags sub)
unfolding render_flags flag_words is_word is_plain is_special is_space is_empty
Adds-render_flags sub =
    elim (Bool-cases (eq sub (codes "diff") || (eq sub (codes "log") || eq sub (codes "show")))) [
      | inl e ↦ rw e Adds-no_drivers
      | inr e ↦ rw e (
          Adds-if (eq sub (codes "blame")) (codes "--no-textconv" ∷ []) (codes " --no-textconv")
            (Adds-word (codes "--no-textconv") refl))
    ]

Adds-more_args : (args : List Bytes) → Adds args (more_args args)
unfolding more_args
Adds-more_args [] = Adds-nil
Adds-more_args (a ∷ args) =
    Adds-append (a ∷ []) args (32 ∷ sq a) (more_args args) (Adds-arg a) (Adds-more_args args)

Adds-git_args :
    (sub : Bytes) (readonly : Bool) (args : List Bytes)
    → Adds (arg_words sub readonly args) (git_args sub readonly args)
unfolding git_args arg_words
Adds-git_args sub readonly [] = Adds-nil
Adds-git_args sub readonly (a ∷ args) = Adds-append (a ∷ []) _ (32 ∷ sq a) _ (Adds-arg a) (
    Adds-append _ args _ (more_args args)
      (Adds-if (eq sub (codes "stash") && readonly) no_drivers
        (codes " --no-ext-diff --no-textconv") Adds-no_drivers)
      (Adds-more_args args))

-- What stands in front of the directory, and what stands behind it.
head_words : Bool → List Bytes
head_words readonly = codes "git" ∷ ((if readonly then hardening else []) ++ codes "-C" ∷ [])

head_text : Bool → Bytes
head_text readonly =
    if readonly
    then codes "git -c core.fsmonitor= -c core.hooksPath=/dev/null"
      ++ (codes " -c gpg.program=false -c gpg.ssh.program=false"
          ++ codes " -c gpg.x509.program=false -c log.showSignature=false -C")
    else codes "git -C"

tail_text : Bytes → Bool → List Bytes → Bytes
tail_text sub readonly args =
    (32 ∷ sub) ++ ((if readonly then render_flags sub else []) ++ git_args sub readonly args)

IsAt-head : (readonly : Bool) → IsAt (head_words readonly) (read (between []) (head_text readonly))
unfolding read next is_space is_special head_words head_text
IsAt-head true = record {
  done = codes "git" ∷ hardening;
  cur = codes "-C";
  reads = refl;
  words = refl;
}
IsAt-head false = record { done = codes "git" ∷ []; cur = codes "-C"; reads = refl; words = refl }

git_command-parts :
    (working_dir sub : Bytes) (readonly : Bool) (args : List Bytes)
    → git_command working_dir sub readonly args
      ≡ head_text readonly ++ ((32 ∷ sq working_dir) ++ tail_text sub readonly args)
unfolding git_command head_text tail_text
git_command-parts working_dir sub true args = simp append_assoc
git_command-parts working_dir sub false args = simp append_assoc

-- The words of the command line of an allowed subcommand.
raw_words-git_command :
    (working_dir sub : Bytes) (readonly : Bool) (args : List Bytes)
    → contains git_allowed sub ≡ true
    → raw_words (git_command working_dir sub readonly args)
      ≡ some (git_argv working_dir sub readonly args)
unfolding git_argv tail_text head_words
raw_words-git_command working_dir sub readonly args h =
    let behind =
      Adds-append (working_dir ∷ []) _ (32 ∷ sq working_dir) (tail_text sub readonly args)
        (Adds-arg working_dir)
        (Adds-append (sub ∷ []) _ (32 ∷ sub) _ (Adds-word sub (allowed-is_word sub h)) (
          Adds-append _ (arg_words sub readonly args) _ (git_args sub readonly args)
            (Adds-if readonly (flag_words sub) (render_flags sub) (Adds-render_flags sub))
            (Adds-git_args sub readonly args))) in
    rw (git_command-parts working_dir sub readonly args) (
      raw_words-append _ _ (head_text readonly) _ (IsAt-head readonly) behind
      ∙ ap (λ (vs : List Bytes). some (codes "git" ∷ vs))
          (append_assoc (if readonly then hardening else []) (codes "-C" ∷ []) _))

allowed-has_zero : (sub : Bytes) → contains git_allowed sub ≡ true → has_zero sub ≡ false
unfolding has_zero
allowed-has_zero sub h = zero_free git_allowed sub refl h

flags_zero : (sub : Bytes) → any has_zero (flag_words sub) ≡ false
unfolding flag_words no_drivers has_zero
flags_zero sub = ground arith

arg_words-has_zero :
    (sub : Bytes) (readonly : Bool) (args : List Bytes)
    → any has_zero args ≡ false
    → any has_zero (arg_words sub readonly args) ≡ false
unfolding arg_words no_drivers has_zero
arg_words-has_zero sub readonly [] h = refl
arg_words-has_zero sub readonly (a ∷ args) h = ground (
  arith,
  any-append has_zero (if eq sub (codes "stash") && readonly then no_drivers else []) args,
)

git_argv-has_zero :
    (working_dir sub : Bytes) (readonly : Bool) (args : List Bytes)
    → contains git_allowed sub ≡ true
    → has_zero working_dir ≡ false
    → any has_zero args ≡ false
    → any has_zero (git_argv working_dir sub readonly args) ≡ false
unfolding git_argv has_zero
git_argv-has_zero working_dir sub true args h w z = ground (
  arith,
  any-append has_zero (flag_words sub) (arg_words sub true args),
  flags_zero sub,
  allowed-has_zero sub h,
  arg_words-has_zero sub true args z,
)
git_argv-has_zero working_dir sub false args h w z =
    ground (arith, allowed-has_zero sub h, arg_words-has_zero sub false args z)

-- Whatever the directory and the arguments are, as long as they have no zero byte, the shell reads the
-- command line of an allowed subcommand as exactly the words that git is meant to get: `git`, where the
-- invocation is read-only the options that keep git from running what the repository names, `-C` with
-- the directory, the subcommand with its flags and the arguments as they are; and nothing else happens.
pub shell_words-git_command :
    (working_dir sub : Bytes) (readonly : Bool) (args : List Bytes)
    → contains git_allowed sub ≡ true
    → has_zero working_dir ≡ false
    → any has_zero args ≡ false
    → shell_words (git_command working_dir sub readonly args)
      ≡ some (git_argv working_dir sub readonly args)
shell_words-git_command working_dir sub readonly args h w z =
    shell_words_whole _ _ (raw_words-git_command working_dir sub readonly args h)
      (git_argv-has_zero working_dir sub readonly args h w z)
