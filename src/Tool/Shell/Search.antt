-- ===== src/Tool/Shell/Search.antt =====
-- What the shell makes of the command lines of `FindTool`, `GrepTool` and `DiffTool`.
use mathlib.Core.List.{append_assoc}
use mathlib.Core.Option
use hai_code.Base.{
  any-append, not, ◌&&◌, Bool-cases, inl, inr, Bytes, ℕ, ◌≡◌, refl, subst, Option, none, some, Bool,
  true, false, List, [], ◌∷◌, ◌++◌, arith, all, codes, contains, if◌then◌else◌, eq_iff, ℤ, pos,
  negsuc, ◌+◌, int_to_string, to_string, to_string_first, to_string-digits, is_digit, &&_join,
  &&_split, any, ==_iff, ◌==◌,
}
use hai_code.Permission.Path.{is_empty}
use hai_code.Tool.Shell.Words.{
  has_zero, shell_words, shell_words_whole, zero_free, between, read, next, raw_words, is_plain,
  specials, is_special, is_space,
}
use hai_code.Tool.Shell.{
  quote, sq, grep_command, find_type, find_command, quoted, option, diff_command,
}
use hai_code.Tool.Shell.Reading.{
  IsAt, raw_words-append, Adds, Adds-append, Adds-nil, Adds-arg, Adds-include, Adds-word, all_words,
  is_word, Adds-if, Adds-named,
}

-- A type is passed on where it is one of the three that `find` is offered for.
unfoldable pub type_words : Option Bytes → List Bytes
type_words none = []
type_words (some t) =
    if contains (codes "f" ∷ codes "d" ∷ codes "l" ∷ []) t then codes "-type" ∷ t ∷ [] else []

optional : Bytes → Option Bytes → List Bytes
optional name none = []
optional name (some v) = name ∷ v ∷ []

-- The arguments that `find` is meant to get.
pub find_argv :
    Bytes → Option ℤ → Option Bytes → Option Bytes → Option Bytes → Option Bytes → List Bytes
unfolding optional
find_argv path maxdepth type name mtime size =
    codes "find"
    ∷ path
    ∷ (optional (codes "-maxdepth") (Option.map int_to_string maxdepth)
        ++ (type_words type
            ++ (optional (codes "-name") name
                ++ (optional (codes "-mtime") mtime ++ optional (codes "-size") size))))

Adds-quoted :
    (name : Bytes) (o : Option Bytes)
    → is_word name ≡ true
    → Adds (optional name o) (quoted (32 ∷ (name ++ 32 ∷ [])) o)
unfolding optional
Adds-quoted name none h = Adds-nil
Adds-quoted name (some v) h = rw (append_assoc name (32 ∷ []) (sq v)) (Adds-named name v h)

Adds-option :
    (name : Bytes) (o : Option Bytes)
    → is_word name ≡ true
    → ((v : Bytes) → o ≡ some v → is_word v ≡ true)
    → Adds (optional name o) (option (32 ∷ (name ++ 32 ∷ [])) o)
unfolding optional
Adds-option name none h w = Adds-nil
Adds-option name (some v) h w = rw (append_assoc name (32 ∷ []) v) (
    Adds-append (name ∷ []) (v ∷ []) (32 ∷ name) (32 ∷ v) (Adds-word name h)
      (Adds-word v (w v refl)))

find_type_listed :
    (o : Option Bytes) (v : Bytes)
    → find_type o ≡ some v
    → contains (codes "f" ∷ codes "d" ∷ codes "l" ∷ []) v ≡ true
unfolding find_type contains
find_type_listed none v h = cc
find_type_listed (some t) v h = ground (
  arith,
  eq_iff t (codes "f"),
  eq_iff t (codes "d"),
  eq_iff t (codes "l"),
  eq_iff (codes "f") v,
  eq_iff (codes "d") v,
  eq_iff (codes "l") v,
)

find_type-is_word : (o : Option Bytes) (v : Bytes) → find_type o ≡ some v → is_word v ≡ true
unfolding is_word is_plain is_special is_space is_empty
find_type-is_word o v h =
    all_words (codes "f" ∷ codes "d" ∷ codes "l" ∷ []) v refl (find_type_listed o v h)

digit-other :
    (xs : Bytes) (c : ℕ)
    → any is_digit xs ≡ false
    → is_digit c ≡ true
    → any (λ x. x == c) xs ≡ false
digit-other [] c h d = refl
digit-other (x ∷ xs) c h d = ground (arith, ==_iff x c, digit-other xs c)

digits-is_plain : (s : Bytes) → all is_digit s ≡ true → is_plain s ≡ true
unfolding is_digit is_plain
digits-is_plain [] h = refl
digits-is_plain (c ∷ s) h =
    let (d, ds) = &&_split (is_digit c) (all is_digit s) h in
    rw (digit-other (quote ∷ 92 ∷ 32 ∷ 9 ∷ specials) c refl d) (digits-is_plain s ds)

int_to_string-is_word : (z : ℤ) → is_word (int_to_string z) ≡ true
unfolding is_word int_to_string is_plain is_special is_space is_empty
int_to_string-is_word (pos n) =
    let (c, s, e) = to_string_first n in
    let plain = digits-is_plain (to_string n) (to_string-digits n) in
    rw e ((&&_join (is_plain (c ∷ s)) true (rw e at plain) refl))
int_to_string-is_word (negsuc n) =
    &&_join (is_plain (b'-' ∷ to_string (n + 1))) true
      (digits-is_plain (to_string (n + 1)) (to_string-digits (n + 1))) refl

-- The depth's text.
depth-is_word :
    (maxdepth : Option ℤ) (v : Bytes)
    → Option.map int_to_string maxdepth ≡ some v
    → is_word v ≡ true
depth-is_word none v h = cc
depth-is_word (some z) v h = subst (λ w. is_word w ≡ true) (cc) (int_to_string-is_word z)

type_words-find_type :
    (type : Option Bytes) → optional (codes "-type") (find_type type) ≡ type_words type
unfolding find_type type_words optional contains
type_words-find_type none = refl
type_words-find_type (some t) = ground (
  arith,
  eq_iff t (codes "f"),
  eq_iff (codes "f") t,
  eq_iff t (codes "d"),
  eq_iff (codes "d") t,
  eq_iff t (codes "l"),
  eq_iff (codes "l") t,
)

IsAt-find : IsAt (codes "find" ∷ []) (read (between []) (codes "find"))
unfolding read next is_space is_special
IsAt-find = record { done = []; cur = codes "find"; reads = refl; words = refl }

-- The words of the command line of `find`.
raw_words-find_command :
    (path : Bytes) (maxdepth : Option ℤ) (type name mtime size : Option Bytes)
    → raw_words (find_command path maxdepth type name mtime size)
      ≡ some (find_argv path maxdepth type name mtime size)
unfolding find_command find_argv is_word is_plain is_special is_space is_empty
raw_words-find_command path maxdepth type name mtime size =
    subst
      (λ ws.
        raw_words (find_command path maxdepth type name mtime size)
        ≡ some (
            codes "find"
            ∷ path
            ∷ (optional (codes "-maxdepth") (Option.map int_to_string maxdepth)
                ++ (ws
                    ++ (optional (codes "-name") name
                        ++ (optional (codes "-mtime") mtime ++ optional (codes "-size") size))))))
      (type_words-find_type type)
      (let filters = Adds-append (path ∷ []) _ (32 ∷ sq path) _ (Adds-arg path) (
          Adds-append _ _ _ _
            (Adds-option (codes "-maxdepth") (Option.map int_to_string maxdepth) refl
              (depth-is_word maxdepth))
            (Adds-append _ _ _ _
              (Adds-option (codes "-type") (find_type type) refl (find_type-is_word type))
              (Adds-append _ _ _ _ (Adds-quoted (codes "-name") name refl) (
                Adds-append _ _ _ _ (Adds-quoted (codes "-mtime") mtime refl)
                  (Adds-quoted (codes "-size") size refl))))) in
        raw_words-append _ _ (codes "find") _ IsAt-find filters)

-- No zero byte.
abbrev pub no_zero : Option Bytes → Bool
no_zero none = true
no_zero (some s) = not (has_zero s)

optional-has_zero :
    (name : Bytes) (o : Option Bytes)
    → has_zero name ≡ false
    → no_zero o ≡ true
    → any has_zero (optional name o) ≡ false
unfolding optional
optional-has_zero name none h k = refl
optional-has_zero name (some s) h k = ground arith

type_words-has_zero : (type : Option Bytes) → any has_zero (type_words type) ≡ false
unfolding type_words has_zero
type_words-has_zero none = refl
type_words-has_zero (some t) =
    elim (Bool-cases (contains (codes "f" ∷ codes "d" ∷ codes "l" ∷ []) t)) [
      | inr e ↦ rw e refl
      | inl e ↦
          let free = zero_free (codes "f" ∷ codes "d" ∷ codes "l" ∷ []) t refl e in
          rw e (ground (arith, free))
    ]

digits-has_zero : (s : Bytes) → all is_digit s ≡ true → has_zero s ≡ false
unfolding is_digit has_zero
digits-has_zero [] h = refl
digits-has_zero (c ∷ s) h = ground (arith, digits-has_zero s)

depth-no_zero : (maxdepth : Option ℤ) → no_zero (Option.map int_to_string maxdepth) ≡ true
unfolding int_to_string has_zero
depth-no_zero none = refl
depth-no_zero (some (pos n)) = ground (arith, digits-has_zero (to_string n) (to_string-digits n))
depth-no_zero (some (negsuc n)) =
    ground (arith, digits-has_zero (to_string (n + 1)) (to_string-digits (n + 1)))

find_argv-has_zero :
    (path : Bytes) (maxdepth : Option ℤ) (type name mtime size : Option Bytes)
    → has_zero path ≡ false
    → (no_zero name && (no_zero mtime && no_zero size)) ≡ true
    → any has_zero (find_argv path maxdepth type name mtime size) ≡ false
unfolding find_argv
find_argv-has_zero path maxdepth type name mtime size h k =
    let depth = optional (codes "-maxdepth") (Option.map int_to_string maxdepth) in
    let names = optional (codes "-name") name in
    let times = optional (codes "-mtime") mtime in
    let sizes = optional (codes "-size") size in
    let found : has_zero (codes "find") ≡ false = unfold has_zero in refl in
    ground (
      arith,
      any-append has_zero depth (type_words type ++ (names ++ (times ++ sizes))),
      any-append has_zero (type_words type) (names ++ (times ++ sizes)),
      any-append has_zero names (times ++ sizes),
      any-append has_zero times sizes,
      optional-has_zero (codes "-maxdepth") (Option.map int_to_string maxdepth)
          (unfold has_zero in refl) (depth-no_zero maxdepth),
      type_words-has_zero type,
      optional-has_zero (codes "-name") name (unfold has_zero in refl),
      optional-has_zero (codes "-mtime") mtime (unfold has_zero in refl),
      optional-has_zero (codes "-size") size (unfold has_zero in refl),
      found,
    )

-- Whatever the path and the filters are, as long as they have no zero byte, the shell reads the command
-- line of `find` as exactly its arguments, and does nothing else.
pub shell_words-find_command :
    (path : Bytes) (maxdepth : Option ℤ) (type name mtime size : Option Bytes)
    → has_zero path ≡ false
    → (no_zero name && (no_zero mtime && no_zero size)) ≡ true
    → shell_words (find_command path maxdepth type name mtime size)
      ≡ some (find_argv path maxdepth type name mtime size)
shell_words-find_command path maxdepth type name mtime size h k =
    shell_words_whole _ _ (raw_words-find_command path maxdepth type name mtime size)
      (find_argv-has_zero path maxdepth type name mtime size h k)

-- The arguments that `grep` is meant to get.
pub grep_argv : Bytes → Bytes → Bool → Bytes → List Bytes
grep_argv pattern include line_numbers path =
    (codes "/bin/grep" ∷ codes "-r" ∷ codes "-E" ∷ codes "--color=never" ∷ [])
    ++ ((if line_numbers then codes "-n" ∷ [] else [])
        ++ ((if is_empty include then [] else (codes "--include=" ++ include) ∷ [])
            ++ (codes "-e" ∷ pattern ∷ path ∷ [])))

IsAt-grep :
    IsAt
      (codes "/bin/grep" ∷ codes "-r" ∷ codes "-E" ∷ codes "--color=never" ∷ [])
      (read (between []) (codes "/bin/grep -r -E --color=never"))
unfolding read next is_space is_special
IsAt-grep = record {
  done = codes "/bin/grep" ∷ codes "-r" ∷ codes "-E" ∷ [];
  cur = codes "--color=never";
  reads = refl;
  words = refl;
}

Adds-unless :
    (b : Bool) (vs : List Bytes) (s : Bytes)
    → Adds vs s
    → Adds (if b then [] else vs) (if b then [] else s)
Adds-unless true vs s f = Adds-nil
Adds-unless false vs s f = f

-- The same of `grep`, whatever the pattern and the filter of names are.
pub raw_words-grep_command :
    (pattern include : Bytes) (line_numbers : Bool) (path : Bytes)
    → raw_words (grep_command pattern include line_numbers path)
      ≡ some (grep_argv pattern include line_numbers path)
unfolding grep_command grep_argv is_word is_plain is_special is_space is_empty
raw_words-grep_command pattern include line_numbers path =
    let behind =
      Adds-append _ _ _ _
        (Adds-if line_numbers (codes "-n" ∷ []) (codes " -n") (Adds-word (codes "-n") refl))
        (Adds-append _ _ _ _ (Adds-unless (is_empty include) _ _ (Adds-include include))
          (Adds-append _ _ _ _ (Adds-named (codes "-e") pattern refl) (Adds-arg path))) in
    raw_words-append _ _ (codes "/bin/grep -r -E --color=never") _ IsAt-grep behind

IsAt-diff : IsAt (codes "diff" ∷ codes "-u" ∷ []) (read (between []) (codes "diff -u"))
unfolding read next is_space is_special
IsAt-diff = record { done = codes "diff" ∷ []; cur = codes "-u"; reads = refl; words = refl }

-- And of `diff`.
pub raw_words-diff_command :
    (path tmp : Bytes)
    → raw_words (diff_command path tmp) ≡ some (codes "diff" ∷ codes "-u" ∷ path ∷ tmp ∷ [])
unfolding diff_command
raw_words-diff_command path tmp =
    raw_words-append _ _ (codes "diff -u") _ IsAt-diff
      (Adds-append _ _ _ _ (Adds-arg path) (Adds-arg tmp))
