-- ===== src/Tool/Shell/Words.antt =====
-- How a shell reads words: the blanks, the quoting by single quotes and by a backslash of the POSIX
-- shell, and what single quotes do to `sq`.
use hai_code.Base.{
  any-append, false, contains, eq, eq_iff, Bytes, ℕ, ◌≡◌, refl, ap, ◌∙◌, Option, none, some, Bool,
  true, not, ◌&&◌, ◌||◌, subst, sym, List, [], ◌∷◌, ◌++◌, arith, any, codes, ◌==◌, if◌then◌else◌,
  inl, inr, Bool-cases,
}
use mathlib.Core.List.{append_assoc, append-nil}
use hai_code.Util.Subprocess.{c_str}
use hai_code.Tool.Shell.{quote, escaped, sq}

-- The bytes that mean something to the shell when no quote is around them, but for blanks and for
-- what is read here: a newline, a double quote, and these.
abbrev pub specials : Bytes
specials = 10 ∷ 34 ∷ codes "$&()*;<>?[`{|}~#!"

unfoldable pub is_special : ℕ → Bool
is_special c = any (λ x. x == c) specials

unfoldable pub is_space : ℕ → Bool
is_space c = c == 32 || c == 9

-- Between words, in a word, in single quotes, behind a backslash: with the words that are read and
-- the one that is read. `refused` is text that the shell does more with than to read words.
pub data Reader : Type 0 where
  between : List Bytes → Reader
  in_word in_quotes behind_escape : List Bytes → Bytes → Reader
  refused : Reader

word_byte : List Bytes → Bytes → ℕ → Reader
word_byte done cur c =
    if c == quote
    then in_quotes done cur
    else if c == 92
    then behind_escape done cur
    else if is_special c
    then refused
    else in_word done (cur ++ c ∷ [])

unfoldable pub next : Reader → ℕ → Reader
unfolding word_byte is_special is_space
next (between done) c = if is_space c then between done else word_byte done [] c
next (in_word done cur) c = if is_space c then between (done ++ cur ∷ []) else word_byte done cur c
next (in_quotes done cur) c =
    if c == quote then in_word done cur else in_quotes done (cur ++ c ∷ [])
next (behind_escape done cur) c = if c == 10 then refused else in_word done (cur ++ c ∷ [])
next refused c = refused

unfoldable pub read : Reader → Bytes → Reader
read r [] = r
read r (c ∷ s) = read (next r c) s

unfoldable pub finish : Reader → Option (List Bytes)
finish (between done) = some done
finish (in_word done cur) = some (done ++ cur ∷ [])
finish _ = none

-- The words of a text, where the shell does nothing else with it.
unfoldable pub raw_words : Bytes → Option (List Bytes)
unfolding finish
raw_words s = finish (read (between []) s)

-- The words that `/bin/sh -c` reads from a command: from the bytes in front of its first zero.
unfoldable pub shell_words : Bytes → Option (List Bytes)
shell_words command = raw_words (c_str command)

pub read-append : (r : Reader) (s t : Bytes) → read r (s ++ t) ≡ read (read r s) t
unfolding read
read-append r [] t = refl
read-append r (c ∷ s) t = read-append (next r c) s t

-- '\'' in quotes closes the quotes, has an escaped quote, and opens them again.
read-quote :
    (done : List Bytes) (cur t : Bytes)
    → read (in_quotes done cur) (quote ∷ 92 ∷ quote ∷ quote ∷ t)
      ≡ read (in_quotes done (cur ++ quote ∷ [])) t
unfolding read next
read-quote done cur t = refl

read-escaped :
    (done : List Bytes) (cur s : Bytes)
    → read (in_quotes done cur) (escaped s) ≡ in_quotes done (cur ++ s)
unfolding read escaped next
read-escaped done cur [] = rw append-nil
read-escaped done cur (c ∷ s) =
    let later =
      read-escaped done (cur ++ c ∷ []) s ∙ ap (in_quotes done) (append_assoc cur (c ∷ []) s) in
    elim (Bool-cases (c == quote)) [
      | inl e ↦
          let same : quote ≡ c = ground arith in
          rw e (
            read-quote done cur (escaped s)
            ∙ subst
                (λ d.
                  read (in_quotes done (cur ++ d ∷ [])) (escaped s) ≡ in_quotes done (cur ++ c ∷ s))
                (sym same) later)
      | inr e ↦ rw (e, read, next, e) later
    ]

-- Quoted text is read as itself, whatever it is, behind a blank or inside a word.
pub read-sq :
    (done : List Bytes) (cur s : Bytes) → read (in_word done cur) (sq s) ≡ in_word done (cur ++ s)
unfolding read sq next
read-sq done cur s =
    read-append (in_quotes done cur) (escaped s) (quote ∷ [])
    ∙ ap (λ r. read r (quote ∷ [])) (read-escaped done cur s)

pub read-sq_between : (done : List Bytes) (s : Bytes) → read (between done) (sq s) ≡ in_word done s
unfolding read sq next
read-sq_between done s =
    read-append (in_quotes done []) (escaped s) (quote ∷ [])
    ∙ ap (λ r. read r (quote ∷ [])) (read-escaped done [] s)

-- A text that has one of the shell's bytes nowhere.
unfoldable pub is_plain : Bytes → Bool
unfolding is_special is_space
is_plain [] = true
is_plain (c ∷ s) = not (any (λ x. x == c) (quote ∷ 92 ∷ 32 ∷ 9 ∷ specials)) && is_plain s

pub read_plain :
    (done : List Bytes) (cur s : Bytes)
    → is_plain s ≡ true
    → read (in_word done cur) s ≡ in_word done (cur ++ s)
unfolding read next is_plain word_byte
read_plain done cur [] h = rw append-nil
read_plain done cur (c ∷ s) h =
    let stays : next (in_word done cur) c ≡ in_word done (cur ++ c ∷ []) = ground arith in
    rw stays (
      read_plain done (cur ++ c ∷ []) s (ground arith)
      ∙ ap (in_word done) (append_assoc cur (c ∷ []) s))

pub read_plain_between :
    (done : List Bytes) (c : ℕ) (s : Bytes)
    → is_plain (c ∷ s) ≡ true
    → read (between done) (c ∷ s) ≡ in_word done (c ∷ s)
unfolding read next is_plain word_byte
read_plain_between done c s h =
    let starts : next (between done) c ≡ in_word done (c ∷ []) = ground arith in
    rw starts (read_plain done (c ∷ []) s (ground arith))

unfoldable pub has_zero : Bytes → Bool
has_zero = any λ c. c == 0

-- A word that is read, or is being read, has a zero; or the reader has stopped.
zeroed : Reader → Bool
unfolding has_zero
zeroed (between done) = any has_zero done
zeroed (in_word done cur) = any has_zero done || has_zero cur
zeroed (in_quotes done cur) = any has_zero done || has_zero cur
zeroed (behind_escape done cur) = any has_zero done || has_zero cur
zeroed refused = true

-- The reader drops no zero.
next-zeroed : (r : Reader) (c : ℕ) → (zeroed r || c == 0) ≡ true → zeroed (next r c) ≡ true
unfolding next zeroed word_byte has_zero is_special is_space
next-zeroed (between done) c h = ground arith
next-zeroed (in_word done cur) c h =
    ground (arith, any-append has_zero done (cur ∷ []), any-append (λ x. x == 0) cur (c ∷ []))
next-zeroed (in_quotes done cur) c h = ground (arith, any-append (λ x. x == 0) cur (c ∷ []))
next-zeroed (behind_escape done cur) c h = ground (arith, any-append (λ x. x == 0) cur (c ∷ []))
next-zeroed refused c h = refl

read-zeroed : (r : Reader) (s : Bytes) → (zeroed r || has_zero s) ≡ true → zeroed (read r s) ≡ true
unfolding read has_zero
read-zeroed r [] h = ground arith
read-zeroed r (c ∷ s) h = read-zeroed (next r c) s (ground (arith, next-zeroed r c))

finish-zeroed :
    (r : Reader) (ws : List Bytes) → finish r ≡ some ws → zeroed r ≡ true → any has_zero ws ≡ true
unfolding finish zeroed has_zero
finish-zeroed (between done) ws e h = ground arith
finish-zeroed (in_word done cur) ws e h = ground (arith, any-append has_zero done (cur ∷ []))
finish-zeroed (in_quotes done cur) ws e h = cc
finish-zeroed (behind_escape done cur) ws e h = cc
finish-zeroed refused ws e h = cc

c_str_whole : (s : Bytes) → has_zero s ≡ false → c_str s ≡ s
unfolding c_str has_zero
c_str_whole [] h = refl
c_str_whole (c ∷ s) h = ground (arith, c_str_whole s)

-- Where the words that are meant have no zero, the shell gets the whole command.
pub shell_words_whole :
    (s : Bytes) (ws : List Bytes)
    → raw_words s ≡ some ws
    → any has_zero ws ≡ false
    → shell_words s ≡ some ws
unfolding raw_words shell_words
shell_words_whole s ws e h = elim (Bool-cases (has_zero s)) [
  | inl z ↦
      let zero_word = finish-zeroed _ ws e (read-zeroed (between []) s (ground arith)) in
      absurd (ground arith)
  | inr z ↦ rw (c_str_whole s z) e
]

-- What is in a list of texts without zeros has none.
pub zero_free :
    (texts : List Bytes) (s : Bytes)
    → any has_zero texts ≡ false
    → contains texts s ≡ true
    → has_zero s ≡ false
unfolding contains
zero_free [] s h k = cc
zero_free (t ∷ texts) s h k = elim (Bool-cases (eq t s)) [
  | inl e ↦ subst (λ u. has_zero u ≡ false) ((eq_iff t s).0 e) (ground arith)
  | inr e ↦ zero_free texts s (ground arith) (ground arith)
]
