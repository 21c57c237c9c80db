-- ===== src/Tool/Shell/Reading.antt =====
-- What a shell has read behind each part of a command line.
use mathlib.Core.List.{append_assoc, append-nil}
use hai_code.Base.{
  Bytes, ℕ, ◌≡◌, refl, ap, some, Bool, true, false, not, ◌&&◌, List, [], ◌∷◌, ◌++◌, arith, all,
  codes, contains, if◌then◌else◌, eq_iff,
}
use hai_code.Permission.Path.{is_empty}
use hai_code.Tool.Shell.Words.{
  Reader, in_word, read, next, finish, is_plain, is_special, is_space, read-append, raw_words,
  between, read-sq, read-sq_between, read_plain_between,
}
use hai_code.Tool.Shell.{sq}

-- The shell is at the end of the last of these words.
pub record IsAt (ws : List Bytes) (r : Reader) : Type 0 where
  pub done : List Bytes
  pub cur : Bytes
  pub reads : r ≡ in_word done cur
  pub words : done ++ cur ∷ [] ≡ ws

pub IsAt-finish : (ws : List Bytes) (r : Reader) → IsAt ws r → finish r ≡ some ws
unfolding finish
IsAt-finish ws r h = rw (h.reads, finish) (ap some h.words)

-- A text after which the shell has read these words more.
abbrev pub Adds : List Bytes → Bytes → Type 0
Adds vs s = (ws : List Bytes) (r : Reader) → IsAt ws r → IsAt (ws ++ vs) (read r s)

pub Adds-append :
    (us vs : List Bytes) (s t : Bytes) → Adds us s → Adds vs t → Adds (us ++ vs) (s ++ t)
Adds-append us vs s t f g ws r h =
    rw (read-append r s t, ← append_assoc ws us vs) (g (ws ++ us) (read r s) (f ws r h))

pub Adds-nil : Adds [] []
unfolding read
Adds-nil ws r h = rw append-nil h

pub Adds-arg : (s : Bytes) → Adds (s ∷ []) (32 ∷ sq s)
unfolding read next is_space
Adds-arg s ws r h = record {
  done = ws;
  cur = s;
  reads = rw (h.reads, read, next, h.words) (read-sq_between ws s);
  words = refl;
}

pub Adds-include : (s : Bytes) → Adds ((codes "--include=" ++ s) ∷ []) (codes " --include=" ++ sq s)
unfolding read next is_space is_special
Adds-include s ws r h = record {
  done = ws;
  cur = codes "--include=" ++ s;
  reads = rw (h.reads, read, next, h.words) (read-sq ws (codes "--include=") s);
  words = refl;
}

unfoldable pub is_word : Bytes → Bool
is_word s = is_plain s && not (is_empty s)

pub Adds-plain : (c : ℕ) (s : Bytes) → is_plain (c ∷ s) ≡ true → Adds ((c ∷ s) ∷ []) (32 ∷ c ∷ s)
unfolding read next is_space
Adds-plain c s p ws r h = record {
  done = ws;
  cur = c ∷ s;
  reads = rw (h.reads, read, next, h.words) (read_plain_between ws c s p);
  words = refl;
}

pub Adds-word : (s : Bytes) → is_word s ≡ true → Adds (s ∷ []) (32 ∷ s)
unfolding is_word is_empty is_plain
Adds-word [] p = absurd (ground arith)
Adds-word (c ∷ s) p = Adds-plain c s (ground arith)

pub all_words :
    (xs : List Bytes) (s : Bytes) → all is_word xs ≡ true → contains xs s ≡ true → is_word s ≡ true
unfolding contains
all_words [] s a h = cc
all_words (x ∷ xs) s a h = ground (arith, eq_iff x s, all_words xs s)

-- A part that a test decides on.
pub Adds-if :
    (b : Bool) (vs : List Bytes) (s : Bytes)
    → Adds vs s
    → Adds (if b then vs else []) (if b then s else [])
Adds-if true vs s f = f
Adds-if false vs s f = Adds-nil

-- A word in front of an argument.
pub Adds-named :
    (name : Bytes) (s : Bytes)
    → is_word name ≡ true
    → Adds (name ∷ s ∷ []) ((32 ∷ name) ++ (32 ∷ sq s))
Adds-named name s h =
    Adds-append (name ∷ []) (s ∷ []) (32 ∷ name) (32 ∷ sq s) (Adds-word name h) (Adds-arg s)

-- The words of a command line whose first ones are known.
pub raw_words-append :
    (ws vs : List Bytes) (head rest : Bytes)
    → IsAt ws (read (between []) head)
    → Adds vs rest
    → raw_words (head ++ rest) ≡ some (ws ++ vs)
unfolding raw_words
raw_words-append ws vs head rest h f =
    rw (read-append (between []) head rest) (IsAt-finish _ _ (f ws _ h))
