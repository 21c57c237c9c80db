-- ===== src/Base/Text.antt =====
-- A `std::string` is the list of its bytes. Literals are ASCII, so their bytes are their codes.
use Prim.Native.Nat.{ℕ}
use Prim.Native.Char.{code}
use Prim.Native.String.{String}
use mathlib.Core.Path.{◌≡◌, refl}
use mathlib.Core.Logic.{◌↔◌, ◌≢◌}
use mathlib.Core.Bool.{Bool, true, false, ◌&&◌, ◌||◌}
use mathlib.Core.List.{List, [], ◌∷◌, ◌++◌}
use native.Mathlib.Omega.{arith}
use hai_code.Base.Tests.{◌==◌, ltb}

abbrev pub Bytes : Type 0
Bytes = List ℕ

abbrev pub codes : String → Bytes
codes String.[] = []
codes (String.◌∷◌ c s) = code c ∷ codes s

-- `std::string::operator==`.
unfoldable pub eq : Bytes → Bytes → Bool
eq [] [] = true
eq [] (_ ∷ _) = false
eq (_ ∷ _) [] = false
eq (a ∷ s) (b ∷ t) = a == b && eq s t

pub eq_refl : (s : Bytes) → eq s s ≡ true
unfolding eq
eq_refl [] = refl
eq_refl (a ∷ s) = ground (arith, eq_refl s)

eq_sound : (s t : Bytes) → eq s t ≡ true → s ≡ t
unfolding eq
eq_sound [] [] h = refl
eq_sound [] (_ ∷ _) h = cc
eq_sound (_ ∷ _) [] h = cc
eq_sound (a ∷ s) (b ∷ t) h = ground (arith, eq_sound s t)

eq_complete : (s t : Bytes) → s ≡ t → eq s t ≡ true
eq_complete s t e = subst' e
  where
    subst' : s ≡ t → eq s t ≡ true
    subst' p = rw (← p) (eq_refl s)

pub eq_iff : (s t : Bytes) → (eq s t ≡ true) ↔ (s ≡ t)
eq_iff s t = (eq_sound s t, eq_complete s t)

pub eq_ne : (s t : Bytes) → eq s t ≡ false → s ≢ t
eq_ne s t h e = cc (eq_complete s t e)

-- `std::string::operator<`: the first byte that differs decides, and a proper prefix is smaller.
pub lex_lt : Bytes → Bytes → Bool
lex_lt s [] = false
lex_lt [] (_ ∷ _) = true
lex_lt (a ∷ s) (b ∷ t) = ltb a b || (a == b && lex_lt s t)

-- `s.compare(0, p.size(), p) == 0` where `s` is long enough, also `s.rfind(p, 0) == 0`.
unfoldable pub starts_with : Bytes → Bytes → Bool
starts_with [] s = true
starts_with (_ ∷ _) [] = false
starts_with (a ∷ p) (b ∷ s) = a == b && starts_with p s

pub starts_with-append : (p s : Bytes) → starts_with p (p ++ s) ≡ true
unfolding starts_with
starts_with-append [] s = refl
starts_with-append (a ∷ p) s = ground (arith, starts_with-append p s)

pub starts_with_sound : (p s : Bytes) → starts_with p s ≡ true → (t : Bytes) × (s ≡ p ++ t)
unfolding starts_with
starts_with_sound [] s h = (s, refl)
starts_with_sound (a ∷ p) [] h = cc
starts_with_sound (a ∷ p) (b ∷ s) h =
    let (t, e) = starts_with_sound p s (ground arith) in (t, ground arith)

-- Whether a text is one of a set's.
unfoldable pub contains : List Bytes → Bytes → Bool
contains [] s = false
contains (x ∷ xs) s = eq x s || contains xs s

mem_byte : ℕ → Bytes → Bool
mem_byte c [] = false
mem_byte c (x ∷ xs) = x == c || mem_byte c xs

-- `s.find_first_of(set) != npos`.
pub has_any_of : Bytes → Bytes → Bool
unfolding mem_byte
has_any_of set [] = false
has_any_of set (c ∷ s) = mem_byte c set || has_any_of set s
