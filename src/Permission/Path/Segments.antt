-- ===== src/Permission/Path/Segments.antt =====
-- A path as its segments: what the character loop of `normalize_path` does to them, and that every
-- part it keeps is a proper segment.
use mathlib.Core.List.{reverse-cons}
use hai_code.Base.{
  Bytes, ℕ, ◌≡◌, refl, Bool, true, false, ◌||◌, List, [], ◌∷◌, ◌++◌, reverse, eq, any, All,
  All-append, ◌==◌, if◌then◌else◌, arith,
}
use hai_code.Permission.Path.{slash, dot, dot_dot, flush, loop, is_empty}

-- The segments between the slashes, empty ones included; `seg` is the one that is being read.
unfoldable pub split_from : Bytes → Bytes → List Bytes
split_from seg [] = seg ∷ []
split_from seg (c ∷ p) =
    let at_slash = seg ∷ split_from [] p in
    let in_segment = split_from (seg ++ c ∷ []) p in if c == slash then at_slash else in_segment

unfoldable pub resolve : Bool → List Bytes → List Bytes → List Bytes
resolve absolute parts [] = parts
resolve absolute parts (s ∷ segs) = resolve absolute (flush absolute parts s) segs

-- The loop takes the segments one after another.
pub loop-resolve :
    (absolute : Bool) (parts : List Bytes) (seg p : Bytes)
    → loop absolute parts seg p ≡ resolve absolute parts (split_from seg p)
unfolding loop resolve split_from
loop-resolve absolute parts seg [] = refl
loop-resolve absolute parts seg (c ∷ p) = ground (
  arith,
  loop-resolve absolute (flush absolute parts seg) [] p,
  loop-resolve absolute parts (seg ++ c ∷ []) p,
)

-- No slash.
abbrev pub IsSegment : Bytes → Type 0
IsSegment s = any (λ c. c == slash) s ≡ false

any-snoc :
    (s : Bytes) (c : ℕ)
    → any (λ x. x == slash) (s ++ c ∷ []) ≡ (any (λ x. x == slash) s || c == slash)
any-snoc [] c = ground arith
any-snoc (a ∷ s) c = ground (arith, any-snoc s c)

pub split_from-IsSegment : (seg p : Bytes) → IsSegment seg → All IsSegment (split_from seg p)
unfolding split_from
split_from-IsSegment seg [] h = (h, tt)
split_from-IsSegment seg (c ∷ p) h =
    ground (
      arith,
      split_from-IsSegment [] p refl,
      split_from-IsSegment (seg ++ c ∷ []) p,
      any-snoc seg c,
    )

-- A part of an absolute normal form: a segment that is not empty, `.` or `..`.
abbrev pub IsName : Bytes → Type 0
IsName s = IsSegment s × (is_empty s ≡ false) × (eq s dot ≡ false) × (eq s dot_dot ≡ false)

pub flush-IsName :
    (parts : List Bytes) (seg : Bytes)
    → All IsName parts
    → IsSegment seg
    → All IsName (flush true parts seg)
unfolding flush
flush-IsName [] seg h k = ground arith
flush-IsName (p ∷ parts) seg h k = ground arith

pub resolve-IsName :
    (parts segs : List Bytes)
    → All IsName parts
    → All IsSegment segs
    → All IsName (resolve true parts segs)
unfolding resolve
resolve-IsName parts [] h k = h
resolve-IsName parts (s ∷ segs) h k =
    resolve-IsName (flush true parts s) segs (flush-IsName parts s h k.0) k.1

pub All-reverse {ℓ κ} : {A : Type ℓ} (P : A → Type κ) (xs : List A) → All P xs → All P (reverse xs)
All-reverse P [] h = tt
All-reverse P (x ∷ xs) h =
    rw (reverse-cons x xs) (All-append P (reverse xs) (x ∷ []) (All-reverse P xs h.1) (h.0, tt))

-- The parts of an absolute path, front first.
unfoldable pub components : Bytes → List Bytes
components p = reverse (resolve true [] (split_from [] p))

pub components-IsName : (p : Bytes) → All IsName (components p)
unfolding components
components-IsName p =
    All-reverse IsName _ (resolve-IsName [] (split_from [] p) tt (split_from-IsSegment [] p refl))

-- A relative path keeps `..` in front; its parts are segments and not empty.
abbrev pub IsPart : Bytes → Type 0
IsPart s = IsSegment s × (is_empty s ≡ false)

flush-IsPart :
    (absolute : Bool) (parts : List Bytes) (seg : Bytes)
    → All IsPart parts
    → IsSegment seg
    → All IsPart (flush absolute parts seg)
unfolding flush
flush-IsPart absolute [] seg h k = ground arith
flush-IsPart absolute (p ∷ parts) seg h k = ground arith

pub resolve-IsPart :
    (absolute : Bool) (parts segs : List Bytes)
    → All IsPart parts
    → All IsSegment segs
    → All IsPart (resolve absolute parts segs)
unfolding resolve
resolve-IsPart absolute parts [] h k = h
resolve-IsPart absolute parts (s ∷ segs) h k =
    resolve-IsPart absolute (flush absolute parts s) segs (flush-IsPart absolute parts s h k.0) k.1
