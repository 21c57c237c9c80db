-- ===== src/Permission/Path/Normal.antt =====
-- `normalize_path` returns a normal form: normalizing again changes nothing.
use mathlib.Core.List.{reverse-cons, append-nil, append_assoc, reverse-reverse}
use hai_code.Base.{
  Bytes, ◌≡◌, refl, sym, ap, ◌∙◌, Bool, true, false, List, [], ◌∷◌, ◌++◌, reverse, eq, All,
  if◌then◌else◌, arith,
}
use hai_code.Permission.Path.Segments.{
  resolve, loop-resolve, split_from, split_from-IsSegment, IsSegment, IsPart, resolve-IsPart,
  All-reverse,
}
use hai_code.Permission.Path.Containment.{render, join-render, join-relative}
use hai_code.Permission.Path.{slash, flush, join, is_absolute, relative_or_dot, normalize_path}

-- A stack of parts, each of which was pushed as it stands on those below it.
abbrev Settled : Bool → List Bytes → Type 0
Settled absolute [] = Unit
Settled absolute (p ∷ parts) = (flush absolute parts p ≡ p ∷ parts) × Settled absolute parts

flush-Settled :
    (absolute : Bool) (parts : List Bytes) (seg : Bytes)
    → Settled absolute parts
    → Settled absolute (flush absolute parts seg)
unfolding flush eq
flush-Settled true [] seg h = ground arith
flush-Settled false [] seg h = ground arith
flush-Settled true (p ∷ parts) seg h = ground arith
flush-Settled false (p ∷ parts) seg h = ground arith

resolve-Settled :
    (absolute : Bool) (parts segs : List Bytes)
    → Settled absolute parts
    → Settled absolute (resolve absolute parts segs)
unfolding resolve
resolve-Settled absolute parts [] h = h
resolve-Settled absolute parts (s ∷ segs) h =
    resolve-Settled absolute (flush absolute parts s) segs (flush-Settled absolute parts s h)

pub resolve-append :
    (absolute : Bool) (parts xs ys : List Bytes)
    → resolve absolute parts (xs ++ ys) ≡ resolve absolute (resolve absolute parts xs) ys
unfolding resolve
resolve-append absolute parts [] ys = refl
resolve-append absolute parts (x ∷ xs) ys = resolve-append absolute (flush absolute parts x) xs ys

-- Settled parts are pushed again one by one.
resolve-reverse :
    (absolute : Bool) (parts : List Bytes)
    → Settled absolute parts
    → resolve absolute [] (reverse parts) ≡ parts
unfolding resolve
resolve-reverse absolute [] h = refl
resolve-reverse absolute (p ∷ parts) h = rw (reverse-cons p parts) (
    resolve-append absolute [] (reverse parts) (p ∷ [])
    ∙ ap (λ st. flush absolute st p) (resolve-reverse absolute parts h.1)
    ∙ h.0)

split_from-segment :
    (seg s rest : Bytes) → IsSegment s → split_from seg (s ++ rest) ≡ split_from (seg ++ s) rest
unfolding split_from
split_from-segment seg [] rest h = rw (append-nil seg)
split_from-segment seg (c ∷ s) rest h =
    ground (arith, split_from-segment (seg ++ c ∷ []) s rest, append_assoc seg (c ∷ []) s)

split_from-render :
    (seg : Bytes) (segs : List Bytes) → All IsPart segs → split_from seg (render segs) ≡ seg ∷ segs
unfolding split_from render
split_from-render seg [] h = refl
split_from-render seg (s ∷ segs) h =
    ap (λ r. seg ∷ r) (split_from-segment [] s (render segs) h.0.0 ∙ split_from-render s segs h.1)

split_from-join :
    (s : Bytes) (segs : List Bytes)
    → All IsPart (s ∷ segs)
    → split_from [] (join (s ∷ segs)) ≡ s ∷ segs
unfolding split_from
split_from-join s segs h =
    let e = ap (split_from []) (join-render s segs) ∙ split_from-render [] (s ∷ segs) h in cc

-- The normal forms.
form : Bool → List Bytes → Bytes
form absolute parts = if absolute then slash ∷ join parts else relative_or_dot parts

normalize-form :
    (p : Bytes)
    → normalize_path p
      ≡ form (is_absolute p) (reverse (resolve (is_absolute p) [] (split_from [] p)))
unfolding normalize_path form
normalize-form p = rw (loop-resolve (is_absolute p) [] [] p)

resolve-parts :
    (absolute : Bool) (parts : List Bytes)
    → Settled absolute (reverse parts)
    → resolve absolute [] parts ≡ reverse parts
resolve-parts absolute parts h =
    ap (resolve absolute []) (sym (reverse-reverse parts))
    ∙ resolve-reverse absolute (reverse parts) h

resolve-form :
    (absolute : Bool) (parts : List Bytes)
    → Settled absolute (reverse parts)
    → All IsPart parts
    → resolve absolute [] (split_from [] (form absolute parts)) ≡ reverse parts
unfolding form relative_or_dot resolve split_from flush join eq
resolve-form true [] h k = refl
resolve-form true (s ∷ parts) h k =
    ap (λ r. resolve true [] (split_from [] r)) (join-render s parts)
    ∙ ap (resolve true []) (split_from-render [] (s ∷ parts) k)
    ∙ resolve-parts true (s ∷ parts) h
resolve-form false [] h k = refl
resolve-form false (s ∷ parts) h k =
    ap (resolve false []) (split_from-join s parts k) ∙ resolve-parts false (s ∷ parts) h

is_absolute-form :
    (absolute : Bool) (parts : List Bytes)
    → All IsPart parts
    → is_absolute (form absolute parts) ≡ absolute
unfolding form is_absolute
is_absolute-form true parts h = refl
is_absolute-form false parts h = join-relative parts h

normalize-normal :
    (absolute : Bool) (parts : List Bytes)
    → Settled absolute (reverse parts)
    → All IsPart parts
    → normalize_path (form absolute parts) ≡ form absolute parts
normalize-normal absolute parts h k =
    normalize-form (form absolute parts)
    ∙ ap (λ b. form b (reverse (resolve b [] (split_from [] (form absolute parts)))))
        (is_absolute-form absolute parts k)
    ∙ ap (λ st. form absolute (reverse st)) (resolve-form absolute parts h k)
    ∙ ap (form absolute) (reverse-reverse parts)

-- Normalizing a normalized path changes nothing, for absolute and relative paths alike.
pub normalize_path_idem : (p : Bytes) → normalize_path (normalize_path p) ≡ normalize_path p
normalize_path_idem p =
    let absolute = is_absolute p in
    let parts = resolve absolute [] (split_from [] p) in
    let settled : Settled absolute (reverse (reverse parts)) =
      rw (reverse-reverse parts) (resolve-Settled absolute [] (split_from [] p) tt) in
    let proper : All IsPart (reverse parts) =
      All-reverse IsPart parts
        (resolve-IsPart absolute [] (split_from [] p) tt (split_from-IsSegment [] p refl)) in
    rw (normalize-form p) (normalize-normal absolute (reverse parts) settled proper)
