-- ===== src/Permission/Path/Below.antt =====
-- A relative path without `..`, joined onto an absolute directory, stays in the directory.
use mathlib.Core.List.{reverse-append, append_assoc}
use hai_code.Base.{
  Bytes, ◌≡◌, refl, sym, ap, ◌∙◌, true, false, not, ◌&&◌, List, [], ◌∷◌, ◌++◌, reverse, eq, eq_refl,
  All, arith, inl, inr, Bool-cases,
}
use hai_code.Permission.Path.Segments.{resolve, split_from, components}
use hai_code.Permission.Path.Containment.{is_prefix, is_path_within-is_prefix, components-segments}
use hai_code.Permission.Path.Normal.{resolve-append}
use hai_code.Permission.Path.{slash, dot, dot_dot, is_empty, flush, is_absolute, is_path_within}

split_from-join :
    (seg p q : Bytes) → split_from seg (p ++ slash ∷ q) ≡ split_from seg p ++ split_from [] q
unfolding split_from
split_from-join seg [] q = refl
split_from-join seg (c ∷ p) q =
    ground (arith, split_from-join [] p q, split_from-join (seg ++ c ∷ []) p q)

-- No segment climbs.
abbrev pub NoClimb : Bytes → Type 0
NoClimb p = All (λ s. eq s dot_dot ≡ false) (split_from [] p)

flush-adds :
    (parts : List Bytes) (s : Bytes)
    → eq s dot_dot ≡ false
    → (own : List Bytes) × (flush true parts s ≡ own ++ parts)
unfolding flush
flush-adds parts s h = elim (Bool-cases (not (eq s dot) && not (is_empty s))) [
  | inl e ↦ (s ∷ [], ground arith)
  | inr e ↦ ([], ground arith)
]

-- Segments other than `..` only add to the stack.
resolve-adds :
    (parts segs : List Bytes)
    → All (λ s. eq s dot_dot ≡ false) segs
    → (added : List Bytes) × (resolve true parts segs ≡ added ++ parts)
unfolding resolve
resolve-adds parts [] h = ([], refl)
resolve-adds parts (s ∷ segs) h =
    let (added, e) = resolve-adds (flush true parts s) segs h.1 in
    let (own, f) = flush-adds parts s h.0 in
    (added ++ own, e ∙ ap (λ r. added ++ r) f ∙ sym (append_assoc added own parts))

is_prefix-append : (xs ys : List Bytes) → is_prefix xs (xs ++ ys) ≡ true
unfolding is_prefix
is_prefix-append [] ys = refl
is_prefix-append (x ∷ xs) ys = ground (arith, eq_refl x, is_prefix-append xs ys)

is_absolute-append : (p q : Bytes) → is_absolute p ≡ true → is_absolute (p ++ q) ≡ true
unfolding is_absolute
is_absolute-append [] q h = cc
is_absolute-append (c ∷ p) q h = h

-- A path none of whose segments is `..`, joined below an absolute base, is within the base.
pub is_path_within-join :
    (base p : Bytes)
    → is_absolute base ≡ true
    → NoClimb p
    → is_path_within (base ++ slash ∷ p) base ≡ true
unfolding components
is_path_within-join base p h k =
    let stack = resolve true [] (split_from [] base) in
    let (added, e) = resolve-adds stack (split_from [] p) k in
    let whole =
      ap (resolve true []) (split_from-join [] base p)
      ∙ resolve-append true [] (split_from [] base) (split_from [] p)
      ∙ e in
    rw
      (
        is_path_within-is_prefix (base ++ slash ∷ p) base,
        is_absolute-append base (slash ∷ p) h,
        h,
        sym (components-segments base),
        sym (components-segments (base ++ slash ∷ p)),
        whole,
        reverse-append added stack,
      )
      (is_prefix-append (reverse stack) (reverse added))
