-- ===== src/Tool/Paths/Resolved.antt =====
-- When a resolved path is absolute.
use hai_code.Base.{
  Bytes, ◌≡◌, refl, ◌∙◌, Bool, false, not, ◌&&◌, ◌||◌, [], ◌∷◌, ◌++◌, arith, all, ◌==◌, inl, inr,
  Bool-cases,
}
use hai_code.Permission.Path.{slash, is_empty, is_absolute}
use hai_code.Tool.Paths.{without_end_slashes, put_before, or_dot, resolve_path}

pub slashes : Bytes → Bool
slashes = all (λ c. c == slash)

without_end_slashes_nil : (s : Bytes) → is_empty (without_end_slashes s) ≡ slashes s
unfolding without_end_slashes put_before is_empty slashes
without_end_slashes_nil [] = refl
without_end_slashes_nil (c ∷ s) = go (without_end_slashes s) (without_end_slashes_nil s)
  where
    go : (t : Bytes) → is_empty t ≡ slashes s → is_empty (put_before c t) ≡ slashes (c ∷ s)
    go [] e = ground arith
    go (d ∷ t) e = ground arith

base-absolute :
    (s : Bytes) → is_absolute (or_dot (without_end_slashes s)) ≡ (is_absolute s && not (slashes s))
unfolding without_end_slashes put_before or_dot is_absolute slashes is_empty
base-absolute [] = refl
base-absolute (c ∷ s) = go (without_end_slashes s) (without_end_slashes_nil s)
  where
    go :
        (t : Bytes)
        → is_empty t ≡ slashes s
        → is_absolute (or_dot (put_before c t)) ≡ (is_absolute (c ∷ s) && not (slashes (c ∷ s)))
    go [] e = ground arith
    go (d ∷ t) e = ground arith

is_absolute-append : (p q : Bytes) → is_empty p ≡ false → is_absolute (p ++ q) ≡ is_absolute p
unfolding is_absolute is_empty
is_absolute-append [] q h = cc
is_absolute-append (c ∷ p) q h = refl

or_dot_some : (s : Bytes) → is_empty (or_dot s) ≡ false
unfolding or_dot is_empty
or_dot_some [] = refl
or_dot_some (c ∷ s) = refl

-- A path resolves to an absolute one exactly where it is absolute itself, or it is not empty and the
-- working directory is absolute and has a byte other than a slash.
pub resolve_path-is_absolute :
    (path working_dir : Bytes)
    → is_absolute (resolve_path path working_dir) ≡ (
        is_absolute path
        || (not (is_empty path) && (is_absolute working_dir && not (slashes working_dir))))
unfolding resolve_path is_empty is_absolute
resolve_path-is_absolute [] working_dir = refl
resolve_path-is_absolute (c ∷ path) working_dir =
    let base = or_dot (without_end_slashes working_dir) in
    let joined =
      is_absolute-append base (slash ∷ c ∷ path) (or_dot_some (without_end_slashes working_dir))
      ∙ base-absolute working_dir in
    elim (Bool-cases (is_absolute (c ∷ path))) [ inl e ↦ rw e e | inr e ↦ rw e joined ]
