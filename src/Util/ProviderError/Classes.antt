-- ===== src/Util/ProviderError/Classes.antt =====
-- A message keeps its kind where more text is put around it.
use hai_code.Base.{
  Bytes, ◌≡◌, refl, ap, Bool, true, List, [], ◌∷◌, ◌++◌, any, arith, starts_with, Bool-cases, inl,
  inr,
}
use hai_code.Util.ProviderError.{
  overflow, fatal, to_lower, lower, has_marker, overflow_markers, transient_markers,
  classify_provider_error,
}

starts_with-longer :
    (m s after : Bytes) → starts_with m s ≡ true → starts_with m (s ++ after) ≡ true
unfolding starts_with
starts_with-longer [] s after h = refl
starts_with-longer (a ∷ m) [] after h = cc
starts_with-longer (a ∷ m) (b ∷ s) after h = ground (arith, starts_with-longer m s after)

pub has_marker_start : (m s : Bytes) → starts_with m s ≡ true → has_marker s m ≡ true
unfolding has_marker
has_marker_start m [] h = h
has_marker_start m (c ∷ s) h = rw h refl

pub has_marker-append :
    (s after m : Bytes) → has_marker s m ≡ true → has_marker (s ++ after) m ≡ true
unfolding has_marker
has_marker-append [] [] m h = h
has_marker-append [] (c ∷ after) m h = ground (arith, starts_with-longer m [] (c ∷ after))
has_marker-append (c ∷ s) after m h =
    ground (arith, starts_with-longer m (c ∷ s) after, has_marker-append s after m)

pub has_marker-behind :
    (before s m : Bytes) → has_marker s m ≡ true → has_marker (before ++ s) m ≡ true
unfolding has_marker
has_marker-behind [] s m h = h
has_marker-behind (c ∷ before) s m h = ground (arith, has_marker-behind before s m)

any_mono :
    (p q : Bytes → Bool) (ms : List Bytes)
    → ((m : Bytes) → p m ≡ true → q m ≡ true)
    → any p ms ≡ true
    → any q ms ≡ true
any_mono p q [] f h = cc
any_mono p q (m ∷ ms) f h = elim (Bool-cases (p m)) [
  | inl e ↦ ground (arith, f m e)
  | inr e ↦ ground (arith, any_mono p q ms f)
]

lower-append : (s t : Bytes) → lower (s ++ t) ≡ lower s ++ lower t
unfolding lower
lower-append [] t = refl
lower-append (c ∷ s) t = ap (λ (r : Bytes). to_lower c ∷ r) (lower-append s t)

markers_kept :
    (before s after : Bytes) (ms : List Bytes)
    → any (has_marker (lower s)) ms ≡ true
    → any (has_marker (lower (before ++ s ++ after))) ms ≡ true
markers_kept before s after ms h =
    any_mono (has_marker (lower s)) (has_marker (lower (before ++ s ++ after))) ms
      (λ m k.
        rw (lower-append (before ++ s) after, lower-append before s)
          (has_marker-append (lower before ++ lower s) (lower after) m
            (has_marker-behind (lower before) (lower s) m k)))
      h

-- Text before and behind an error message leaves an overflow an overflow, and makes no error fatal
-- that was not.
pub classify_provider_error-append :
    (before error after : Bytes)
    → (classify_provider_error error ≡ overflow
        → classify_provider_error (before ++ error ++ after) ≡ overflow)
      × (classify_provider_error (before ++ error ++ after) ≡ fatal
          → classify_provider_error error ≡ fatal)
unfolding classify_provider_error
classify_provider_error-append before error after = (
  λ h. ground (arith, markers_kept before error after overflow_markers),
  λ h. ground (
    arith,
    markers_kept before error after overflow_markers,
    markers_kept before error after transient_markers,
  ),
)
