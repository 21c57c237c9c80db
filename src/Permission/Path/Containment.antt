-- ===== src/Permission/Path/Containment.antt =====
-- `is_path_within` decides, by its test on texts, whether the one path's segments begin with the
-- other's.
use mathlib.Core.List.{append-nil}
use hai_code.Base.{
  Bytes, ◌≡◌, refl, ap, ◌∙◌, Bool, true, false, ◌&&◌, List, [], ◌∷◌, ◌++◌, eq, All, starts_with,
  ◌==◌, if◌then◌else◌, arith, inl, inr, codes, reverse, sym, ◌||◌, Bool-cases,
}
use hai_code.Permission.Path.Segments.{
  resolve, flush-IsName, loop-resolve, split_from, split_from-IsSegment, IsSegment, IsName, IsPart,
  components, components-IsName, resolve-IsPart, All-reverse,
}
use hai_code.Permission.Path.{
  flush, go_up, slash, join, is_absolute, is_empty, relative_or_dot, normalize_path, char_is, under,
  is_path_within,
}

unfoldable pub render : List Bytes → Bytes
render [] = []
render (s ∷ rest) = slash ∷ s ++ render rest

pub join-render : (s : Bytes) (rest : List Bytes) → slash ∷ join (s ∷ rest) ≡ render (s ∷ rest)
unfolding join render
join-render s [] = ground (arith, append-nil s)
join-render s (t ∷ rest) = ap (λ r. slash ∷ s ++ r) (join-render t rest)

pub normalize-absolute :
    (p : Bytes) → is_absolute p ≡ true → normalize_path p ≡ slash ∷ join (components p)
unfolding normalize_path components
normalize-absolute p h = rw (h, loop-resolve true [] [] p)

-- After the base in the path comes a slash, or nothing.
boundary : Bytes → Bytes → Bool
boundary [] [] = true
boundary [] (c ∷ s) = c == slash
boundary (a ∷ base) [] = false
boundary (a ∷ base) (b ∷ s) = a == b && boundary base s

under-boundary : (s base : Bytes) → under s base ≡ boundary base s
unfolding under boundary char_is starts_with eq
under-boundary [] [] = refl
under-boundary (c ∷ s) [] = ground arith
under-boundary [] (a ∷ base) = ground arith
under-boundary (c ∷ s) (a ∷ base) = ground (arith, under-boundary s base)

unfoldable pub is_prefix : List Bytes → List Bytes → Bool
is_prefix [] ys = true
is_prefix (x ∷ xs) [] = false
is_prefix (x ∷ xs) (y ∷ ys) = eq x y && is_prefix xs ys

boundary-render_nil : (ss : List Bytes) → boundary [] (render ss) ≡ true
unfolding boundary render
boundary-render_nil [] = refl
boundary-render_nil (s ∷ ss) = refl

-- Two segments in front are compared whole, since what follows them begins with a slash.
boundary-segment :
    (b s : Bytes) (bs ss : List Bytes)
    → IsSegment b
    → IsSegment s
    → boundary (b ++ render bs) (s ++ render ss) ≡ (eq b s && boundary (render bs) (render ss))
unfolding boundary eq render
boundary-segment [] [] bs ss h k = refl
boundary-segment [] (c ∷ s) [] ss h k = ground arith
boundary-segment [] (c ∷ s) (b' ∷ bs) ss h k = ground arith
boundary-segment (a ∷ b) [] bs [] h k = ground arith
boundary-segment (a ∷ b) [] bs (s' ∷ ss) h k = ground arith
boundary-segment (a ∷ b) (c ∷ s) bs ss h k = ground (arith, boundary-segment b s bs ss)

boundary-is_prefix :
    (bs ss : List Bytes)
    → All IsName bs
    → All IsName ss
    → boundary (render bs) (render ss) ≡ is_prefix bs ss
unfolding is_prefix boundary render
boundary-is_prefix [] ss h k = boundary-render_nil ss
boundary-is_prefix (b ∷ bs) [] h k = refl
boundary-is_prefix (b ∷ bs) (s ∷ ss) h k =
    boundary-segment b s bs ss h.0.0 k.0.0
    ∙ ap (λ r. eq b s && r) (boundary-is_prefix bs ss h.1 k.1)

-- The test of `is_path_within` on two absolute normal forms.
within_test : List Bytes → List Bytes → Bool
within_test bs ss =
    if eq (slash ∷ join bs) (slash ∷ []) then true else under (slash ∷ join ss) (slash ∷ join bs)

not_root :
    (b : Bytes) (bs : List Bytes)
    → is_empty b ≡ false
    → (eq (slash ∷ join (b ∷ bs)) (slash ∷ []) ≡ false)
      × (boundary (slash ∷ join (b ∷ bs)) (slash ∷ []) ≡ false)
unfolding join eq boundary is_empty
not_root [] bs h = cc
not_root (c ∷ b) [] h = (refl, refl)
not_root (c ∷ b) (t ∷ bs) h = (refl, refl)

within_test-is_prefix :
    (bs ss : List Bytes) → All IsName bs → All IsName ss → within_test bs ss ≡ is_prefix bs ss
unfolding within_test is_prefix eq join
within_test-is_prefix [] ss h k = refl
within_test-is_prefix (b ∷ bs) [] h k =
    let (root, apart) = not_root b bs h.0.1 in
    rw (root, under-boundary (slash ∷ []) (slash ∷ join (b ∷ bs)), apart)
within_test-is_prefix (b ∷ bs) (s ∷ ss) h k =
    let (root, apart) = not_root b bs h.0.1 in
    rw
      (root, join-render b bs, join-render s ss, under-boundary (render (s ∷ ss)) (render (b ∷ bs)))
      (boundary-is_prefix (b ∷ bs) (s ∷ ss) h k)

-- A relative path stays relative.
pub join-relative :
    (parts : List Bytes) → All IsPart parts → is_absolute (relative_or_dot parts) ≡ false
unfolding relative_or_dot is_absolute join is_empty
join-relative [] h = refl
join-relative ([] ∷ rest) h = cc
join-relative ((c ∷ s) ∷ []) h = ground arith
join-relative ((c ∷ s) ∷ t ∷ rest) h = ground arith

pub is_absolute-normalize_path : (p : Bytes) → is_absolute (normalize_path p) ≡ is_absolute p
unfolding normalize_path
is_absolute-normalize_path p = elim (Bool-cases (is_absolute p)) [
  | inl e ↦ rw e (unfold is_absolute in refl)
  | inr e ↦
      rw (e, loop-resolve false [] [] p)
        (join-relative _ (
          All-reverse IsPart _
            (resolve-IsPart false [] (split_from [] p) tt (split_from-IsSegment [] p refl))))
]

pub is_absolute-not_empty : (p : Bytes) → is_absolute p ≡ true → is_empty p ≡ false
unfolding is_absolute is_empty
is_absolute-not_empty [] h = cc
is_absolute-not_empty (c ∷ p) h = refl

within_absolute :
    (path base : Bytes)
    → is_absolute path ≡ true
    → is_absolute base ≡ true
    → is_path_within path base ≡ is_prefix (components base) (components path)
unfolding is_path_within within_test
within_absolute path base e f =
    rw
      (
        is_absolute-not_empty path e,
        is_absolute-not_empty base f,
        is_absolute-normalize_path path,
        is_absolute-normalize_path base,
        e,
        f,
        normalize-absolute path e,
        normalize-absolute base f,
      )
      (within_test-is_prefix (components base) (components path) (components-IsName base)
        (components-IsName path))

within_relative :
    (path base : Bytes)
    → (is_absolute path && is_absolute base) ≡ false
    → is_path_within path base ≡ false
unfolding is_path_within
within_relative path base h =
    ground (arith, is_absolute-normalize_path path, is_absolute-normalize_path base)

-- The segments of an absolute path by themselves: an empty one and `.` stay, `..` leaves the last one
-- entered, at the root as well, and any other is entered. The last one entered is the head.
unfoldable pub enter : List Bytes → Bytes → List Bytes
enter entered s =
    if eq s (codes "..")
    then (elim entered [ [] ↦ [] | x ∷ rest ↦ rest ])
    else if is_empty s || eq s (codes ".")
    then entered
    else s ∷ entered

unfoldable pub enter_all : List Bytes → List Bytes → List Bytes
enter_all entered [] = entered
enter_all entered (s ∷ segs) = enter_all (enter entered s) segs

-- Where an absolute path leads, from the root on.
unfoldable pub segments : Bytes → List Bytes
segments p = reverse (enter_all [] (split_from [] p))

flush-enter :
    (entered : List Bytes) (s : Bytes) → All IsName entered → flush true entered s ≡ enter entered s
unfolding flush enter go_up
flush-enter [] s h = ground arith
flush-enter (x ∷ entered) s h = ground arith

resolve-enter_all :
    (entered segs : List Bytes)
    → All IsName entered
    → All IsSegment segs
    → resolve true entered segs ≡ enter_all entered segs
unfolding resolve enter_all
resolve-enter_all entered [] h k = refl
resolve-enter_all entered (s ∷ segs) h k =
    resolve-enter_all (flush true entered s) segs (flush-IsName entered s h k.0) k.1
    ∙ ap (λ e. enter_all e segs) (flush-enter entered s h)

pub components-segments : (p : Bytes) → components p ≡ segments p
unfolding components segments
components-segments p =
    ap reverse (resolve-enter_all [] (split_from [] p) tt (split_from-IsSegment [] p refl))

-- `is_path_within` holds exactly where both paths are absolute and the base's segments are the first
-- ones of the path's, with empty ones and `.` left out and `..` leaving the last one entered: neither
-- `..` nor a longer name with the same beginning passes for a child.
pub is_path_within-is_prefix :
    (path base : Bytes)
    → is_path_within path base
      ≡ (is_absolute path && (is_absolute base && is_prefix (segments base) (segments path)))
is_path_within-is_prefix path base =
    rw (sym (components-segments path), sym (components-segments base))
      (ground (arith, within_absolute path base, within_relative path base))
