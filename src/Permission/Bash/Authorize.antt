-- ===== src/Permission/Bash/Authorize.antt =====
-- What a glob pattern that is allowed for bash can authorize.
use hai_code.Base.{
  Bytes, ℕ, ◌≡◌, Bool, true, false, ◌&&◌, none, List, [], ◌∷◌, ◌++◌, codes, eq, arith, all,
  all-append,
}
use hai_code.Permission.Bash.Quoting.{ends_outside}
use hai_code.Permission.Bash.Split.{ends_amp, split_segments-semicolon}
use hai_code.Permission.Bash.Substitution.{
  marked, OpensSubstitution, OpensSubstitution-marks_subst, split_segments-marked,
}
use hai_code.Permission.Bash.{split_segments, bash_pattern_authorizes, segment_allowed}

module _ (fnmatch : Bytes → Bytes → Bool) where
  -- With a `;` outside quotes and escapes between them, two commands are authorized exactly where each
  -- of them is by itself, unless the first one ends in a `&`.
  pub bash_pattern_authorizes-semicolon :
      (pattern a b : Bytes)
      → ends_outside none a ≡ true
      → ends_amp a ≡ false
      → bash_pattern_authorizes fnmatch pattern (a ++ b';' ∷ b)
        ≡ (bash_pattern_authorizes fnmatch pattern a && bash_pattern_authorizes fnmatch pattern b)
  unfolding bash_pattern_authorizes
  bash_pattern_authorizes-semicolon pattern a b h n = rw (split_segments-semicolon a b h n) (
      ground
        (arith, all-append (segment_allowed fnmatch pattern) (split_segments a) (split_segments b)))

  marked_refused :
      (pattern : Bytes) (segs : List (Bytes × Bool))
      → marked segs ≡ true
      → all (segment_allowed fnmatch pattern) segs ≡ false
  unfolding segment_allowed
  marked_refused pattern [] h = cc
  marked_refused pattern ((s, b) ∷ segs) h = ground (arith, marked_refused pattern segs)

  -- A command with a backtick, or a `$` before a `(`, outside quotes and escapes is authorized by the
  -- pattern `*` only, whatever `fnmatch` says.
  pub bash_pattern_authorizes-substitution :
      (pattern a : Bytes) (c : ℕ) (b : Bytes)
      → ends_outside none a ≡ true
      → OpensSubstitution c b
      → bash_pattern_authorizes fnmatch pattern (a ++ c ∷ b) ≡ eq pattern (codes "*")
  unfolding bash_pattern_authorizes
  bash_pattern_authorizes-substitution pattern a c b h m =
      let refused =
        marked_refused pattern (split_segments (a ++ c ∷ b))
          (split_segments-marked a c b h (OpensSubstitution-marks_subst c b m)) in
      ground arith
