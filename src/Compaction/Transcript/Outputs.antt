-- ===== src/Compaction/Transcript/Outputs.antt =====
-- A tool's output as the text shows it.
use hai_code.Base.{
  to_string, Bytes, ℕ, ◌-◌, ◌≤◌, ◌<◌, ◌≡◌, refl, ap, ◌∙◌, true, ◌∷◌, ◌++◌, codes, length,
  length-append, ltb, arith,
}
use hai_code.Util.Truncate.{truncate_utf8}
use hai_code.Util.Truncate.Bounds.{truncate_utf8_bounds}
use hai_code.Compaction.Transcript.{shown_output}

-- An output over the cap is shown as a start of it, no longer than the cap, with a note that has the
-- number of the bytes that are left out, and another one is shown whole.
pub shown_output_bounds :
    (output : Bytes) (cap : ℕ)
    → (length output ≤ cap → shown_output output cap ≡ output)
      × (cap < length output
          → (cut rest : Bytes) × (output ≡ cut ++ rest)
            × (length cut ≤ cap)
            × (shown_output output cap
                ≡ cut
                  ++ (10
                      ∷ (codes "[truncated: "
                          ++ (to_string (length rest) ++ codes " more bytes]")))))
unfolding shown_output
shown_output_bounds output cap = (
  λ h. ground (arith, h),
  λ h.
      let ((rest, whole), bound, kept, near) = truncate_utf8_bounds output cap in
      let left : length output - length (truncate_utf8 output cap) ≡ length rest =
        omega (arith, ap length whole ∙ length-append (truncate_utf8 output cap) rest) in
      let over : ltb cap (length output) ≡ true = ground (arith, h) in
      (truncate_utf8 output cap, rest, whole, bound, rw (over, left) refl),
)
