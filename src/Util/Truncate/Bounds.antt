-- ===== src/Util/Truncate/Bounds.antt =====
-- How much of a text `truncate_utf8` keeps.
use hai_code.Base.{
  Bytes, ℕ, ◌+◌, ◌-◌, ◌≤◌, ◌<◌, ◌≡◌, refl, ap, [], ◌∷◌, ◌++◌, leb, length, drop, take-drop,
  length-take, get_or, arith, Bool-cases, inl, inr,
}
use hai_code.Util.Utf8.{lead_length}
use hai_code.Util.Truncate.{walk_back, seq_len, trim_end, truncate_utf8}

whole : (s : Bytes) → s ≡ s ++ []
whole [] = refl
whole (c ∷ s) = ap (λ (t : Bytes). c ∷ t) (whole s)

lead_length_le : (b : ℕ) → lead_length b ≤ 4
unfolding lead_length
lead_length_le b = ground arith

seq_len_le : (b : ℕ) → seq_len b ≤ 4
unfolding seq_len
seq_len_le b = ground (arith, lead_length_le b)

trim_end_le :
    (s : Bytes) (end back : ℕ) → (trim_end s end back ≤ end) × (end ≤ trim_end s end back + 3)
unfolding trim_end
trim_end_le s end back = (ground arith, ground (arith, seq_len_le (get_or s (end - 1 - back) 0)))

-- The result is a prefix of the text and no longer than the limit; a text within the limit is kept
-- whole, and of a longer one at most three bytes below the limit are cut off.
pub truncate_utf8_bounds :
    (s : Bytes) (max_bytes : ℕ)
    → ((rest : Bytes) × (s ≡ truncate_utf8 s max_bytes ++ rest))
      × (length (truncate_utf8 s max_bytes) ≤ max_bytes)
      × (length s ≤ max_bytes → truncate_utf8 s max_bytes ≡ s)
      × (max_bytes < length s → max_bytes ≤ length (truncate_utf8 s max_bytes) + 3)
unfolding truncate_utf8
truncate_utf8_bounds s max_bytes = elim (Bool-cases (leb (length s) max_bytes)) [
  | inl e ↦ rw e (([], whole s), ground arith, λ _. refl, λ h. omega arith)
  | inr e ↦
      let end = trim_end s max_bytes (walk_back 3 s max_bytes 0) in
      let bound = trim_end_le s max_bytes (walk_back 3 s max_bytes 0) in
      let len = length-take end s (ground arith) in
      rw e (
        (drop end s, take-drop end s),
        ground (arith, len, bound),
        ground arith,
        ground (arith, len, bound),
      )
]
