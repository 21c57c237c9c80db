-- ===== src/Util/Utf8/Valid.antt =====
-- `sanitize_utf8` returns well-formed UTF-8, and leaves well-formed UTF-8 alone.
use hai_code.Base.{
  Bytes, ℕ, zero, suc, ◌/◌, ◌≤◌, ◌<◌, ◌≡◌, refl, ap, subst, ◌↔◌, inl, inr, Bool, not, ◌&&◌, [], ◌∷◌,
  ltb, leb, ◌==◌, length, arith, Bool-cases,
}
use hai_code.Util.Utf8.{sequence_length, copy, sanitize_utf8}

-- 0x80 to 0xBF.
abbrev IsTail : ℕ → Type 0
IsTail c = (0x80 ≤ c) × (c ≤ 0xBF)

-- The well-formed byte sequences of the Unicode standard (table 3-7), one code point after another.
pub data IsUtf8 : Bytes → Type 0 where
  empty : IsUtf8 []
  one : {a : ℕ} {s : Bytes} → a < 0x80 → IsUtf8 s → IsUtf8 (a ∷ s)
  two : {a b : ℕ} {s : Bytes} → 0xC2 ≤ a → a ≤ 0xDF → IsTail b → IsUtf8 s → IsUtf8 (a ∷ b ∷ s)
  three :
      {a b c : ℕ} {s : Bytes}
      → 0xE0 ≤ a
      → a ≤ 0xEF
      → IsTail b
      → (a ≡ 0xE0 → 0xA0 ≤ b)
      → (a ≡ 0xED → b ≤ 0x9F)
      → IsTail c
      → IsUtf8 s
      → IsUtf8 (a ∷ b ∷ c ∷ s)
  four :
      {a b c d : ℕ} {s : Bytes}
      → 0xF0 ≤ a
      → a ≤ 0xF4
      → IsTail b
      → (a ≡ 0xF0 → 0x90 ≤ b)
      → (a ≡ 0xF4 → b ≤ 0x8F)
      → IsTail c
      → IsTail d
      → IsUtf8 s
      → IsUtf8 (a ∷ b ∷ c ∷ d ∷ s)

-- What the loop makes of a byte and those behind it.
data Verdict (a : ℕ) (s : Bytes) : Type 0 where
  bad : sequence_length a s ≡ 0 → Verdict a s
  ascii : sequence_length a s ≡ 1 → a < 0x80 → Verdict a s
  pair :
      (b : ℕ) (t : Bytes)
      → s ≡ b ∷ t
      → sequence_length a s ≡ 2
      → 0xC2 ≤ a
      → a ≤ 0xDF
      → IsTail b
      → Verdict a s
  triple :
      (b c : ℕ) (t : Bytes)
      → s ≡ b ∷ c ∷ t
      → sequence_length a s ≡ 3
      → 0xE0 ≤ a
      → a ≤ 0xEF
      → IsTail b
      → (a ≡ 0xE0 → 0xA0 ≤ b)
      → (a ≡ 0xED → b ≤ 0x9F)
      → IsTail c
      → Verdict a s
  quad :
      (b c d : ℕ) (t : Bytes)
      → s ≡ b ∷ c ∷ d ∷ t
      → sequence_length a s ≡ 4
      → 0xF0 ≤ a
      → a ≤ 0xF4
      → IsTail b
      → (a ≡ 0xF0 → 0x90 ≤ b)
      → (a ≡ 0xF4 → b ≤ 0x8F)
      → IsTail c
      → IsTail d
      → Verdict a s

classify_two : (a : ℕ) (s : Bytes) → a / 32 ≡ 6 → Verdict a s
unfolding sequence_length
classify_two a [] h = bad (ground arith)
classify_two a (b ∷ t) h = elim (Bool-cases (b / 64 == 2 && leb 0xC2 a)) [
  | inl e ↦ pair b t refl (ground arith) (ground arith) (ground arith) (ground arith, ground arith)
  | inr e ↦ bad (ground arith)
]

-- The third byte does not decide which code points are refused.
abbrev fits_three : ℕ → ℕ → Bool
fits_three a b = not (a == 0xE0 && ltb b 0xA0) && not (a == 0xED && ltb 0x9F b)

classify_three : (a : ℕ) (s : Bytes) → a / 16 ≡ 14 → Verdict a s
unfolding sequence_length
classify_three a [] h = bad (ground arith)
classify_three a (b ∷ []) h = bad (ground arith)
classify_three a (b ∷ c ∷ t) h =
    elim (Bool-cases (b / 64 == 2 && (c / 64 == 2 && fits_three a b))) [
      | inl e ↦
          triple b c t refl (ground arith) (ground arith) (ground arith)
            (ground arith, ground arith) (λ k. ground arith) (λ k. ground arith)
            (ground arith, ground arith)
      | inr e ↦ bad (ground arith)
    ]

abbrev fits_four : ℕ → ℕ → Bool
fits_four a b = leb a 0xF4 && (not (a == 0xF0 && ltb b 0x90) && not (a == 0xF4 && ltb 0x8F b))

classify_four : (a : ℕ) (s : Bytes) → a / 8 ≡ 30 → Verdict a s
unfolding sequence_length
classify_four a [] h = bad (ground arith)
classify_four a (b ∷ []) h = bad (ground arith)
classify_four a (b ∷ c ∷ []) h = bad (ground arith)
classify_four a (b ∷ c ∷ d ∷ t) h =
    elim (Bool-cases (b / 64 == 2 && (c / 64 == 2 && (d / 64 == 2 && fits_four a b)))) [
      | inl e ↦
          quad b c d t refl (ground arith) (ground arith) (ground arith)
            (ground arith, ground arith) (λ k. ground arith) (λ k. ground arith)
            (ground arith, ground arith) (ground arith, ground arith)
      | inr e ↦ bad (ground arith)
    ]

classify : (a : ℕ) (s : Bytes) → Verdict a s
unfolding sequence_length
classify a s = elim (Bool-cases (ltb a 0x80)) [
  | inl e ↦ ascii (ground arith) (ground arith)
  | inr e ↦ elim (Bool-cases (a / 32 == 6)) [
    | inl f ↦ classify_two a s (ground arith)
    | inr f ↦ elim (Bool-cases (a / 16 == 14)) [
      | inl g ↦ classify_three a s (ground arith)
      | inr g ↦ elim (Bool-cases (a / 8 == 30)) [
        | inl k ↦ classify_four a s (ground arith)
        | inr k ↦ bad (ground arith)
      ]
    ]
  ]
]

copy-IsUtf8 : (n : ℕ) (s : Bytes) → length s ≤ n → IsUtf8 (copy zero s)
unfolding copy
copy-IsUtf8 n [] h = empty
copy-IsUtf8 zero (a ∷ s) h = absurd (omega arith)
copy-IsUtf8 (suc n) (a ∷ s) h = elim (classify a s) [
  | bad e ↦
      rw (e, copy)
        (three (omega arith) (omega arith) (omega arith) (λ k. omega arith) (λ k. omega arith)
          (omega arith) (copy-IsUtf8 n s (omega arith)))
  | ascii e k ↦ rw (e, copy) (one k (copy-IsUtf8 n s (omega arith)))
  | pair b t f e k l m ↦ rw (e, f, copy) (two k l m (copy-IsUtf8 n t (omega (arith, ap length f))))
  | triple b c t f e k l m o p q ↦
      rw (e, f, copy) (three k l m o p q (copy-IsUtf8 n t (omega (arith, ap length f))))
  | quad b c d t f e k l m o p q r ↦
      rw (e, f, copy) (four k l m o p q r (copy-IsUtf8 n t (omega (arith, ap length f))))
]

-- Whatever the bytes, the result is well-formed UTF-8.
pub sanitize_utf8-IsUtf8 : (s : Bytes) → IsUtf8 (sanitize_utf8 s)
unfolding sanitize_utf8
sanitize_utf8-IsUtf8 s = copy-IsUtf8 (length s) s (omega arith)

copy_valid : {s : Bytes} → IsUtf8 s → copy zero s ≡ s
unfolding copy sequence_length
copy_valid empty = refl
copy_valid (one {a} {s} k v) =
    let e : sequence_length a s ≡ 1 = ground arith in rw (e, copy) (ap (λ r. a ∷ r) (copy_valid v))
copy_valid (two {a} {b} {s} k l m v) =
    let e : sequence_length a (b ∷ s) ≡ 2 = ground arith in
    rw (e, copy) (ap (λ r. a ∷ b ∷ r) (copy_valid v))
copy_valid (three {a} {b} {c} {s} k l m o p q v) =
    let e : sequence_length a (b ∷ c ∷ s) ≡ 3 = ground arith in
    rw (e, copy) (ap (λ r. a ∷ b ∷ c ∷ r) (copy_valid v))
copy_valid (four {a} {b} {c} {d} {s} k l m o p q r v) =
    let e : sequence_length a (b ∷ c ∷ d ∷ s) ≡ 4 = ground arith in
    rw (e, copy) (ap (λ r. a ∷ b ∷ c ∷ d ∷ r) (copy_valid v))

-- Well-formed text passes unchanged, so a text is well-formed exactly where it is returned as it is.
pub sanitize_utf8_iff : (s : Bytes) → (sanitize_utf8 s ≡ s) ↔ IsUtf8 s
unfolding sanitize_utf8
sanitize_utf8_iff s = (λ e. subst IsUtf8 e (copy-IsUtf8 (length s) s (omega arith)), copy_valid)
