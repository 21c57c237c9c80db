-- ===== src/Util/Utf8.antt =====
-- `sanitize_utf8` of lib/src/util/util.cpp. Bytes are below 256; a test of a
-- byte's high bits is a division, and its low bits are a remainder.
pub mod Valid
use hai_code.Base.{
  Bytes, ℕ, zero, suc, ◌+◌, ◌-◌, ◌*◌, ◌/◌, ◌%◌, Bool, true, false, not, ◌&&◌, ◌||◌, Option, none,
  some, List, [], ◌∷◌, ◌++◌, ltb, leb, ◌==◌, if◌then◌else◌, length,
}

-- U+FFFD.
abbrev pub replacement : Bytes
replacement = 0xEF ∷ 0xBF ∷ 0xBD ∷ []

-- `(c & 0xC0) == 0x80`.
pub is_continuation : ℕ → Bool
is_continuation c = c / 64 == 2

-- `len` and the first `cp` of a byte from 0x80 on: `(b & 0xE0) == 0xC0` and so on.
unfoldable pub lead_length : ℕ → ℕ
lead_length b = if b / 32 == 6 then 2 else if b / 16 == 14 then 3 else if b / 8 == 30 then 4 else 0

pub lead_bits : ℕ → ℕ
lead_bits b = if b / 32 == 6 then b % 32 else if b / 16 == 14 then b % 16 else b % 8

-- The loop over the continuation bytes; `none` is one that is missing or is none.
pub decode : ℕ → ℕ → Bytes → Option ℕ
decode zero cp s = some cp
decode (suc k) cp [] = none
decode (suc k) cp (c ∷ s) =
    let rest = decode k (cp * 64 + c % 64) s in if is_continuation c then rest else none

-- No overlong form, no surrogate, nothing above U+10FFFF.
pub cp_ok : ℕ → ℕ → Bool
cp_ok len cp =
    not (len == 2 && ltb cp 0x80)
    && (not (len == 3 && ltb cp 0x800)
        && (not (len == 4 && (ltb cp 0x10000 || ltb 0x10FFFF cp))
            && not (leb 0xD800 cp && leb cp 0xDFFF)))

-- The length of the sequence that starts with `b`, or 0 where `b` is replaced.
pub sequence_length : ℕ → Bytes → ℕ
unfolding lead_length lead_bits decode cp_ok is_continuation
sequence_length b s =
    if ltb b 0x80
    then 1
    else if lead_length b == 0
    then 0
    else elim (decode (lead_length b - 1) (lead_bits b) s) [
      | none ↦ 0
      | some cp ↦ if cp_ok (lead_length b) cp then lead_length b else 0
    ]

-- The loop. The first argument counts the bytes of an accepted sequence that are still to be copied.
pub copy : ℕ → Bytes → Bytes
unfolding sequence_length
copy k [] = []
copy (suc k) (b ∷ s) = b ∷ copy k s
copy zero (b ∷ s) = elim (sequence_length b s) [
  | zero ↦ replacement ++ copy zero s
  | suc k ↦ b ∷ copy k s
]

pub sanitize_utf8 : Bytes → Bytes
unfolding copy
sanitize_utf8 s = copy zero s
