-- ===== src/Util/Base64.antt =====
-- `base64_encode` and `base64_decode` of lib/src/util/util.cpp. `n` is a 32-bit word.
pub mod RoundTrip
use hai_code.Base.{
  Bytes, ℕ, zero, suc, ◌+◌, ◌-◌, ◌*◌, ◌/◌, ◌%◌, Bool, true, false, ◌&&◌, ◌||◌, Option, none, some,
  List, [], ◌∷◌, ◌++◌, leb, ltb, ◌==◌, if◌then◌else◌, codes, get_or,
}

abbrev pub alphabet : Bytes
alphabet = codes "ABCDEFGHIJKLMNOPQRSTUVWXYZabcdefghijklmnopqrstuvwxyz0123456789+/"

pub table : ℕ → ℕ
table i = get_or alphabet i 0

abbrev pub word : ℕ
word = 0x1_0000_0000

-- `out += table[(n >> k) & 63]`, with `p` for 2 ^ k.
pub digit : ℕ → ℕ → ℕ
digit n p = table (n / p % 64)

pub base64_encode : Bytes → Bytes
unfolding digit
base64_encode [] = []
base64_encode (a ∷ []) = let n = a * 65536 in digit n 262144 ∷ digit n 4096 ∷ b'=' ∷ b'=' ∷ []
base64_encode (a ∷ b ∷ []) =
    let n = a * 65536 + b * 256 in digit n 262144 ∷ digit n 4096 ∷ digit n 64 ∷ b'=' ∷ []
base64_encode (a ∷ b ∷ c ∷ raw) =
    let n = a * 65536 + b * 256 + c in
    digit n 262144 ∷ digit n 4096 ∷ digit n 64 ∷ digit n 1 ∷ base64_encode raw

-- The lambda `val`; `none` is -1.
pub val : ℕ → Option ℕ
val c =
    if leb b'A' c && leb c b'Z'
    then some (c - b'A')
    else if leb b'a' c && leb c b'z'
    then some (c - b'a' + 26)
    else if leb b'0' c && leb c b'9'
    then some (c - b'0' + 52)
    else if c == b'+'
    then some 62
    else if c == b'/'
    then some 63
    else none

-- 2 ^ bits, for the few values that `bits` takes.
pub power : ℕ → ℕ
power zero = 1
power (suc k) = 2 * power k

pub decode_loop : ℕ → ℕ → Bytes → Bytes
unfolding val power
decode_loop n bits [] = []
decode_loop n bits (c ∷ text) = if c == b'=' || (c == 10 || c == 13) then [] else elim (val c) [
  | none ↦ []
  | some v ↦
      let n' = (n * 64 + v) % word in
      let short = decode_loop n' (bits + 6) text in
      let full = n' / power (bits - 2) % 256 ∷ decode_loop n' (bits - 2) text in
      if leb 8 (bits + 6) then full else short
]

pub base64_decode : Bytes → Bytes
unfolding decode_loop
base64_decode text = decode_loop 0 0 text
