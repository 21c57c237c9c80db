-- ===== src/Util/Base64/RoundTrip.antt =====
-- What was encoded is decoded again.
use hai_code.Base.{
  Bytes, ℕ, zero, suc, ◌+◌, ◌-◌, ◌*◌, ◌/◌, ◌%◌, ◌<◌, ◌≡◌, refl, ap, ◌∙◌, Bool, true, false, ◌&&◌,
  ◌||◌, not, Option, none, some, [], ◌∷◌, leb, ◌==◌, if◌then◌else◌, All, arith,
}
use hai_code.Util.Base64.{table, word, base64_encode, val, power, decode_loop, base64_decode}

-- Every digit's value is read back, and no digit ends the text.
is_val : Option ℕ → ℕ → Bool
is_val none i = false
is_val (some v) i = v == i

reads_back : ℕ → Bool
reads_back i = is_val (val (table i)) i && not (table i == b'=' || (table i == 10 || table i == 13))

holds_of_digits : (ℕ → Bool) → ℕ → Bool
holds_of_digits test zero = true
holds_of_digits test (suc last) = holds_of_digits test last && test last

holds_of_digits_at :
    (test : ℕ → Bool) (count i : ℕ) → i < count → holds_of_digits test count ≡ true → test i ≡ true
unfolding holds_of_digits
holds_of_digits_at test zero i below all_hold = absurd (omega arith)
holds_of_digits_at test (suc last) i below all_hold = ground (arith, holds_of_digits_at test last i)

digits_read_back : holds_of_digits reads_back 64 ≡ true
unfolding holds_of_digits reads_back is_val val table
digits_read_back = refl

val-table :
    (i : ℕ)
    → i < 64
    → (val (table i) ≡ some i) × ((table i == b'=' || (table i == 10 || table i == 13)) ≡ false)
unfolding reads_back is_val
val-table i h = ground (arith, holds_of_digits_at reads_back 64 i h digits_read_back)

-- One digit in the loop.
decode_digit :
    (n bits i : ℕ) (text : Bytes)
    → i < 64
    → decode_loop n bits (table i ∷ text) ≡ (
        if leb 8 (bits + 6)
        then (n * 64 + i) % word / power (bits - 2) % 256
          ∷ decode_loop ((n * 64 + i) % word) (bits - 2) text
        else decode_loop ((n * 64 + i) % word) (bits + 6) text)
unfolding decode_loop
decode_digit n bits i text h = ground (arith, val-table i h)

abbrev shifted : ℕ → ℕ → ℕ
shifted n i = (n * 64 + i) % word

first_byte : (n i j : ℕ) → i < 64 → j < 64 → shifted (shifted n i) j / 16 % 256 ≡ i * 4 + j / 16
first_byte n i j hi hj = omega arith

second_byte :
    (n j k : ℕ) → j < 64 → k < 64 → shifted (shifted n j) k / 4 % 256 ≡ j % 16 * 16 + k / 4
second_byte n j k hj hk = omega arith

third_byte : (n k l : ℕ) → k < 64 → l < 64 → shifted (shifted n k) l / 1 % 256 ≡ k % 4 * 64 + l
third_byte n k l hk hl = omega arith

-- Two, three and four digits of a group, from any word.
decode_two :
    (n i j : ℕ) (text : Bytes)
    → i < 64
    → j < 64
    → decode_loop n 0 (table i ∷ table j ∷ text)
      ≡ (i * 4 + j / 16) ∷ decode_loop (shifted (shifted n i) j) 4 text
unfolding power
decode_two n i j text hi hj =
    decode_digit n 0 i (table j ∷ text) hi
    ∙ decode_digit (shifted n i) 6 j text hj
    ∙ ap (λ b. b ∷ decode_loop (shifted (shifted n i) j) 4 text) (first_byte n i j hi hj)

decode_third :
    (n j k : ℕ) (text : Bytes)
    → j < 64
    → k < 64
    → decode_loop (shifted n j) 4 (table k ∷ text)
      ≡ (j % 16 * 16 + k / 4) ∷ decode_loop (shifted (shifted n j) k) 2 text
unfolding power
decode_third n j k text hj hk =
    decode_digit (shifted n j) 4 k text hk
    ∙ ap (λ b. b ∷ decode_loop (shifted (shifted n j) k) 2 text) (second_byte n j k hj hk)

decode_fourth :
    (n k l : ℕ) (text : Bytes)
    → k < 64
    → l < 64
    → decode_loop (shifted n k) 2 (table l ∷ text)
      ≡ (k % 4 * 64 + l) ∷ decode_loop (shifted (shifted n k) l) 0 text
unfolding power
decode_fourth n k l text hk hl =
    decode_digit (shifted n k) 2 l text hl
    ∙ ap (λ b. b ∷ decode_loop (shifted (shifted n k) l) 0 text) (third_byte n k l hk hl)

decode_pad : (n bits : ℕ) (text : Bytes) → decode_loop n bits (b'=' ∷ text) ≡ []
unfolding decode_loop
decode_pad n bits text = refl

abbrev pub IsByte : ℕ → Type 0
IsByte b = b < 256

-- The four digits of a word of three bytes.
abbrev digit_at : ℕ → ℕ → ℕ
digit_at n p = n / p % 64

decode_first_bytes :
    (n w : ℕ) (text : Bytes)
    → decode_loop n 0 (table (digit_at w 262144) ∷ table (digit_at w 4096) ∷ text)
      ≡ (w / 65536 % 256)
        ∷ decode_loop (shifted (shifted n (digit_at w 262144)) (digit_at w 4096)) 4 text
decode_first_bytes n w text =
    decode_two n (digit_at w 262144) (digit_at w 4096) text (omega arith) (omega arith)
    ∙ ap (λ b. b ∷ decode_loop (shifted (shifted n (digit_at w 262144)) (digit_at w 4096)) 4 text)
        (omega arith)

decode_second_bytes :
    (n w : ℕ) (text : Bytes)
    → decode_loop (shifted n (digit_at w 4096)) 4 (table (digit_at w 64) ∷ text)
      ≡ (w / 256 % 256) ∷ decode_loop (shifted (shifted n (digit_at w 4096)) (digit_at w 64)) 2 text
decode_second_bytes n w text =
    decode_third n (digit_at w 4096) (digit_at w 64) text (omega arith) (omega arith)
    ∙ ap (λ b. b ∷ decode_loop (shifted (shifted n (digit_at w 4096)) (digit_at w 64)) 2 text)
        (omega arith)

decode_third_bytes :
    (n w : ℕ) (text : Bytes)
    → decode_loop (shifted n (digit_at w 64)) 2 (table (digit_at w 1) ∷ text)
      ≡ (w % 256) ∷ decode_loop (shifted (shifted n (digit_at w 64)) (digit_at w 1)) 0 text
decode_third_bytes n w text =
    decode_fourth n (digit_at w 64) (digit_at w 1) text (omega arith) (omega arith)
    ∙ ap (λ b. b ∷ decode_loop (shifted (shifted n (digit_at w 64)) (digit_at w 1)) 0 text)
        (omega arith)

decode_nil : (n bits : ℕ) → decode_loop n bits [] ≡ []
unfolding decode_loop
decode_nil n bits = refl

decode-encode : (n : ℕ) (raw : Bytes) → All IsByte raw → decode_loop n 0 (base64_encode raw) ≡ raw
unfolding base64_encode
decode-encode n [] h = decode_nil n 0
decode-encode n (a ∷ []) h =
    let w = a * 65536 in
    decode_first_bytes n w _
    ∙ ground (
      arith,
      decode_pad (shifted (shifted n (digit_at w 262144)) (digit_at w 4096)) 4 (b'=' ∷ []),
    )
decode-encode n (a ∷ b ∷ []) h =
    let w = a * 65536 + b * 256 in
    let m = shifted n (digit_at w 262144) in
    decode_first_bytes n w _
    ∙ ap (λ r. (w / 65536 % 256) ∷ r) (decode_second_bytes m w (b'=' ∷ []))
    ∙ ground (arith, decode_pad (shifted (shifted m (digit_at w 4096)) (digit_at w 64)) 2 [])
decode-encode n (a ∷ b ∷ c ∷ raw) h =
    let w = a * 65536 + b * 256 + c in
    let m = shifted n (digit_at w 262144) in
    let o = shifted m (digit_at w 4096) in
    decode_first_bytes n w _
    ∙ ap (λ r. (w / 65536 % 256) ∷ r) (decode_second_bytes m w _)
    ∙ ap (λ r. (w / 65536 % 256) ∷ (w / 256 % 256) ∷ r) (decode_third_bytes o w _)
    ∙ ground (arith, decode-encode (shifted (shifted o (digit_at w 64)) (digit_at w 1)) raw h.1.1.1)

-- Decoding gives back the bytes that were encoded.
pub base64_decode-encode : (raw : Bytes) → All IsByte raw → base64_decode (base64_encode raw) ≡ raw
unfolding base64_decode
base64_decode-encode raw h = decode-encode 0 raw h
