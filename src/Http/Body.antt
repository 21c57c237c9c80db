-- ===== src/Http/Body.antt =====
-- `BodySink` of lib/src/util/util.cpp: the body of a response, up to a cap.
pub mod Prefix
use hai_code.Base.{
  Bytes, ℕ, ◌+◌, ◌-◌, Bool, true, false, List, [], ◌∷◌, ◌++◌, ltb, ◌==◌, length, take,
  if◌then◌else◌,
}

pub record BodySink : Type 0 where
  pub body : Bytes
  pub truncated : Bool

-- `kBodyCap`.
abbrev pub body_cap : ℕ
body_cap = 10485760

abbrev pub empty_sink : BodySink
empty_sink = record { body = []; truncated = false }

-- The sink after a chunk, and the number of bytes that libcurl is told were taken.
pub write_cb : ℕ → Bytes → BodySink → BodySink × ℕ
write_cb cap bytes s =
    if ltb cap (length s.body + length bytes)
    then (record { body = s.body ++ take (cap - length s.body) bytes; truncated = true }, 0)
    else (record s { body = s.body ++ bytes }, length bytes)

-- libcurl's calls, until one does not take its chunk.
pub feed : ℕ → List Bytes → BodySink → BodySink
feed cap [] s = s
feed cap (c ∷ cs) s =
    let (s', n) = write_cb cap c s in elim (n == length c) [ true ↦ feed cap cs s' | false ↦ s' ]
