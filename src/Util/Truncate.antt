-- ===== src/Util/Truncate.antt =====
-- `truncate_utf8` of lib/src/util/util.cpp.
pub mod Bounds
use hai_code.Base.{
  Bytes, ℕ, zero, suc, ◌+◌, ◌-◌, Bool, true, false, ◌&&◌, List, [], ◌∷◌, leb, ltb, if◌then◌else◌,
  length, get_or, take,
}
use hai_code.Util.Utf8.{is_continuation, lead_length}

-- The loop, of at most `steps` more rounds.
pub walk_back : ℕ → Bytes → ℕ → ℕ → ℕ
walk_back zero s end back = back
walk_back (suc steps) s end back =
    let further = walk_back steps s end (suc back) in
    if leb (back + 1) end && is_continuation (get_or s (end - 1 - back) 0) then further else back

pub seq_len : ℕ → ℕ
seq_len lead = elim (lead_length lead) [ zero ↦ 1 | suc k ↦ suc k ]

-- The end that is kept, where `back` continuation bytes stand before `end`.
pub trim_end : Bytes → ℕ → ℕ → ℕ
trim_end s end back =
    if leb (back + 1) end && ltb (back + 1) (seq_len (get_or s (end - 1 - back) 0))
    then end - (back + 1)
    else end

pub truncate_utf8 : Bytes → ℕ → Bytes
truncate_utf8 s max_bytes =
    if leb (length s) max_bytes
    then s
    else take (trim_end s max_bytes (walk_back 3 s max_bytes 0)) s
