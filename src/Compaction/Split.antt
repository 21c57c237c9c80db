-- ===== src/Compaction/Split.antt =====
-- `split_history`: where the recent part starts. An index is one of the list of messages. `size` is
-- `serialized_size` with the cap of 64 KiB.
pub mod Fuel
pub mod Exchanges
pub mod Cuts
pub mod Budget
use hai_code.Base.{
  Bytes, ℕ, zero, suc, ◌+◌, ◌-◌, ◌*◌, ℤ, pos, negsuc, Bool, true, false, not, ◌&&◌, ◌||◌, Option,
  none, some, List, [], ◌∷◌, length, take, drop, ltb, leb, ◌==◌, if◌then◌else◌,
}
use hai_code.Compaction.{SessionMessage, is_user, is_assistant, is_result}
use hai_code.Compaction.Sizes.{total}

-- `msgs[i]`, with the answer for an index out of range, which the code does not read.
unfoldable pub at : (SessionMessage → Bool) → List SessionMessage → ℕ → Bool
at test [] i = false
at test (m ∷ ms) zero = test m
at test (m ∷ ms) (suc i) = at test ms i

unfoldable pub seq_at : List SessionMessage → ℕ → ℕ
seq_at [] i = 0
seq_at (m ∷ ms) zero = m.seq
seq_at (m ∷ ms) (suc i) = seq_at ms i

-- How many results the list starts with.
unfoldable pub leading_results : List SessionMessage → ℕ
leading_results [] = 0
leading_results (m ∷ ms) = let rest = leading_results ms in if is_result m then suc rest else 0

unfoldable pub exchange_end : List SessionMessage → ℕ → ℕ
exchange_end msgs start =
    if at is_user msgs start then start + 1 else start + 1 + leading_results (drop (start + 1) msgs)

-- The loop that skips what is summarized.
unfoldable pub skip : ℕ → List SessionMessage → ℕ
skip prev [] = 0
skip prev (m ∷ ms) = let rest = skip prev ms in if m.seq == 0 || leb m.seq prev then suc rest else 0

-- The loop that steps back over results.
unfoldable pub step_back : List SessionMessage → ℕ → ℕ → ℕ
step_back msgs first zero = zero
step_back msgs first (suc start) =
    let earlier = step_back msgs first start in
    if ltb first (suc start) && at is_result msgs (suc start) then earlier else suc start

-- The start of the exchange that ends at `last + 1`.
unfoldable pub exchange_start : List SessionMessage → ℕ → ℕ → ℕ
exchange_start msgs first last =
    let back = step_back msgs first last in
    let start = if at is_result msgs last && at is_assistant msgs back then back else last in
    if exchange_end msgs start == last + 1 then start else last

module _ (size : SessionMessage → ℕ) where
  unfoldable pub cost : List SessionMessage → ℕ → ℕ → ℕ
  cost msgs start end = total size (take (end - start) (drop start msgs))

  -- The loop, from `i`; at most `fuel` rounds.
  unfoldable pub walk : ℕ → List SessionMessage → ℕ → ℕ → ℕ → ℕ → ℕ → ℕ
  walk zero msgs first budget recent_start used i = recent_start
  walk (suc fuel) msgs first budget recent_start used i =
      let start = exchange_start msgs first (i - 1) in
      let used' = used + cost msgs start i in
      let rest = walk fuel msgs first budget start used' start in
      if not (ltb first i)
      then recent_start
      else if ltb recent_start (length msgs) && ltb budget used'
      then recent_start
      else if leb budget used'
      then start
      else rest

  -- The recent part as the loop leaves it. A round takes at least one message.
  unfoldable pub recent : List SessionMessage → ℕ → ℕ → ℕ
  recent msgs first budget = walk (length msgs) msgs first budget (length msgs) 0 (length msgs)

  -- The start of the recent part, `none` where there is nothing to summarize.
  unfoldable pub boundary : List SessionMessage → ℕ → ℕ → Option ℕ
  boundary msgs first budget =
      let second = exchange_end msgs first in
      let start = recent msgs first budget in
      if leb start first then if leb (length msgs) second then none else some second else some start

  -- `none` is -1.
  unfoldable pub split_history : List SessionMessage → ℕ → ℕ → Option ℕ
  split_history msgs recent_budget_tokens prev_through_seq =
      let first = skip prev_through_seq msgs in
      if leb (length msgs) first
      then none
      else elim (boundary msgs first (recent_budget_tokens * 4)) [
        | none ↦ none
        | some start ↦
            if leb (seq_at msgs (start - 1)) prev_through_seq
            then none
            else some (seq_at msgs (start - 1))
      ]
