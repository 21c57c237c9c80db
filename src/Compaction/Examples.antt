-- ===== src/Compaction/Examples.antt =====
-- The theorems on compaction at concrete inputs.
use hai_code.Base.{
  Bytes, ℕ, zero, suc, ◌≡◌, ◌<◌, refl, false, List, [], ◌∷◌, arith, codes, eq, length, drop, take,
}
use hai_code.Compaction.{SessionMessage, CompactionCheckpoint, is_user, is_assistant, is_result}
use hai_code.Compaction.Sizes.{total}
use hai_code.Compaction.Split.{
  at, seq_at, skip, leading_results, exchange_end, step_back, exchange_start, cost, walk, recent,
  boundary, split_history,
}
use hai_code.Compaction.Split.Exchanges.{Chained}
use hai_code.Compaction.Split.Budget.{Fits, recent-Fits}
use hai_code.Compaction.Checkpoint.{block, apply_checkpoint}
use hai_code.Compaction.Checkpoint.Kept.{Ascending, Above, apply_checkpoint-split_history}

abbrev message : ℕ → Bytes → SessionMessage
message n type = record {
  id = codes "m";
  session_id = codes "s";
  type = type;
  seq = n;
  data_json = codes "{}";
  time_created = 0;
  time_updated = 0;
}

-- A question, a tool call with two results, an answer.
abbrev history : List SessionMessage
history =
    message 1 (codes "user_prompted")
    ∷ message 2 (codes "assistant_text")
    ∷ message 3 (codes "tool_result")
    ∷ message 4 (codes "tool_result")
    ∷ message 5 (codes "assistant_text")
    ∷ []

abbrev ten : SessionMessage → ℕ
ten m = 10

abbrev checkpoint : ℕ → CompactionCheckpoint
checkpoint through = record {
  id = codes "c";
  session_id = codes "s";
  through_seq = through;
  summary = codes "done";
  recent_context = [];
  previous_checkpoint_id = [];
  status = codes "complete";
  time_created = 0;
  time_updated = 0;
}

history-Chained : Chained history
unfolding Chained at is_result is_assistant eq
history-Chained zero h = cc
history-Chained (suc zero) h = refl
history-Chained (suc (suc zero)) h = refl
history-Chained (suc (suc (suc zero))) h = cc
history-Chained (suc (suc (suc (suc k)))) h = cc

apply_checkpoint-split_history_example :
    (last : ℕ) × (apply_checkpoint (λ t. t) history (checkpoint 1)
      ≡ block (λ t. t) (checkpoint 1) ∷ drop (suc last) history)
    × (suc last < length history)
    × (at is_result history (suc last) ≡ false)
unfolding at seq_at leading_results exchange_end skip step_back exchange_start cost walk recent
    boundary split_history is_user is_assistant is_result eq total take drop Ascending Above
apply_checkpoint-split_history_example =
    apply_checkpoint-split_history (λ t. t) ten history 10 0 (checkpoint 1)
      (omega arith, (omega arith, (omega arith, (omega arith, tt)))) history-Chained refl refl

recent-Fits_example : Fits ten history 0 20 (recent ten history 0 20)
recent-Fits_example = recent-Fits ten history 0 20
