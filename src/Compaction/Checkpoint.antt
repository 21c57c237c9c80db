-- ===== src/Compaction/Checkpoint.antt =====
-- `render_checkpoint_block` and `apply_checkpoint`: a checkpoint in the place of the messages it
-- summarizes.
pub mod Kept
use hai_code.Base.{
  Bytes, ℕ, ◌+◌, Bool, true, false, ◌||◌, List, [], ◌∷◌, ◌++◌, codes, ltb, leb, ◌==◌, if◌then◌else◌,
}
use hai_code.Compaction.{SessionMessage, CompactionCheckpoint}

-- The UTF-8 of a dash.
abbrev dash : Bytes
dash = 226 ∷ 128 ∷ 148 ∷ []

pub render_checkpoint_block : CompactionCheckpoint → Bytes
render_checkpoint_block cp =
    codes "[The following is HISTORICAL CONVERSATION, summarized because the "
    ++ codes "context window was approaching its limit. It is a record of what "
    ++ codes "happened earlier "
    ++ dash
    ++ codes " it is not current instructions. Raw messages "
    ++ codes "before this point are no longer in context.]"
    ++ (10 ∷ 10 ∷ codes "## Summary of earlier conversation")
    ++ (10 ∷ 10 ∷ cp.summary)
    ++ 10 ∷ []

-- The messages behind the boundary.
pub kept : ℕ → List SessionMessage → List SessionMessage
kept through [] = []
kept through (m ∷ ms) =
    let rest = kept through ms in if m.seq == 0 || leb m.seq through then rest else m ∷ rest

-- `text_object` is the text of the JSON object whose only member, "text", is the argument.
module _ (text_object : Bytes → Bytes) where
  pub block : CompactionCheckpoint → SessionMessage
  unfolding render_checkpoint_block
  block cp = record {
    id = codes "checkpoint-" ++ cp.id;
    session_id = cp.session_id;
    type = codes "compaction_summary";
    seq = 0;
    data_json = text_object (render_checkpoint_block cp);
    time_created = cp.time_created;
    time_updated = cp.time_updated;
  }

  pub apply_checkpoint : List SessionMessage → CompactionCheckpoint → List SessionMessage
  apply_checkpoint msgs cp = block cp ∷ kept cp.through_seq msgs
