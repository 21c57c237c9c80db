-- ===== src/Compaction.antt =====
-- lib/src/compaction/compaction.cpp: the history of a session that is cut into an older part, to be
-- summarized, and a recent one, and the checkpoint that stands for the older part. The data types are
-- those of lib/include/haicode/db.h. A `seq` is at least 0. JSON is a parameter: of a row's text it
-- is read whether it is an object, and its members, as `value` reads them with the given default; a
-- member of another type than the code reads, at which `value` throws, is left out.
pub mod Sizes
pub mod Split
pub mod Checkpoint
pub mod Summary
pub mod Transcript
mod Examples
use hai_code.Base.{Bytes, ℕ, ◌+◌, ◌-◌, ◌/◌, Option, Bool, List, [], codes, eq, length}

pub record SessionMessage : Type 0 where
  pub id : Bytes
  pub session_id : Bytes
  pub type : Bytes
  pub seq : ℕ
  pub data_json : Bytes
  pub time_created : ℕ
  pub time_updated : ℕ

pub record CompactionCheckpoint : Type 0 where
  pub id : Bytes
  pub session_id : Bytes
  pub through_seq : ℕ
  pub summary : Bytes
  pub recent_context : Bytes
  pub previous_checkpoint_id : Bytes
  pub status : Bytes
  pub time_created : ℕ
  pub time_updated : ℕ

-- What is read of a value: `parse` is `none` where the text is not an object, `text_or` and `flag_or`
-- are `value(key, default)`, `items_at` the elements of an array under a key, none where there is no array, which `array_at` tells.
pub record JsonReader (Json : Type 0) : Type 0 where
  pub parse : Bytes → Option Json
  pub text_or : Bytes → Bytes → Json → Bytes
  pub flag_or : Bytes → Bool → Json → Bool
  pub items_at : Bytes → Json → List Json
  pub array_at : Bytes → Json → Bool
  pub member : Bytes → Json → Option Json
  pub dump : Json → Bytes

-- `value(key, "")`.
abbrev pub text_at : {Json : Type 0} → JsonReader Json → Bytes → Json → Bytes
text_at json key d = json.text_or key [] d

pub is_user : SessionMessage → Bool
is_user m = eq m.type (codes "user_prompted")

pub is_assistant : SessionMessage → Bool
is_assistant m = eq m.type (codes "assistant_text")

pub is_result : SessionMessage → Bool
is_result m = eq m.type (codes "tool_result")

pub estimate_text_tokens : Bytes → ℕ
estimate_text_tokens text = length text / 4
