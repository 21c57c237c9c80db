-- ===== src/Compaction/Sizes.antt =====
-- `serialized_size`: what a row counts for in the budget of the recent part.
use hai_code.Base.{ℕ, ◌+◌, none, some, List, [], ◌∷◌, codes, length, ltb, if◌then◌else◌}
use hai_code.Compaction.{SessionMessage, JsonReader, text_at, is_user, is_assistant, is_result}

unfoldable pub total {ℓ} : {A : Type ℓ} → (A → ℕ) → List A → ℕ
total f [] = 0
total f (x ∷ xs) = f x + total f xs

pub min : ℕ → ℕ → ℕ
min a b = if ltb b a then b else a

module _ {Json : Type 0} (json : JsonReader Json) where
  attachment_size : Json → ℕ
  attachment_size att = 48 + length (text_at json (codes "path") att)

  tool_call_size : Json → ℕ
  tool_call_size tc =
      48
      + length (text_at json (codes "name") tc)
      + elim (json.member (codes "input") tc) [ none ↦ 0 | some input ↦ length (json.dump input) ]

  data_size : SessionMessage → ℕ → Json → ℕ
  unfolding attachment_size tool_call_size
  data_size m max_tool_output_bytes d =
      if is_user m
      then length (text_at json (codes "text") d)
        + total attachment_size (json.items_at (codes "attachments") d)
      else if is_assistant m
      then length (text_at json (codes "text") d)
        + total tool_call_size (json.items_at (codes "tool_calls") d)
      else if is_result m
      then min (length (text_at json (codes "output") d)) max_tool_output_bytes
        + 48
        + total attachment_size (json.items_at (codes "attachments") d)
      else length m.data_json

  pub serialized_size : SessionMessage → ℕ → ℕ
  unfolding data_size
  serialized_size m max_tool_output_bytes =
      64 + elim (json.parse m.data_json) [ none ↦ 0 | some d ↦ data_size m max_tool_output_bytes d ]
