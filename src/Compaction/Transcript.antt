-- ===== src/Compaction/Transcript.antt =====
-- `serialize_history`: the messages as text for the model that summarizes them.
pub mod Outputs
use hai_code.Base.{
  Bytes, ℕ, zero, suc, ◌+◌, ◌-◌, ◌/◌, ◌%◌, Option, none, some, Bool, true, false, List, [], ◌∷◌,
  ◌++◌, codes, eq, length, ltb, if◌then◌else◌, to_string,
}
use hai_code.Permission.Path.{is_empty}
use hai_code.Util.Truncate.{truncate_utf8}
use hai_code.Compaction.{SessionMessage, JsonReader, text_at, is_user, is_assistant, is_result}

-- The output as it is shown.
pub shown_output : Bytes → ℕ → Bytes
shown_output output max_tool_output_bytes =
    if ltb max_tool_output_bytes (length output)
    then (let cut = truncate_utf8 output max_tool_output_bytes in
        cut
        ++ (10
            ∷ (codes "[truncated: "
                ++ (to_string (length output - length cut) ++ codes " more bytes]"))))
    else output

-- The texts of a list, one behind the other.
each {ℓ} : {A : Type ℓ} → (A → Bytes) → List A → Bytes
each f [] = []
each f (x ∷ xs) = f x ++ each f xs

module _ {Json : Type 0} (json : JsonReader Json) where
  attachment_text : Json → Bytes
  attachment_text att =
      let path = text_at json (codes "path") att in
      if json.flag_or (codes "absent") false att
      then codes "[attachment unavailable: " ++ path ++ codes "]" ++ 10 ∷ []
      else if eq (json.text_or (codes "kind") (codes "image") att) (codes "text")
      then codes "[text attachment: " ++ path ++ codes "]" ++ 10 ∷ []
      else codes "[image attachment: "
        ++ path
        ++ codes ", "
        ++ json.text_or (codes "media_type") (codes "image/png") att
        ++ codes "]"
        ++ 10 ∷ []

  tool_call_text : Json → Bytes
  tool_call_text tc =
      codes "[tool_call "
      ++ text_at json (codes "name") tc
      ++ codes " id="
      ++ text_at json (codes "id") tc
      ++ codes " input="
      ++ elim (json.member (codes "input") tc) [ none ↦ codes "{}" | some input ↦ json.dump input ]
      ++ codes "]"
      ++ 10 ∷ []

  user_text : Json → Bytes
  unfolding attachment_text each
  user_text d =
      let attachments = json.items_at (codes "attachments") d in
      codes "### User"
      ++ (10 ∷ text_at json (codes "text") d)
      ++ (10 ∷ 10 ∷ [])
      ++ each attachment_text attachments
      ++ (if json.array_at (codes "attachments") d then 10 ∷ [] else [])

  assistant_text : Json → Bytes
  unfolding tool_call_text each
  assistant_text d =
      let text = text_at json (codes "text") d in
      codes "### Assistant"
      ++ (10 ∷ (if is_empty text then [] else text ++ 10 ∷ []))
      ++ each tool_call_text (json.items_at (codes "tool_calls") d)
      ++ 10 ∷ []

  result_text : Json → ℕ → Bytes
  unfolding attachment_text each
  result_text d max_tool_output_bytes =
      codes "### Tool result (call_id="
      ++ text_at json (codes "call_id") d
      ++ codes ", "
      ++ (if json.flag_or (codes "success") true d then codes "success" else codes "error")
      ++ codes ")"
      ++ (10 ∷ shown_output (text_at json (codes "output") d) max_tool_output_bytes)
      ++ (10 ∷ each attachment_text (json.items_at (codes "attachments") d))
      ++ 10 ∷ []

  message_text : ℕ → SessionMessage → Bytes
  unfolding user_text assistant_text result_text
  message_text max_tool_output_bytes msg = elim (json.parse msg.data_json) [
    | none ↦ []
    | some d ↦
        if is_user msg
        then user_text d
        else if is_assistant msg
        then assistant_text d
        else if is_result msg
        then result_text d max_tool_output_bytes
        else if eq msg.type (codes "compaction_summary")
        then codes "### Prior summary" ++ (10 ∷ text_at json (codes "text") d) ++ 10 ∷ 10 ∷ []
        else []
  ]

  pub serialize_history : List SessionMessage → ℕ → Bytes
  unfolding message_text each
  serialize_history msgs max_tool_output_bytes = each (message_text max_tool_output_bytes) msgs
