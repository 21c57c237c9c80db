-- ===== src/Engine/Repair.antt =====
-- The second half of `ContextBuilder::assemble_messages` in lib/src/engine/engine.cpp, which gives every
-- tool call its result: the messages that the rows came to are regrouped.
pub mod Linked
pub mod Paired
use hai_code.Base.{
  Bytes, ℕ, ◌+◌, Option, none, some, Bool, true, false, not, ◌&&◌, ◌||◌, List, [], ◌∷◌, ◌++◌, codes,
  eq, any, ◌==◌, if◌then◌else◌, reverse,
}
use hai_code.Permission.Path.{is_empty}

pub data Role : Type 0 where
  user assistant : Role

-- The blocks of a message: a text; a call with its id; the result for an id, with whether it is an
-- error; and whatever else a provider is sent, such as images and thinking.
pub data Block (Json : Type 0) : Type 0 where
  text : Bytes → Block Json
  tool_use : Bytes → Json → Block Json
  tool_result : Bytes → Bool → Json → Block Json
  other : Json → Block Json

pub data Content (Json : Type 0) : Type 0 where
  plain : Bytes → Content Json
  blocks : List (Block Json) → Content Json

pub record Message (Json : Type 0) : Type 0 where
  pub role : Role
  pub content : Content Json

-- `owners`, the latest first; `responses` for an index and an id, of which the first stands; and
-- `result_rows`.
pub record Links (Json : Type 0) : Type 0 where
  pub owners : List (Bytes × ℕ)
  pub responses : List (ℕ × Bytes × Block Json)
  pub result_rows : List ℕ

pub owner_of : Bytes → List (Bytes × ℕ) → Option ℕ
owner_of id [] = none
owner_of id ((j, i) ∷ owners) = let rest = owner_of id owners in if eq j id then some i else rest

module _ {Json : Type 0} where
  unfoldable pub is_user : Message Json → Bool
  is_user m = elim m.role [ user ↦ true | assistant ↦ false ]

  pub blocks_of : Content Json → List (Block Json)
  blocks_of (plain s) = []
  blocks_of (blocks bs) = bs

  -- `responses[i].find(id)`.
  pub response : ℕ → Bytes → List (ℕ × Bytes × Block Json) → Option (Block Json)
  response i id [] = none
  response i id ((o, j, b) ∷ rs) =
      let rest = response i id rs in if o == i && eq j id then some b else rest

  -- A result goes to its owner, where there is one.
  answer_to : Bytes → Block Json → Option ℕ → Links Json → Links Json
  answer_to id b none st = st
  answer_to id b (some o) st = record st { responses = st.responses ++ (o, id, b) ∷ [] }

  -- The body of the loop over the blocks of the message `i`.
  pub link_block : ℕ → Bool → Block Json → Links Json → Links Json
  unfolding answer_to owner_of
  link_block i by_user (tool_use id input) st =
      if by_user then st else record st { owners = (id, i) ∷ st.owners }
  link_block i by_user (tool_result id error content) st =
      answer_to id (tool_result id error content) (owner_of id st.owners)
        (record st { result_rows = i ∷ st.result_rows })
  link_block i by_user _ st = st

  pub link_blocks : ℕ → Bool → List (Block Json) → Links Json → Links Json
  link_blocks i by_user [] st = st
  link_blocks i by_user (b ∷ bs) st = link_blocks i by_user bs (link_block i by_user b st)

  -- The loop over the messages from the index `i` on.
  pub link : ℕ → List (Message Json × Option Bytes) → Links Json → Links Json
  link i [] st = st
  link i ((m, _) ∷ rows) st = link (i + 1) rows (link_blocks i (is_user m) (blocks_of m.content) st)

  -- The content as blocks; an empty text is none.
  pub tail_blocks : Content Json → List (Block Json)
  tail_blocks (plain []) = []
  tail_blocks (plain (d ∷ t)) = text (d ∷ t) ∷ []
  tail_blocks (blocks bs) = bs

  -- `append_status_block`. The head of the list is the back of the vector, here and below.
  pub append_status_block : List (Message Json) → Bytes → List (Message Json)
  unfolding is_user tail_blocks
  append_status_block back [] = back
  append_status_block [] (c ∷ s) = record { role = user; content = blocks (text (c ∷ s) ∷ []) } ∷ []
  append_status_block (m ∷ back) (c ∷ s) =
      if is_user m
      then record { role = user; content = blocks (tail_blocks m.content ++ text (c ∷ s) ∷ []) }
        ∷ back
      else record { role = user; content = blocks (text (c ∷ s) ∷ []) } ∷ m ∷ back

  with_status : Option Bytes → List (Message Json) → List (Message Json)
  with_status none back = back
  with_status (some s) back = append_status_block back s

  -- The ids of the calls of a message.
  pub calls_in : List (Block Json) → List Bytes
  calls_in [] = []
  calls_in (tool_use id input ∷ bs) = id ∷ calls_in bs
  calls_in (_ ∷ bs) = calls_in bs

  pub calls_of : Message Json → List Bytes
  unfolding calls_in is_user
  calls_of m = if is_user m then [] else calls_in (blocks_of m.content)

  -- The message, with its results behind it.
  pub push_answers : List (Block Json) → List (Message Json) → List (Message Json)
  push_answers [] back = back
  push_answers (b ∷ bs) back = record { role = user; content = blocks (b ∷ bs) } ∷ back

module _ {Json : Type 0} (not_run : Json) where
  or_missing : Bytes → Option (Block Json) → Block Json
  or_missing id none = tool_result id true not_run
  or_missing id (some b) = b

  -- The results for the calls of the message `i`, in their order.
  pub answers : Links Json → ℕ → List Bytes → List (Block Json)
  unfolding or_missing
  answers st i [] = []
  answers st i (id ∷ ids) = or_missing id (response i id st.responses) ∷ answers st i ids

  -- The loop that builds `repaired`.
  pub rebuild :
      Links Json
      → ℕ
      → List (Message Json × Option Bytes)
      → List (Message Json)
      → List (Message Json)
  unfolding with_status push_answers
  rebuild st i [] back = back
  rebuild st i ((m, status) ∷ rows) back =
      let skipped = rebuild st (i + 1) rows back in
      let pushed =
        rebuild st (i + 1) rows
          (push_answers (answers st i (calls_of m)) (m ∷ with_status status back)) in
      if any (λ j. j == i) st.result_rows then skipped else pushed

  -- What the rows came to, each with the status text of its request, as it is sent. `not_run` is the
  -- text for a call whose result is missing.
  pub repair : List (Message Json × Option Bytes) → List (Message Json)
  unfolding rebuild
  repair rows =
      reverse
        (rebuild (link 0 rows (record { owners = []; responses = []; result_rows = [] })) 0 rows [])
