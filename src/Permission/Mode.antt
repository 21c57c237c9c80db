-- ===== src/Permission/Mode.antt =====
-- The tools that each session mode offers: `tool_allowed_in_mode`, `tool_available` and the offline
-- switch of lib/src/permission/permission.cpp. The switch is an argument: one atomic flag.
use hai_code.Base.{
  Bytes, ◌≡◌, Bool, true, not, ◌&&◌, ◌||◌, List, [], ◌∷◌, codes, eq, contains, arith,
}
use hai_code.Permission.Types.{SessionMode, build, plan, chat}

abbrev plan_allowed : List Bytes
plan_allowed =
    codes "read"
    ∷ codes "glob"
    ∷ codes "grep"
    ∷ codes "ls"
    ∷ codes "find"
    ∷ codes "symbols"
    ∷ codes "git"
    ∷ codes "web_search"
    ∷ codes "web_extract"
    ∷ codes "diff"
    ∷ codes "todo_write"
    ∷ codes "ask_user"
    ∷ codes "propose_plan"
    ∷ codes "discard_plan"
    ∷ codes "screenshot"
    ∷ codes "date_time"
    ∷ []

abbrev chat_allowed : List Bytes
chat_allowed =
    codes "web_search"
    ∷ codes "web_extract"
    ∷ codes "todo_write"
    ∷ codes "ask_user"
    ∷ codes "date_time"
    ∷ []

unfoldable pub tool_allowed_in_mode : Bytes → SessionMode → Bool
tool_allowed_in_mode tool_name plan = contains plan_allowed tool_name
tool_allowed_in_mode tool_name chat = contains chat_allowed tool_name
tool_allowed_in_mode tool_name build = true

unfoldable pub tool_available : Bool → Bytes → SessionMode → Bool
tool_available offline tool_name mode =
    tool_allowed_in_mode tool_name mode
    && not (offline && (eq tool_name (codes "web_search") || eq tool_name (codes "web_extract")))

-- What chat mode offers is offered in plan mode, and everything in build mode; going offline takes
-- tools away and adds none.
pub tool_available_mono :
    (offline : Bool) (tool_name : Bytes)
    → (tool_available offline tool_name chat ≡ true → tool_available offline tool_name plan ≡ true)
      × (tool_available offline tool_name plan ≡ true
          → tool_available offline tool_name build ≡ true)
      × ((mode : SessionMode)
          → tool_available true tool_name mode ≡ true
          → tool_available offline tool_name mode ≡ true)
unfolding tool_available tool_allowed_in_mode contains
tool_available_mono offline tool_name = (ground arith, ground arith, λ mode. ground arith)
