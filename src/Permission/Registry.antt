-- ===== src/Permission/Registry.antt =====
-- `ToolRegistry` of lib/src/permission/permission.cpp: how a tool call is authorized and executed.
pub mod Boundary
pub mod Rules
pub mod Execution
mod Examples
use hai_code.Base.{
  Bytes, ℕ, ◌≡◌, refl, Bool, true, false, not, ◌&&◌, ◌||◌, Option, none, some, List, [], ◌∷◌, ◌++◌,
  map, reverse, negsuc, codes, eq, contains, if◌then◌else◌, any, ◌==◌,
}
use hai_code.Base.Map.{lookup, insert}
use hai_code.Util.Utf8.{sanitize_utf8}
use hai_code.Permission.Types.{
  PermissionEffect, allow, deny, ask, SessionMode, build, plan, chat, AuthorizationDecision,
  ToolContext, ToolResult,
}
use hai_code.Permission.Path.{
  slash, is_empty, is_absolute, normalize_path, path_resolves_within,
  is_within_always_readable_root,
}
use hai_code.Permission.Mode.{tool_allowed_in_mode, tool_available}
use hai_code.Permission.Git.{git_invocation_is_readonly}
use hai_code.Permission.Gate.{PermissionGate, is_ask, is_allow}
use hai_code.Permission.Gate

-- A call returns, or throws: with the text of `std::exception::what`, or something unknown.
pub data Attempt {ℓ} (A : Type ℓ) : Type ℓ where
  returned : A → Attempt A
  threw : Option Bytes → Attempt A

infixl 5 ◌>>=◌
abbrev pub ◌>>=◌ {ℓ κ} : {A : Type ℓ} {B : Type κ} → Attempt A → (A → Attempt B) → Attempt B
returned a >>= f = f a
threw e >>= f = threw e

pub >>=-returned {ℓ κ} :
    {A : Type ℓ} {B : Type κ} (m : Attempt A) (f : A → Attempt B) {b : B}
    → (m >>= f) ≡ returned b
    → (a : A) × (m ≡ returned a) × (f a ≡ returned b)
>>=-returned (returned a) f h = (a, refl, h)
>>=-returned (threw e) f h = cc

-- The virtual class `Tool`.
pub record Tool (Json : Type 0) : Type 0 where
  pub name : Bytes
  pub description : Bytes
  pub input_schema : Json
  pub required_permission : Bytes
  pub resource : Json → ToolContext → Attempt Bytes
  pub execute : Json → ToolContext → Attempt ToolResult

pub record ToolDefinition (Json : Type 0) : Type 0 where
  pub name : Bytes
  pub description : Bytes
  pub input_schema : Json

-- What the code calls and this repository does not hold: `fnmatch` and `realpath` of the C library,
-- and of the JSON library `value(key, default)` for texts and the texts of an array member.
pub record Platform (Json : Type 0) : Type 0 where
  pub fnmatch : Bytes → Bytes → Bool
  pub realpath : Bytes → Option Bytes
  pub value : Json → Bytes → Bytes → Attempt Bytes
  pub strings_of : Json → Bytes → List Bytes

-- `std::map<std::string, std::shared_ptr<Tool>>`.
abbrev pub Tools : Type 0 → Type 0
Tools Json = List (Bytes × Tool Json)

abbrev file_tools : List Bytes
file_tools =
    codes "read" ∷ codes "ls" ∷ codes "grep" ∷ codes "diff" ∷ codes "find" ∷ codes "symbols" ∷ []

pub blocked_decision : Bytes → Bytes → AuthorizationDecision
blocked_decision reason source = record {
  effect = deny;
  reason = reason;
  source = source;
  rule_index = negsuc 0;
  blocked = true;
}

-- The lambda `builtin`.
pub builtin : Bytes → AuthorizationDecision
builtin reason = record {
  effect = allow;
  reason = reason;
  source = codes "builtin";
  rule_index = negsuc 0;
  blocked = false;
}

mode_name : SessionMode → Bytes
mode_name chat = codes "chat"
mode_name _ = codes "plan"

is_plan : SessionMode → Bool
is_plan plan = true
is_plan _ = false

-- The text before the first of `*?[`.
literal_prefix : Bytes → Bytes
literal_prefix [] = []
literal_prefix (c ∷ s) = if c == b'*' || (c == b'?' || c == b'[') then [] else c ∷ literal_prefix s

drop_slashes : Bytes → Bytes
drop_slashes [] = []
drop_slashes (c ∷ s) = if c == slash then drop_slashes s else c ∷ s

without_end_slashes : Bytes → Bytes
without_end_slashes s = reverse (drop_slashes (reverse s))

pub glob_base : Bytes → Bytes → Bytes
unfolding literal_prefix without_end_slashes drop_slashes
glob_base pattern working_dir =
    let prefix = literal_prefix pattern in
    normalize_path (
      if is_empty prefix
      then working_dir
      else if is_absolute prefix
      then prefix
      else without_end_slashes working_dir ++ slash ∷ prefix)

overwrite : Bool → Bytes → Option AuthorizationDecision → Option AuthorizationDecision
overwrite holds reason before = if holds then some (builtin reason) else before

module _ {Json : Type 0} where
  pub register_tool : Tool Json → Tools Json → Tools Json
  register_tool tool tools = insert tool.name tool tools

  pub get : Bytes → Tools Json → Option (Tool Json)
  get name tools = lookup name tools

  pub definitions : Tools Json → List (ToolDefinition Json)
  definitions = map λ entry.
      let (_, tool) = entry in
      record { name = tool.name; description = tool.description; input_schema = tool.input_schema }

module _ {Json : Type 0} (p : Platform Json) (offline : Bool) where
  open p use {fnmatch, realpath, value, strings_of}

  glob_base_dir : Json → Bytes → Attempt Bytes
  glob_base_dir input working_dir =
      value input (codes "pattern") [] >>= λ pattern. returned (glob_base pattern working_dir)

  git_args : Bytes → Json → List Bytes
  git_args name input = if eq name (codes "git") then strings_of input (codes "args") else []

  unfoldable pub git_sub : Bytes → Json → Attempt Bytes
  git_sub name input =
      if eq name (codes "git") then value input (codes "subcommand") [] else returned []

  -- Whether the target of a file tool, or the base directory of a glob, passes a test.
  target_passes : (Bytes → Bool) → Bytes → Tool Json → Json → ToolContext → Attempt Bool
  target_passes test name tool input ctx =
      if is_empty ctx.working_dir
      then returned false
      else if contains file_tools name
      then (tool.resource input ctx >>= λ r. returned (test r))
      else if eq name (codes "glob")
      then (glob_base_dir input ctx.working_dir >>= λ base. returned (test base))
      else returned false

  what_reads : Bytes → Bytes → Bytes
  what_reads name rest = (if eq name (codes "glob") then codes "Glob " else codes "Read ") ++ rest

  -- The absolute exemption: a system root that no rule may deny.
  pub trusted_root : Bytes → Tool Json → Json → ToolContext → Attempt Bool
  trusted_root name tool input ctx =
      target_passes (is_within_always_readable_root realpath) name tool input ctx

  process_reads : Bytes → Json → Attempt Bool
  process_reads name input =
      if eq name (codes "process")
      then (value input (codes "action") [] >>= λ action.
          returned (eq action (codes "list") || eq action (codes "check_port")))
      else returned false

  git_exempt : Bytes → Bytes → Json → ToolContext → Bool
  git_exempt name subcommand input ctx =
      not (is_empty ctx.working_dir)
      && (eq name (codes "git")
          && git_invocation_is_readonly realpath subcommand (git_args name input) ctx.working_dir)

  -- The exemptions that rules override; a later one overwrites an earlier one.
  pub exemption :
      Bytes → Bytes → Tool Json → Json → ToolContext → Attempt (Option AuthorizationDecision)
  unfolding overwrite
  exemption name subcommand tool input ctx =
      target_passes (λ r. path_resolves_within realpath r ctx.working_dir) name tool input ctx
      >>= λ inside. process_reads name input >>= λ process. returned (
          overwrite process (codes "Read-only process inspection") (
            overwrite (eq name (codes "screenshot")) (codes "Built-in screenshot exemption") (
              overwrite (eq name (codes "date_time")) (codes "Built-in date/time tool exemption") (
                overwrite
                  (eq name (codes "propose_plan")
                    || eq name (codes "todo_write")
                    || eq name (codes "ask_user"))
                  (codes "Built-in interaction tool exemption")
                  (overwrite (eq name (codes "web_search") || eq name (codes "web_extract"))
                    (codes "Built-in web tool exemption")
                    (overwrite (git_exempt name subcommand input ctx)
                      (codes "Read-only Git invocation")
                      (overwrite inside (what_reads name (codes "within project directory"))
                        none)))))))

  -- Rules first, the exemption where none spoke.
  rules_or : AuthorizationDecision → Option AuthorizationDecision → AuthorizationDecision
  rules_or g none = g
  rules_or g (some e) = if not (is_ask g.effect) || not (eq g.source (codes "prompt")) then g else e

  -- The part behind the hard boundaries.
  pub decide :
      Bytes
      → Bytes
      → Tool Json
      → Json
      → ToolContext
      → PermissionGate Json
      → Attempt AuthorizationDecision
  unfolding rules_or
  decide name subcommand tool input ctx gate = trusted_root name tool input ctx >>= λ root.
      if root
      then returned (builtin (what_reads name (codes "within trusted system root")))
      else (exemption name subcommand tool input ctx >>= λ exempt. tool.resource input ctx >>= λ r.
          returned (
            rules_or (Gate.evaluate fnmatch ctx.session_id tool.required_permission r gate) exempt))

  pub plan_refuses : Bytes → Bytes → Json → ToolContext → Bool
  unfolding is_plan
  plan_refuses name subcommand input ctx =
      eq name (codes "git")
      && (is_plan ctx.mode
          && not (
              git_invocation_is_readonly realpath subcommand (git_args name input) ctx.working_dir))

  -- Behind the modes: the boundary of plan mode, then rules and exemptions.
  past_modes :
      Bytes
      → Json
      → ToolContext
      → PermissionGate Json
      → Tool Json
      → Bytes
      → Attempt AuthorizationDecision
  past_modes name input ctx gate tool subcommand =
      if plan_refuses name subcommand input ctx
      then returned (
          blocked_decision
            (codes "[mode restriction] git is read-only in plan mode; 'git "
              ++ (subcommand
                  ++ codes
                      "' with these arguments can modify the repository, run a program, or read outside the project"))
            (codes "mode"))
      else decide name subcommand tool input ctx gate

  pub evaluate :
      Bytes → Json → ToolContext → Tools Json → PermissionGate Json → Attempt AuthorizationDecision
  unfolding mode_name
  evaluate name input ctx tools gate = elim (get name tools) [
    | none ↦ returned (blocked_decision (codes "Unknown tool: " ++ name) (codes "unknown"))
    | some tool ↦
        if not (tool_allowed_in_mode name ctx.mode)
        then returned (
            blocked_decision
              (codes "[mode restriction] tool '"
                ++ (name
                    ++ (codes "' is not available in " ++ (mode_name ctx.mode ++ codes " mode"))))
              (codes "mode"))
        else if not (tool_available offline name ctx.mode)
        then returned (
            blocked_decision
              (codes "[offline mode] tool '" ++ (name ++ codes "' is unavailable while offline"))
              (codes "offline"))
        else (git_sub name input >>= past_modes name input ctx gate tool)
  ]

-- What `execute_impl` comes to before the tool runs: an answer without it, or the tool.
pub data Clearance (Json : Type 0) : Type 0 where
  refused : ToolResult → Clearance Json
  runs : Tool Json → Clearance Json

failed : Bytes → Bool → ToolResult
failed error denied = record { success = false; output = []; error = error; denied = denied }

pub interrupted : Option Bool → Bool
interrupted none = false
interrupted (some b) = b

not_permitted : Bytes → PermissionEffect → ToolResult
not_permitted name deny = failed (codes "Permission denied for tool: " ++ name) true
not_permitted name _ =
    failed
      (codes "Permission not granted for tool: "
        ++ (name ++ codes " (no applicable Allow rule or user approval)"))
      true

module _ {Json : Type 0} where
  pub clear : Bytes → Tool Json → PermissionEffect → Clearance Json
  unfolding not_permitted failed
  clear name tool allow = runs tool
  clear name tool deny = refused (not_permitted name deny)
  clear name tool ask = refused (not_permitted name ask)

  -- An approval that came after the run was interrupted.
  pub clear_answer : Bytes → Tool Json → Option Bool → PermissionEffect → Clearance Json
  unfolding clear interrupted
  clear_answer name tool interrupt perm =
      if is_allow perm && interrupted interrupt
      then refused (
          failed (codes "[interrupted] tool '" ++ (name ++ codes "' not run: run interrupted"))
            true)
      else clear name tool perm

module _ {Json : Type 0} (p : Platform Json) (offline : Bool) where
  -- The permission of a decision that does not block.
  settle_tool :
      Bytes
      → Json
      → ToolContext
      → PermissionGate Json
      → AuthorizationDecision
      → Option (Tool Json)
      → Attempt (Clearance Json)
  unfolding clear_answer
  -- Not reached: without a tool the decision is blocked.
  settle_tool name input ctx gate decision none = threw none
  settle_tool name input ctx gate decision (some tool) =
      if is_ask decision.effect
      then (tool.resource input ctx >>= λ r. returned (
          clear_answer name tool ctx.interrupt
            (Gate.check_tool p.fnmatch ctx tool.required_permission r input gate)))
      else returned (clear name tool decision.effect)

  settle :
      Bytes
      → Json
      → ToolContext
      → Tools Json
      → PermissionGate Json
      → AuthorizationDecision
      → Attempt (Clearance Json)
  unfolding settle_tool failed
  settle name input ctx tools gate decision =
      if decision.blocked
      then returned (refused (failed decision.reason false))
      else settle_tool name input ctx gate decision (get name tools)

  pub authorize :
      Bytes → Json → ToolContext → Tools Json → PermissionGate Json → Attempt (Clearance Json)
  authorize name input ctx tools gate =
      evaluate p offline name input ctx tools gate >>= settle name input ctx tools gate

  pub execute_impl :
      Bytes → Json → ToolContext → Tools Json → PermissionGate Json → Attempt ToolResult
  execute_impl name input ctx tools gate = authorize name input ctx tools gate >>= λ clearance.
      elim clearance [ refused r ↦ returned r | runs tool ↦ tool.execute input ctx ]

-- `if (!s.empty()) s = sanitize_utf8(s)`.
sanitized : Bytes → Bytes
sanitized s = if is_empty s then s else sanitize_utf8 s

pub sanitize_result : ToolResult → ToolResult
unfolding sanitized
sanitize_result r = record r { output = sanitized r.output; error = sanitized r.error }

-- The `catch` clauses.
pub caught : Bytes → Attempt ToolResult → ToolResult
unfolding failed
caught name (returned r) = r
caught name (threw (some what)) =
    failed (codes "tool '" ++ (name ++ (codes "' failed: " ++ what))) false
caught name (threw none) =
    failed (codes "tool '" ++ (name ++ codes "' failed with an unknown exception")) false

module _ {Json : Type 0} (p : Platform Json) (offline : Bool) where
  pub execute : Bytes → Json → ToolContext → Tools Json → PermissionGate Json → ToolResult
  unfolding sanitize_result caught
  execute name input ctx tools gate =
      sanitize_result (caught name (execute_impl p offline name input ctx tools gate))
