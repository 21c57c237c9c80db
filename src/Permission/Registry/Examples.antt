-- ===== src/Permission/Registry/Examples.antt =====
-- The theorems on modes and on `ToolRegistry` at concrete inputs.
use hai_code.Base.{starts_with}
use hai_code.Permission.Path.{path_resolves_within}
use hai_code.Base.{
  Bytes, ◌≡◌, refl, Bool, true, false, Option, none, some, List, [], ◌∷◌, codes, eq, contains,
  if◌then◌else◌,
}
use hai_code.Util.Utf8.Valid.{IsUtf8}
use hai_code.Permission.Types.{
  deny, PermissionRule, plan, AuthorizationDecision, ToolContext, ToolResult,
}
use hai_code.Permission.Mode.{tool_available, tool_allowed_in_mode}
use hai_code.Permission.Gate.{
  PermissionGate, allow_rule, is_ask, is_allow, evaluate_snapshot, snapshot, find_exact, walk,
  match_down, prompt_decision, matched_decision, resource_matches, rule_matches, hold,
}
use hai_code.Permission.Gate
use hai_code.Permission.Path.{is_empty}
use hai_code.Permission.Registry.{
  returned, threw, Tool, Tools, Platform, get, builtin, trusted_root, exemption, decide, evaluate,
  authorize, execute_impl, execute, target_passes, git_sub, past_modes, plan_refuses, rules_or,
  settle, settle_tool, clear, process_reads, git_exempt, overwrite, is_plan,
}
use hai_code.Permission.Path.{
  is_within_always_readable_root, is_path_within, normalize_path, loop, join, under,
}
use hai_code.Permission.Registry.Execution.{execute_contract}
use hai_code.Permission.Registry.Boundary.{Opened, Cleared, authorize-runs}
use hai_code.Permission.Registry.Rules.{InSystemRoot, authorize-denied}

abbrev platform : Platform Unit
platform = record {
  fnmatch = λ pattern text. eq pattern text;
  realpath = λ path. none;
  value = λ input key default. returned default;
  strings_of = λ input key. [];
}

-- A tool that prints a byte that is not UTF-8, or throws.
abbrev date_time : Bool → Tool Unit
date_time fails = record {
  name = codes "date_time";
  description = codes "The time";
  input_schema = tt;
  required_permission = codes "date_time";
  resource = λ input ctx. returned ctx.working_dir;
  execute = λ input ctx.
      if fails
      then threw (some (codes "no clock"))
      else returned (record { success = true; output = 255 ∷ []; error = []; denied = false });
}

abbrev ctx : ToolContext
ctx = record {
  session_id = codes "s1";
  agent_id = [];
  assistant_message_id = [];
  call_id = codes "c1";
  tool_name = codes "date_time";
  working_dir = codes "/srv";
  mode = plan;
  interrupt = none;
}

abbrev no_clock : PermissionRule
no_clock = record { action = codes "date_time"; resource = codes "/srv"; effect = deny }

abbrev gate : List PermissionRule → PermissionGate Unit
gate rules = record {
  rules = rules;
  session_rules = [];
  session_allows = [];
  exact_allows = [];
  ask_cb = none;
  ask_cb_ex = none;
}

abbrev tools : Bool → Tools Unit
tools fails = (codes "date_time", date_time fails) ∷ []

execute_contract_example :
    IsUtf8 (execute platform false (codes "date_time") tt ctx (tools true) (gate [])).output
    × IsUtf8 (execute platform false (codes "date_time") tt ctx (tools true) (gate [])).error
    × ((e : Option Bytes)
        → execute_impl platform false (codes "date_time") tt ctx (tools true) (gate []) ≡ threw e
        → (execute platform false (codes "date_time") tt ctx (tools true) (gate [])).success
          ≡ false)
    × ((x : ToolResult)
        → execute_impl platform false (codes "date_time") tt ctx (tools true) (gate []) ≡ returned x
        → ((execute platform false (codes "date_time") tt ctx (tools true) (gate [])).success
            ≡ x.success)
          × ((execute platform false (codes "date_time") tt ctx (tools true) (gate [])).denied
              ≡ x.denied))
execute_contract_example =
    execute_contract platform false (codes "date_time") tt ctx (tools true) (gate [])

authorize-runs_example :
    (get (codes "date_time") (tools false) ≡ some (date_time false))
    × (d : AuthorizationDecision) × Opened platform false
        (codes "date_time")
        tt
        ctx
        (gate [])
        (date_time false)
        d
    × Cleared platform false (codes "date_time") tt ctx (gate []) d (date_time false)
unfolding authorize evaluate settle settle_tool clear is_ask past_modes decide exemption rules_or eq
    contains get tool_allowed_in_mode tool_available git_sub plan_refuses trusted_root target_passes
    is_empty process_reads overwrite builtin git_exempt Gate.evaluate evaluate_snapshot snapshot
    find_exact walk match_down prompt_decision is_plan
authorize-runs_example =
    authorize-runs platform false (codes "date_time") tt ctx (tools false) (gate [])
      (date_time false) refl

-- A tool that reads a system header, and a rule that denies reading.
abbrev header : Bytes
header = codes "/boot/system/develop/headers/a.h"

abbrev reader : Tool Unit
reader = record {
  name = codes "read";
  description = codes "Reads";
  input_schema = tt;
  required_permission = codes "read";
  resource = λ input ctx. returned header;
  execute =
      λ input ctx. returned (record { success = true; output = []; error = []; denied = false });
}

abbrev no_header : PermissionRule
no_header = record { action = codes "read"; resource = header; effect = deny }

authorize-denied_example : InSystemRoot platform false (codes "read") tt ctx reader
unfolding authorize evaluate settle settle_tool clear is_ask past_modes decide eq contains get
    tool_allowed_in_mode tool_available git_sub plan_refuses trusted_root target_passes is_empty
    builtin Gate.evaluate evaluate_snapshot snapshot find_exact walk match_down matched_decision
    resource_matches rule_matches is_plan is_within_always_readable_root is_path_within
    normalize_path loop join under path_resolves_within starts_with
authorize-denied_example =
    authorize-denied platform false (codes "read") tt ctx ((codes "read", reader) ∷ [])
      (gate (no_header ∷ [])) reader header refl refl refl
