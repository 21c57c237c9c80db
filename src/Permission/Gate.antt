-- ===== src/Permission/Gate.antt =====
-- `PermissionGate` of lib/src/permission/permission.cpp: its rule layers, the operations on them,
-- and `evaluate`. Its mutex is held for a whole operation, so operations are functions of the state.
pub mod Operations
pub mod Sessions
pub mod Match
pub mod Grants
pub mod Decisions
mod Examples
use hai_code.Base.{
  Bytes, ℕ, zero, suc, ◌+◌, ◌≡◌, Bool, true, false, not, ◌&&◌, ◌||◌, Option, none, some, List, [],
  ◌∷◌, ◌++◌, ℤ, pos, negsuc, codes, eq, has_any_of, length, get_elem?, if◌then◌else◌,
}
use hai_code.Base.Map.{lookup, insert, erase}
use hai_code.Permission.Types.{
  PermissionEffect, allow, deny, ask, PermissionRule, AuthorizationDecision, PermissionSnapshot,
  ToolContext,
}
use hai_code.Permission.Bash.{bash_pattern_authorizes}

abbrev pub Rules : Type 0
Rules = List PermissionRule

abbrev pub RuleMap : Type 0
RuleMap = List (Bytes × Rules)

-- A callback's answer is a function of what it is asked.
abbrev pub AskCallback : Type 0 → Type 0
AskCallback Json = Bytes → Bytes → Bytes → Json → PermissionEffect

abbrev pub AskCallbackEx : Type 0 → Type 0
AskCallbackEx Json = ToolContext → Bytes → Bytes → Bytes → Json → PermissionEffect

pub record PermissionGate (Json : Type 0) : Type 0 where
  pub rules : Rules
  pub session_rules : RuleMap
  pub session_allows : RuleMap
  pub exact_allows : RuleMap
  pub ask_cb : Option (AskCallback Json)
  pub ask_cb_ex : Option (AskCallbackEx Json)

-- `map[id]`: a missing entry is made as an empty vector.
abbrev pub rules_of : Bytes → RuleMap → Rules
rules_of id m = elim (lookup id m) [ none ↦ [] | some rs ↦ rs ]

pub is_rule : Bytes → Bytes → PermissionRule → Bool
is_rule action resource r = eq r.action action && eq r.resource resource

pub has_rule : Bytes → Bytes → Rules → Bool
has_rule action resource [] = false
has_rule action resource (r ∷ rs) = is_rule action resource r || has_rule action resource rs

-- The loop that erases the first rule of the two names, and whether it found one.
pub erase_rule : Bytes → Bytes → Rules → Rules
erase_rule action resource [] = []
erase_rule action resource (r ∷ rs) =
    if is_rule action resource r then rs else r ∷ erase_rule action resource rs

abbrev pub allow_rule : Bytes → Bytes → PermissionRule
allow_rule action resource = record { action = action; resource = resource; effect = allow }

-- The loop that returns at an equal grant, and the `push_back` behind it.
pub add_if_absent : Bytes → Bytes → Rules → Rules
add_if_absent action resource grants =
    if has_rule action resource grants then grants else grants ++ allow_rule action resource ∷ []

module _ {Json : Type 0} where
  pub set_rules : Rules → PermissionGate Json → PermissionGate Json
  set_rules rs g = record g { rules = rs }

  pub set_session_rules : Bytes → Rules → PermissionGate Json → PermissionGate Json
  set_session_rules session_id rs g = record g {
    session_rules = insert session_id rs g.session_rules;
  }

  pub add_allow : Bytes → Bytes → Bytes → PermissionGate Json → PermissionGate Json
  add_allow session_id action resource g = record g {
    session_allows =
        insert session_id (rules_of session_id g.session_allows ++ allow_rule action resource ∷ [])
          g.session_allows;
  }

  pub add_exact_allow : Bytes → Bytes → Bytes → PermissionGate Json → PermissionGate Json
  add_exact_allow session_id action resource g = record g {
    exact_allows =
        insert session_id (add_if_absent action resource (rules_of session_id g.exact_allows))
          g.exact_allows;
  }

  pub revoke_exact_allow : Bytes → Bytes → Bytes → PermissionGate Json → PermissionGate Json × Bool
  revoke_exact_allow session_id action resource g = elim (lookup session_id g.exact_allows) [
    | none ↦ (g, false)
    | some grants ↦
        if has_rule action resource grants
        then (
          record g {
            exact_allows = insert session_id (erase_rule action resource grants) g.exact_allows;
          },
          true,
        )
        else (g, false)
  ]

  pub revoke_pattern_allow :
      Bytes → Bytes → Bytes → PermissionGate Json → PermissionGate Json × Bool
  revoke_pattern_allow session_id action resource g = elim (lookup session_id g.session_allows) [
    | none ↦ (g, false)
    | some grants ↦
        if has_rule action resource grants
        then (
          record g {
            session_allows = insert session_id (erase_rule action resource grants) g.session_allows;
          },
          true,
        )
        else (g, false)
  ]

  pub revoke_temporary_allows : Bytes → PermissionGate Json → PermissionGate Json
  revoke_temporary_allows session_id g = record g {
    exact_allows = erase session_id g.exact_allows;
    session_allows = erase session_id g.session_allows;
  }

  pub erase_session_state : Bytes → PermissionGate Json → PermissionGate Json
  erase_session_state session_id g = record g {
    session_rules = erase session_id g.session_rules;
    session_allows = erase session_id g.session_allows;
    exact_allows = erase session_id g.exact_allows;
  }

  pub set_ask_callback : Option (AskCallback Json) → PermissionGate Json → PermissionGate Json
  set_ask_callback cb g = record g { ask_cb = cb }

  pub set_ask_callback_ex : Option (AskCallbackEx Json) → PermissionGate Json → PermissionGate Json
  set_ask_callback_ex cb g = record g { ask_cb_ex = cb }

  unfoldable pub snapshot : Bytes → PermissionGate Json → PermissionSnapshot
  snapshot session_id g = record {
    configured = g.rules;
    session = rules_of session_id g.session_rules;
    temporary_patterns = rules_of session_id g.session_allows;
    temporary_exact = rules_of session_id g.exact_allows;
  }

unfoldable pub matched_decision : PermissionRule → Bytes → ℕ → AuthorizationDecision
matched_decision r source i = record {
  effect = r.effect;
  reason = codes "Matched " ++ (source ++ codes " rule");
  source = source;
  rule_index = pos i;
  blocked = false;
}

pub exact_decision : ℕ → AuthorizationDecision
exact_decision i = record {
  effect = allow;
  reason = codes "Exact temporary session grant";
  source = codes "temporary_exact";
  rule_index = pos i;
  blocked = false;
}

unfoldable pub prompt_decision : AuthorizationDecision
prompt_decision = record {
  effect = ask;
  reason = codes "No applicable Allow or Deny; approval required";
  source = codes "prompt";
  rule_index = negsuc 0;
  blocked = false;
}

-- The first loop of `evaluate`, from the index `i`.
unfoldable pub find_exact : Bytes → Bytes → ℕ → Rules → Option ℕ
find_exact action resource i [] = none
find_exact action resource i (r ∷ rs) =
    let rest = find_exact action resource (suc i) rs in
    if is_rule action resource r then some i else rest

-- The loop of the lambda `match`, downwards from the last rule; `n` rules are left to look at.
unfoldable pub match_down :
    (PermissionRule → Bool) → Rules → Bytes → ℕ → Option AuthorizationDecision
match_down matches rs source zero = none
match_down matches rs source (suc i) =
    let below = match_down matches rs source i in
    elim (get_elem? rs i) [
      | none ↦ below
      | some r ↦ if matches r then some (matched_decision r source i) else below
    ]

abbrev pub Layer : Type 0
Layer = Rules × Bytes

unfoldable pub is_ask : PermissionEffect → Bool
is_ask ask = true
is_ask _ = false

unfoldable pub hold :
    Option AuthorizationDecision → AuthorizationDecision → Option AuthorizationDecision
hold none d = some d
hold (some d') d = some d'

-- The loop over the layers; `held` is `ask_decision` where `have_ask` is set.
unfoldable pub walk :
    (PermissionRule → Bool) → List Layer → Option AuthorizationDecision → AuthorizationDecision
unfolding hold is_ask
walk matches [] none = prompt_decision
walk matches [] (some d) = d
walk matches ((rs, source) ∷ layers) held = elim (match_down matches rs source (length rs)) [
  | none ↦ walk matches layers held
  | some d ↦ let next = walk matches layers (hold held d) in if is_ask d.effect then next else d
]

abbrev pub layers : PermissionSnapshot → List Layer
layers state =
    (state.temporary_patterns, codes "temporary_pattern")
    ∷ (state.session, codes "session")
    ∷ (state.configured, codes "configuration")
    ∷ []

unfoldable pub is_allow : PermissionEffect → Bool
is_allow allow = true
is_allow _ = false

-- `fnmatch(pattern, text, 0) == 0` is the C library's.
module _ (fnmatch : Bytes → Bytes → Bool) where
  -- The lambda `resource_matches`.
  unfoldable pub resource_matches : Bytes → Bytes → PermissionRule → Bool
  unfolding is_allow
  resource_matches action resource r =
      if eq action (codes "bash") && (is_allow r.effect && has_any_of (codes "*?[") r.resource)
      then bash_pattern_authorizes fnmatch r.resource resource
      else fnmatch r.resource resource

  unfoldable pub rule_matches : Bytes → Bytes → PermissionRule → Bool
  rule_matches action resource r = fnmatch r.action action && resource_matches action resource r

  unfoldable pub evaluate_snapshot : PermissionSnapshot → Bytes → Bytes → AuthorizationDecision
  evaluate_snapshot state action resource =
      elim (find_exact action resource 0 state.temporary_exact) [
        | some i ↦ exact_decision i
        | none ↦ walk (rule_matches action resource) (layers state) none
      ]

  module _ {Json : Type 0} where
    unfoldable pub evaluate : Bytes → Bytes → Bytes → PermissionGate Json → AuthorizationDecision
    evaluate session_id action resource g =
        evaluate_snapshot (snapshot session_id g) action resource

    pub check : Bytes → Bytes → Bytes → Json → PermissionGate Json → PermissionEffect
    check session_id action resource input g = elim (evaluate session_id action resource g).effect [
      | ask ↦ elim g.ask_cb [ some cb ↦ cb session_id action resource input | none ↦ ask ]
      | effect ↦ effect
    ]

    pub check_tool : ToolContext → Bytes → Bytes → Json → PermissionGate Json → PermissionEffect
    check_tool ctx action resource input g =
        elim (evaluate ctx.session_id action resource g).effect [
          | ask ↦ elim g.ask_cb_ex [
            | some cb ↦ cb ctx ctx.tool_name action resource input
            | none ↦ elim g.ask_cb [
              | some cb ↦ cb ctx.session_id action resource input
              | none ↦ ask
            ]
          ]
          | effect ↦ effect
        ]
