-- ===== src/Permission/Registry/Boundary.antt =====
-- The hard boundaries of a tool call: no rule, grant or approval moves them.
use hai_code.Base.{
  Bytes, ◌≡◌, refl, sym, ap, ◌∙◌, ◌⊎◌, inl, inr, Bool, true, false, Option, none, some, arith,
  Bool-cases,
}
use hai_code.Permission.Types.{
  PermissionEffect, allow, deny, ask, AuthorizationDecision, ToolContext,
}
use hai_code.Permission.Mode.{tool_allowed_in_mode, tool_available}
use hai_code.Permission.Gate.{PermissionGate, is_ask, is_allow}
use hai_code.Permission.Gate
use hai_code.Permission.Registry.{
  Attempt, returned, threw, ◌>>=◌, Tool, Tools, Platform, Clearance, runs, get, clear, clear_answer,
  decide, plan_refuses, git_sub, evaluate, authorize, interrupted, blocked_decision, settle,
  settle_tool, past_modes, >>=-returned,
}

effect_cases : (e : PermissionEffect) → (e ≡ allow) ⊎ (e ≡ deny) ⊎ (e ≡ ask)
effect_cases allow = inl refl
effect_cases deny = inr (inl refl)
effect_cases ask = inr (inr refl)

clear-runs :
    {Json : Type 0} (name : Bytes) (tool t : Tool Json) (e : PermissionEffect)
    → clear name tool e ≡ runs t
    → (tool ≡ t) × (e ≡ allow)
unfolding clear
clear-runs name tool t allow h = ground arith
clear-runs name tool t deny h = ground arith
clear-runs name tool t ask h = ground arith

bind-runs :
    {Json : Type 0} (m : Attempt Bytes) (f : Bytes → Clearance Json) (t : Tool Json)
    → (m >>= λ r. returned (f r)) ≡ returned (runs t)
    → (r : Bytes) × (m ≡ returned r) × (f r ≡ runs t)
bind-runs (returned r) f t h = (r, refl, cc)
bind-runs (threw e) f t h = cc

module _ {Json : Type 0} (p : Platform Json) (offline : Bool) where
  clear_answer-runs :
      (name : Bytes) (tool t : Tool Json) (interrupt : Option Bool) (e : PermissionEffect)
      → clear_answer name tool interrupt e ≡ runs t
      → (tool ≡ t) × (e ≡ allow) × (interrupted interrupt ≡ false)
  unfolding clear_answer is_allow
  clear_answer-runs name tool t interrupt allow h = ground arith
  clear_answer-runs name tool t interrupt deny h = ground arith
  clear_answer-runs name tool t interrupt ask h = ground arith

  -- A tool runs by an Allow decision, or where one has to ask by an answer that comes in time.
  unfoldable pub Cleared :
      Bytes → Json → ToolContext → PermissionGate Json → AuthorizationDecision → Tool Json → Type 0
  Cleared name input ctx gate d t =
      (d.effect ≡ allow)
      ⊎ ((d.effect ≡ ask)
          × (interrupted ctx.interrupt ≡ false)
          × (r : Bytes) × (t.resource input ctx ≡ returned r)
          × (Gate.check_tool p.fnmatch ctx t.required_permission r input gate ≡ allow))

  settle_tool-runs :
      (name : Bytes) (input : Json) (ctx : ToolContext) (gate : PermissionGate Json)
      (d : AuthorizationDecision) (o : Option (Tool Json)) (t : Tool Json)
      → settle_tool p offline name input ctx gate d o ≡ returned (runs t)
      → (o ≡ some t) × Cleared name input ctx gate d t
  unfolding settle_tool Cleared is_ask
  settle_tool-runs name input ctx gate d none t h = cc
  settle_tool-runs name input ctx gate d (some tool) t h = elim (effect_cases d.effect) [
    | inl e ↦ (ground (arith, clear-runs name tool t d.effect), inl e)
    | inr (inl e) ↦ absurd (ground (arith, clear-runs name tool t d.effect))
    | inr (inr e) ↦
        let ask_gate =
          λ (r : Bytes). Gate.check_tool p.fnmatch ctx tool.required_permission r input gate in
        let (r, f, k) =
          bind-runs (tool.resource input ctx)
            (λ r. clear_answer name tool ctx.interrupt (ask_gate r)) t (ground arith) in
        let (same, answer, on) = clear_answer-runs name tool t ctx.interrupt (ask_gate r) k in
        (
          ap some same,
          inr (
            e,
            on,
            r,
            ap (λ (x : Tool Json). x.resource input ctx) (sym same) ∙ f,
            ap (λ (x : Tool Json). Gate.check_tool p.fnmatch ctx x.required_permission r input gate)
                  (sym same)
                ∙ answer,
          ),
        )
  ]

  unfoldable pub Opened :
      Bytes → Json → ToolContext → PermissionGate Json → Tool Json → AuthorizationDecision → Type 0
  Opened name input ctx gate t d =
      (tool_available offline name ctx.mode ≡ true)
      × (sub : Bytes) × (git_sub p offline name input ≡ returned sub)
      × (plan_refuses p offline name sub input ctx ≡ false)
      × (decide p offline name sub t input ctx gate ≡ returned d)

  past_modes-open :
      (name : Bytes) (input : Json) (ctx : ToolContext) (gate : PermissionGate Json) (t : Tool Json)
      (sub : Bytes) (d : AuthorizationDecision)
      → past_modes p offline name input ctx gate t sub ≡ returned d
      → d.blocked ≡ false
      → (plan_refuses p offline name sub input ctx ≡ false)
        × (decide p offline name sub t input ctx gate ≡ returned d)
  unfolding past_modes blocked_decision
  past_modes-open name input ctx gate t sub d h b = ground arith

  evaluate-Opened :
      (name : Bytes) (input : Json) (ctx : ToolContext) (tools : Tools Json)
      (gate : PermissionGate Json) (t : Tool Json) (d : AuthorizationDecision)
      → get name tools ≡ some t
      → evaluate p offline name input ctx tools gate ≡ returned d
      → d.blocked ≡ false
      → Opened name input ctx gate t d
  unfolding evaluate Opened blocked_decision
  evaluate-Opened name input ctx tools gate t d g h b =
      elim (Bool-cases (tool_allowed_in_mode name ctx.mode)) [
        | inr e ↦ absurd (ground arith)
        | inl e ↦ elim (Bool-cases (tool_available offline name ctx.mode)) [
          | inr f ↦ absurd (ground arith)
          | inl f ↦
              let rest : (git_sub p offline name input
                    >>= past_modes p offline name input ctx gate t)
                  ≡ returned d =
                ground arith in
              let (sub, k, l) =
                >>=-returned (git_sub p offline name input)
                  (past_modes p offline name input ctx gate t) rest in
              let (q, r) = past_modes-open name input ctx gate t sub d l b in (f, sub, k, q, r)
        ]
      ]

  settle-runs :
      (name : Bytes) (input : Json) (ctx : ToolContext) (tools : Tools Json)
      (gate : PermissionGate Json) (d : AuthorizationDecision) (t : Tool Json)
      → settle p offline name input ctx tools gate d ≡ returned (runs t)
      → (d.blocked ≡ false)
        × (settle_tool p offline name input ctx gate d (get name tools) ≡ returned (runs t))
  unfolding settle
  settle-runs name input ctx tools gate d t h = ground arith

  -- Where `execute_impl` gets as far as running a tool, that tool is the one registered under the
  -- name, the mode of the session and being offline leave it available, plan mode does not refuse
  -- it as a git invocation that is not read-only, and the decision behind these boundaries was
  -- either Allow, or Ask with an Allow answer of the gate and no interrupt.
  pub authorize-runs :
      (name : Bytes) (input : Json) (ctx : ToolContext) (tools : Tools Json)
      (gate : PermissionGate Json) (t : Tool Json)
      → authorize p offline name input ctx tools gate ≡ returned (runs t)
      → (get name tools ≡ some t)
        × (d : AuthorizationDecision) × Opened name input ctx gate t d
        × Cleared name input ctx gate d t
  unfolding authorize
  authorize-runs name input ctx tools gate t h =
      let (d, e, s) =
        >>=-returned (evaluate p offline name input ctx tools gate)
          (settle p offline name input ctx tools gate) h in
      let (b, s) = settle-runs name input ctx tools gate d t s in
      let (g, c) = settle_tool-runs name input ctx gate d (get name tools) t s in
      (g, d, evaluate-Opened name input ctx tools gate t d g e b, c)
