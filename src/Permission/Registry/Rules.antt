-- ===== src/Permission/Registry/Rules.antt =====
-- What a rule that denies a tool call leaves to run.
use hai_code.Base.{
  Bytes, ◌≡◌, refl, ap, ◌∙◌, ◌⊎◌, inl, inr, Bool, true, false, Option, none, some, codes, eq,
  if◌then◌else◌, contains, [], ◌∷◌, arith, Bool-cases,
}
use hai_code.Permission.Types.{deny, AuthorizationDecision, ToolContext}
use hai_code.Permission.Path.{is_empty, is_within_always_readable_root}
use hai_code.Permission.Gate.{PermissionGate, is_ask}
use hai_code.Permission.Gate
use hai_code.Permission.Registry.{
  returned, ◌>>=◌, >>=-returned, runs, Tool, Tools, Platform, authorize, decide, trusted_root,
  target_passes, exemption, rules_or, glob_base_dir, file_tools, builtin, what_reads,
}
use hai_code.Permission.Registry.Boundary.{Cleared, Opened, authorize-runs}

returned-injective {ℓ} : {A : Type ℓ} {a b : A} → returned a ≡ returned b → a ≡ b
returned-injective h = cc

module _ {Json : Type 0} (p : Platform Json) (offline : Bool) where
  -- A tool that reads a file or a directory of a system root, or a glob of such a directory, in a session
  -- that has a working directory.
  pub InSystemRoot : Bytes → Json → ToolContext → Tool Json → Type 0
  InSystemRoot name input ctx t =
      (is_empty ctx.working_dir ≡ false)
      × (((contains
                (codes "read"
                  ∷ codes "ls"
                  ∷ codes "grep"
                  ∷ codes "diff"
                  ∷ codes "find"
                  ∷ codes "symbols"
                  ∷ [])
                name
              ≡ true)
            × (r : Bytes) × (t.resource input ctx ≡ returned r)
            × (is_within_always_readable_root p.realpath r ≡ true))
          ⊎ ((eq name (codes "glob") ≡ true)
              × (base : Bytes) × (glob_base_dir p offline input ctx.working_dir ≡ returned base)
              × (is_within_always_readable_root p.realpath base ≡ true)))

  trusted_root-InSystemRoot :
      (name : Bytes) (input : Json) (ctx : ToolContext) (t : Tool Json)
      → trusted_root p offline name t input ctx ≡ returned true
      → InSystemRoot name input ctx t
  unfolding trusted_root target_passes InSystemRoot
  trusted_root-InSystemRoot name input ctx t h = elim (Bool-cases (is_empty ctx.working_dir)) [
    | inl e ↦ absurd (ground arith)
    | inr e ↦ elim (Bool-cases (contains file_tools name)) [
      | inl c ↦
          let (r, f, k) =
            >>=-returned (t.resource input ctx)
              (λ r. returned (is_within_always_readable_root p.realpath r)) (rw (e, c) at h) in
          (e, inl (c, r, f, returned-injective k))
      | inr c ↦ elim (Bool-cases (eq name (codes "glob"))) [
        | inl g ↦
            let (base, f, k) =
              >>=-returned (glob_base_dir p offline input ctx.working_dir)
                (λ r. returned (is_within_always_readable_root p.realpath r)) (rw (e, c, g) at h) in
            (e, inr (g, base, f, returned-injective k))
        | inr g ↦ absurd (ground arith)
      ]
    ]
  ]

  -- What the rules deny, no exemption allows.
  rules_or-denied :
      (g d : AuthorizationDecision) (e : Option AuthorizationDecision)
      → g.effect ≡ deny
      → rules_or p offline g e ≡ d
      → d.effect ≡ deny
  unfolding rules_or is_ask
  rules_or-denied g d none n h = ground arith
  rules_or-denied g d (some e) n h = ground arith

  denied_or_root :
      (name sub : Bytes) (input : Json) (ctx : ToolContext) (gate : PermissionGate Json)
      (t : Tool Json) (r : Bytes) (d : AuthorizationDecision) (root : Bool)
      → t.resource input ctx ≡ returned r
      → (Gate.evaluate p.fnmatch ctx.session_id t.required_permission r gate).effect ≡ deny
      → (if root
          then returned (builtin (what_reads p offline name (codes "within trusted system root")))
          else (exemption p offline name sub t input ctx >>= λ exempt. t.resource input ctx >>= λ r.
              returned (
                rules_or p offline
                  (Gate.evaluate p.fnmatch ctx.session_id t.required_permission r gate)
                  exempt)))
        ≡ returned d
      → (root ≡ true) ⊎ (d.effect ≡ deny)
  denied_or_root name sub input ctx gate t r d true f n h = inl refl
  denied_or_root name sub input ctx gate t r d false f n h =
      let (e, x, k) = >>=-returned (exemption p offline name sub t input ctx) _ h in
      inr (
        rules_or-denied (Gate.evaluate p.fnmatch ctx.session_id t.required_permission r gate) d e n
          (returned-injective (rw f at k)))

  -- Behind the system roots, what the rules deny is denied.
  decide-denied :
      (name sub : Bytes) (input : Json) (ctx : ToolContext) (gate : PermissionGate Json)
      (t : Tool Json) (r : Bytes) (d : AuthorizationDecision)
      → t.resource input ctx ≡ returned r
      → (Gate.evaluate p.fnmatch ctx.session_id t.required_permission r gate).effect ≡ deny
      → decide p offline name sub t input ctx gate ≡ returned d
      → (trusted_root p offline name t input ctx ≡ returned true) ⊎ (d.effect ≡ deny)
  unfolding decide
  decide-denied name sub input ctx gate t r d f n h =
      let (root, found, k) = >>=-returned (trusted_root p offline name t input ctx) _ h in
      elim (denied_or_root name sub input ctx gate t r d root f n k) [
        | inl e ↦ inl (found ∙ ap returned e)
        | inr e ↦ inr e
      ]

  not_denied :
      (name : Bytes) (input : Json) (ctx : ToolContext) (gate : PermissionGate Json)
      (d : AuthorizationDecision) (t : Tool Json)
      → Cleared p offline name input ctx gate d t
      → d.effect ≡ deny
      → ⊥
  unfolding Cleared
  not_denied name input ctx gate d t (inl a) n = absurd (cc)
  not_denied name input ctx gate d t (inr (a, _, _, _, _)) n = absurd (cc)

  -- Where the gate's grants and rules deny a call, `execute_impl` gets as far as running the tool only
  -- where it reads a file or a directory within an always readable system root, or is a glob of such a
  -- directory, and the session has a working directory: neither an exemption nor an answer of the user
  -- overrides the denial.
  pub authorize-denied :
      (name : Bytes) (input : Json) (ctx : ToolContext) (tools : Tools Json)
      (gate : PermissionGate Json) (t : Tool Json) (r : Bytes)
      → t.resource input ctx ≡ returned r
      → (Gate.evaluate p.fnmatch ctx.session_id t.required_permission r gate).effect ≡ deny
      → authorize p offline name input ctx tools gate ≡ returned (runs t)
      → InSystemRoot name input ctx t
  unfolding Opened
  authorize-denied name input ctx tools gate t r f n h =
      let (_, d, (_, sub, _, _, decided), cleared) =
        authorize-runs p offline name input ctx tools gate t h in
      elim (decide-denied name sub input ctx gate t r d f n decided) [
        | inl root ↦ trusted_root-InSystemRoot name input ctx t root
        | inr denied ↦ absurd (not_denied name input ctx gate d t cleared denied)
      ]
