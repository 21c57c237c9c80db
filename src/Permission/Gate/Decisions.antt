-- ===== src/Permission/Gate/Decisions.antt =====
-- What a call of the gate does to the decisions that follow.
use hai_code.Base.{
  Bytes, ℕ, suc, ◌≡◌, refl, ap, ◌∙◌, ◌↔◌, inl, inr, Bool, true, false, none, some, [], ◌∷◌, ◌++◌,
  codes, eq_refl, arith, Bool-cases, Option-cases,
}
use hai_code.Base.Map.{lookup, insert, erase, lookup-insert, lookup-erase}
use hai_code.Permission.Types.{allow, AuthorizationDecision}
use hai_code.Permission.Gate.{
  Rules, RuleMap, PermissionGate, layers, rules_of, is_rule, has_rule, erase_rule, allow_rule,
  add_if_absent, find_exact, exact_decision, matched_decision, walk, is_ask, rule_matches, snapshot,
  evaluate, evaluate_snapshot, add_allow, add_exact_allow, revoke_exact_allow, erase_session_state,
}
use hai_code.Permission.Gate.Match.{Verdict, walk_iff, walk_appended}
use hai_code.Permission.Gate.Grants.{
  AllDistinct, has_rule-erase_rule, rules_of-Distinct, has_rule-append,
}

rules_of-insert : (s : Bytes) (rs : Rules) (m : RuleMap) → rules_of s (insert s rs m) ≡ rs
rules_of-insert s rs m = ground (arith, lookup-insert s s rs m, eq_refl s)

rules_of-erase : (s : Bytes) (m : RuleMap) → rules_of s (erase s m) ≡ []
rules_of-erase s m = ground (arith, lookup-erase s s m, eq_refl s)

find_exact-none :
    (a r : Bytes) (i : ℕ) (rs : Rules) → has_rule a r rs ≡ false → find_exact a r i rs ≡ none
unfolding find_exact has_rule
find_exact-none a r i [] h = refl
find_exact-none a r i (x ∷ rs) h = ground (arith, find_exact-none a r (suc i) rs)

find_exact-some :
    (a r : Bytes) (i : ℕ) (rs : Rules)
    → has_rule a r rs ≡ true
    → (j : ℕ) × (find_exact a r i rs ≡ some j)
unfolding find_exact has_rule
find_exact-some a r i [] h = cc
find_exact-some a r i (x ∷ rs) h = elim (Bool-cases (is_rule a r x)) [
  | inl e ↦ (i, rw e)
  | inr e ↦ rw e (find_exact-some a r (suc i) rs (ground arith))
]

add_if_absent-has_rule : (a r : Bytes) (rs : Rules) → has_rule a r (add_if_absent a r rs) ≡ true
unfolding add_if_absent is_rule
add_if_absent-has_rule a r rs =
    ground (arith, has_rule-append a r rs (allow_rule a r), eq_refl a, eq_refl r)

module _ {Json : Type 0} where
  revoke_exact_allow-layers :
      (s a r : Bytes) (g : PermissionGate Json)
      → layers (snapshot s (revoke_exact_allow s a r g).0) ≡ layers (snapshot s g)
  unfolding revoke_exact_allow snapshot
  revoke_exact_allow-layers s a r g = elim (Option-cases (lookup s g.exact_allows)) [
    | inl e ↦ rw (e, revoke_exact_allow)
    | inr (grants, e) ↦ ground (arith, e)
  ]

  revoke_exact_allow-has_rule :
      (s a r : Bytes) (g : PermissionGate Json)
      → AllDistinct g.exact_allows
      → has_rule a r (rules_of s (revoke_exact_allow s a r g).0.exact_allows) ≡ false
  unfolding revoke_exact_allow has_rule
  revoke_exact_allow-has_rule s a r g h = elim (Option-cases (lookup s g.exact_allows)) [
    | inl e ↦ ground arith
    | inr (grants, e) ↦ ground (
      arith,
      e,
      rules_of-insert s (erase_rule a r grants) g.exact_allows,
      has_rule-erase_rule a r grants,
      rules_of-Distinct s g.exact_allows,
    )
  ]

module _ (fnmatch : Bytes → Bytes → Bool) {Json : Type 0} where
  evaluate-layers :
      (s a r : Bytes) (g : PermissionGate Json)
      → has_rule a r (rules_of s g.exact_allows) ≡ false
      → evaluate fnmatch s a r g ≡ walk (rule_matches fnmatch a r) (layers (snapshot s g)) none
  unfolding evaluate evaluate_snapshot snapshot
  evaluate-layers s a r g h =
      rw (find_exact-none a r 0 (rules_of s g.exact_allows) h, evaluate_snapshot)

  evaluate_exact :
      (s a r : Bytes) (g : PermissionGate Json) (i : ℕ)
      → find_exact a r 0 (rules_of s g.exact_allows) ≡ some i
      → evaluate fnmatch s a r g ≡ exact_decision i
  unfolding evaluate evaluate_snapshot snapshot
  evaluate_exact s a r g i h = rw (h, evaluate_snapshot)

  -- Without an exact grant, `evaluate` returns an Allow or a Deny exactly where the temporary
  -- patterns, the session's rules and the configured rules come to it in that order: in a layer the
  -- last rule that matches speaks, and one that says to ask hands on.
  pub evaluate_iff :
      (s action resource : Bytes) (g : PermissionGate Json) (d : AuthorizationDecision)
      → has_rule action resource (snapshot s g).temporary_exact ≡ false
      → is_ask d.effect ≡ false
      → (evaluate fnmatch s action resource g ≡ d)
        ↔ Verdict
            (rule_matches fnmatch action resource)
            (((snapshot s g).temporary_patterns, codes "temporary_pattern")
              ∷ ((snapshot s g).session, codes "session")
              ∷ ((snapshot s g).configured, codes "configuration")
              ∷ [])
            d
  unfolding snapshot
  evaluate_iff s action resource g d h n =
      rw (evaluate-layers s action resource g h)
        (walk_iff (rule_matches fnmatch action resource) (layers (snapshot s g)) d n)

  -- An exact grant is honoured from then on, whatever the rules say.
  pub evaluate-add_exact_allow :
      (s action resource : Bytes) (g : PermissionGate Json)
      → (i : ℕ) × (evaluate fnmatch s action resource (add_exact_allow s action resource g)
          ≡ exact_decision i)
  unfolding add_exact_allow
  evaluate-add_exact_allow s action resource g =
      let grants = add_if_absent action resource (rules_of s g.exact_allows) in
      let has = add_if_absent-has_rule action resource (rules_of s g.exact_allows) in
      let (i, e) = find_exact-some action resource 0 grants has in
      let stored = ap (find_exact action resource 0) (rules_of-insert s grants g.exact_allows) in
      (i, evaluate_exact s action resource (add_exact_allow s action resource g) i (stored ∙ e))

  -- After an exact grant is revoked, where the grants hold no duplicates, the decision is that of the
  -- rule layers.
  pub evaluate-revoke_exact_allow :
      (s action resource : Bytes) (g : PermissionGate Json)
      → AllDistinct g.exact_allows
      → evaluate fnmatch s action resource (revoke_exact_allow s action resource g).0
        ≡ walk (rule_matches fnmatch action resource) (layers (snapshot s g)) none
  evaluate-revoke_exact_allow s action resource g h =
      evaluate-layers s action resource (revoke_exact_allow s action resource g).0
        (revoke_exact_allow-has_rule s action resource g h)
      ∙ ap (λ ls. walk (rule_matches fnmatch action resource) ls none)
          (revoke_exact_allow-layers s action resource g)

  add_allow-walk :
      (s a r pattern action : Bytes) (g : PermissionGate Json)
      → rule_matches fnmatch a r (allow_rule action pattern) ≡ true
      → (walk
          (rule_matches fnmatch a r)
          (layers (snapshot s (add_allow s action pattern g)))
          none).effect
        ≡ allow
  unfolding snapshot add_allow matched_decision is_ask
  add_allow-walk s a r pattern action g h =
      let old = rules_of s g.session_allows in
      let grant = allow_rule action pattern in
      let stored = rules_of-insert s (old ++ grant ∷ []) g.session_allows in
      rw stored (
        ap (λ d. d.effect)
          (walk_appended (rule_matches fnmatch a r) old grant (codes "temporary_pattern") _ h refl))

  -- After a pattern grant, what it matches is allowed, whatever other rules there are.
  pub evaluate-add_allow :
      (s action resource pattern a : Bytes) (g : PermissionGate Json)
      → rule_matches fnmatch action resource (allow_rule a pattern) ≡ true
      → (evaluate fnmatch s action resource (add_allow s a pattern g)).effect ≡ allow
  unfolding add_allow exact_decision
  evaluate-add_allow s action resource pattern a g h =
      elim (Bool-cases (has_rule action resource (rules_of s g.exact_allows))) [
        | inl e ↦
            let (i, f) = find_exact-some action resource 0 (rules_of s g.exact_allows) e in
            ap (λ d. d.effect) (evaluate_exact s action resource (add_allow s a pattern g) i f)
        | inr e ↦
            ap (λ d. d.effect) (evaluate-layers s action resource (add_allow s a pattern g) e)
            ∙ add_allow-walk s action resource pattern a g h
      ]

module _ {Json : Type 0} where
  -- Erasing a session leaves nothing of it but the configured rules.
  pub snapshot-erase_session_state :
      (s : Bytes) (g : PermissionGate Json)
      → snapshot s (erase_session_state s g) ≡ record {
        configured = g.rules;
        session = [];
        temporary_patterns = [];
        temporary_exact = [];
      }
  unfolding snapshot erase_session_state
  snapshot-erase_session_state s g = ground (
    arith,
    rules_of-erase s g.session_rules,
    rules_of-erase s g.session_allows,
    rules_of-erase s g.exact_allows,
  )
