-- ===== src/Permission/Gate/Examples.antt =====
-- The theorems on `PermissionGate` at concrete inputs.
use hai_code.Base.{Bytes, ◌≡◌, ◌↔◌, refl, Bool, none, [], ◌∷◌, codes, eq}
use hai_code.Permission.Types.{deny, PermissionRule}
use hai_code.Permission.Gate.{
  PermissionGate, is_rule, has_rule, allow_rule, matched_decision, is_ask, rule_matches, snapshot,
  evaluate,
}
use hai_code.Permission.Gate.Operations.{adds_allow, apply}
use hai_code.Permission.Gate.Sessions.{snapshot-apply}
use hai_code.Permission.Gate.Match.{Verdict}
use hai_code.Permission.Gate.Decisions.{evaluate_iff}

-- A pattern that only matches itself.
literally : Bytes → Bytes → Bool
literally pattern text = eq pattern text

abbrev no_force : PermissionRule
no_force = record { action = codes "bash"; resource = codes "git push -f"; effect = deny }

abbrev gate : PermissionGate Unit
gate = record {
  rules = no_force ∷ [];
  session_rules = [];
  session_allows = [];
  exact_allows = (codes "s1", allow_rule (codes "edit") (codes "a.c") ∷ []) ∷ [];
  ask_cb = none;
  ask_cb_ex = none;
}

snapshot-apply_example :
    snapshot (codes "s2") (apply (adds_allow (codes "s1") (codes "bash") (codes "make*")) gate)
    ≡ snapshot (codes "s2") gate
unfolding eq
snapshot-apply_example =
    snapshot-apply (adds_allow (codes "s1") (codes "bash") (codes "make*")) (codes "s1")
      (codes "s2") gate refl refl

evaluate_iff_example :
    (evaluate literally (codes "s1") (codes "bash") (codes "git push -f") gate
      ≡ matched_decision no_force (codes "configuration") 0)
    ↔ Verdict
        (rule_matches literally (codes "bash") (codes "git push -f"))
        (((snapshot (codes "s1") gate).temporary_patterns, codes "temporary_pattern")
          ∷ ((snapshot (codes "s1") gate).session, codes "session")
          ∷ ((snapshot (codes "s1") gate).configured, codes "configuration")
          ∷ [])
        (matched_decision no_force (codes "configuration") 0)
unfolding has_rule is_rule snapshot eq matched_decision is_ask
evaluate_iff_example =
    evaluate_iff literally (codes "s1") (codes "bash") (codes "git push -f") gate
      (matched_decision no_force (codes "configuration") 0) refl refl
