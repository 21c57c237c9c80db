-- ===== src/Permission/Gate/Sessions.antt =====
-- Sessions do not see one another's rules and grants.
use hai_code.Base.{Bytes, ◌≡◌, false, some, [], ◌∷◌, ◌++◌, eq, arith, inl, inr, Option-cases}
use hai_code.Base.Map.{lookup, insert, erase, lookup-insert, lookup-erase}
use hai_code.Permission.Gate.{
  Rules, RuleMap, PermissionGate, rules_of, erase_rule, allow_rule, add_if_absent, snapshot,
  set_session_rules, add_allow, add_exact_allow, revoke_exact_allow, revoke_pattern_allow,
  revoke_temporary_allows, erase_session_state,
}
use hai_code.Permission.Gate.Operations.{
  GateOp, apply, session_of, sets_rules, sets_session_rules, adds_allow, adds_exact_allow,
  revokes_exact_allow, revokes_pattern_allow, revokes_temporary_allows, erases_session_state,
  sets_ask_callback, sets_ask_callback_ex,
}

rules_of-insert_ne :
    (s t : Bytes) (rs : Rules) (m : RuleMap)
    → eq s t ≡ false
    → rules_of t (insert s rs m) ≡ rules_of t m
rules_of-insert_ne s t rs m h = ground (arith, lookup-insert s t rs m)

rules_of-erase_ne :
    (s t : Bytes) (m : RuleMap) → eq s t ≡ false → rules_of t (erase s m) ≡ rules_of t m
rules_of-erase_ne s t m h = ground (arith, lookup-erase s t m)

module _ {Json : Type 0} where
  revoke_exact_allow-same :
      (s a r t : Bytes) (g : PermissionGate Json)
      → eq s t ≡ false
      → snapshot t (revoke_exact_allow s a r g).0 ≡ snapshot t g
  unfolding snapshot revoke_exact_allow
  revoke_exact_allow-same s a r t g h = elim (Option-cases (lookup s g.exact_allows)) [
    | inl e ↦ rw (e, revoke_exact_allow)
    | inr (grants, e) ↦
        ground (arith, e, rules_of-insert_ne s t (erase_rule a r grants) g.exact_allows)
  ]

  revoke_pattern_allow-same :
      (s a r t : Bytes) (g : PermissionGate Json)
      → eq s t ≡ false
      → snapshot t (revoke_pattern_allow s a r g).0 ≡ snapshot t g
  unfolding snapshot revoke_pattern_allow
  revoke_pattern_allow-same s a r t g h = elim (Option-cases (lookup s g.session_allows)) [
    | inl e ↦ rw (e, revoke_pattern_allow)
    | inr (grants, e) ↦
        ground (arith, e, rules_of-insert_ne s t (erase_rule a r grants) g.session_allows)
  ]

  -- A call for one session changes nothing that another session's checks are decided by.
  pub snapshot-apply :
      (op : GateOp Json) (s t : Bytes) (g : PermissionGate Json)
      → session_of op ≡ some s
      → eq s t ≡ false
      → snapshot t (apply op g) ≡ snapshot t g
  unfolding snapshot apply set_session_rules add_allow add_exact_allow revoke_temporary_allows
      erase_session_state
  snapshot-apply (sets_rules rs) s t g e h = cc
  snapshot-apply (sets_session_rules x rs) s t g e h =
      ground (arith, rules_of-insert_ne x t rs g.session_rules)
  snapshot-apply (adds_allow x a r) s t g e h = ground (
    arith,
    rules_of-insert_ne x t (rules_of x g.session_allows ++ allow_rule a r ∷ []) g.session_allows,
  )
  snapshot-apply (adds_exact_allow x a r) s t g e h =
      ground (
        arith,
        rules_of-insert_ne x t (add_if_absent a r (rules_of x g.exact_allows)) g.exact_allows,
      )
  snapshot-apply (revokes_exact_allow x a r) s t g e h =
      ground (arith, revoke_exact_allow-same x a r t g)
  snapshot-apply (revokes_pattern_allow x a r) s t g e h =
      ground (arith, revoke_pattern_allow-same x a r t g)
  snapshot-apply (revokes_temporary_allows x) s t g e h =
      ground (arith, rules_of-erase_ne x t g.exact_allows, rules_of-erase_ne x t g.session_allows)
  snapshot-apply (erases_session_state x) s t g e h = ground (
    arith,
    rules_of-erase_ne x t g.exact_allows,
    rules_of-erase_ne x t g.session_allows,
    rules_of-erase_ne x t g.session_rules,
  )
  snapshot-apply (sets_ask_callback cb) s t g e h = cc
  snapshot-apply (sets_ask_callback_ex cb) s t g e h = cc
