-- ===== src/Permission/Gate/Grants.antt =====
-- The exact grants of a session: no grant is stored twice, so one revocation takes it away.
use hai_code.Base.{
  Bytes, ◌≡◌, refl, false, [], ◌∷◌, ◌++◌, eq_iff, All, arith, ◌||◌, inl, inr, Option-cases,
}
use hai_code.Base.Map.{lookup, insert, All-insert, All-erase}
use hai_code.Permission.Types.{PermissionRule}
use hai_code.Permission.Gate.{
  Rules, RuleMap, PermissionGate, rules_of, is_rule, has_rule, erase_rule, allow_rule,
  add_if_absent, set_rules, set_session_rules, add_allow, add_exact_allow, revoke_exact_allow,
  revoke_pattern_allow, revoke_temporary_allows, erase_session_state, set_ask_callback,
  set_ask_callback_ex,
}
use hai_code.Permission.Gate.Operations.{
  GateOp, apply, sets_rules, sets_session_rules, adds_allow, adds_exact_allow, revokes_exact_allow,
  revokes_pattern_allow, revokes_temporary_allows, erases_session_state, sets_ask_callback,
  sets_ask_callback_ex,
}

-- No two rules are for the same action and resource.
abbrev pub Distinct : Rules → Type 0
Distinct [] = Unit
Distinct (r ∷ rs) = (has_rule r.action r.resource rs ≡ false) × Distinct rs

pub has_rule-append :
    (a r : Bytes) (rs : Rules) (x : PermissionRule)
    → has_rule a r (rs ++ x ∷ []) ≡ (has_rule a r rs || is_rule a r x)
unfolding has_rule
has_rule-append a r [] x = ground arith
has_rule-append a r (y ∷ rs) x = ground (arith, has_rule-append a r rs x)

has_rule-erase_rule_le :
    (a r b q : Bytes) (rs : Rules)
    → has_rule a r rs ≡ false
    → has_rule a r (erase_rule b q rs) ≡ false
unfolding has_rule erase_rule
has_rule-erase_rule_le a r b q [] h = refl
has_rule-erase_rule_le a r b q (x ∷ rs) h = ground (arith, has_rule-erase_rule_le a r b q rs)

erase_rule-Distinct : (a r : Bytes) (rs : Rules) → Distinct rs → Distinct (erase_rule a r rs)
unfolding erase_rule
erase_rule-Distinct a r [] h = tt
erase_rule-Distinct a r (x ∷ rs) h =
    ground (arith, erase_rule-Distinct a r rs, has_rule-erase_rule_le x.action x.resource a r rs)

append-Distinct :
    (rs : Rules) (x : PermissionRule)
    → Distinct rs
    → has_rule x.action x.resource rs ≡ false
    → Distinct (rs ++ x ∷ [])
unfolding has_rule is_rule
append-Distinct [] x h k = (refl, tt)
append-Distinct (y ∷ rs) x h k = ground (
  arith,
  append-Distinct rs x,
  has_rule-append y.action y.resource rs x,
  eq_iff x.action y.action,
  eq_iff x.resource y.resource,
  eq_iff y.action x.action,
  eq_iff y.resource x.resource,
)

add_if_absent-Distinct : (a r : Bytes) (rs : Rules) → Distinct rs → Distinct (add_if_absent a r rs)
unfolding add_if_absent
add_if_absent-Distinct a r rs h = ground (arith, append-Distinct rs (allow_rule a r))

-- An erased rule was the only one.
pub has_rule-erase_rule :
    (a r : Bytes) (rs : Rules) → Distinct rs → has_rule a r (erase_rule a r rs) ≡ false
unfolding has_rule erase_rule is_rule
has_rule-erase_rule a r [] h = refl
has_rule-erase_rule a r (x ∷ rs) h =
    ground (arith, has_rule-erase_rule a r rs, eq_iff x.action a, eq_iff x.resource r)

abbrev pub AllDistinct : RuleMap → Type 0
AllDistinct = All (λ p. Distinct p.1)

insert-AllDistinct :
    (s : Bytes) (rs : Rules) (m : RuleMap)
    → Distinct rs
    → AllDistinct m
    → AllDistinct (insert s rs m)
insert-AllDistinct s rs m h k = All-insert (λ p. Distinct p.1) s rs m h k

pub rules_of-Distinct : (s : Bytes) (m : RuleMap) → AllDistinct m → Distinct (rules_of s m)
rules_of-Distinct s [] h = tt
rules_of-Distinct s ((k, rs) ∷ m) h = ground (arith, rules_of-Distinct s m)

module _ {Json : Type 0} where
  revoke_exact_allow-AllDistinct :
      (s a r : Bytes) (g : PermissionGate Json)
      → AllDistinct g.exact_allows
      → AllDistinct (revoke_exact_allow s a r g).0.exact_allows
  unfolding revoke_exact_allow
  revoke_exact_allow-AllDistinct s a r g h = elim (Option-cases (lookup s g.exact_allows)) [
    | inl e ↦ rw (e, revoke_exact_allow) h
    | inr (rs, e) ↦ ground (
      arith,
      e,
      rules_of-Distinct s g.exact_allows,
      erase_rule-Distinct a r rs,
      insert-AllDistinct s (erase_rule a r rs) g.exact_allows,
    )
  ]

  revoke_pattern_allow-AllDistinct :
      (s a r : Bytes) (g : PermissionGate Json)
      → AllDistinct g.exact_allows
      → AllDistinct (revoke_pattern_allow s a r g).0.exact_allows
  unfolding revoke_pattern_allow
  revoke_pattern_allow-AllDistinct s a r g h = elim (Option-cases (lookup s g.session_allows)) [
    | inl e ↦ rw (e, revoke_pattern_allow) h
    | inr (rs, e) ↦ ground (arith, e)
  ]

  -- Every call of the gate keeps the exact grants of every session free of duplicates.
  pub apply-AllDistinct :
      (op : GateOp Json) (g : PermissionGate Json)
      → AllDistinct g.exact_allows
      → AllDistinct (apply op g).exact_allows
  unfolding apply set_rules set_session_rules add_allow add_exact_allow revoke_temporary_allows
      erase_session_state set_ask_callback set_ask_callback_ex
  apply-AllDistinct (sets_rules rs) g h = h
  apply-AllDistinct (sets_session_rules s rs) g h = h
  apply-AllDistinct (adds_allow s a r) g h = h
  apply-AllDistinct (adds_exact_allow s a r) g h =
      insert-AllDistinct s _ g.exact_allows
        (add_if_absent-Distinct a r _ (rules_of-Distinct s g.exact_allows h)) h
  apply-AllDistinct (revokes_exact_allow s a r) g h = revoke_exact_allow-AllDistinct s a r g h
  apply-AllDistinct (revokes_pattern_allow s a r) g h = revoke_pattern_allow-AllDistinct s a r g h
  apply-AllDistinct (revokes_temporary_allows s) g h =
      All-erase (λ p. Distinct p.1) s g.exact_allows h
  apply-AllDistinct (erases_session_state s) g h = All-erase (λ p. Distinct p.1) s g.exact_allows h
  apply-AllDistinct (sets_ask_callback cb) g h = h
  apply-AllDistinct (sets_ask_callback_ex cb) g h = h
