-- ===== src/Permission/Gate/Operations.antt =====
-- The calls of `PermissionGate` that change its state, as one type.
use hai_code.Base.{Bytes, Option, none, some}
use hai_code.Permission.Gate.{
  Rules, AskCallback, AskCallbackEx, PermissionGate, set_rules, set_session_rules, add_allow,
  add_exact_allow, revoke_exact_allow, revoke_pattern_allow, revoke_temporary_allows,
  erase_session_state, set_ask_callback, set_ask_callback_ex,
}

pub data GateOp (Json : Type 0) : Type 0 where
  sets_rules : Rules → GateOp Json
  sets_session_rules : Bytes → Rules → GateOp Json
  adds_allow : Bytes → Bytes → Bytes → GateOp Json
  adds_exact_allow : Bytes → Bytes → Bytes → GateOp Json
  revokes_exact_allow : Bytes → Bytes → Bytes → GateOp Json
  revokes_pattern_allow : Bytes → Bytes → Bytes → GateOp Json
  revokes_temporary_allows : Bytes → GateOp Json
  erases_session_state : Bytes → GateOp Json
  sets_ask_callback : Option (AskCallback Json) → GateOp Json
  sets_ask_callback_ex : Option (AskCallbackEx Json) → GateOp Json

module _ {Json : Type 0} where
  unfoldable pub apply : GateOp Json → PermissionGate Json → PermissionGate Json
  apply (sets_rules rs) g = set_rules rs g
  apply (sets_session_rules s rs) g = set_session_rules s rs g
  apply (adds_allow s a r) g = add_allow s a r g
  apply (adds_exact_allow s a r) g = add_exact_allow s a r g
  apply (revokes_exact_allow s a r) g = (revoke_exact_allow s a r g).0
  apply (revokes_pattern_allow s a r) g = (revoke_pattern_allow s a r g).0
  apply (revokes_temporary_allows s) g = revoke_temporary_allows s g
  apply (erases_session_state s) g = erase_session_state s g
  apply (sets_ask_callback cb) g = set_ask_callback cb g
  apply (sets_ask_callback_ex cb) g = set_ask_callback_ex cb g

  -- The session that a call names, if it names one.
  abbrev pub session_of : GateOp Json → Option Bytes
  session_of (sets_rules rs) = none
  session_of (sets_session_rules s rs) = some s
  session_of (adds_allow s a r) = some s
  session_of (adds_exact_allow s a r) = some s
  session_of (revokes_exact_allow s a r) = some s
  session_of (revokes_pattern_allow s a r) = some s
  session_of (revokes_temporary_allows s) = some s
  session_of (erases_session_state s) = some s
  session_of (sets_ask_callback cb) = none
  session_of (sets_ask_callback_ex cb) = none
