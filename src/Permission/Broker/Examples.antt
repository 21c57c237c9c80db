-- ===== src/Permission/Broker/Examples.antt =====
-- The theorems on `PermissionRequestBroker` at concrete inputs.
use hai_code.Base.{ℕ, ◌≡◌, refl, true, false, none, some, List, [], ◌∷◌, codes, eq}
use hai_code.Base.Map.{lookup, insert}
use hai_code.Permission.Types.{allow, deny}
use hai_code.Permission.Gate.{PermissionGate, exact_decision}
use hai_code.Permission.Gate
use hai_code.Permission.Broker.{
  allows_once, allows_for_session, PermissionRequest, Entry, Broker, submit_wait, resolve,
  user_outcome, resolved_with, waiting_entry, submit_start, register, with_id, request_id, hex,
  hex_digit, notify,
}
use hai_code.Permission.Broker.Operations.{
  BrokerOp, resolves, cancels_session, apply, apply_all, starts,
}
use hai_code.Permission.Broker.Waiting.{Quiet, MayWait, apply-Quiet}
use hai_code.Permission.Broker.Approval.{approved, submit_wait-approved}
use hai_code.Permission.Broker.Answers.{resolve-grants}

abbrev asked : PermissionRequest Unit
asked = record {
  id = codes "prq_1";
  session_id = codes "s1";
  call_id = codes "c1";
  tool_name = codes "bash";
  action = codes "bash";
  resource = codes "make";
  working_dir = codes "/srv";
  input = tt;
  created_ms = 7;
}

abbrev gate : PermissionGate Unit
gate = record {
  rules = [];
  session_rules = [];
  session_allows = [];
  exact_allows = [];
  ask_cb = none;
  ask_cb_ex = none;
}

abbrev idle : Broker Unit
idle = record {
  gate = some gate;
  pending = [];
  blocked_sessions = [];
  shutdown = false;
  shutdown_reason = [];
  deliver_fn = some (λ _. true);
  notifies = true;
  next_id = 1;
  notified = [];
}

abbrev entry : Entry Unit
entry = record {
  req = asked;
  resolved = false;
  outcome = record { effect = deny; reason = []; user_decided = false };
}

abbrev waiting : Broker Unit
waiting = record idle { pending = (codes "prq_1", entry) ∷ []; next_id = 2 }

waiting-Quiet : Quiet waiting
unfolding Quiet MayWait
waiting-Quiet = (λ _. (refl, refl), tt)

apply-Quiet_example : Quiet (apply (cancels_session (codes "s1") (codes "stop")) waiting)
apply-Quiet_example =
    apply-Quiet (cancels_session (codes "s1") (codes "stop")) waiting waiting-Quiet

-- The request starts, and the user allows it.
abbrev allowed : List (BrokerOp Unit)
allowed = starts 7 asked ∷ resolves (codes "prq_1") allows_once ∷ []

submit_wait-approved_example : approved allowed (codes "prq_1") ≡ true
unfolding apply_all apply submit_wait resolve submit_start register with_id waiting_entry notify
    request_id hex hex_digit insert eq resolved_with user_outcome
submit_wait-approved_example =
    submit_wait-approved allowed idle asked
      (record { effect = allow; reason = codes "allowed once by user"; user_decided = true }) refl
      refl refl

resolve-grants_example :
    (e : Entry Unit) × (g' : PermissionGate Unit) × (i : ℕ) × (lookup
        (codes "prq_1")
        waiting.pending
      ≡ some e)
    × (lookup (codes "prq_1") (resolve (codes "prq_1") allows_for_session waiting).0.pending
        ≡ some (resolved_with (user_outcome allows_for_session) e))
    × ((resolve (codes "prq_1") allows_for_session waiting).0.gate ≡ some g')
    × (Gate.evaluate eq e.req.session_id e.req.action e.req.resource g' ≡ exact_decision i)
unfolding resolve eq
resolve-grants_example = resolve-grants eq (codes "prq_1") waiting gate refl refl
