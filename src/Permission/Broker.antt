-- ===== src/Permission/Broker.antt =====
-- `PermissionRequestBroker` of lib/src/permission/permission_requests.cpp: the approvals that engine
-- workers wait for. The code locks one mutex per block, so a block is a function of the state, and
-- `submit` is its blocks with what the other threads do between them. A notification, which the code
-- sends behind a block with the mutex released, counts as sent in that block.
pub mod Operations
pub mod Blocks
pub mod Waiting
pub mod Approval
pub mod Answers
pub mod Cancel
mod Examples
use hai_code.Base.{
  Bytes, ℕ, zero, suc, ◌+◌, ◌*◌, ◌/◌, ◌%◌, ◌≡◌, Bool, true, false, not, ◌&&◌, ◌||◌, Option, none,
  some, List, [], ◌∷◌, ◌++◌, codes, eq, length, ltb, if◌then◌else◌, map,
}
use hai_code.Base.Map.{lookup, insert, erase}
use hai_code.Permission.Types.{PermissionEffect, allow, deny, ask}
use hai_code.Permission.Path.{is_empty}
use hai_code.Permission.Gate.{PermissionGate, add_exact_allow}

pub data PermissionDecision : Type 0 where
  denies allows_once allows_for_session : PermissionDecision

pub record PermissionRequest (Json : Type 0) : Type 0 where
  pub id : Bytes
  pub session_id : Bytes
  pub call_id : Bytes
  pub tool_name : Bytes
  pub action : Bytes
  pub resource : Bytes
  pub working_dir : Bytes
  pub input : Json
  pub created_ms : ℕ

pub record PermissionOutcome : Type 0 where
  pub effect : PermissionEffect
  pub reason : Bytes
  pub user_decided : Bool

pub record Entry (Json : Type 0) : Type 0 where
  pub req : PermissionRequest Json
  pub resolved : Bool
  pub outcome : PermissionOutcome

abbrev pub DeliverFn : Type 0 → Type 0
DeliverFn Json = PermissionRequest Json → Bool

-- `notified` is what the notify callback has been called with, the last call first; there is a
-- callback where `notifies` is set. `gate` is the object that `gate_` points to, if it is not null.
pub record Broker (Json : Type 0) : Type 0 where
  pub gate : Option (PermissionGate Json)
  pub pending : List (Bytes × Entry Json)
  pub blocked_sessions : List (Bytes × Bytes)
  pub shutdown : Bool
  pub shutdown_reason : Bytes
  pub deliver_fn : Option (DeliverFn Json)
  pub notifies : Bool
  pub next_id : ℕ
  pub notified : List (PermissionRequest Json × PermissionOutcome)

-- `%llx`: a 64-bit number has at most 16 digits.
hex_digit : ℕ → ℕ
hex_digit d = if ltb d 10 then 48 + d else 87 + d

hex : ℕ → ℕ → Bytes
unfolding hex_digit
hex zero n = []
hex (suc fuel) n =
    let rest = hex fuel (n / 16) in
    if ltb n 16 then hex_digit n ∷ [] else rest ++ hex_digit (n % 16) ∷ []

pub request_id : ℕ → Bytes
unfolding hex
request_id n = codes "prq_" ++ hex 16 n

pub denial : Bytes → PermissionOutcome
denial reason = record { effect = deny; reason = reason; user_decided = false }

pub unavailable : PermissionOutcome
unavailable = denial (codes "approval window unavailable")

pub or_else : Bytes → Bytes → Bytes
or_else reason default = if is_empty reason then default else reason

-- What the first block of `submit` comes to: an answer at once, or a request to deliver.
pub data Entered (Json : Type 0) : Type 0 where
  answered : PermissionOutcome → Entered Json
  registered : PermissionRequest Json → Option (DeliverFn Json) → Entered Json

pub user_outcome : PermissionDecision → PermissionOutcome
user_outcome allows_once = record {
  effect = allow;
  reason = codes "allowed once by user";
  user_decided = true;
}
user_outcome allows_for_session = record {
  effect = allow;
  reason = codes "allowed for this session by user";
  user_decided = true;
}
user_outcome denies = record { effect = deny; reason = codes "denied by user"; user_decided = true }

module _ {Json : Type 0} where
  pub set_delivery_callback : Option (DeliverFn Json) → Broker Json → Broker Json
  set_delivery_callback fn b = record b { deliver_fn = fn }

  pub set_notify_callback : Bool → Broker Json → Broker Json
  set_notify_callback set b = record b { notifies = set }

  -- A call of the notify callback, if there is one.
  pub notify : PermissionRequest Json → PermissionOutcome → Broker Json → Broker Json
  notify req out b = record b {
    notified = if b.notifies then (req, out) ∷ b.notified else b.notified;
  }

  pub with_id : Bytes → ℕ → PermissionRequest Json → PermissionRequest Json
  with_id id now req = record req { id = id; created_ms = now }

  pub waiting_entry : PermissionRequest Json → Entry Json
  waiting_entry req = record { req = req; resolved = false; outcome = denial [] }

  -- `next_id_` is a `uint64_t`.
  pub register : ℕ → PermissionRequest Json → Broker Json → Broker Json × Entered Json
  unfolding waiting_entry
  register now req b =
      let req = with_id (request_id b.next_id) now req in
      (
        record b {
          next_id = (b.next_id + 1) % 18446744073709551616;
          pending = insert req.id (waiting_entry req) b.pending;
        },
        registered req b.deliver_fn,
      )

  pub submit_start : ℕ → PermissionRequest Json → Broker Json → Broker Json × Entered Json
  unfolding register
  submit_start now req b =
      if b.shutdown
      then (
        b,
        answered (denial (or_else b.shutdown_reason (codes "permission requests cancelled"))),
      )
      else elim (lookup req.session_id b.blocked_sessions) [
        | some reason ↦ (b, answered (denial (or_else reason (codes "run interrupted"))))
        | none ↦ register now req b
      ]

  pub resolved_with : PermissionOutcome → Entry Json → Entry Json
  resolved_with out e = record e { resolved = true; outcome = out }

  -- The first block after a failed delivery, and its notification.
  pub submit_undelivered : PermissionRequest Json → Broker Json → Broker Json
  unfolding resolved_with unavailable
  submit_undelivered req b = notify req unavailable (elim (lookup req.id b.pending) [
    | none ↦ b
    | some e ↦
        if e.resolved
        then b
        else record b { pending = insert req.id (resolved_with unavailable e) b.pending }
  ])

  pub retire : Bytes → Broker Json → Broker Json
  retire id b = record b { pending = erase id b.pending }

  -- The last block: none where the wait goes on, else the outcome, of which it notifies.
  pub submit_wait : PermissionRequest Json → Broker Json → Broker Json × Option PermissionOutcome
  unfolding retire
  submit_wait req b = elim (lookup req.id b.pending) [
    | none ↦ (b, some (denial (codes "approval cancelled")))
    | some e ↦
        if e.resolved then (notify req e.outcome (retire req.id b), some e.outcome) else (b, none)
  ]

  pub grant :
      PermissionDecision
      → PermissionRequest Json
      → Option (PermissionGate Json)
      → Option (PermissionGate Json)
  grant allows_for_session req (some g) =
      some (add_exact_allow req.session_id req.action req.resource g)
  grant _ req g = g

  pub resolve : Bytes → PermissionDecision → Broker Json → Broker Json × Bool
  unfolding user_outcome resolved_with notify grant
  resolve request_id decision b = elim (lookup request_id b.pending) [
    | none ↦ (b, false)
    | some e ↦ if e.resolved then (b, false) else (
      notify e.req (user_outcome decision) (record b {
        gate = grant decision e.req b.gate;
        pending = insert request_id (resolved_with (user_outcome decision) e) b.pending;
      }),
      true,
    )
  ]

  -- A loop that cancels what is not resolved and passes a test. It keeps an outcome's `user_decided`.
  pub cancel : (Entry Json → Bool) → Bytes → Bytes × Entry Json → Bytes × Entry Json
  cancel test reason (id, e) =
      if not e.resolved && test e
      then (id, resolved_with (record e.outcome { effect = deny; reason = reason }) e)
      else (id, e)

  -- What the loop notifies of, in the order of the calls.
  cancelled :
      (Entry Json → Bool)
      → Bytes
      → List (Bytes × Entry Json)
      → List (PermissionRequest Json × PermissionOutcome)
  cancelled test reason [] = []
  cancelled test reason ((id, e) ∷ m) =
      if not e.resolved && test e
      then (e.req, record e.outcome { effect = deny; reason = reason }) ∷ cancelled test reason m
      else cancelled test reason m

  notify_all : List (PermissionRequest Json × PermissionOutcome) → Broker Json → Broker Json
  unfolding notify
  notify_all [] b = b
  notify_all ((req, out) ∷ done) b = notify_all done (notify req out b)

  pub of_session : Bytes → Entry Json → Bool
  of_session session_id e = eq e.req.session_id session_id

  pub cancel_session : Bytes → Bytes → Broker Json → Broker Json
  unfolding cancel of_session
  cancel_session session_id reason b =
      let why = or_else reason (codes "run interrupted") in
      notify_all (cancelled (of_session session_id) why b.pending) (record b {
        blocked_sessions = insert session_id reason b.blocked_sessions;
        pending = map (cancel (of_session session_id) why) b.pending;
      })

  pub cancel_all : Bytes → Broker Json → Broker Json
  unfolding cancel
  cancel_all reason b =
      let why = or_else reason (codes "shutting down") in
      notify_all (cancelled (λ _. true) why b.pending) (record b {
        shutdown = true;
        shutdown_reason = reason;
        pending = map (cancel (λ _. true) why) b.pending;
      })

  pub allow_submissions : Bytes → Broker Json → Broker Json
  allow_submissions session_id b = record b {
    blocked_sessions = erase session_id b.blocked_sessions;
  }

  pub reopen : Broker Json → Broker Json
  reopen b = record b { shutdown = false; shutdown_reason = []; blocked_sessions = [] }

  unresolved : List (Bytes × Entry Json) → List (PermissionRequest Json)
  unresolved [] = []
  unresolved ((id, e) ∷ m) = let rest = unresolved m in if e.resolved then rest else e.req ∷ rest

  pub pending_requests : Broker Json → List (PermissionRequest Json)
  unfolding unresolved
  pending_requests b = unresolved b.pending

  count : List (Bytes × Entry Json) → ℕ
  count [] = 0
  count ((id, e) ∷ m) = let rest = count m in if e.resolved then rest else suc rest

  pub pending_count : Broker Json → ℕ
  unfolding count
  pending_count b = count b.pending
