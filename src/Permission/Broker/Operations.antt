-- ===== src/Permission/Broker/Operations.antt =====
-- The blocks of the broker as one type, and `submit` with what other threads do between its blocks.
use hai_code.Base.{Bytes, ℕ, Bool, Option, none, some, List, [], ◌∷◌}
use hai_code.Permission.Broker.{
  PermissionDecision, PermissionRequest, PermissionOutcome, Broker, DeliverFn, Entered, answered,
  registered, set_delivery_callback, set_notify_callback, submit_start, submit_undelivered, retire,
  submit_wait, resolve, cancel_session, cancel_all, allow_submissions, reopen, unavailable,
}

pub data BrokerOp (Json : Type 0) : Type 0 where
  starts : ℕ → PermissionRequest Json → BrokerOp Json
  fails : PermissionRequest Json → BrokerOp Json
  retires : Bytes → BrokerOp Json
  waits : PermissionRequest Json → BrokerOp Json
  resolves : Bytes → PermissionDecision → BrokerOp Json
  cancels_session : Bytes → Bytes → BrokerOp Json
  cancels_all : Bytes → BrokerOp Json
  allows_submissions : Bytes → BrokerOp Json
  reopens : BrokerOp Json
  sets_delivery : Option (DeliverFn Json) → BrokerOp Json
  sets_notify : Bool → BrokerOp Json

module _ {Json : Type 0} where
  unfoldable pub apply : BrokerOp Json → Broker Json → Broker Json
  apply (starts now req) b = (submit_start now req b).0
  apply (fails req) b = submit_undelivered req b
  apply (retires id) b = retire id b
  apply (waits req) b = (submit_wait req b).0
  apply (resolves id d) b = (resolve id d b).0
  apply (cancels_session s r) b = cancel_session s r b
  apply (cancels_all r) b = cancel_all r b
  apply (allows_submissions s) b = allow_submissions s b
  apply reopens b = reopen b
  apply (sets_delivery fn) b = set_delivery_callback fn b
  apply (sets_notify set) b = set_notify_callback set b

  -- The first of a list happens first.
  unfoldable pub apply_all : List (BrokerOp Json) → Broker Json → Broker Json
  apply_all [] b = b
  apply_all (op ∷ ops) b = apply_all ops (apply op b)

  pub delivers : Option (DeliverFn Json) → PermissionRequest Json → Bool
  delivers none req = Bool.false
  delivers (some f) req = f req

  unfoldable pub deliver :
      List (BrokerOp Json) → Broker Json × Entered Json → Broker Json × Option PermissionOutcome
  unfolding delivers
  deliver others (b, answered out) = (b, some out)
  deliver others (b, registered req fn) = elim (delivers fn req) [
    | Bool.false ↦ (retire req.id (apply_all others (submit_undelivered req b)), some unavailable)
    | Bool.true ↦ submit_wait req (apply_all others b)
  ]

  -- One thread's `submit`, where the others take the steps `others` between its first block and its
  -- last. No outcome: it still waits.
  unfoldable pub submit :
      ℕ
      → PermissionRequest Json
      → List (BrokerOp Json)
      → Broker Json
      → Broker Json × Option PermissionOutcome
  unfolding deliver
  submit now req others b = deliver others (submit_start now req b)
