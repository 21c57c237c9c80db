-- ===== src/Permission/Broker/Cancel.antt =====
-- `cancel_session` and `cancel_all`: who gets which outcome, and what `submit` does afterwards.
use hai_code.Base.{
  eq_iff, false, Bytes, ℕ, codes, ◌≡◌, refl, ap, ◌∙◌, Bool, true, not, ◌&&◌, Option, none, some,
  List, [], ◌∷◌, map, eq_refl, arith, Bool-cases, inl, inr, if◌then◌else◌,
}
use hai_code.Base.Map.{lookup, insert, lookup-insert}
use hai_code.Permission.Types.{deny}
use hai_code.Permission.Broker.{
  PermissionRequest, PermissionOutcome, Broker, Entry, notify, submit_start, cancel, cancelled,
  notify_all, of_session, cancel_session, cancel_all, resolved_with, denial, or_else,
}
use hai_code.Permission.Broker.{PermissionDecision, resolve}
use hai_code.Permission.Broker.Blocks.{resolve_resolved}
use hai_code.Permission.Broker.Operations.{BrokerOp, submit, deliver}

module _ {Json : Type 0} where
  -- The entry of a request after a cancellation.
  pub cancelled_entry : (Entry Json → Bool) → Bytes → Entry Json → Entry Json
  cancelled_entry test why e =
      if not e.resolved && test e
      then resolved_with (record e.outcome { effect = deny; reason = why }) e
      else e

  pub after : (Entry Json → Entry Json) → Option (Entry Json) → Option (Entry Json)
  after f none = none
  after f (some e) = some (f e)

  lookup-cancel :
      (test : Entry Json → Bool) (why id : Bytes) (m : List (Bytes × Entry Json))
      → lookup id (map (cancel test why) m) ≡ after (cancelled_entry test why) (lookup id m)
  unfolding cancel after cancelled_entry
  lookup-cancel test why id [] = refl
  lookup-cancel test why id ((j, e) ∷ m) = ground (arith, lookup-cancel test why id m)

  notify_all-state :
      (done : List (PermissionRequest Json × PermissionOutcome)) (b : Broker Json)
      → ((notify_all done b).pending ≡ b.pending)
        × ((notify_all done b).shutdown ≡ b.shutdown)
        × ((notify_all done b).blocked_sessions ≡ b.blocked_sessions)
  unfolding notify_all notify
  notify_all-state [] b = (refl, refl, refl)
  notify_all-state ((req, out) ∷ done) b = notify_all-state done (notify req out b)

  -- `cancel_session` denies, with its reason or `run interrupted`, exactly the requests of its
  -- session that have no outcome yet, and leaves every other request as it is.
  pub lookup-cancel_session :
      (s reason id : Bytes) (b : Broker Json)
      → lookup id (cancel_session s reason b).pending
        ≡ after
            (cancelled_entry (of_session s) (or_else reason (codes "run interrupted")))
            (lookup id b.pending)
  unfolding cancel_session
  lookup-cancel_session s reason id b =
      let why = or_else reason (codes "run interrupted") in
      let state = notify_all-state (cancelled (of_session s) why b.pending) (record b {
        blocked_sessions = insert s reason b.blocked_sessions;
        pending = map (cancel (of_session s) why) b.pending;
      }) in
      ap (lookup id) state.0 ∙ lookup-cancel (of_session s) why id b.pending

  -- `cancel_all` denies, with its reason or `shutting down`, exactly the requests that have no
  -- outcome yet, and leaves every other request as it is.
  pub lookup-cancel_all :
      (reason id : Bytes) (b : Broker Json)
      → lookup id (cancel_all reason b).pending
        ≡ after
            (cancelled_entry (λ _. true) (or_else reason (codes "shutting down")))
            (lookup id b.pending)
  unfolding cancel_all
  lookup-cancel_all reason id b =
      let why = or_else reason (codes "shutting down") in
      let state = notify_all-state (cancelled (λ _. true) why b.pending) (record b {
        shutdown = true;
        shutdown_reason = reason;
        pending = map (cancel (λ _. true) why) b.pending;
      }) in
      ap (lookup id) state.0 ∙ lookup-cancel (λ _. true) why id b.pending

  submit-blocked :
      (now : ℕ) (req : PermissionRequest Json) (others : List (BrokerOp Json)) (b : Broker Json)
      (reason : Bytes)
      → lookup req.session_id b.blocked_sessions ≡ some reason
      → (why : Bytes) × (submit now req others b ≡ (b, some (denial why)))
  unfolding submit submit_start deliver
  submit-blocked now req others b reason l = elim (Bool-cases b.shutdown) [
    | inl s ↦ (or_else b.shutdown_reason (codes "permission requests cancelled"), ground arith)
    | inr s ↦ (or_else reason (codes "run interrupted"), ground arith)
  ]

  -- Behind `cancel_session` a `submit` for the session is denied at once, and the broker stays as it
  -- is.
  pub submit-cancel_session :
      (now : ℕ) (req : PermissionRequest Json) (others : List (BrokerOp Json)) (b : Broker Json)
      (reason : Bytes)
      → (why : Bytes) × (submit now req others (cancel_session req.session_id reason b)
          ≡ (cancel_session req.session_id reason b, some (denial why)))
  unfolding cancel_session
  submit-cancel_session now req others b reason =
      let s = req.session_id in
      let why = or_else reason (codes "run interrupted") in
      let state = notify_all-state (cancelled (of_session s) why b.pending) (record b {
        blocked_sessions = insert s reason b.blocked_sessions;
        pending = map (cancel (of_session s) why) b.pending;
      }) in
      submit-blocked now req others (cancel_session s reason b) reason (
        ap (lookup s) state.2
        ∙ ground (arith, lookup-insert s s reason b.blocked_sessions, eq_refl s))

  cancelled_entry-resolved :
      (test : Entry Json → Bool) (why : Bytes) (e : Entry Json)
      → test e ≡ true
      → (cancelled_entry test why e).resolved ≡ true
  unfolding cancelled_entry resolved_with
  cancelled_entry-resolved test why e t = ground arith

  -- An answer to a request that `cancel_session` has cancelled comes too late: `resolve` returns
  -- false and leaves the state, with the gate in it, as it is.
  pub resolve-cancel_session :
      (s reason id : Bytes) (d : PermissionDecision) (b : Broker Json) (e : Entry Json)
      → lookup id b.pending ≡ some e
      → e.req.session_id ≡ s
      → resolve id d (cancel_session s reason b) ≡ (cancel_session s reason b, false)
  unfolding after of_session
  resolve-cancel_session s reason id d b e l same =
      let why = or_else reason (codes "run interrupted") in
      let stored = lookup-cancel_session s reason id b in
      resolve_resolved id d (cancel_session s reason b) (cancelled_entry (of_session s) why e)
        (stored ∙ ap (after (cancelled_entry (of_session s) why)) l)
        (cancelled_entry-resolved (of_session s) why e (ground (arith, eq_iff e.req.session_id s)))
