-- ===== src/Permission/Broker/Blocks.antt =====
-- What each block of the broker comes to, case by case.
use hai_code.Base.{
  Bytes, codes, ◌⊎◌, ◌≡◌, true, false, none, some, arith, Bool-cases, Option-cases, inl, inr,
}
use hai_code.Base.Map.{lookup, insert}
use hai_code.Permission.Broker.{
  PermissionDecision, PermissionRequest, Broker, Entry, notify, submit_undelivered, retire,
  submit_wait, resolve, grant, unavailable, resolved_with, user_outcome, denial,
}

module _ {Json : Type 0} where
  pub undelivered_cases :
      (req : PermissionRequest Json) (b : Broker Json)
      → (submit_undelivered req b ≡ notify req unavailable b)
        ⊎ (e : Entry Json) × (lookup req.id b.pending ≡ some e)
          × (submit_undelivered req b
              ≡ notify req unavailable
                  (record b { pending = insert req.id (resolved_with unavailable e) b.pending }))
  unfolding submit_undelivered
  undelivered_cases req b = elim (Option-cases (lookup req.id b.pending)) [
    | inl l ↦ inl (ground arith)
    | inr (e, l) ↦ elim (Bool-cases e.resolved) [
      | inl r ↦ inl (ground arith)
      | inr r ↦ inr (e, l, ground arith)
    ]
  ]

  pub wait_cases :
      (req : PermissionRequest Json) (b : Broker Json)
      → (((submit_wait req b).0 ≡ b)
          × (((submit_wait req b).1 ≡ none)
              ⊎ ((submit_wait req b).1 ≡ some (denial (codes "approval cancelled")))))
        ⊎ (e : Entry Json) × (lookup req.id b.pending ≡ some e)
          × ((submit_wait req b).0 ≡ notify req e.outcome (retire req.id b))
          × ((submit_wait req b).1 ≡ some e.outcome)
          × (e.resolved ≡ true)
  unfolding submit_wait
  wait_cases req b = elim (Option-cases (lookup req.id b.pending)) [
    | inl l ↦ inl (ground arith, inr (ground arith))
    | inr (e, l) ↦ elim (Bool-cases e.resolved) [
      | inl r ↦ inr (e, l, ground arith, ground arith, r)
      | inr r ↦ inl (ground arith, inl (ground arith))
    ]
  ]

  -- The state that `resolve` leaves for the waiter.
  unfoldable pub answered_state :
      Bytes → PermissionDecision → Entry Json → Broker Json → Broker Json
  answered_state id d e b = record b {
    gate = grant d e.req b.gate;
    pending = insert id (resolved_with (user_outcome d) e) b.pending;
  }

  pub resolve_cases :
      (id : Bytes) (d : PermissionDecision) (b : Broker Json)
      → ((resolve id d b).0 ≡ b) × ((resolve id d b).1 ≡ false)
        ⊎ (e : Entry Json) × (lookup id b.pending ≡ some e)
          × ((resolve id d b).0 ≡ notify e.req (user_outcome d) (answered_state id d e b))
          × ((resolve id d b).1 ≡ true)
          × (e.resolved ≡ false)
  unfolding resolve answered_state
  resolve_cases id d b = elim (Option-cases (lookup id b.pending)) [
    | inl l ↦ inl (ground arith, ground arith)
    | inr (e, l) ↦ elim (Bool-cases e.resolved) [
      | inl r ↦ inl (ground arith, ground arith)
      | inr r ↦ inr (e, l, ground arith, ground arith, r)
    ]
  ]

  pub resolve_resolved :
      (id : Bytes) (d : PermissionDecision) (b : Broker Json) (e : Entry Json)
      → lookup id b.pending ≡ some e
      → e.resolved ≡ true
      → resolve id d b ≡ (b, false)
  unfolding resolve
  resolve_resolved id d b e l r = ground arith

  pub wait_resolved :
      (req : PermissionRequest Json) (b : Broker Json) (e : Entry Json)
      → lookup req.id b.pending ≡ some e
      → e.resolved ≡ true
      → submit_wait req b ≡ (notify req e.outcome (retire req.id b), some e.outcome)
  unfolding submit_wait
  wait_resolved req b e l r = ground arith
