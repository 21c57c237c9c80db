-- ===== src/Permission/Broker/Answers.antt =====
-- `resolve`: an answer counts once, and a grant for the session is there before the waiter goes on.
use hai_code.Base.{
  Bytes, ℕ, ◌≡◌, refl, ap, ◌∙◌, Bool, true, false, Option, none, some, ◌∷◌, eq_refl, arith,
  Bool-cases, inl, inr,
}
use hai_code.Base.Map.{lookup, lookup-insert, lookup-erase}
use hai_code.Permission.Broker.{
  PermissionDecision, allows_for_session, PermissionRequest, PermissionOutcome, Broker, Entry,
  notify, retire, submit_wait, resolve, grant, resolved_with, user_outcome,
}
use hai_code.Permission.Broker.Blocks.{
  resolve_cases, answered_state, resolve_resolved, wait_resolved,
}
use hai_code.Permission.Gate.{PermissionGate, add_exact_allow, exact_decision}
use hai_code.Permission.Gate
use hai_code.Permission.Gate.Decisions.{evaluate-add_exact_allow}

module _ {Json : Type 0} where
  notify-pending :
      (req : PermissionRequest Json) (out : PermissionOutcome) (b : Broker Json)
      → ((notify req out b).pending ≡ b.pending) × ((notify req out b).gate ≡ b.gate)
  unfolding notify
  notify-pending req out b = (refl, refl)

  resolve-lookup :
      (id : Bytes) (d : PermissionDecision) (b : Broker Json)
      → (resolve id d b).1 ≡ true
      → (e : Entry Json) × (lookup id b.pending ≡ some e)
        × (e.resolved ≡ false)
        × (lookup id (resolve id d b).0.pending ≡ some (resolved_with (user_outcome d) e))
        × ((resolve id d b).0.gate ≡ grant d e.req b.gate)
  unfolding answered_state grant notify
  resolve-lookup id d b h = elim (resolve_cases id d b) [
    | inl (_, f) ↦ absurd (cc f)
    | inr (e, l, same, _, r) ↦ (
      e,
      l,
      r,
      ap (λ (x : Broker Json). lookup id x.pending) same
          ∙ ap (lookup id) (notify-pending e.req (user_outcome d) (answered_state id d e b)).0
          ∙ ground
              (arith, lookup-insert id id (resolved_with (user_outcome d) e) b.pending, eq_refl id),
      ap (λ (x : Broker Json). x.gate) same,
    )
  ]

  -- A request that has been answered is not answered again: whatever the second answer, `resolve`
  -- returns false and leaves the state as it is.
  pub resolve-once :
      (id : Bytes) (d again : PermissionDecision) (b : Broker Json)
      → (resolve id d b).1 ≡ true
      → resolve id again (resolve id d b).0 ≡ ((resolve id d b).0, false)
  unfolding resolved_with
  resolve-once id d again b h =
      let (e, _, _, l, _) = resolve-lookup id d b h in
      resolve_resolved id again (resolve id d b).0 (resolved_with (user_outcome d) e) l refl

  resolve-submit_wait :
      (req : PermissionRequest Json) (d : PermissionDecision) (b : Broker Json)
      → (resolve req.id d b).1 ≡ true
      → submit_wait req (resolve req.id d b).0 ≡ (
        notify req (user_outcome d) (retire req.id (resolve req.id d b).0),
        some (user_outcome d),
      )
  unfolding resolved_with
  resolve-submit_wait req d b h =
      let (e, _, _, l, _) = resolve-lookup req.id d b h in
      wait_resolved req (resolve req.id d b).0 (resolved_with (user_outcome d) e) l refl

  -- The outcome of an answer that `resolve` takes is what the wait of the request returns next, and
  -- the request is then no longer stored.
  pub resolve-wait :
      (req : PermissionRequest Json) (d : PermissionDecision) (b : Broker Json)
      → (resolve req.id d b).1 ≡ true
      → ((submit_wait req (resolve req.id d b).0).1 ≡ some (user_outcome d))
        × (lookup req.id (submit_wait req (resolve req.id d b).0).0.pending ≡ none)
  unfolding retire notify
  resolve-wait req d b h =
      let same = resolve-submit_wait req d b h in
      (
        ap (λ (x : Broker Json × Option PermissionOutcome). x.1) same,
        ap (λ (x : Broker Json × Option PermissionOutcome). lookup req.id x.0.pending) same
            ∙ ground
                (arith, lookup-erase req.id req.id (resolve req.id d b).0.pending, eq_refl req.id),
      )

  resolve-notified :
      (id : Bytes) (d : PermissionDecision) (b : Broker Json) (e : Entry Json)
      → (resolve id d b).1 ≡ true
      → lookup id b.pending ≡ some e
      → b.notifies ≡ true
      → ((resolve id d b).0.notified ≡ (e.req, user_outcome d) ∷ b.notified)
        × ((resolve id d b).0.notifies ≡ true)
  unfolding resolve notify
  resolve-notified id d b e h l n = elim (Bool-cases e.resolved) [
    | inl r ↦ absurd (ground arith)
    | inr r ↦ (ground arith, ground arith)
  ]

  -- With a notify callback, an answered request is notified of twice with the same outcome: by
  -- `resolve`, with the request that is stored, and by the waiting `submit`, with its own copy.
  pub resolve-wait-notified :
      (req : PermissionRequest Json) (d : PermissionDecision) (b : Broker Json) (e : Entry Json)
      → (resolve req.id d b).1 ≡ true
      → lookup req.id b.pending ≡ some e
      → b.notifies ≡ true
      → (submit_wait req (resolve req.id d b).0).0.notified
        ≡ (req, user_outcome d) ∷ (e.req, user_outcome d) ∷ b.notified
  unfolding notify retire
  resolve-wait-notified req d b e h l n =
      let (log, on) = resolve-notified req.id d b e h l n in
      ap (λ (x : Broker Json × Option PermissionOutcome). x.0.notified)
        (resolve-submit_wait req d b h)
      ∙ rw (on, log) refl

  -- An answer for the session installs its grant in the block that wakes the waiter: behind it the
  -- gate decides Allow of the request's session, action and resource, by an exact grant.
  pub resolve-grants :
      (fnmatch : Bytes → Bytes → Bool) (id : Bytes) (b : Broker Json) (g : PermissionGate Json)
      → (resolve id allows_for_session b).1 ≡ true
      → b.gate ≡ some g
      → (e : Entry Json) × (g' : PermissionGate Json) × (i : ℕ) × (lookup id b.pending ≡ some e)
        × (lookup id (resolve id allows_for_session b).0.pending
            ≡ some (resolved_with (user_outcome allows_for_session) e))
        × ((resolve id allows_for_session b).0.gate ≡ some g')
        × (Gate.evaluate fnmatch e.req.session_id e.req.action e.req.resource g' ≡ exact_decision i)
  unfolding grant
  resolve-grants fnmatch id b g h s =
      let (e, l, _, after, same) = resolve-lookup id allows_for_session b h in
      let (i, decided) =
        evaluate-add_exact_allow fnmatch e.req.session_id e.req.action e.req.resource g in
      (
        e,
        add_exact_allow e.req.session_id e.req.action e.req.resource g,
        i,
        l,
        after,
        same ∙ ap (grant allows_for_session e.req) s,
        decided,
      )
