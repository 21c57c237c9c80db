-- ===== src/Permission/Broker/Waiting.antt =====
-- Who waits: no request that nobody will be asked about, and no cancelled one.
use hai_code.Base.{
  Bytes, ℕ, codes, ◌≡◌, refl, sym, subst, Bool, true, false, not, ◌&&◌, Option, none, List, [], ◌∷◌,
  map, eq_iff, All, arith, Bool-cases, Option-cases, inl, inr,
}
use hai_code.Base.Map.{lookup, insert, erase, lookup-insert, lookup-erase, All-insert, All-erase}
use hai_code.Permission.Types.{deny}
use hai_code.Permission.Broker.{
  PermissionDecision, PermissionRequest, PermissionOutcome, Broker, Entry, DeliverFn,
  set_delivery_callback, set_notify_callback, notify, register, submit_start, submit_undelivered,
  retire, submit_wait, resolve, grant, request_id, cancel_session, cancel_all, allow_submissions,
  reopen, unavailable, resolved_with, user_outcome, waiting_entry, cancel, cancelled, notify_all,
  of_session, with_id, or_else,
}
use hai_code.Permission.Broker.Operations.{
  BrokerOp, starts, fails, retires, waits, resolves, cancels_session, cancels_all,
  allows_submissions, reopens, sets_delivery, sets_notify, apply,
}
use hai_code.Permission.Broker.Blocks.{undelivered_cases, wait_cases, resolve_cases, answered_state}

module _ {Json : Type 0} where
  -- An entry that is not resolved is one of a session that is not blocked, and the broker is not
  -- shut down.
  unfoldable pub MayWait : Bool → List (Bytes × Bytes) → Bytes × Entry Json → Type 0
  MayWait shutdown blocked (id, e) =
      e.resolved ≡ false → (shutdown ≡ false) × (lookup e.req.session_id blocked ≡ none)

  unfoldable pub Quiet : Broker Json → Type 0
  unfolding MayWait
  Quiet b = All (MayWait b.shutdown b.blocked_sessions) b.pending

  cancel-MayWait :
      (shutdown down : Bool) (blocked now : List (Bytes × Bytes)) (test : Entry Json → Bool)
      (why : Bytes) (x : Bytes × Entry Json)
      → (test x.1 ≡ false → MayWait shutdown blocked x → MayWait down now x)
      → MayWait shutdown blocked x
      → MayWait down now (cancel test why x)
  unfolding cancel resolved_with MayWait
  cancel-MayWait shutdown down blocked now test why (id, e) keep a =
      elim (Bool-cases (not e.resolved && test e)) [
        | inl t ↦
            let out = record e.outcome { effect = deny; reason = why } in
            let same : cancel test why (id, e) ≡ (id, resolved_with out e) = ground arith in
            subst (MayWait down now) (sym same) (λ h. cc h)
        | inr t ↦
            let same : cancel test why (id, e) ≡ (id, e) = ground arith in
            subst (MayWait down now) (sym same) (λ h. keep (ground arith) a h)
      ]

  blocked-MayWait :
      (shutdown : Bool) (blocked : List (Bytes × Bytes)) (s raw : Bytes) (x : Bytes × Entry Json)
      → of_session s x.1 ≡ false
      → MayWait shutdown blocked x
      → MayWait shutdown (insert s raw blocked) x
  unfolding MayWait of_session
  blocked-MayWait shutdown blocked s raw (id, e) t a h =
      let (d, n) = a h in
      (
        d,
        ground (
          arith,
          lookup-insert s e.req.session_id raw blocked,
          eq_iff s e.req.session_id,
          eq_iff e.req.session_id s,
        ),
      )

  cancel_session-MayWait :
      (shutdown : Bool) (blocked : List (Bytes × Bytes)) (s raw why : Bytes)
      (m : List (Bytes × Entry Json))
      → All (MayWait shutdown blocked) m
      → All (MayWait shutdown (insert s raw blocked)) (map (cancel (of_session s) why) m)
  cancel_session-MayWait shutdown blocked s raw why [] a = tt
  cancel_session-MayWait shutdown blocked s raw why (x ∷ m) a = (
    cancel-MayWait shutdown shutdown blocked (insert s raw blocked) (of_session s) why x
        (blocked-MayWait shutdown blocked s raw x) a.0,
    cancel_session-MayWait shutdown blocked s raw why m a.1,
  )

  cancelled-MayWait :
      (shutdown down : Bool) (blocked now : List (Bytes × Bytes)) (why : Bytes)
      (m : List (Bytes × Entry Json))
      → All (MayWait shutdown blocked) m
      → All (MayWait down now) (map (cancel (λ _. true) why) m)
  cancelled-MayWait shutdown down blocked now why [] a = tt
  cancelled-MayWait shutdown down blocked now why (x ∷ m) a = (
    cancel-MayWait shutdown down blocked now (λ _. true) why x (λ t. absurd (cc t)) a.0,
    cancelled-MayWait shutdown down blocked now why m a.1,
  )

  All-mono :
      (P Q : Bytes × Entry Json → Type 0) (m : List (Bytes × Entry Json))
      → ((x : Bytes × Entry Json) → P x → Q x)
      → All P m
      → All Q m
  All-mono P Q [] f a = tt
  All-mono P Q (x ∷ m) f a = (f x a.0, All-mono P Q m f a.1)

  allow_submissions-MayWait :
      (shutdown : Bool) (blocked : List (Bytes × Bytes)) (s : Bytes) (x : Bytes × Entry Json)
      → MayWait shutdown blocked x
      → MayWait shutdown (erase s blocked) x
  unfolding MayWait
  allow_submissions-MayWait shutdown blocked s (id, e) a h =
      let (d, n) = a h in (d, ground (arith, lookup-erase s e.req.session_id blocked))

  reopen-MayWait :
      (shutdown : Bool) (blocked : List (Bytes × Bytes)) (x : Bytes × Entry Json)
      → MayWait shutdown blocked x
      → MayWait false [] x
  unfolding MayWait
  reopen-MayWait shutdown blocked (id, e) a h = (refl, refl)

  resolved-MayWait :
      (shutdown : Bool) (blocked : List (Bytes × Bytes)) (id : Bytes) (out : PermissionOutcome)
      (e : Entry Json)
      → MayWait shutdown blocked (id, resolved_with out e)
  unfolding MayWait resolved_with
  resolved-MayWait shutdown blocked id out e h = cc

  register-Quiet :
      (now : ℕ) (req : PermissionRequest Json) (b : Broker Json)
      → b.shutdown ≡ false
      → lookup req.session_id b.blocked_sessions ≡ none
      → Quiet b
      → Quiet (register now req b).0
  unfolding register Quiet waiting_entry MayWait with_id
  register-Quiet now req b s l q =
      let new = with_id (request_id b.next_id) now req in
      All-insert (MayWait b.shutdown b.blocked_sessions) new.id (waiting_entry new) b.pending
        (λ h. (s, l)) q

  submit_start-Quiet :
      (now : ℕ) (req : PermissionRequest Json) (b : Broker Json)
      → Quiet b
      → Quiet (submit_start now req b).0
  unfolding submit_start
  submit_start-Quiet now req b q = elim (Bool-cases b.shutdown) [
    | inl s ↦ let same : (submit_start now req b).0 ≡ b = ground arith in subst Quiet (sym same) q
    | inr s ↦ elim (Option-cases (lookup req.session_id b.blocked_sessions)) [
      | inr (reason, l) ↦
          let same : (submit_start now req b).0 ≡ b = ground arith in subst Quiet (sym same) q
      | inl l ↦
          let same : (submit_start now req b).0 ≡ (register now req b).0 = ground arith in
          subst Quiet (sym same) (register-Quiet now req b s l q)
    ]
  ]

  -- An entry that has an outcome is put in the place of one.
  settled-Quiet :
      (id : Bytes) (out : PermissionOutcome) (e : Entry Json) (b : Broker Json)
      → Quiet b
      → Quiet (record b { pending = insert id (resolved_with out e) b.pending })
  unfolding Quiet
  settled-Quiet id out e b q =
      All-insert (MayWait b.shutdown b.blocked_sessions) id (resolved_with out e) b.pending
        (resolved-MayWait b.shutdown b.blocked_sessions id out e) q

  notify-Quiet :
      (req : PermissionRequest Json) (out : PermissionOutcome) (b : Broker Json)
      → Quiet b
      → Quiet (notify req out b)
  unfolding notify Quiet
  notify-Quiet req out b q = q

  submit_undelivered-Quiet :
      (req : PermissionRequest Json) (b : Broker Json) → Quiet b → Quiet (submit_undelivered req b)
  submit_undelivered-Quiet req b q = elim (undelivered_cases req b) [
    | inl same ↦ subst Quiet (sym same) (notify-Quiet req unavailable b q)
    | inr (e, _, same) ↦ subst Quiet (sym same) (
        notify-Quiet req unavailable
          (record b { pending = insert req.id (resolved_with unavailable e) b.pending })
          (settled-Quiet req.id unavailable e b q))
  ]

  retire-Quiet : (id : Bytes) (b : Broker Json) → Quiet b → Quiet (retire id b)
  unfolding retire Quiet
  retire-Quiet id b q = All-erase (MayWait b.shutdown b.blocked_sessions) id b.pending q

  submit_wait-Quiet :
      (req : PermissionRequest Json) (b : Broker Json) → Quiet b → Quiet (submit_wait req b).0
  submit_wait-Quiet req b q = elim (wait_cases req b) [
    | inl (same, _) ↦ subst Quiet (sym same) q
    | inr (e, _, same, _, _) ↦
        subst Quiet (sym same)
          (notify-Quiet req e.outcome (retire req.id b) (retire-Quiet req.id b q))
  ]

  resolve-Quiet :
      (id : Bytes) (d : PermissionDecision) (b : Broker Json) → Quiet b → Quiet (resolve id d b).0
  unfolding answered_state Quiet
  resolve-Quiet id d b q = elim (resolve_cases id d b) [
    | inl (same, _) ↦ subst Quiet (sym same) q
    | inr (e, _, same, _, _) ↦ subst Quiet (sym same) (
        notify-Quiet e.req (user_outcome d) (answered_state id d e b)
          (settled-Quiet id (user_outcome d) e (record b { gate = grant d e.req b.gate }) q))
  ]

  allow_submissions-Quiet : (s : Bytes) (b : Broker Json) → Quiet b → Quiet (allow_submissions s b)
  unfolding allow_submissions Quiet
  allow_submissions-Quiet s b q =
      All-mono (MayWait b.shutdown b.blocked_sessions)
        (MayWait b.shutdown (erase s b.blocked_sessions)) b.pending
        (allow_submissions-MayWait b.shutdown b.blocked_sessions s) q

  reopen-Quiet : (b : Broker Json) → Quiet b → Quiet (reopen b)
  unfolding reopen Quiet
  reopen-Quiet b q =
      All-mono (MayWait b.shutdown b.blocked_sessions) (MayWait false []) b.pending
        (reopen-MayWait b.shutdown b.blocked_sessions) q

  set_callbacks-Quiet :
      (set : Bool) (fn : Option (DeliverFn Json)) (b : Broker Json)
      → Quiet b
      → Quiet (set_notify_callback set b) × Quiet (set_delivery_callback fn b)
  unfolding set_notify_callback set_delivery_callback Quiet
  set_callbacks-Quiet set fn b q = (q, q)

  notify_all-Quiet :
      (done : List (PermissionRequest Json × PermissionOutcome)) (b : Broker Json)
      → Quiet b
      → Quiet (notify_all done b)
  unfolding notify_all
  notify_all-Quiet [] b q = q
  notify_all-Quiet ((req, out) ∷ done) b q =
      notify_all-Quiet done (notify req out b) (notify-Quiet req out b q)

  cancel_session-Quiet :
      (s reason : Bytes) (b : Broker Json) → Quiet b → Quiet (cancel_session s reason b)
  unfolding cancel_session Quiet
  cancel_session-Quiet s reason b q =
      let why = or_else reason (codes "run interrupted") in
      notify_all-Quiet (cancelled (of_session s) why b.pending)
        (record b {
          blocked_sessions = insert s reason b.blocked_sessions;
          pending = map (cancel (of_session s) why) b.pending;
        })
        (cancel_session-MayWait b.shutdown b.blocked_sessions s reason why b.pending q)

  cancel_all-Quiet : (reason : Bytes) (b : Broker Json) → Quiet b → Quiet (cancel_all reason b)
  unfolding cancel_all Quiet
  cancel_all-Quiet reason b q =
      let why = or_else reason (codes "shutting down") in
      notify_all-Quiet (cancelled (λ _. true) why b.pending)
        (record b {
          shutdown = true;
          shutdown_reason = reason;
          pending = map (cancel (λ _. true) why) b.pending;
        })
        (cancelled-MayWait b.shutdown true b.blocked_sessions b.blocked_sessions why b.pending q)

  -- Every block of the broker's operations keeps this: a request that waits for an answer is one of
  -- a session that is not blocked, and then the broker is not shut down.
  pub apply-Quiet : (op : BrokerOp Json) (b : Broker Json) → Quiet b → Quiet (apply op b)
  unfolding apply
  apply-Quiet (starts now req) b q = submit_start-Quiet now req b q
  apply-Quiet (fails req) b q = submit_undelivered-Quiet req b q
  apply-Quiet (retires id) b q = retire-Quiet id b q
  apply-Quiet (waits req) b q = submit_wait-Quiet req b q
  apply-Quiet (resolves id d) b q = resolve-Quiet id d b q
  apply-Quiet (cancels_session s r) b q = cancel_session-Quiet s r b q
  apply-Quiet (cancels_all r) b q = cancel_all-Quiet r b q
  apply-Quiet (allows_submissions s) b q = allow_submissions-Quiet s b q
  apply-Quiet reopens b q = reopen-Quiet b q
  apply-Quiet (sets_delivery fn) b q = (set_callbacks-Quiet b.notifies fn b q).1
  apply-Quiet (sets_notify set) b q = (set_callbacks-Quiet set b.deliver_fn b q).0
