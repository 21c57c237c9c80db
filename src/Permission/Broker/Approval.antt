-- ===== src/Permission/Broker/Approval.antt =====
-- Nothing but the user's answer approves a request.
use hai_code.Base.{
  Bytes, ℕ, subst, ◌≢◌, codes, ◌≡◌, refl, sym, ◌∙◌, subst, Bool, true, false, not, ◌&&◌, ◌||◌, some,
  List, [], ◌∷◌, map, eq, eq_iff, eq_refl, All, arith, Bool-cases, Option-cases, inl, inr,
}
use hai_code.Base.Map.{lookup, insert, All-insert, All-erase}
use hai_code.Permission.Types.{allow, deny}
use hai_code.Permission.Broker.{
  PermissionDecision, allows_once, allows_for_session, denies, PermissionRequest, PermissionOutcome,
  Broker, Entry, set_delivery_callback, set_notify_callback, notify, register, submit_start,
  submit_undelivered, retire, submit_wait, resolve, request_id, denial, cancel_session, cancel_all,
  allow_submissions, reopen, unavailable, resolved_with, user_outcome, denial, waiting_entry,
  cancel, cancelled, notify_all, of_session, with_id, or_else,
}
use hai_code.Permission.Broker.Operations.{
  BrokerOp, starts, fails, retires, waits, resolves, cancels_session, cancels_all,
  allows_submissions, reopens, sets_delivery, sets_notify, apply, apply_all,
}
use hai_code.Permission.Broker.Blocks.{undelivered_cases, wait_cases, resolve_cases, answered_state}
use hai_code.Permission.Broker.Operations.{
  BrokerOp, starts, fails, retires, waits, resolves, cancels_session, cancels_all,
  allows_submissions, reopens, sets_delivery, sets_notify, apply, apply_all,
}

denial-allow :
    (out : PermissionOutcome) (reason : Bytes)
    → some (denial reason) ≡ some out
    → out.effect ≢ allow
unfolding denial
denial-allow out reason h k = cc (h, k)

module _ {Json : Type 0} where
  -- The user allows the request of an id.
  pub approves : BrokerOp Json → Bytes → Bool
  approves (resolves j allows_once) id = eq j id
  approves (resolves j allows_for_session) id = eq j id
  approves _ id = false

  pub approved : List (BrokerOp Json) → Bytes → Bool
  approved [] id = false
  approved (op ∷ ops) id = approves op id || approved ops id

  -- An outcome that allows is backed by the calls `h`.
  BackedEntry : List (BrokerOp Json) → Bytes × Entry Json → Type 0
  BackedEntry h (id, e) = e.outcome.effect ≡ allow → approved h id ≡ true

  Backed : List (BrokerOp Json) → Broker Json → Type 0
  Backed h b = All (BackedEntry h) b.pending

  All-lookup :
      (P : Bytes × Entry Json → Type 0) (k : Bytes) (m : List (Bytes × Entry Json)) (e : Entry Json)
      → All P m
      → lookup k m ≡ some e
      → P (k, e)
  All-lookup P k [] e a h = cc
  All-lookup P k ((j, f) ∷ m) e a h = elim (Bool-cases (eq j k)) [
    | inl q ↦ subst P (ground (arith, eq_iff j k)) a.0
    | inr q ↦ All-lookup P k m e a.1 (ground arith)
  ]

  All-mono :
      (P Q : Bytes × Entry Json → Type 0) (m : List (Bytes × Entry Json))
      → ((x : Bytes × Entry Json) → P x → Q x)
      → All P m
      → All Q m
  All-mono P Q [] f a = tt
  All-mono P Q (x ∷ m) f a = (f x a.0, All-mono P Q m f a.1)

  BackedEntry-cons :
      (op : BrokerOp Json) (h : List (BrokerOp Json)) (x : Bytes × Entry Json)
      → BackedEntry h x
      → BackedEntry (op ∷ h) x
  unfolding BackedEntry approved
  BackedEntry-cons op h (id, e) a k = ground (arith, a k)

  Backed-cons :
      (op : BrokerOp Json) (h : List (BrokerOp Json)) (b : Broker Json)
      → Backed h b
      → Backed (op ∷ h) b
  unfolding Backed
  Backed-cons op h b a =
      All-mono (BackedEntry h) (BackedEntry (op ∷ h)) b.pending (BackedEntry-cons op h) a

  cancel-Backed :
      (h : List (BrokerOp Json)) (test : Entry Json → Bool) (why : Bytes)
      (m : List (Bytes × Entry Json))
      → All (BackedEntry h) m
      → All (BackedEntry h) (map (cancel test why) m)
  unfolding cancel resolved_with BackedEntry
  cancel-Backed h test why [] a = tt
  cancel-Backed h test why ((id, e) ∷ m) a = (
    elim (Bool-cases (not e.resolved && test e)) [
      | inl t ↦
          let out = record e.outcome { effect = deny; reason = why } in
          let same : cancel test why (id, e) ≡ (id, resolved_with out e) = ground arith in
          subst (BackedEntry h) (sym same) (λ k. cc k)
      | inr t ↦
          let same : cancel test why (id, e) ≡ (id, e) = ground arith in
          subst (BackedEntry h) (sym same) a.0
    ],
    cancel-Backed h test why m a.1,
  )

  notify-Backed :
      (h : List (BrokerOp Json)) (req : PermissionRequest Json) (out : PermissionOutcome)
      (b : Broker Json)
      → Backed h b
      → Backed h (notify req out b)
  unfolding notify Backed
  notify-Backed h req out b a = a

  notify_all-Backed :
      (h : List (BrokerOp Json)) (done : List (PermissionRequest Json × PermissionOutcome))
      (b : Broker Json)
      → Backed h b
      → Backed h (notify_all done b)
  unfolding notify_all
  notify_all-Backed h [] b a = a
  notify_all-Backed h ((req, out) ∷ done) b a =
      notify_all-Backed h done (notify req out b) (notify-Backed h req out b a)

  insert-Backed :
      (h : List (BrokerOp Json)) (id : Bytes) (e : Entry Json) (b : Broker Json)
      → BackedEntry h (id, e)
      → Backed h b
      → Backed h (record b { pending = insert id e b.pending })
  unfolding Backed
  insert-Backed h id e b k a = All-insert (BackedEntry h) id e b.pending k a

  register-Backed :
      (h : List (BrokerOp Json)) (now : ℕ) (req : PermissionRequest Json) (b : Broker Json)
      → Backed h b
      → Backed h (register now req b).0
  unfolding register Backed waiting_entry BackedEntry denial
  register-Backed h now req b a =
      let new = with_id (request_id b.next_id) now req in
      All-insert (BackedEntry h) new.id (waiting_entry new) b.pending (λ k. cc k) a

  starts-Backed :
      (h : List (BrokerOp Json)) (now : ℕ) (req : PermissionRequest Json) (b : Broker Json)
      → Backed h b
      → Backed h (submit_start now req b).0
  unfolding submit_start
  starts-Backed h now req b a = elim (Bool-cases b.shutdown) [
    | inl s ↦
        let same : (submit_start now req b).0 ≡ b = ground arith in subst (Backed h) (sym same) a
    | inr s ↦ elim (Option-cases (lookup req.session_id b.blocked_sessions)) [
      | inr (reason, l) ↦
          let same : (submit_start now req b).0 ≡ b = ground arith in subst (Backed h) (sym same) a
      | inl l ↦
          let same : (submit_start now req b).0 ≡ (register now req b).0 = ground arith in
          subst (Backed h) (sym same) (register-Backed h now req b a)
    ]
  ]

  user_outcome-BackedEntry :
      (h : List (BrokerOp Json)) (id : Bytes) (d : PermissionDecision) (e : Entry Json)
      → BackedEntry (resolves id d ∷ h) (id, resolved_with (user_outcome d) e)
  unfolding BackedEntry resolved_with user_outcome approved approves
  user_outcome-BackedEntry h id allows_once e k = ground (arith, eq_refl id)
  user_outcome-BackedEntry h id allows_for_session e k = ground (arith, eq_refl id)
  user_outcome-BackedEntry h id denies e k = cc k

  resolves-Backed :
      (h : List (BrokerOp Json)) (id : Bytes) (d : PermissionDecision) (b : Broker Json)
      → Backed h b
      → Backed (resolves id d ∷ h) (resolve id d b).0
  unfolding answered_state Backed
  resolves-Backed h id d b a =
      let now = resolves id d ∷ h in
      elim (resolve_cases id d b) [
        | inl (same, _) ↦ subst (Backed now) (sym same) (Backed-cons (resolves id d) h b a)
        | inr (e, _, same, _, _) ↦ subst (Backed now) (sym same) (
            notify-Backed now e.req (user_outcome d) (answered_state id d e b) (
              insert-Backed now id (resolved_with (user_outcome d) e) b
                (user_outcome-BackedEntry h id d e) (Backed-cons (resolves id d) h b a)))
      ]

  fails-Backed :
      (h : List (BrokerOp Json)) (req : PermissionRequest Json) (b : Broker Json)
      → Backed h b
      → Backed h (submit_undelivered req b)
  unfolding BackedEntry resolved_with unavailable denial
  fails-Backed h req b a = elim (undelivered_cases req b) [
    | inl same ↦ subst (Backed h) (sym same) (notify-Backed h req unavailable b a)
    | inr (e, _, same) ↦
        let out = resolved_with unavailable e in
        subst (Backed h) (sym same) (
          notify-Backed h req unavailable (record b { pending = insert req.id out b.pending })
            (insert-Backed h req.id out b (λ k. cc k) a))
  ]

  retires-Backed :
      (h : List (BrokerOp Json)) (id : Bytes) (b : Broker Json)
      → Backed h b
      → Backed h (retire id b)
  unfolding retire Backed
  retires-Backed h id b a = All-erase (BackedEntry h) id b.pending a

  waits-Backed :
      (h : List (BrokerOp Json)) (req : PermissionRequest Json) (b : Broker Json)
      → Backed h b
      → Backed h (submit_wait req b).0
  waits-Backed h req b a = elim (wait_cases req b) [
    | inl (same, _) ↦ subst (Backed h) (sym same) a
    | inr (e, _, same, _, _) ↦
        subst (Backed h) (sym same)
          (notify-Backed h req e.outcome (retire req.id b) (retires-Backed h req.id b a))
  ]

  cancels-Backed :
      (h : List (BrokerOp Json)) (b : Broker Json) (s reason : Bytes)
      → Backed h b
      → Backed h (cancel_session s reason b) × Backed h (cancel_all reason b)
  unfolding cancel_session cancel_all Backed
  cancels-Backed h b s reason a =
      let blocked = or_else reason (codes "run interrupted") in
      let down = or_else reason (codes "shutting down") in
      (
        notify_all-Backed h (cancelled (of_session s) blocked b.pending)
            (record b {
              blocked_sessions = insert s reason b.blocked_sessions;
              pending = map (cancel (of_session s) blocked) b.pending;
            })
            (cancel-Backed h (of_session s) blocked b.pending a),
        notify_all-Backed h (cancelled (λ _. true) down b.pending)
            (record b {
              shutdown = true;
              shutdown_reason = reason;
              pending = map (cancel (λ _. true) down) b.pending;
            })
            (cancel-Backed h (λ _. true) down b.pending a),
      )

  apply-Backed :
      (op : BrokerOp Json) (h : List (BrokerOp Json)) (b : Broker Json)
      → Backed h b
      → Backed (op ∷ h) (apply op b)
  unfolding apply allow_submissions reopen set_notify_callback set_delivery_callback Backed
  apply-Backed (starts now req) h b a =
      Backed-cons (starts now req) h (submit_start now req b).0 (starts-Backed h now req b a)
  apply-Backed (fails req) h b a =
      Backed-cons (fails req) h (submit_undelivered req b) (fails-Backed h req b a)
  apply-Backed (retires id) h b a =
      Backed-cons (retires id) h (retire id b) (retires-Backed h id b a)
  apply-Backed (waits req) h b a =
      Backed-cons (waits req) h (submit_wait req b).0 (waits-Backed h req b a)
  apply-Backed (resolves id d) h b a = resolves-Backed h id d b a
  apply-Backed (cancels_session s r) h b a =
      Backed-cons (cancels_session s r) h (cancel_session s r b) (cancels-Backed h b s r a).0
  apply-Backed (cancels_all r) h b a =
      Backed-cons (cancels_all r) h (cancel_all r b) (cancels-Backed h b [] r a).1
  apply-Backed (allows_submissions s) h b a = Backed-cons (allows_submissions s) h b a
  apply-Backed reopens h b a = Backed-cons reopens h b a
  apply-Backed (sets_delivery fn) h b a = Backed-cons (sets_delivery fn) h b a
  apply-Backed (sets_notify set) h b a = Backed-cons (sets_notify set) h b a

  -- The calls `ops` behind the calls `h`, the last call first.
  past : List (BrokerOp Json) → List (BrokerOp Json) → List (BrokerOp Json)
  past [] h = h
  past (op ∷ ops) h = past ops (op ∷ h)

  approved-past :
      (ops h : List (BrokerOp Json)) (id : Bytes)
      → approved (past ops h) id ≡ (approved ops id || approved h id)
  unfolding past approved
  approved-past [] h id = refl
  approved-past (op ∷ ops) h id = ground (arith, approved-past ops (op ∷ h) id)

  apply_all-Backed :
      (ops h : List (BrokerOp Json)) (b : Broker Json)
      → Backed h b
      → Backed (past ops h) (apply_all ops b)
  unfolding past apply_all
  apply_all-Backed [] h b a = a
  apply_all-Backed (op ∷ ops) h b a =
      apply_all-Backed ops (op ∷ h) (apply op b) (apply-Backed op h b a)

  empty-Backed : (b : Broker Json) → b.pending ≡ [] → Backed [] b
  unfolding Backed
  empty-Backed b e = rw e tt

  entry-approved :
      (ops : List (BrokerOp Json)) (b : Broker Json) (id : Bytes) (e : Entry Json)
      → b.pending ≡ []
      → lookup id (apply_all ops b).pending ≡ some e
      → e.outcome.effect ≡ allow
      → approved ops id ≡ true
  unfolding Backed BackedEntry approved
  entry-approved ops b id e empty l k =
      let all = apply_all-Backed ops [] b (empty-Backed b empty) in
      let backed = All-lookup (BackedEntry (past ops [])) id (apply_all ops b).pending e all l in
      ground (arith, backed k, approved-past ops [] id)

  -- From a broker without requests, by whatever calls in whatever order: where the wait for a request
  -- returns an outcome that allows, one of the calls was the user's answer that allows that request.
  pub submit_wait-approved :
      (ops : List (BrokerOp Json)) (b : Broker Json) (req : PermissionRequest Json)
      (out : PermissionOutcome)
      → b.pending ≡ []
      → (submit_wait req (apply_all ops b)).1 ≡ some out
      → out.effect ≡ allow
      → approved ops req.id ≡ true
  submit_wait-approved ops b req out empty w k = elim (wait_cases req (apply_all ops b)) [
    | inl (_, inl none_yet) ↦ absurd (cc (w, none_yet))
    | inl (_, inr gone) ↦ absurd (denial-allow out (codes "approval cancelled") (sym gone ∙ w) k)
    | inr (e, l, _, same, _) ↦
        let is_out : some e.outcome ≡ some out = sym same ∙ w in
        entry-approved ops b req.id e empty l (ground (arith, k, is_out))
  ]
