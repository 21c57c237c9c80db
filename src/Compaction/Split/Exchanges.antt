-- ===== src/Compaction/Split/Exchanges.antt =====
-- `split_history` cuts between exchanges.
use hai_code.Base.{
  ℕ, zero, suc, ◌+◌, ◌≤◌, ◌<◌, ◌≡◌, refl, ap, ◌∙◌, sym, true, false, ◌&&◌, ◌||◌, List, [], ◌∷◌,
  drop, drop_nil, ltb, ◌==◌, eq, eq_iff, codes, arith, Bool-cases, inl, inr,
}
use hai_code.Compaction.{SessionMessage, is_user, is_result, is_assistant}
use hai_code.Compaction.Split.{step_back, exchange_start, exchange_end, leading_results, at}
use hai_code.Compaction.Split.Fuel.{step_back_le}

-- A result stands behind another one or behind the assistant's message.
unfoldable pub Chained : List SessionMessage → Type 0
Chained msgs =
    (k : ℕ)
    → at is_result msgs (suc k) ≡ true
    → (at is_result msgs k || at is_assistant msgs k) ≡ true

pub assistant_user :
    (msgs : List SessionMessage) (k : ℕ) → at is_assistant msgs k ≡ true → at is_user msgs k ≡ false
unfolding at is_assistant is_user eq
assistant_user [] k h = refl
assistant_user (m ∷ ms) zero h = rw ((eq_iff m.type (codes "assistant_text")).0 h) refl
assistant_user (m ∷ ms) (suc k) h = assistant_user ms k h

run_nil : (a b : ℕ) → a ≤ b → ((k : ℕ) → a ≤ k → k < b → at is_result [] k ≡ true) → a ≡ b
unfolding at
run_nil a b h run = elim (Bool-cases (ltb a b)) [
  | inl less ↦ cc (run a (omega arith) (ground arith))
  | inr same ↦ ground arith
]

-- The results from `a` on are counted up to the first message that is none.
leading_results_run :
    (msgs : List SessionMessage) (a b : ℕ)
    → a ≤ b
    → ((k : ℕ) → a ≤ k → k < b → at is_result msgs k ≡ true)
    → at is_result msgs b ≡ false
    → a + leading_results (drop a msgs) ≡ b
unfolding at leading_results drop
leading_results_run [] a b h run stop = rw (drop_nil a) (omega (arith, run_nil a b h run))
leading_results_run (m ∷ ms) zero zero h run stop = rw stop refl
leading_results_run (m ∷ ms) zero (suc b) h run stop =
    let rest =
      leading_results_run ms zero b (omega arith) (λ k g l. run (suc k) (omega arith) (omega arith))
        stop in
    rw (run zero (omega arith) (omega arith)) (omega (arith, rest))
leading_results_run (m ∷ ms) (suc a) zero h run stop = absurd (omega arith)
leading_results_run (m ∷ ms) (suc a) (suc b) h run stop =
    let rest =
      leading_results_run ms a b (omega arith) (λ k g l. run (suc k) (omega arith) (omega arith))
        stop in
    omega (arith, rest)

last_stops :
    (msgs : List SessionMessage) (first last : ℕ)
    → first ≤ suc last
    → at is_result msgs first ≡ false
    → (ltb first (suc last) && at is_result msgs (suc last)) ≡ false
    → at is_result msgs (suc last) ≡ false
last_stops msgs first last h stop done = elim (Bool-cases (ltb first (suc last))) [
  | inl less ↦ ground (arith, less, done)
  | inr same ↦
      let e : first ≡ suc last = ground (arith, same, h) in ap (at is_result msgs) (sym e) ∙ stop
]

step_back_stops :
    (msgs : List SessionMessage) (first last : ℕ)
    → first ≤ last
    → at is_result msgs first ≡ false
    → (first ≤ step_back msgs first last) × (at is_result msgs (step_back msgs first last) ≡ false)
unfolding step_back
step_back_stops msgs first zero h stop =
    let e : first ≡ 0 = omega arith in (omega arith, ap (at is_result msgs) (sym e) ∙ stop)
step_back_stops msgs first (suc last) h stop =
    elim (Bool-cases (ltb first (suc last) && at is_result msgs (suc last))) [
      | inl on ↦ rw on (step_back_stops msgs first last (ground (arith, on)) stop)
      | inr done ↦ rw done (h, last_stops msgs first last h stop done)
    ]

step_back_run :
    (msgs : List SessionMessage) (first last k : ℕ)
    → step_back msgs first last < k
    → k ≤ last
    → at is_result msgs k ≡ true
unfolding step_back
step_back_run msgs first zero k h l = absurd (omega arith)
step_back_run msgs first (suc last) k h l =
    elim (Bool-cases (ltb first (suc last) && at is_result msgs (suc last))) [
      | inl on ↦ elim (Bool-cases (k == suc last)) [
        | inl top ↦
            let e : k ≡ suc last = ground (arith, top) in
            ap (at is_result msgs) e ∙ ground (arith, on)
        | inr below ↦
            step_back_run msgs first last k (ground (arith, on, h)) (ground (arith, below, l))
      ]
      | inr done ↦ absurd (ground (arith, done, h, l))
    ]

module _ (msgs : List SessionMessage) (first : ℕ) (chained : Chained msgs)
    (opening : at is_result msgs first ≡ false) where
  -- The assistant's message of the results that end at `last`.
  step_back-assistant :
      (last : ℕ)
      → first ≤ last
      → at is_result msgs last ≡ true
      → at is_assistant msgs (step_back msgs first last) ≡ true
  unfolding Chained
  step_back-assistant last h result =
      let back = step_back msgs first last in
      let (low, stop) = step_back_stops msgs first last h opening in
      let below = step_back_le msgs first last in
      elim (Bool-cases (ltb back last)) [
        | inl less ↦
            let next =
              step_back_run msgs first last (suc back) (omega arith) (ground (arith, less)) in
            ground (arith, stop, chained back next)
        | inr same ↦
            let e : back ≡ last = ground (arith, same, below) in
            cc (sym (ap (at is_result msgs) e) ∙ stop, result)
      ]

  step_back-end :
      (last : ℕ)
      → first ≤ last
      → at is_result msgs last ≡ true
      → at is_result msgs (last + 1) ≡ false
      → exchange_end msgs (step_back msgs first last) ≡ last + 1
  unfolding exchange_end
  step_back-end last h result after =
      let back = step_back msgs first last in
      let below = step_back_le msgs first last in
      let user = assistant_user msgs back (step_back-assistant last h result) in
      rw user (
        leading_results_run msgs (back + 1) (last + 1) (omega (arith, below))
          (λ k g l. step_back_run msgs first last k (omega (arith, g)) (omega (arith, l))) after)

  exchange_start_result :
      (last : ℕ)
      → at is_result msgs last ≡ true
      → at is_assistant msgs (step_back msgs first last) ≡ true
      → exchange_end msgs (step_back msgs first last) ≡ last + 1
      → exchange_start msgs first last ≡ step_back msgs first last
  unfolding exchange_start
  exchange_start_result last r a e = rw (r, a, e) (ground arith)

  exchange_start_single :
      (last : ℕ) → at is_result msgs last ≡ false → exchange_start msgs first last ≡ last
  unfolding exchange_start
  exchange_start_single last r = rw r (ground arith)

  pub exchange_start-opening :
      (last : ℕ)
      → first ≤ last
      → at is_result msgs (last + 1) ≡ false
      → (first ≤ exchange_start msgs first last)
        × (at is_result msgs (exchange_start msgs first last) ≡ false)
  exchange_start-opening last h after = elim (Bool-cases (at is_result msgs last)) [
    | inl result ↦
        let same =
          exchange_start_result last result (step_back-assistant last h result)
            (step_back-end last h result after) in
        rw same (step_back_stops msgs first last h opening)
    | inr single ↦ rw (exchange_start_single last single) (h, single)
  ]
