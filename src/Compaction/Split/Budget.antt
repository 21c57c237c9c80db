-- ===== src/Compaction/Split/Budget.antt =====
-- What `split_history` keeps fits its budget.
use hai_code.Base.{
  ℕ, zero, suc, ◌+◌, ◌-◌, ◌≤◌, ◌<◌, ◌≡◌, ◌⊎◌, refl, ap, subst, false, ◌&&◌, List, [], ◌∷◌, length,
  take, drop, take_nil, ltb, leb, arith, Bool-cases, inl, inr,
}
use hai_code.Compaction.{SessionMessage}
use hai_code.Compaction.Sizes.{total}
use hai_code.Compaction.Split.{exchange_start, cost, walk, recent}
use hai_code.Compaction.Split.Fuel.{exchange_start_le}

total-take :
    {A : Type 0} (f : A → ℕ) (xs : List A) (a b : ℕ)
    → a ≤ b
    → total f (take a xs) + total f (take (b - a) (drop a xs)) ≡ total f (take b xs)
unfolding total take drop
total-take f xs zero b h = let e : b - 0 ≡ b = omega arith in rw e (omega arith)
total-take f [] (suc a) zero h = absurd (omega arith)
total-take f [] (suc a) (suc b) h = rw (take_nil (suc b - suc a)) refl
total-take f (x ∷ xs) (suc a) zero h = absurd (omega arith)
total-take f (x ∷ xs) (suc a) (suc b) h =
    let rest = total-take f xs a b (omega arith) in
    let e : suc b - suc a ≡ b - a = omega arith in rw e (omega (arith, rest))

module _ (size : SessionMessage → ℕ) (msgs : List SessionMessage) where
  cost_add :
      (a b c : ℕ) → a ≤ b → b ≤ c → cost size msgs a b + cost size msgs b c ≡ cost size msgs a c
  unfolding cost
  cost_add a b c h k = omega (
    arith,
    total-take size msgs a b h,
    total-take size msgs b c k,
    total-take size msgs a c (omega arith),
  )

  cost_self : (a : ℕ) → cost size msgs a a ≡ 0
  unfolding cost total take
  cost_self a = let e : a - a ≡ 0 = omega arith in rw e refl

  -- What is kept fits, or is one exchange.
  pub Fits : ℕ → ℕ → ℕ → Type 0
  Fits first budget start =
      (cost size msgs start (length msgs) ≤ budget)
      ⊎ (start ≡ exchange_start msgs first (length msgs - 1))

  module _ (first budget : ℕ) where
    next-Fits :
        (i : ℕ)
        → 0 < i
        → i ≤ length msgs
        → (ltb i (length msgs)
            && ltb budget (
                cost size msgs i (length msgs)
                + cost size msgs (exchange_start msgs first (i - 1)) i))
          ≡ false
        → Fits first budget (exchange_start msgs first (i - 1))
    unfolding Fits
    next-Fits i h k within =
        let start = exchange_start msgs first (i - 1) in
        let below = exchange_start_le msgs first (i - 1) in
        let split = cost_add start i (length msgs) (omega (arith, below)) k in
        elim (Bool-cases (ltb i (length msgs))) [
          | inl less ↦ inl (ground (arith, less, within, split))
          | inr all ↦
              let e : i ≡ length msgs = ground (arith, all, k) in
              inr (ap (λ (j : ℕ). exchange_start msgs first (j - 1)) e)
        ]

    walk-Fits :
        (fuel i : ℕ)
        → i ≤ length msgs
        → Fits first budget i
        → Fits first budget (walk size fuel msgs first budget i (cost size msgs i (length msgs)) i)
    unfolding walk
    walk-Fits zero i h fits = fits
    walk-Fits (suc fuel) i h fits = elim (Bool-cases (ltb first i)) [
      | inr done ↦ rw done fits
      | inl on ↦
          let start = exchange_start msgs first (i - 1) in
          let below = exchange_start_le msgs first (i - 1) in
          let used = cost size msgs i (length msgs) + cost size msgs start i in
          elim (Bool-cases (ltb i (length msgs) && ltb budget used)) [
            | inl over ↦ rw (on, over) fits
            | inr within ↦
                let next = next-Fits i (ground (arith, on)) h within in
                let split = cost_add start i (length msgs) (ground (arith, on, below)) h in
                let total_used : used ≡ cost size msgs start (length msgs) = omega (arith, split) in
                elim (Bool-cases (leb budget used)) [
                  | inl spent ↦ rw (on, within, spent) next
                  | inr more ↦
                      rw (on, within, more, total_used)
                        (walk-Fits fuel start (ground (arith, on, below, h)) next)
                ]
          ]
    ]

    length-Fits : Fits first budget (length msgs)
    unfolding Fits
    length-Fits = inl (omega (arith, cost_self (length msgs)))

    -- What is kept at the end fits the budget, or is the last exchange alone.
    pub recent-Fits : Fits first budget (recent size msgs first budget)
    unfolding recent
    recent-Fits =
        let n = length msgs in
        subst (λ (used : ℕ). Fits first budget (walk size n msgs first budget n used n))
          (cost_self n) (walk-Fits n n (omega arith) length-Fits)
