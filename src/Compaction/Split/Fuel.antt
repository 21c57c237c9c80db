-- ===== src/Compaction/Split/Fuel.antt =====
-- The loop of `split_history` ends.
use hai_code.Base.{
  ℕ, zero, suc, ◌+◌, ◌-◌, ◌≤◌, ◌≡◌, refl, List, length, ltb, arith, Bool-cases, inl, inr,
}
use hai_code.Compaction.{SessionMessage}
use hai_code.Compaction.Split.{step_back, exchange_start, cost, walk, recent}

pub step_back_le : (msgs : List SessionMessage) (first last : ℕ) → step_back msgs first last ≤ last
unfolding step_back
step_back_le msgs first zero = omega arith
step_back_le msgs first (suc last) =
    let earlier = step_back_le msgs first last in ground (arith, earlier)

pub exchange_start_le :
    (msgs : List SessionMessage) (first last : ℕ) → exchange_start msgs first last ≤ last
unfolding exchange_start
exchange_start_le msgs first last = let back = step_back_le msgs first last in ground (arith, back)

module _ (size : SessionMessage → ℕ) (msgs : List SessionMessage) (first budget : ℕ) where
  -- More rounds than messages change nothing.
  pub walk_fuel :
      (f g recent_start used i : ℕ)
      → i ≤ f
      → i ≤ g
      → walk size f msgs first budget recent_start used i
        ≡ walk size g msgs first budget recent_start used i
  unfolding walk
  walk_fuel zero zero recent_start used i h k = refl
  walk_fuel zero (suc g) recent_start used i h k = ground arith
  walk_fuel (suc f) zero recent_start used i h k = ground arith
  walk_fuel (suc f) (suc g) recent_start used i h k = elim (Bool-cases (ltb first i)) [
    | inr done ↦ rw done refl
    | inl on ↦
        let start = exchange_start msgs first (i - 1) in
        let below = exchange_start_le msgs first (i - 1) in
        let rest =
          walk_fuel f g start (used + cost size msgs start i) start (ground (arith, on, below))
            (ground (arith, on, below)) in
        rw rest refl
  ]

  -- The loop has enough rounds: with any larger number of them the recent part starts where
  -- `split_history` has it.
  pub recent_fuel :
      (fuel : ℕ)
      → length msgs ≤ fuel
      → walk size fuel msgs first budget (length msgs) 0 (length msgs)
        ≡ recent size msgs first budget
  unfolding recent
  recent_fuel fuel h = walk_fuel fuel (length msgs) (length msgs) 0 (length msgs) h (omega arith)
