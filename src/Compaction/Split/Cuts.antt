-- ===== src/Compaction/Split/Cuts.antt =====
-- The boundary that `split_history` finds.
use hai_code.Base.{
  ℕ, zero, suc, ◌+◌, ◌-◌, ◌*◌, ◌≤◌, ◌<◌, ◌≡◌, ◌⊎◌, refl, ap, ◌∙◌, sym, Bool, true, false, ◌&&◌,
  List, [], ◌∷◌, length, drop, ltb, leb, arith, Bool-cases, Option-cases, some, inl, inr,
}
use hai_code.Compaction.{SessionMessage, is_user, is_result}
use hai_code.Compaction.Split.{
  exchange_start, exchange_end, leading_results, cost, walk, recent, at, seq_at, skip, boundary,
  split_history,
}
use hai_code.Compaction.Split.Fuel.{exchange_start_le}
use hai_code.Compaction.Split.Exchanges.{Chained, exchange_start-opening, assistant_user}

at-length :
    (test : SessionMessage → Bool) (msgs : List SessionMessage) → at test msgs (length msgs) ≡ false
unfolding at
at-length test [] = refl
at-length test (m ∷ ms) = at-length test ms

leading_results_after : (ms : List SessionMessage) → at is_result ms (leading_results ms) ≡ false
unfolding at leading_results
leading_results_after [] = refl
leading_results_after (m ∷ ms) = elim (Bool-cases (is_result m)) [
  | inl r ↦ rw r (leading_results_after ms)
  | inr r ↦ rw r r
]

leading_results_stop :
    (msgs : List SessionMessage) (a : ℕ)
    → at is_result msgs (a + leading_results (drop a msgs)) ≡ false
unfolding at drop
leading_results_stop [] a = refl
leading_results_stop (m ∷ ms) zero =
    let e : 0 + leading_results (m ∷ ms) ≡ leading_results (m ∷ ms) = omega arith in
    rw e (leading_results_after (m ∷ ms))
leading_results_stop (m ∷ ms) (suc a) =
    let e : suc a + leading_results (drop a ms) ≡ suc (a + leading_results (drop a ms)) =
      omega arith in
    rw e (leading_results_stop ms a)

module _ (size : SessionMessage → ℕ) (msgs : List SessionMessage) (first budget : ℕ)
    (chained : Chained msgs) (opening : at is_result msgs first ≡ false) where
  -- Behind `first`, where no exchange is cut.
  IsCut : ℕ → Type 0
  IsCut i = (first ≤ i) × (at is_result msgs i ≡ false)

  walk-IsCut :
      (fuel used i : ℕ)
      → IsCut i
      → IsCut (walk size fuel msgs first budget i used i)
        × (walk size fuel msgs first budget i used i ≤ i)
  unfolding walk IsCut
  walk-IsCut zero used i cut = (cut, omega arith)
  walk-IsCut (suc fuel) used i cut = elim (Bool-cases (ltb first i)) [
    | inr done ↦ rw done (cut, omega arith)
    | inl on ↦
        let start = exchange_start msgs first (i - 1) in
        let below = exchange_start_le msgs first (i - 1) in
        let less : start < i = ground (arith, on, below) in
        let e : i - 1 + 1 ≡ i = ground (arith, on) in
        let start_cut =
          exchange_start-opening msgs first chained opening (i - 1) (ground (arith, on))
            (ap (at is_result msgs) e ∙ cut.1) in
        let (rest_cut, rest_le) = walk-IsCut fuel (used + cost size msgs start i) start start_cut in
        let used' = used + cost size msgs start i in
        elim (Bool-cases (ltb i (length msgs) && ltb budget used')) [
          | inl over ↦ rw (on, over) (cut, omega arith)
          | inr within ↦ elim (Bool-cases (leb budget used')) [
            | inl spent ↦ rw (on, within, spent) (start_cut, omega (arith, less))
            | inr more ↦ rw (on, within, more) (rest_cut, omega (arith, less, rest_le))
          ]
        ]
  ]

  -- The loop's first round takes an exchange.
  walk_less :
      (fuel used i : ℕ)
      → 0 < fuel
      → first < i
      → i ≡ length msgs
      → at is_result msgs i ≡ false
      → walk size fuel msgs first budget i used i < i
  unfolding walk IsCut
  walk_less zero used i f h e stop = absurd (omega arith)
  walk_less (suc fuel) used i f h e stop =
      let start = exchange_start msgs first (i - 1) in
      let below = exchange_start_le msgs first (i - 1) in
      let less : start < i = ground (arith, h, below) in
      let back : i - 1 + 1 ≡ i = ground (arith, h) in
      let start_cut =
        exchange_start-opening msgs first chained opening (i - 1) (ground (arith, h))
          (ap (at is_result msgs) back ∙ stop) in
      let (rest_cut, rest_le) = walk-IsCut fuel (used + cost size msgs start i) start start_cut in
      ground (arith, less, rest_le, h, e)

  recent-IsCut :
      first < length msgs
      → IsCut (recent size msgs first budget) × (recent size msgs first budget < length msgs)
  unfolding recent IsCut
  recent-IsCut h =
      let n = length msgs in
      let stop = at-length is_result msgs in
      ((walk-IsCut n 0 n (omega arith, stop)).0, walk_less n 0 n (omega arith) h refl stop)

  behind_user : at is_user msgs first ≡ true → at is_result msgs (first + 1) ≡ false
  unfolding Chained
  behind_user user =
      let e : first + 1 ≡ suc first = omega arith in
      let apart = assistant_user msgs first in
      elim (Bool-cases (at is_result msgs (suc first))) [
        | inl result ↦ absurd (ground (arith, chained first result, opening, user, apart))
        | inr none_behind ↦ rw e none_behind
      ]

  second-IsCut : IsCut (exchange_end msgs first) × (first < exchange_end msgs first)
  unfolding IsCut exchange_end
  second-IsCut = elim (Bool-cases (at is_user msgs first)) [
    | inl user ↦ rw user ((omega arith, behind_user user), omega arith)
    | inr other ↦ rw other ((omega arith, leading_results_stop msgs (first + 1)), omega arith)
  ]

  boundary_cases :
      (start : ℕ)
      → boundary size msgs first budget ≡ some start
      → ((recent size msgs first budget ≡ start) × (leb start first ≡ false))
        ⊎ ((exchange_end msgs first ≡ start) × (leb (length msgs) start ≡ false))
  unfolding boundary
  boundary_cases start e = elim (Bool-cases (leb (recent size msgs first budget) first)) [
    | inl all ↦ inr (ground (arith, all, e), ground (arith, all, e))
    | inr part ↦ inl (ground (arith, part, e), ground (arith, part, e))
  ]

  -- The boundary is behind `first`, not behind the end, and cuts no exchange.
  pub boundary-IsCut :
      (start : ℕ)
      → first < length msgs
      → boundary size msgs first budget ≡ some start
      → (first < start) × (start < length msgs) × (at is_result msgs start ≡ false)
  unfolding IsCut
  boundary-IsCut start h e = elim (boundary_cases start e) [
    | inl (same, part) ↦
        let (cut, less) = recent-IsCut h in
        (
          ground (arith, part),
          ground (arith, same, less),
          sym (ap (at is_result msgs) same) ∙ cut.1,
        )
    | inr (same, within) ↦
        let (cut, more) = second-IsCut in
        (
          ground (arith, same, more),
          ground (arith, within),
          sym (ap (at is_result msgs) same) ∙ cut.1,
        )
  ]

split_history_cases :
    (size : SessionMessage → ℕ) (msgs : List SessionMessage) (budget prev through : ℕ)
    → split_history size msgs budget prev ≡ some through
    → (start : ℕ) × (skip prev msgs < length msgs)
      × (boundary size msgs (skip prev msgs) (budget * 4) ≡ some start)
      × (seq_at msgs (start - 1) ≡ through)
      × (leb (seq_at msgs (start - 1)) prev ≡ false)
unfolding split_history
split_history_cases size msgs budget prev through e =
    elim (Option-cases (boundary size msgs (skip prev msgs) (budget * 4))) [
      | inl nothing ↦ absurd (ground (arith, nothing, e))
      | inr (start, found) ↦ (
        start,
        ground (arith, found, e),
        found,
        ground (arith, found, e),
        ground (arith, found, e),
      )
    ]

-- What `split_history` returns is the `seq` of a message that is new since the last checkpoint. The
-- message behind it starts an exchange: it is there, and it is no tool result, as far as results
-- stand behind their assistant's message and the part that is new does not start with one.
pub split_history-boundary :
    (size : SessionMessage → ℕ) (msgs : List SessionMessage) (budget prev through : ℕ)
    → Chained msgs
    → at is_result msgs (skip prev msgs) ≡ false
    → split_history size msgs budget prev ≡ some through
    → prev < through
      × ((last : ℕ) × (seq_at msgs last ≡ through)
          × (skip prev msgs ≤ last)
          × (suc last < length msgs)
          × (at is_result msgs (suc last) ≡ false))
split_history-boundary size msgs budget prev through chained opening e =
    let (start, inside, found, same, new) = split_history_cases size msgs budget prev through e in
    let (after, within, stop) =
      boundary-IsCut size msgs (skip prev msgs) (budget * 4) chained opening start inside found in
    let back : suc (start - 1) ≡ start = omega (arith, after) in
    (
      ground (arith, same, new),
      (
        start - 1,
        same,
        omega (arith, after),
        omega (arith, after, within),
        ap (at is_result msgs) back ∙ stop,
      ),
    )
