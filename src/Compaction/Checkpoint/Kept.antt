-- ===== src/Compaction/Checkpoint/Kept.antt =====
-- What is left of a history behind a checkpoint.
use hai_code.Base.{
  Bytes, ℕ, zero, suc, ◌≤◌, ◌<◌, ◌≡◌, refl, ap, ◌∙◌, sym, true, false, ◌||◌, List, [], ◌∷◌, length,
  drop, leb, ◌==◌, arith, Bool-cases, some, inl, inr,
}
use hai_code.Compaction.{SessionMessage, CompactionCheckpoint, is_result}
use hai_code.Compaction.Split.{at, seq_at, skip, split_history}
use hai_code.Compaction.Split.Exchanges.{Chained}
use hai_code.Compaction.Split.Cuts.{split_history-boundary}
use hai_code.Compaction.Checkpoint.{kept, block, apply_checkpoint}

-- The numbers go up, from above `a`.
unfoldable pub Above : ℕ → List SessionMessage → Type 0
Above a [] = Unit
Above a (m ∷ ms) = (a < m.seq) × Above m.seq ms

unfoldable pub Ascending : List SessionMessage → Type 0
Ascending [] = Unit
Ascending (m ∷ ms) = Above m.seq ms

Above-kept :
    (a through : ℕ) (ms : List SessionMessage) → through ≤ a → Above a ms → kept through ms ≡ ms
unfolding Above kept
Above-kept a through [] h above = refl
Above-kept a through (m ∷ ms) h above =
    let rest = Above-kept m.seq through ms (omega (arith, above.0)) above.1 in
    let new : (m.seq == 0 || leb m.seq through) ≡ false = ground (arith, h, above.0) in
    rw (new, rest) refl

Above-seq_at : (a k : ℕ) (ms : List SessionMessage) → Above a ms → k < length ms → a < seq_at ms k
unfolding Above seq_at
Above-seq_at a k [] above h = absurd (omega arith)
Above-seq_at a zero (m ∷ ms) above h = above.0
Above-seq_at a (suc k) (m ∷ ms) above h =
    let later = Above-seq_at m.seq k ms above.1 (omega arith) in omega (arith, later, above.0)

Above-Ascending : (a : ℕ) (ms : List SessionMessage) → Above a ms → Ascending ms
unfolding Above Ascending
Above-Ascending a [] above = tt
Above-Ascending a (m ∷ ms) above = above.1

kept-seq_at :
    (ms : List SessionMessage) (last : ℕ)
    → Ascending ms
    → last < length ms
    → kept (seq_at ms last) ms ≡ drop (suc last) ms
unfolding kept seq_at drop Ascending
kept-seq_at [] last up h = refl
kept-seq_at (m ∷ ms) zero up h =
    let old : (m.seq == 0 || leb m.seq m.seq) ≡ true = ground arith in
    rw old (Above-kept m.seq m.seq ms (omega arith) up)
kept-seq_at (m ∷ ms) (suc last) up h =
    let later = Above-seq_at m.seq last ms up (omega arith) in
    let old : (m.seq == 0 || leb m.seq (seq_at ms last)) ≡ true = ground (arith, later) in
    rw old (kept-seq_at ms last (Above-Ascending m.seq ms up) (omega arith))

kept-kept : (a b : ℕ) (ms : List SessionMessage) → a ≤ b → kept b (kept a ms) ≡ kept b ms
unfolding kept
kept-kept a b [] h = refl
kept-kept a b (m ∷ ms) h =
    let rest = kept-kept a b ms h in
    elim (Bool-cases (m.seq == 0 || leb m.seq a)) [
      | inl old ↦
          let older : (m.seq == 0 || leb m.seq b) ≡ true = ground (arith, old, h) in
          rw (old, older) rest
      | inr new ↦ rw (new, rest) refl
    ]

module _ (text_object : Bytes → Bytes) where
  kept-block :
      (through : ℕ) (cp : CompactionCheckpoint) (ms : List SessionMessage)
      → kept through (block text_object cp ∷ ms) ≡ kept through ms
  unfolding block kept
  kept-block through cp ms = refl

  -- A checkpoint on top of one that covers no more comes to the same as on the whole history.
  pub apply_checkpoint-again :
      (msgs : List SessionMessage) (earlier later : CompactionCheckpoint)
      → earlier.through_seq ≤ later.through_seq
      → apply_checkpoint text_object (apply_checkpoint text_object msgs earlier) later
        ≡ apply_checkpoint text_object msgs later
  unfolding apply_checkpoint
  apply_checkpoint-again msgs earlier later h =
      ap (λ (ms : List SessionMessage). block text_object later ∷ ms)
        (kept-block later.through_seq earlier (kept earlier.through_seq msgs)
          ∙ kept-kept earlier.through_seq later.through_seq msgs h)

  -- A checkpoint up to where `split_history` cuts keeps the messages behind the boundary, all of them
  -- and no others: they start with one that is no tool result. The numbers of the messages go up,
  -- results stand behind their assistant's message, and the new part does not start with one.
  pub apply_checkpoint-split_history :
      (size : SessionMessage → ℕ) (msgs : List SessionMessage) (budget prev : ℕ)
      (cp : CompactionCheckpoint)
      → Ascending msgs
      → Chained msgs
      → at is_result msgs (skip prev msgs) ≡ false
      → split_history size msgs budget prev ≡ some cp.through_seq
      → (last : ℕ) × (apply_checkpoint text_object msgs cp
          ≡ block text_object cp ∷ drop (suc last) msgs)
        × (suc last < length msgs)
        × (at is_result msgs (suc last) ≡ false)
  unfolding apply_checkpoint
  apply_checkpoint-split_history size msgs budget prev cp up chained opening e =
      let (new, (last, same, after, within, stop)) =
        split_history-boundary size msgs budget prev cp.through_seq chained opening e in
      let kept_last =
        ap (λ (t : ℕ). kept t msgs) (sym same) ∙ kept-seq_at msgs last up (omega (arith, within)) in
      (last, ap (λ (ms : List SessionMessage). block text_object cp ∷ ms) kept_last, within, stop)
