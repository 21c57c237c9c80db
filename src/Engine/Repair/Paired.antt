-- ===== src/Engine/Repair/Paired.antt =====
-- Calls and their results in the messages that are sent.
use mathlib.Core.List.{reverse-reverse}
use hai_code.Base.{
  Bytes, ℕ, ◌+◌, ◌≡◌, refl, sym, subst, Option, none, some, false, List, [], ◌∷◌, ◌++◌, arith, any,
  ◌==◌, inl, inr, Bool-cases, reverse,
}
use hai_code.Engine.Repair.{
  user, Block, text, tool_use, tool_result, other, Content, plain, blocks, Message, is_user,
  blocks_of, Links, response, link, tail_blocks, append_status_block, with_status, calls_of,
  or_missing, answers, push_answers, rebuild, repair,
}
use hai_code.Engine.Repair.Linked.{
  IsResult, has_result, Marked, link-Marked, ForIds, link-ForIds, response-IsResult,
}

module _ {Json : Type 0} where
  -- A result for each of these ids, in their order, and then only texts.
  abbrev pub Answers : List Bytes → List (Block Json) → Type 0
  Answers [] [] = Unit
  Answers [] (text s ∷ bs) = Answers [] bs
  Answers [] (_ ∷ bs) = ⊥
  Answers (id ∷ ids) [] = ⊥
  Answers (id ∷ ids) (b ∷ bs) = IsResult id b × Answers ids bs

  -- Read from its end: every message without results either has no calls, or stands in front of a
  -- message of the user with the results for its calls, and there are no others.
  pub data Paired : List (Message Json) → Type 0 where
    start : Paired []
    alone :
        {ms : List (Message Json)} (m : Message Json)
        → Paired ms
        → has_result (blocks_of m.content) ≡ false
        → calls_of m ≡ []
        → Paired (m ∷ ms)
    answered :
        {ms : List (Message Json)} (m : Message Json) (bs : List (Block Json))
        → Paired ms
        → has_result (blocks_of m.content) ≡ false
        → Answers (calls_of m) bs
        → Paired (record { role = user; content = blocks bs } ∷ m ∷ ms)

  Answers-text :
      (ids : List Bytes) (bs : List (Block Json)) (s : Bytes)
      → Answers ids bs
      → Answers ids (bs ++ text s ∷ [])
  Answers-text [] [] s h = tt
  Answers-text [] (text t ∷ bs) s h = Answers-text [] bs s h
  Answers-text [] (tool_use id input ∷ bs) s h = h
  Answers-text [] (tool_result id error content ∷ bs) s h = h
  Answers-text [] (other x ∷ bs) s h = h
  Answers-text (id ∷ ids) [] s h = absurd h
  Answers-text (id ∷ ids) (b ∷ bs) s h = (h.0, Answers-text ids bs s h.1)

  has_result-text :
      (bs : List (Block Json)) (s : Bytes)
      → has_result bs ≡ false
      → has_result (bs ++ text s ∷ []) ≡ false
  unfolding has_result
  has_result-text [] s h = refl
  has_result-text (text t ∷ bs) s h = has_result-text bs s h
  has_result-text (tool_use id input ∷ bs) s h = has_result-text bs s h
  has_result-text (tool_result id error content ∷ bs) s h = h
  has_result-text (other x ∷ bs) s h = has_result-text bs s h

  tail_blocks-has_result :
      (c : Content Json) → has_result (blocks_of c) ≡ false → has_result (tail_blocks c) ≡ false
  unfolding has_result tail_blocks blocks_of
  tail_blocks-has_result (plain []) h = refl
  tail_blocks-has_result (plain (d ∷ t)) h = refl
  tail_blocks-has_result (blocks bs) h = h

  new_user-Paired :
      (ms : List (Message Json)) (s : Bytes)
      → Paired ms
      → Paired (record { role = user; content = blocks (text s ∷ []) } ∷ ms)
  unfolding has_result calls_of blocks_of
  new_user-Paired ms s p = alone _ p refl refl

  append_status_block-Paired :
      (back : List (Message Json)) (s : Bytes) → Paired back → Paired (append_status_block back s)
  unfolding append_status_block blocks_of calls_of
  append_status_block-Paired back [] p = p
  append_status_block-Paired [] (c ∷ s) p = new_user-Paired [] (c ∷ s) p
  append_status_block-Paired (m ∷ ms) (c ∷ s) (alone _ p n e) = elim (Bool-cases (is_user m)) [
    | inl u ↦ rw u (
        alone _ p
          (has_result-text (tail_blocks m.content) (c ∷ s) (tail_blocks-has_result m.content n))
          refl)
    | inr u ↦ rw u (new_user-Paired (m ∷ ms) (c ∷ s) (alone m p n e))
  ]
  append_status_block-Paired (_ ∷ m ∷ ms) (c ∷ s) (answered _ bs p n h) =
      answered m (bs ++ text (c ∷ s) ∷ []) p n (Answers-text (calls_of m) bs (c ∷ s) h)

  with_status-Paired :
      (status : Option Bytes) (back : List (Message Json))
      → Paired back
      → Paired (with_status status back)
  unfolding with_status
  with_status-Paired none back p = p
  with_status-Paired (some s) back p = append_status_block-Paired back s p

module _ {Json : Type 0} (not_run : Json) where
  or_missing-IsResult :
      (id : Bytes) (o : Option (Block Json))
      → ((b : Block Json) → o ≡ some b → IsResult id b)
      → IsResult id (or_missing not_run id o)
  unfolding or_missing
  or_missing-IsResult id none h = refl
  or_missing-IsResult id (some b) h = h b refl

  answers-Answers :
      (st : Links Json) (i : ℕ) (ids : List Bytes)
      → ForIds st
      → Answers ids (answers not_run st i ids)
  unfolding answers
  answers-Answers st i [] f = tt
  answers-Answers st i (id ∷ ids) f = (
    or_missing-IsResult id (response i id st.responses)
        (λ b e. response-IsResult i id st.responses b f e),
    answers-Answers st i ids f,
  )

  push_answers-Paired :
      (m : Message Json) (ids : List Bytes) (bs : List (Block Json)) (back : List (Message Json))
      → Paired back
      → has_result (blocks_of m.content) ≡ false
      → calls_of m ≡ ids
      → Answers ids bs
      → Paired (push_answers bs (m ∷ back))
  unfolding push_answers
  push_answers-Paired m [] [] back p n e a = alone m p n e
  push_answers-Paired m (id ∷ ids) [] back p n e a = absurd a
  push_answers-Paired m ids (b ∷ bs) back p n e a =
      answered m (b ∷ bs) p n (subst (λ vs. Answers vs (b ∷ bs)) (sym e) a)

  rebuild-Paired :
      (st : Links Json) (i : ℕ) (rows : List (Message Json × Option Bytes))
      (back : List (Message Json))
      → ForIds st
      → Marked st.result_rows i rows
      → Paired back
      → Paired (rebuild not_run st i rows back)
  unfolding rebuild
  rebuild-Paired st i [] back f k p = p
  rebuild-Paired st i ((m, status) ∷ rows) back f k p =
      elim (Bool-cases (any (λ j. j == i) st.result_rows)) [
        | inl e ↦ rw e (rebuild-Paired st (i + 1) rows back f k.1 p)
        | inr e ↦
            let bare : has_result (blocks_of m.content) ≡ false = ground arith in
            rw e (
              rebuild-Paired st (i + 1) rows _ f k.1 (
                push_answers-Paired m (calls_of m) (answers not_run st i (calls_of m))
                  (with_status status back) (with_status-Paired status back p) bare refl
                  (answers-Answers st i (calls_of m) f)))
      ]

  -- Whatever messages the rows came to, in the messages that are sent each with tool calls has behind
  -- it a message of the user that starts with one result for each of its calls, in their order, and
  -- has only texts after these; and no other message has a result.
  pub repair-Paired :
      (rows : List (Message Json × Option Bytes)) → Paired (reverse (repair not_run rows))
  unfolding repair
  repair-Paired rows =
      let links = link 0 rows (record { owners = []; responses = []; result_rows = [] }) in
      let built =
        rebuild-Paired links 0 rows [] (link-ForIds 0 rows _ tt) (link-Marked 0 rows _) start in
      rw (reverse-reverse (rebuild not_run links 0 rows [])) built
