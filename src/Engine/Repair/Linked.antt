-- ===== src/Engine/Repair/Linked.antt =====
-- What the first loop over the messages knows: which of them have results, and what belongs to a call.
use hai_code.Base.{
  Bytes, ℕ, ◌+◌, ◌≡◌, refl, Option, none, some, Bool, true, false, ◌&&◌, &&_split, subst, List, [],
  ◌∷◌, arith, eq, eq_iff, any, ◌==◌, All, All-append, inl, inr, Bool-cases, Option-cases,
}
use hai_code.Engine.Repair.{
  Block, text, tool_use, tool_result, other, Message, is_user, blocks_of, Links, owner_of, response,
  answer_to, link_block, link_blocks, link,
}

abbrev pub marks : ℕ → List ℕ → Bool
marks i rows = any (λ j. j == i) rows

module _ {Json : Type 0} where
  -- A result for this id.
  abbrev pub IsResult : Bytes → Block Json → Type 0
  IsResult id (tool_result j error content) = j ≡ id
  IsResult id _ = ⊥

  unfoldable pub has_result : List (Block Json) → Bool
  has_result [] = false
  has_result (tool_result id error content ∷ bs) = true
  has_result (text s ∷ bs) = has_result bs
  has_result (tool_use id input ∷ bs) = has_result bs
  has_result (other x ∷ bs) = has_result bs

  answer_to-rows :
      (id : Bytes) (b : Block Json) (o : Option ℕ) (st : Links Json)
      → (answer_to id b o st).result_rows ≡ st.result_rows
  unfolding answer_to
  answer_to-rows id b none st = refl
  answer_to-rows id b (some o) st = refl

  link_block-keeps :
      (i : ℕ) (u : Bool) (b : Block Json) (st : Links Json) (j : ℕ)
      → marks j st.result_rows ≡ true
      → marks j (link_block i u b st).result_rows ≡ true
  unfolding link_block
  link_block-keeps i u (text s) st j h = h
  link_block-keeps i u (other x) st j h = h
  link_block-keeps i u (tool_use id input) st j h = ground arith
  link_block-keeps i u (tool_result id error content) st j h =
      rw
        (answer_to-rows id (tool_result id error content) (owner_of id st.owners)
          (record st { result_rows = i ∷ st.result_rows }))
        (ground arith)

  link_blocks-keeps :
      (i : ℕ) (u : Bool) (bs : List (Block Json)) (st : Links Json) (j : ℕ)
      → marks j st.result_rows ≡ true
      → marks j (link_blocks i u bs st).result_rows ≡ true
  unfolding link_blocks
  link_blocks-keeps i u [] st j h = h
  link_blocks-keeps i u (b ∷ bs) st j h =
      link_blocks-keeps i u bs (link_block i u b st) j (link_block-keeps i u b st j h)

  link-keeps :
      (i : ℕ) (rows : List (Message Json × Option Bytes)) (st : Links Json) (j : ℕ)
      → marks j st.result_rows ≡ true
      → marks j (link i rows st).result_rows ≡ true
  unfolding link
  link-keeps i [] st j h = h
  link-keeps i ((m, s) ∷ rows) st j h =
      link-keeps (i + 1) rows _ j (link_blocks-keeps i (is_user m) (blocks_of m.content) st j h)

  link_block-marks :
      (i : ℕ) (u : Bool) (id : Bytes) (error : Bool) (content : Json) (st : Links Json)
      → marks i (link_block i u (tool_result id error content) st).result_rows ≡ true
  unfolding link_block
  link_block-marks i u id error content st =
      rw
        (answer_to-rows id (tool_result id error content) (owner_of id st.owners)
          (record st { result_rows = i ∷ st.result_rows }))
        (ground arith)

  link_blocks-marks :
      (i : ℕ) (u : Bool) (bs : List (Block Json)) (st : Links Json)
      → has_result bs ≡ true
      → marks i (link_blocks i u bs st).result_rows ≡ true
  unfolding link_blocks has_result
  link_blocks-marks i u [] st h = cc
  link_blocks-marks i u (tool_result id error content ∷ bs) st h =
      link_blocks-keeps i u bs _ i (link_block-marks i u id error content st)
  link_blocks-marks i u (text s ∷ bs) st h = link_blocks-marks i u bs _ h
  link_blocks-marks i u (tool_use id input ∷ bs) st h = link_blocks-marks i u bs _ h
  link_blocks-marks i u (other x ∷ bs) st h = link_blocks-marks i u bs _ h

  -- Every message from the index `i` on that has a result is marked.
  abbrev pub Marked : List ℕ → ℕ → List (Message Json × Option Bytes) → Type 0
  Marked rows i [] = Unit
  Marked rows i ((m, s) ∷ ms) =
      (has_result (blocks_of m.content) ≡ true → marks i rows ≡ true) × Marked rows (i + 1) ms

  pub link-Marked :
      (i : ℕ) (rows : List (Message Json × Option Bytes)) (st : Links Json)
      → Marked (link i rows st).result_rows i rows
  unfolding link
  link-Marked i [] st = tt
  link-Marked i ((m, s) ∷ rows) st = (
    λ h. link-keeps (i + 1) rows _ i (link_blocks-marks i (is_user m) (blocks_of m.content) st h),
    link-Marked (i + 1) rows _,
  )

  -- What is kept for an id is a result for it.
  abbrev pub ForIds : Links Json → Type 0
  ForIds st = All (λ r. IsResult r.1 r.2) st.responses

  link_block-ForIds :
      (i : ℕ) (u : Bool) (b : Block Json) (st : Links Json)
      → ForIds st
      → ForIds (link_block i u b st)
  unfolding link_block answer_to
  link_block-ForIds i u (text s) st h = h
  link_block-ForIds i u (other x) st h = h
  link_block-ForIds i true (tool_use id input) st h = h
  link_block-ForIds i false (tool_use id input) st h = h
  link_block-ForIds i u (tool_result id error content) st h =
      elim (Option-cases (owner_of id st.owners)) [
        | inl e ↦ rw e h
        | inr (o, e) ↦ rw e (All-append (λ r. IsResult r.1 r.2) st.responses _ h (refl, tt))
      ]

  link_blocks-ForIds :
      (i : ℕ) (u : Bool) (bs : List (Block Json)) (st : Links Json)
      → ForIds st
      → ForIds (link_blocks i u bs st)
  unfolding link_blocks
  link_blocks-ForIds i u [] st h = h
  link_blocks-ForIds i u (b ∷ bs) st h =
      link_blocks-ForIds i u bs (link_block i u b st) (link_block-ForIds i u b st h)

  pub link-ForIds :
      (i : ℕ) (rows : List (Message Json × Option Bytes)) (st : Links Json)
      → ForIds st
      → ForIds (link i rows st)
  unfolding link
  link-ForIds i [] st h = h
  link-ForIds i ((m, s) ∷ rows) st h =
      link-ForIds (i + 1) rows _ (link_blocks-ForIds i (is_user m) (blocks_of m.content) st h)

  pub response-IsResult :
      (i : ℕ) (id : Bytes) (rs : List (ℕ × Bytes × Block Json)) (b : Block Json)
      → All (λ r. IsResult r.1 r.2) rs
      → response i id rs ≡ some b
      → IsResult id b
  unfolding response
  response-IsResult i id [] b h e = cc
  response-IsResult i id ((o, j, c) ∷ rs) b h e = elim (Bool-cases (o == i && eq j id)) [
    | inr f ↦ response-IsResult i id rs b h.1 (ground arith)
    | inl f ↦
        let same : j ≡ id = (eq_iff j id).0 (&&_split (o == i) (eq j id) f).1 in
        let found : c ≡ b = ground arith in
        subst (IsResult id) found (subst (λ x. IsResult x c) same h.0)
  ]
