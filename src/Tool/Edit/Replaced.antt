-- ===== src/Tool/Edit/Replaced.antt =====
-- Which text an edit leaves.
use hai_code.Base.{
  Bytes, ℕ, zero, suc, ◌≤◌, ◌<◌, ◌≡◌, refl, ap, ◌∙◌, subst, none, Bool, false, List, [], ◌∷◌, ◌++◌,
  arith, inl, inr, length, length-append, All, Bool-cases, Option-cases,
}
use hai_code.Permission.Path.{is_empty}
use hai_code.Tool.Edit.{
  find, count, replace, replace_first, rounds, looks_binary, edited, edit_content,
}
use hai_code.Tool.Edit.Find.{find_parts, find_first}

-- Texts with another one between each two.
pub joined_by : Bytes → Bytes → List Bytes → Bytes
joined_by sep p [] = p
joined_by sep p (q ∷ ps) = p ++ (sep ++ joined_by sep q ps)

-- A text that is cut at every occurrence of `old` from the front on, with what replacing them leaves.
pub record Pieces (old new s r : Bytes) (n : ℕ) : Type 0 where
  pub first : Bytes
  pub others : List Bytes
  pub many : length others ≡ n
  pub before : s ≡ joined_by old first others
  pub after : r ≡ joined_by new first others
  pub clear : All (λ p. find old p ≡ none) (first ∷ others)

shorter : (old b a : Bytes) → is_empty old ≡ false → length a < length (b ++ (old ++ a))
unfolding is_empty
shorter [] b a h = cc
shorter (o ∷ old) b a h = omega (arith, length-append b ((o ∷ old) ++ a), length-append old a)

replace-Pieces :
    (fuel : ℕ) (old new s : Bytes)
    → is_empty old ≡ false
    → length s < fuel
    → Pieces old new s (replace fuel old new s) (count fuel old s)
unfolding replace count joined_by
replace-Pieces zero old new s h l = absurd (omega arith)
replace-Pieces (suc fuel) old new s h l = elim (Option-cases (find old s)) [
  | inl e ↦
      rw (replace, count, e)
        (record {
          first = s;
          others = [];
          many = refl;
          before = refl;
          after = refl;
          clear = (e, tt);
        })
  | inr ((b, a), e) ↦
      let parts = find_parts old s b a e in
      let less : length a < fuel = omega (arith, shorter old b a h, ap length parts) in
      let rest = replace-Pieces fuel old new a h less in
      rw (replace, count, e)
        (record {
          first = b;
          others = rest.first ∷ rest.others;
          many = ap suc rest.many;
          before = parts ∙ ap (λ t. b ++ (old ++ t)) rest.before;
          after = ap (λ t. b ++ (new ++ t)) rest.after;
          clear = (find_first old s b a h e, rest.clear);
        })
]

replace_none : (fuel : ℕ) (old new s : Bytes) → count fuel old s ≡ 0 → replace fuel old new s ≡ s
unfolding replace count
replace_none zero old new s h = refl
replace_none (suc fuel) old new s h = elim (Option-cases (find old s)) [
  | inl e ↦ rw (replace, e)
  | inr ((b, a), e) ↦ absurd (ground arith)
]

-- With one occurrence, both ways of replacing come to the same.
replace_one :
    (fuel : ℕ) (old new s : Bytes)
    → count fuel old s ≡ 1
    → replace fuel old new s ≡ replace_first old new s
unfolding replace count replace_first
replace_one zero old new s h = cc
replace_one (suc fuel) old new s h = elim (Option-cases (find old s)) [
  | inl e ↦ absurd (ground arith)
  | inr ((b, a), e) ↦
      let none_left : count fuel old a ≡ 0 = ground arith in
      rw (replace, replace_first, e)
        (ap (λ t. b ++ (new ++ t)) (replace_none fuel old new a none_left))
]

-- Where an edit goes on to write, the content is no binary, it is cut by the occurrences of
-- `old_string`, each found from the end of the one before, into pieces in which it does not occur, and
-- the new content is the same pieces with `new_string` between them. There is one occurrence at least,
-- and without `replace_all` exactly one.
pub edit_content-Pieces :
    (path old new content : Bytes) (replace_all : Bool) (content' summary : Bytes)
    → is_empty old ≡ false
    → edit_content path old new replace_all content ≡ edited content' summary
    → (looks_binary content ≡ false)
      × ((n : ℕ) × Pieces old new content content' n × (1 ≤ n) × (replace_all ≡ false → n ≡ 1))
unfolding edit_content rounds
edit_content-Pieces path old new content replace_all content' summary h e =
    let cut = replace-Pieces (rounds content) old new content h (omega arith) in
    let text : looks_binary content ≡ false = ground arith in
    let found : 1 ≤ count (rounds content) old content = ground arith in
    let single : replace_all ≡ false → count (rounds content) old content ≡ 1 = λ f. ground arith in
    let same : replace (rounds content) old new content ≡ content' = elim (Bool-cases replace_all) [
      | inl t ↦ ground arith
      | inr f ↦ ground (arith, replace_one (rounds content) old new content (single f))
    ] in
    (
      text,
      (
        count (rounds content) old content,
        subst (λ r. Pieces old new content r (count (rounds content) old content)) same cut,
        found,
        single,
      ),
    )
