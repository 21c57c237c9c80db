-- ===== src/Skills/Frontmatter.antt =====
-- `parse_skill_frontmatter`.
pub mod Parts
use hai_code.Base.{
  Bytes, ℕ, zero, suc, ◌+◌, ◌-◌, Option, none, some, Bool, true, false, not, ◌&&◌, ◌||◌, List, [],
  ◌∷◌, ◌++◌, codes, eq, starts_with, length, take, drop, leb, ◌==◌, if◌then◌else◌,
}
use hai_code.Permission.Path.{is_empty}
use hai_code.Skills.{trim}

pub record Frontmatter : Type 0 where
  pub body : Bytes
  pub name : Bytes
  pub description : Bytes

-- The parts around the first ':'.
unfoldable pub split_colon : Bytes → Option (Bytes × Bytes)
split_colon [] = none
split_colon (c ∷ s) =
    let rest = split_colon s in
    if c == 58
    then some ([], s)
    else elim rest [ none ↦ none | some (key, value) ↦ some (c ∷ key, value) ]

last_is : ℕ → Bytes → Bool
last_is q [] = false
last_is q (c ∷ []) = c == q
last_is q (c ∷ d ∷ s) = last_is q (d ∷ s)

quoted_by : ℕ → Bytes → Bool
unfolding last_is
quoted_by q [] = false
quoted_by q (c ∷ s) = c == q && last_is q s

-- Matching quotes around the value are taken off.
unfoldable pub unquote : Bytes → Bytes
unfolding quoted_by
unquote value =
    if quoted_by 34 value || quoted_by 39 value
    then take (length value - 2) (drop 1 value)
    else value

unfoldable pub is_block : Bytes → Bool
is_block value =
    eq value (codes ">")
    || (eq value (codes "|") || (eq value (codes ">-") || eq value (codes "|-")))

-- The lines of a block scalar in one.
pub folded : Bytes → List Bytes → Bytes
folded text [] = text
folded text (line ∷ lines) =
    let next = trim line in
    folded (if is_empty next then text else if is_empty text then next else text ++ 32 ∷ next) lines

-- The loop over the lines between the fences.
pub fields : List Bytes → Bytes → Bytes → Bytes × Bytes
fields [] name description = (name, description)
fields (line ∷ lines) name description = elim (split_colon line) [
  | none ↦ fields lines name description
  | some (before, behind) ↦
      let key = trim before in
      let value = unquote (trim behind) in
      let named = fields lines value description in
      let described = fields lines name value in
      let rest = fields lines name description in
      if eq key (codes "name") && is_empty name
      then named
      else if eq key (codes "description") && is_empty description
      then if is_block value then (name, folded [] lines) else described
      else rest
]

-- The lines up to the closing fence and what stands behind it; `part` is the line so far.
unfoldable pub scan : Bytes → Bytes → Option (List Bytes × Bytes)
scan part [] = none
scan part (c ∷ s) =
    let next = scan [] s in
    let longer = scan (part ++ c ∷ []) s in
    if c == 10
    then if eq (trim part) (codes "---")
      then some ([], s)
      else elim next [ none ↦ none | some (lines, body) ↦ some (part ∷ lines, body) ]
    else longer

abbrev pub opening : Bytes
opening = codes "---" ++ 10 ∷ []

pub parse_skill_frontmatter : Bytes → Frontmatter
parse_skill_frontmatter content =
    let whole : Frontmatter = record { body = content; name = []; description = [] } in
    if starts_with opening content
    then elim (scan [] (drop 4 content)) [
      | none ↦ whole
      | some (lines, body) ↦
          let (name, description) = fields lines [] [] in
          record { body = body; name = name; description = description }
    ]
    else whole
