-- ===== src/Skills/Frontmatter/Parts.antt =====
-- The body and the fields of a skill's text.
use hai_code.Base.{
  Bytes, ℕ, ◌≡◌, refl, ap, ◌∙◌, sym, Option, none, some, Option-cases, Bool-cases, inl, inr, Bool,
  true, false, not, List, [], ◌∷◌, ◌++◌, codes, eq, starts_with, starts_with-append, take, drop,
  take-drop, ◌==◌, if◌then◌else◌, all, arith,
}
use mathlib.Core.List.{append_assoc, append-nil}
use hai_code.Permission.Path.{is_empty}
use hai_code.Skills.{trim, trim_start, trim_end, is_blank}
use hai_code.Skills.Frontmatter.{
  Frontmatter, split_colon, unquote, is_block, fields, scan, opening, parse_skill_frontmatter,
}

scan-suffix :
    (part s : Bytes) (lines : List Bytes) (body : Bytes)
    → scan part s ≡ some (lines, body)
    → (head : Bytes) × (s ≡ head ++ body)
unfolding scan
scan-suffix part [] lines body e = cc e
scan-suffix part (c ∷ s) lines body e = elim (Bool-cases (c == 10)) [
  | inr inside ↦
      let (head, same) = scan-suffix (part ++ c ∷ []) s lines body (ground (arith, inside, e)) in
      (c ∷ head, ap (λ (t : Bytes). c ∷ t) same)
  | inl end ↦ elim (Bool-cases (eq (trim part) (codes "---"))) [
    | inl fence ↦
        let same : s ≡ body = ground (arith, end, fence, e) in
        (c ∷ [], ap (λ (t : Bytes). c ∷ t) same)
    | inr line ↦ elim (Option-cases (scan [] s)) [
      | inl none_left ↦ absurd (ground (arith, end, line, none_left, e))
      | inr ((rest, last), found) ↦
          let same : last ≡ body = ground (arith, end, line, found, e) in
          let (head, cut) = scan-suffix [] s rest last found in
          (c ∷ head, ap (λ (t : Bytes). c ∷ t) (cut ∙ ap (λ (b : Bytes). head ++ b) same))
    ]
  ]
]

abbrev pub no_newline : Bytes → Bool
no_newline = all (λ c. not (c == 10))

-- A line and its end.
next_line : Bytes → Bytes → Option (List Bytes × Bytes)
next_line line s =
    if eq (trim line) (codes "---")
    then some ([], s)
    else elim (scan [] s) [ none ↦ none | some (lines, body) ↦ some (line ∷ lines, body) ]

scan-line :
    (part line s : Bytes)
    → no_newline line ≡ true
    → scan part (line ++ 10 ∷ s) ≡ next_line (part ++ line) s
unfolding scan next_line
scan-line part [] s h = ap (λ (t : Bytes). next_line t s) (sym (append-nil part))
scan-line part (c ∷ line) s h =
    let inside : (c == 10) ≡ false = ground (arith, h) in
    let rest = scan-line (part ++ c ∷ []) line s (ground (arith, h)) in
    rw inside (rest ∙ ap (λ (t : Bytes). next_line t s) (append_assoc part (c ∷ []) line))

trim_end-field :
    (c : ℕ) (t : Bytes)
    → is_blank c ≡ false
    → (c == 45) ≡ false
    → eq (trim_end (c ∷ t)) (codes "---") ≡ false
unfolding trim_end eq
trim_end-field c t b d = rw b (ground arith)

trim-field :
    (c : ℕ) (t : Bytes)
    → is_blank c ≡ false
    → (c == 45) ≡ false
    → eq (trim (c ∷ t)) (codes "---") ≡ false
unfolding trim trim_start
trim-field c t b d = rw b (trim_end-field c t b d)

next_line-field :
    (c : ℕ) (t s : Bytes) (lines : List Bytes) (body : Bytes)
    → is_blank c ≡ false
    → (c == 45) ≡ false
    → scan [] s ≡ some (lines, body)
    → next_line (c ∷ t) s ≡ some ((c ∷ t) ∷ lines, body)
unfolding next_line
next_line-field c t s lines body b d e = rw (trim-field c t b d, e) refl

next_line-fence : (s : Bytes) → next_line (codes "---") s ≡ some ([], s)
unfolding next_line trim trim_start trim_end eq is_blank is_empty
next_line-fence s = refl

-- The front matter as it is written by hand.
abbrev pub with_frontmatter : Bytes → Bytes → Bytes → Bytes
with_frontmatter name description body =
    opening
    ++ (codes "name: "
        ++ (name
            ++ (10
                ∷ (codes "description: " ++ (description ++ (10 ∷ (codes "---" ++ (10 ∷ body))))))))

-- A value that is read as it is written.
unfoldable pub IsValue : Bytes → Type 0
IsValue v = (no_newline v ≡ true) × (trim v ≡ v) × (unquote v ≡ v)

lines_of : Bytes → Bytes → List Bytes
lines_of name description = (codes "name: " ++ name) ∷ (codes "description: " ++ description) ∷ []

scan-with_frontmatter :
    (name description body : Bytes)
    → no_newline name ≡ true
    → no_newline description ≡ true
    → scan [] (drop 4 (with_frontmatter name description body))
      ≡ some (lines_of name description, body)
unfolding drop lines_of is_blank
scan-with_frontmatter name description body n d =
    let fence = scan-line [] (codes "---") body refl ∙ next_line-fence body in
    let behind = description ++ (10 ∷ (codes "---" ++ (10 ∷ body))) in
    let described =
      scan-line [] (codes "description: " ++ description) (codes "---" ++ (10 ∷ body)) d
      ∙ next_line-field 100 (codes "escription: " ++ description) (codes "---" ++ (10 ∷ body)) []
          body refl refl fence in
    scan-line [] (codes "name: " ++ name) (codes "description: " ++ behind) n
    ∙ next_line-field 110 (codes "ame: " ++ name) (codes "description: " ++ behind)
        ((codes "description: " ++ description) ∷ []) body refl refl described

trim_blank : (v : Bytes) → trim (32 ∷ v) ≡ trim v
unfolding trim trim_start is_blank
trim_blank v = refl

key_name : trim (codes "name") ≡ codes "name"
unfolding trim trim_start trim_end is_blank is_empty
key_name = refl

key_description : trim (codes "description") ≡ codes "description"
unfolding trim trim_start trim_end is_blank is_empty
key_description = refl

fields-lines_of :
    (name description : Bytes)
    → trim name ≡ name
    → unquote name ≡ name
    → trim description ≡ description
    → unquote description ≡ description
    → is_block description ≡ false
    → fields (lines_of name description) [] [] ≡ (name, description)
unfolding fields lines_of split_colon eq is_empty
fields-lines_of name description tn un td ud b =
    let name_read = trim_blank name ∙ tn in
    let description_read = trim_blank description ∙ td in
    rw (key_name, key_description, name_read, description_read, un, ud, b) refl

parse_found :
    (content : Bytes) (lines : List Bytes) (body : Bytes)
    → starts_with opening content ≡ true
    → scan [] (drop 4 content) ≡ some (lines, body)
    → parse_skill_frontmatter content
      ≡ record { body = body; name = (fields lines [] []).0; description = (fields lines [] []).1 }
unfolding parse_skill_frontmatter
parse_found content lines body h e = rw (h, e) refl

parse_open :
    (content : Bytes)
    → scan [] (drop 4 content) ≡ none
    → (parse_skill_frontmatter content).body ≡ content
unfolding parse_skill_frontmatter
parse_open content e = ground (arith, e)

parse_plain :
    (content : Bytes)
    → starts_with opening content ≡ false
    → (parse_skill_frontmatter content).body ≡ content
unfolding parse_skill_frontmatter
parse_plain content h = rw h refl

-- The body is the end of the text.
pub parse_skill_frontmatter-suffix :
    (content : Bytes) → (head : Bytes) × (content ≡ head ++ (parse_skill_frontmatter content).body)
parse_skill_frontmatter-suffix content = elim (Bool-cases (starts_with opening content)) [
  | inr plain ↦ ([], sym (parse_plain content plain))
  | inl fenced ↦ elim (Option-cases (scan [] (drop 4 content))) [
    | inl none_closed ↦ ([], sym (parse_open content none_closed))
    | inr ((lines, body), found) ↦
        let (head, cut) = scan-suffix [] (drop 4 content) lines body found in
        let read = ap (λ (f : Frontmatter). f.body) (parse_found content lines body fenced found) in
        (
          take 4 content ++ head,
          take-drop 4 content
              ∙ ap (λ (t : Bytes). take 4 content ++ t) cut
              ∙ sym (append_assoc (take 4 content) head body)
              ∙ ap (λ (t : Bytes). (take 4 content ++ head) ++ t) (sym read),
        )
  ]
]

-- A name and a description that are written between the fences are read back, and the body with them,
-- if they have no line end, no blanks around them and no quotes around them, and the description does
-- not announce a block.
pub parse_skill_frontmatter-with_frontmatter :
    (name description body : Bytes)
    → IsValue name
    → IsValue description
    → is_block description ≡ false
    → parse_skill_frontmatter (with_frontmatter name description body)
      ≡ record { body = body; name = name; description = description }
unfolding IsValue
parse_skill_frontmatter-with_frontmatter name description body (n, tn, un) (d, td, ud) b =
    let read = fields-lines_of name description tn un td ud b in
    parse_found (with_frontmatter name description body) (lines_of name description) body
      (starts_with-append opening _) (scan-with_frontmatter name description body n d)
    ∙ ap (λ (f : Bytes × Bytes). record { body = body; name = f.0; description = f.1 }) read
