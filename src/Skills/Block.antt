-- ===== src/Skills/Block.antt =====
-- `build_skills_block`: the part of the system prompt with the skills that are enabled.
pub mod Bounds
use hai_code.Base.{
  Bytes, ℕ, ◌+◌, Option, none, some, Bool, true, false, not, ◌&&◌, ◌||◌, List, [], ◌∷◌, ◌++◌, codes,
  eq, length, ltb, ◌==◌, if◌then◌else◌,
}
use hai_code.Permission.Path.{is_empty}
use hai_code.Skills.{SkillInfo}
use hai_code.Skills.Frontmatter.{Frontmatter, parse_skill_frontmatter}
use hai_code.Skills.Invocation.{resolve_skill_path}

-- `kSkillsBlockCap`.
abbrev pub block_cap : ℕ
block_cap = 65536

-- The UTF-8 of a dash.
abbrev dash : Bytes
dash = 226 ∷ 128 ∷ 148 ∷ []

-- The part before the last slash.
before_slash : Bytes → Option Bytes
before_slash [] = none
before_slash (c ∷ s) =
    let rest = before_slash s in
    elim rest [ some t ↦ some (c ∷ t) | none ↦ if c == 47 then some [] else none ]

pub parent_dir : Bytes → Bytes
unfolding before_slash
parent_dir path = elim (before_slash path) [
  | none ↦ []
  | some dir ↦ if is_empty dir then codes "/" else dir
]

pub mode_note : Bytes → Bytes
mode_note mode =
    if eq mode (codes "plan")
    then 10 ∷ codes "This session is in Plan mode: bash, write, edit and "
      ++ codes "external_terminal are unavailable. Skills that require "
      ++ codes "running commands or changing files cannot be performed "
      ++ codes "right now "
      ++ dash
      ++ codes " use their guidance to shape the plan and "
      ++ codes "state what must wait for Build mode."
      ++ 10 ∷ []
    else if eq mode (codes "chat")
    then 10 ∷ codes "This session is in Chat mode: there is no local file, "
      ++ codes "shell or code access. Apply each skill's knowledge "
      ++ codes "conversationally, and say so instead of pretending to "
      ++ codes "have run or opened anything."
      ++ 10 ∷ []
    else []

pub preamble : Bytes → Bytes
unfolding mode_note
preamble mode =
    10 ∷ 10 ∷ codes "# Skills"
    ++ 10 ∷ 10 ∷ codes "The following skills are active operating instructions, not "
    ++ codes "reference documentation: apply each one whenever it is relevant "
    ++ codes "to the task at hand, without waiting to be asked."
    ++ 10 ∷ mode_note mode

location : Bytes → Bytes
unfolding parent_dir
location path =
    let dir = parent_dir path in
    codes "Location: "
    ++ path
    ++ (if is_empty dir
        then []
        else codes " (skill directory: "
          ++ dir
          ++ codes " "
          ++ dash
          ++ codes " resolve this skill's relative file and script "
          ++ codes "references against the skill directory, not the "
          ++ codes "project directory)")

pub section_of : Bytes → Bytes → Bytes → Bytes → Bytes → Bytes
unfolding location
section_of id path name description body =
    (10 ∷ 10 ∷ codes "## ")
    ++ name
    ++ codes " ("
    ++ id
    ++ codes ")"
    ++ (10 ∷ 10 ∷ location path)
    ++ (10
        ∷ 10
        ∷ (if is_empty description
            then []
            else codes "When to use: " ++ description ++ 10 ∷ 10 ∷ []))
    ++ body

pub too_large : Bytes → Bytes
too_large id =
    (10 ∷ 10 ∷ codes "[skill '") ++ (id ++ codes "' omitted: exceeds the skills block size cap]")

pub no_room : Bytes → Bytes
no_room id =
    (10 ∷ 10 ∷ codes "[skill '") ++ (id ++ codes "' omitted: skills block size cap reached]")

pub record Block : Type 0 where
  pub text : Bytes
  pub used : ℕ
  pub any_omitted : Bool

pub add_section : Bytes → Bytes → Block → Block
unfolding too_large no_room
add_section id section b =
    if ltb block_cap (length section)
    then record b { text = b.text ++ too_large id; any_omitted = true }
    else if ltb block_cap (b.used + length section)
    then record b { text = b.text ++ no_room id; any_omitted = true }
    else record b { text = b.text ++ section; used = b.used + length section }

module _ (skills : List SkillInfo) (read_file : Bytes → Bytes) where
  pub add_skill : Bytes → Block → Block
  unfolding section_of
  add_skill id b =
      let path = resolve_skill_path skills id in
      let f = parse_skill_frontmatter (read_file path) in
      let name = if is_empty f.name then id else f.name in
      if is_empty id || is_empty path
      then b
      else if is_empty f.body && is_empty f.name
      then b
      else add_section id (section_of id path name f.description f.body) b

  pub add_skills : List Bytes → Block → Block
  add_skills [] b = b
  add_skills (id ∷ ids) b = add_skills ids (add_skill id b)

  pub build_skills_block : List Bytes → Bytes → Bytes
  build_skills_block [] mode = []
  build_skills_block (id ∷ ids) mode =
      let b =
        add_skills (id ∷ ids) (record { text = preamble mode; used = 0; any_omitted = false }) in
      if b.used == 0 && not b.any_omitted then [] else b.text
