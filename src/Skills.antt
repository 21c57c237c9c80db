-- ===== src/Skills.antt =====
-- lib/src/skills/skills.cpp: what is read out of the text of a skill, the block of the system prompt
-- with the skills that are enabled, and the commands that name one. The skills of a project are a
-- parameter, as `list_skills` lists them, and so is the text of a file.
pub mod Frontmatter
pub mod Block
pub mod Invocation
mod Examples
use hai_code.Base.{
  Bytes, ℕ, Bool, true, false, ◌||◌, ◌&&◌, List, [], ◌∷◌, ◌++◌, Option, none, some, ◌==◌, eq,
  if◌then◌else◌,
}
use hai_code.Permission.Path.{is_empty}

pub record SkillInfo : Type 0 where
  pub id : Bytes
  pub name : Bytes
  pub description : Bytes
  pub path : Bytes

unfoldable pub is_blank : ℕ → Bool
is_blank c = c == 32 || (c == 9 || (c == 13 || c == 10))

pub trim_start : Bytes → Bytes
trim_start [] = []
trim_start (c ∷ s) = let rest = trim_start s in if is_blank c then rest else c ∷ s

unfoldable pub trim_end : Bytes → Bytes
trim_end [] = []
trim_end (c ∷ s) = let rest = trim_end s in if is_blank c && is_empty rest then [] else c ∷ rest

unfoldable pub trim : Bytes → Bytes
trim s = trim_end (trim_start s)
