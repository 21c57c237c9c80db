-- ===== src/Skills/Invocation.antt =====
-- `parse_skill_invocation` and `resolve_skill_path`: which skill a text or an id means.
pub mod Tiers
use hai_code.Base.{
  Bytes, ℕ, Option, none, some, Bool, true, false, not, ◌&&◌, List, [], ◌∷◌, ◌++◌, codes, eq, ◌==◌,
  if◌then◌else◌,
}
use hai_code.Permission.Path.{is_empty}
use hai_code.Skills.{SkillInfo, trim, trim_start, is_blank}

-- The first skill that passes the test.
pub find : (SkillInfo → Bool) → List SkillInfo → Option SkillInfo
find test [] = none
find test (sk ∷ sks) = let rest = find test sks in if test sk then some sk else rest

pub has_id : Bytes → SkillInfo → Bool
has_id id sk = eq sk.id id

-- The id is the command and ".md"; the command is not empty.
pub has_stem : Bytes → SkillInfo → Bool
has_stem cmd sk = eq sk.id (cmd ++ codes ".md")

-- The path, empty where there is none.
pub resolve_skill_path : List SkillInfo → Bytes → Bytes
resolve_skill_path skills id = elim (find (has_id id) skills) [ none ↦ [] | some sk ↦ sk.path ]

-- The bytes up to the next blank, and the rest.
pub token : Bytes → Bytes × Bytes
token [] = ([], [])
token (c ∷ s) = let (cmd, rest) = token s in if is_blank c then ([], c ∷ s) else (c ∷ cmd, rest)

pub lookup_skill : List SkillInfo → Bytes → Option SkillInfo
lookup_skill skills cmd = elim (find (has_id cmd) skills) [
  | some sk ↦ some sk
  | none ↦ find (has_stem cmd) skills
]

-- The command and the text behind it.
pub invoke : List SkillInfo → Bytes × Bytes → Option (SkillInfo × Bytes)
invoke skills (cmd, rest) =
    if is_empty cmd
    then none
    else elim (lookup_skill skills cmd) [ none ↦ none | some sk ↦ some (sk, trim rest) ]

-- The skill and the arguments, `none` where the text is no command of a skill.
pub parse_skill_invocation : List SkillInfo → Bytes → Option (SkillInfo × Bytes)
parse_skill_invocation skills text = elim (trim_start text) [
  | [] ↦ none
  | c ∷ s ↦ if c == 47 then invoke skills (token s) else none
]
