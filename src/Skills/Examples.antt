-- ===== src/Skills/Examples.antt =====
-- The theorems on skills at concrete inputs.
use hai_code.Base.{Bytes, ◌+◌, ◌≡◌, ◌≤◌, refl, List, [], ◌∷◌, ◌++◌, codes, eq, length}
use hai_code.Compaction.Sizes.{total}
use hai_code.Skills.{SkillInfo, trim, trim_start, trim_end, is_blank}
use hai_code.Permission.Path.{is_empty}
use hai_code.Skills.Frontmatter.{unquote, is_block, parse_skill_frontmatter}
use hai_code.Skills.Frontmatter.Parts.{
  IsValue, with_frontmatter, parse_skill_frontmatter-with_frontmatter,
}
use hai_code.Skills.Block.{block_cap, preamble, build_skills_block}
use hai_code.Skills.Block.Bounds.{note_size, length-build_skills_block}

parse_skill_frontmatter-with_frontmatter_example :
    parse_skill_frontmatter
      (with_frontmatter (codes "commit") (codes "Writes: messages") (codes "Be brief."))
    ≡ record {
      body = codes "Be brief.";
      name = codes "commit";
      description = codes "Writes: messages";
    }
unfolding IsValue trim trim_end trim_start is_blank unquote is_empty is_block eq
parse_skill_frontmatter-with_frontmatter_example =
    parse_skill_frontmatter-with_frontmatter (codes "commit") (codes "Writes: messages")
      (codes "Be brief.") (refl, refl, refl) (refl, refl, refl) refl

abbrev skill : Bytes → SkillInfo
skill id = record { id = id; name = id; description = []; path = codes "/s/" ++ id }

abbrev skills : List SkillInfo
skills = skill (codes "alpha.md") ∷ skill (codes "beta") ∷ []

length-build_skills_block_example :
    length
      (build_skills_block skills (λ path. codes "Be brief.") (codes "beta" ∷ []) (codes "plan"))
    ≤ length (preamble (codes "plan")) + block_cap + total note_size (codes "beta" ∷ [])
length-build_skills_block_example =
    length-build_skills_block skills (λ path. codes "Be brief.") (codes "beta" ∷ []) (codes "plan")
