-- ===== src/Skills/Block/Bounds.antt =====
-- The size of the block.
use hai_code.Base.{
  Bytes, ℕ, ◌+◌, ◌≡◌, ◌≤◌, false, ◌&&◌, ◌||◌, List, [], ◌∷◌, codes, length, length-append,
  if◌then◌else◌, arith, Bool-cases, inl, inr,
}
use hai_code.Permission.Path.{is_empty}
use hai_code.Compaction.Sizes.{total}
use hai_code.Skills.{SkillInfo}
use hai_code.Skills.Frontmatter.{parse_skill_frontmatter}
use hai_code.Skills.Invocation.{resolve_skill_path}
use hai_code.Skills.Block.{
  block_cap, preamble, section_of, too_large, no_room, Block, add_section, add_skill, add_skills,
  build_skills_block,
}

-- What a note on a skill that is left out takes at most.
pub note_size : Bytes → ℕ
note_size id = length id + 64

too_large_size : (id : Bytes) → length (too_large id) ≤ note_size id
unfolding too_large note_size
too_large_size id =
    omega (arith, length-append id (codes "' omitted: exceeds the skills block size cap]"))

no_room_size : (id : Bytes) → length (no_room id) ≤ note_size id
unfolding no_room note_size
no_room_size id =
    omega (arith, length-append id (codes "' omitted: skills block size cap reached]"))

-- What has been put in: `base` bytes, the sections, and notes of `notes` bytes.
IsBounded : ℕ → ℕ → Block → Type 0
IsBounded base notes b = (b.used ≤ block_cap) × (length b.text ≤ base + b.used + notes)

more_notes :
    (base notes : ℕ) (id : Bytes) (b : Block)
    → IsBounded base notes b
    → IsBounded base (note_size id + notes) b
unfolding IsBounded
more_notes base notes id b h = (h.0, omega (arith, h.1))

add_section-IsBounded :
    (base notes : ℕ) (id section : Bytes) (b : Block)
    → IsBounded base notes b
    → IsBounded base (note_size id + notes) (add_section id section b)
unfolding IsBounded add_section
add_section-IsBounded base notes id section b h = ground (
  arith,
  h,
  too_large_size id,
  no_room_size id,
  length-append b.text (too_large id),
  length-append b.text (no_room id),
  length-append b.text section,
)

module _ (skills : List SkillInfo) (read_file : Bytes → Bytes) (base : ℕ) where
  add_skill-IsBounded :
      (notes : ℕ) (id : Bytes) (b : Block)
      → IsBounded base notes b
      → IsBounded base (note_size id + notes) (add_skill skills read_file id b)
  unfolding add_skill
  add_skill-IsBounded notes id b h =
      let path = resolve_skill_path skills id in
      let f = parse_skill_frontmatter (read_file path) in
      let name = if is_empty f.name then id else f.name in
      elim (Bool-cases (is_empty id || is_empty path)) [
        | inl unknown ↦ rw unknown (more_notes base notes id b h)
        | inr known ↦ elim (Bool-cases (is_empty f.body && is_empty f.name)) [
          | inl unreadable ↦ rw (known, unreadable) (more_notes base notes id b h)
          | inr read ↦
              rw (known, read)
                (add_section-IsBounded base notes id (section_of id path name f.description f.body)
                  b h)
        ]
      ]

  add_skills-IsBounded :
      (notes : ℕ) (ids : List Bytes) (b : Block)
      → IsBounded base notes b
      → IsBounded base (total note_size ids + notes) (add_skills skills read_file ids b)
  unfolding add_skills total
  add_skills-IsBounded notes [] b h = let e : 0 + notes ≡ notes = omega arith in rw e h
  add_skills-IsBounded notes (id ∷ ids) b h =
      let e : note_size id + total note_size ids + notes
          ≡ total note_size ids + (note_size id + notes) =
        omega arith in
      rw e (
        add_skills-IsBounded (note_size id + notes) ids (add_skill skills read_file id b)
          (add_skill-IsBounded notes id b h))

-- Whatever the skills' files hold, the block takes no more than its preamble, 64 KiB of skills and a
-- short note for each skill that is enabled.
pub length-build_skills_block :
    (skills : List SkillInfo) (read_file : Bytes → Bytes) (ids : List Bytes) (mode : Bytes)
    → length (build_skills_block skills read_file ids mode)
      ≤ length (preamble mode) + block_cap + total note_size ids
unfolding build_skills_block IsBounded
length-build_skills_block skills read_file [] mode = omega arith
length-build_skills_block skills read_file (id ∷ ids) mode =
    let b : Block = record { text = preamble mode; used = 0; any_omitted = false } in
    let bound =
      add_skills-IsBounded skills read_file (length (preamble mode)) 0 (id ∷ ids) b
        (omega arith, omega arith) in
    ground (arith, bound)
