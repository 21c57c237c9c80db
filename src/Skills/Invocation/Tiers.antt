-- ===== src/Skills/Invocation/Tiers.antt =====
-- Which skill a command means.
use hai_code.Base.{
  Bytes, ◌≡◌, ◌⊎◌, refl, ap, ◌∙◌, sym, none, some, Option-cases, Bool-cases, inl, inr, Bool, true,
  false, not, List, [], ◌∷◌, ◌++◌, codes, eq_iff, all, arith,
}
use hai_code.Skills.{SkillInfo, is_blank}
use hai_code.Skills.Invocation.{find, has_id, has_stem, token, lookup_skill}

find-passes :
    (test : SkillInfo → Bool) (sks : List SkillInfo) (sk : SkillInfo)
    → find test sks ≡ some sk
    → test sk ≡ true
unfolding find
find-passes test [] sk e = cc e
find-passes test (s ∷ sks) sk e = elim (Bool-cases (test s)) [
  | inl passes ↦ let same : s ≡ sk = ground (arith, passes, e) in ap test (sym same) ∙ passes
  | inr fails ↦ find-passes test sks sk (ground (arith, fails, e))
]

find-none :
    (test : SkillInfo → Bool) (sks : List SkillInfo)
    → find test sks ≡ none
    → all (λ sk. not (test sk)) sks ≡ true
unfolding find
find-none test [] e = refl
find-none test (s ∷ sks) e =
    let rest = find-none test sks (ground (arith, e)) in ground (arith, e, rest)

find-has_id :
    (skills : List SkillInfo) (id : Bytes) (sk : SkillInfo)
    → find (has_id id) skills ≡ some sk
    → sk.id ≡ id
unfolding has_id
find-has_id skills id sk e = (eq_iff sk.id id).0 (find-passes (has_id id) skills sk e)

find-has_stem :
    (skills : List SkillInfo) (cmd : Bytes) (sk : SkillInfo)
    → find (has_stem cmd) skills ≡ some sk
    → sk.id ≡ cmd ++ codes ".md"
unfolding has_stem
find-has_stem skills cmd sk e =
    (eq_iff sk.id (cmd ++ codes ".md")).0 (find-passes (has_stem cmd) skills sk e)

-- A command means the skill with that id, if there is one, and else one whose file
-- is the command's with ".md"; if there is neither, it is no command.
pub lookup_skill_tiers :
    (skills : List SkillInfo) (cmd : Bytes)
    → ((sk : SkillInfo) × (lookup_skill skills cmd ≡ some sk) × (sk.id ≡ cmd))
      ⊎ ((sk : SkillInfo) × (lookup_skill skills cmd ≡ some sk)
          × (sk.id ≡ cmd ++ codes ".md")
          × (all (λ s. not (has_id cmd s)) skills ≡ true))
      ⊎ ((lookup_skill skills cmd ≡ none)
          × (all (λ s. not (has_id cmd s)) skills ≡ true)
          × (all (λ s. not (has_stem cmd s)) skills ≡ true))
unfolding lookup_skill
lookup_skill_tiers skills cmd = elim (Option-cases (find (has_id cmd) skills)) [
  | inr (sk, found) ↦ inl (sk, ground (arith, found), find-has_id skills cmd sk found)
  | inl no_id ↦ elim (Option-cases (find (has_stem cmd) skills)) [
    | inr (sk, found) ↦ inr (
        inl (
          sk,
          ground (arith, no_id, found),
          find-has_stem skills cmd sk found,
          find-none (has_id cmd) skills no_id,
        ))
    | inl no_stem ↦ inr (
        inr (
          ground (arith, no_id, no_stem),
          find-none (has_id cmd) skills no_id,
          find-none (has_stem cmd) skills no_stem,
        ))
  ]
]

token_whole : (cmd : Bytes) → all (λ c. not (is_blank c)) cmd ≡ true → token cmd ≡ (cmd, [])
unfolding token
token_whole [] h = refl
token_whole (c ∷ s) h =
    let rest = token_whole s (ground (arith, h)) in
    let word : is_blank c ≡ false = ground (arith, h) in rw (rest, word) refl
