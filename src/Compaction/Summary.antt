-- ===== src/Compaction/Summary.antt =====
-- The summary that a model is asked for, and the test that what it writes has the sections.
pub mod Headings
use hai_code.Base.{
  Bytes, ℕ, ◌/◌, Bool, true, false, not, ◌&&◌, List, [], ◌∷◌, ◌++◌, codes, length, all, ltb, ◌==◌,
  if◌then◌else◌, joined, map,
}
use hai_code.Permission.Path.{is_empty}
use hai_code.Util.ProviderError.{to_lower, has_marker}
use hai_code.Compaction.{estimate_text_tokens}

abbrev pub required_summary_sections : List Bytes
required_summary_sections =
    codes "Objective"
    ∷ codes "Constraints & Decisions"
    ∷ codes "Completed Work"
    ∷ codes "Active Work"
    ∷ codes "Blockers"
    ∷ codes "Next Actions"
    ∷ codes "Relevant Files"
    ∷ []

pub canonical : Bytes → Bytes
canonical [] = []
canonical (c ∷ s) =
    let rest = canonical s in if c == 38 then codes "and" ++ rest else to_lower c ∷ rest

pub has_section : Bytes → Bytes → Bool
has_section lo section = has_marker lo (canonical (codes "## " ++ section))

-- No limit on the tokens is 0; the source has it for a negative one, too.
pub validate_summary : Bytes → ℕ → Bool
unfolding has_section
validate_summary summary max_tokens =
    not (is_empty summary)
    && (not (ltb 0 max_tokens && ltb max_tokens (estimate_text_tokens summary))
        && all (has_section (canonical summary)) required_summary_sections)
