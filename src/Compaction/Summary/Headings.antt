-- ===== src/Compaction/Summary/Headings.antt =====
-- The headings that a summary is accepted with.
use hai_code.Base.{
  Bytes, ℕ, ◌≡◌, refl, ap, ◌∙◌, sym, true, false, ◌&&◌, List, [], ◌∷◌, ◌++◌, codes, all, ltb, ◌==◌,
  starts_with-append, Bool-cases, inl, inr,
}
use mathlib.Core.List.{append_assoc}
use hai_code.Permission.Path.{is_empty}
use hai_code.Util.ProviderError.Classes.{has_marker_start, has_marker-behind}
use hai_code.Compaction.{estimate_text_tokens}
use hai_code.Compaction.Summary.{
  canonical, has_section, validate_summary, required_summary_sections,
}

canonical-append : (s t : Bytes) → canonical (s ++ t) ≡ canonical s ++ canonical t
unfolding canonical
canonical-append [] t = refl
canonical-append (c ∷ s) t =
    let rest = canonical-append s t in
    elim (Bool-cases (c == 38)) [
      | inl ampersand ↦ rw (ampersand, rest) refl
      | inr other ↦ rw (other, rest) refl
    ]

-- Sections as a model writes them, each a heading and what stands under it.
unfoldable pub written : List (Bytes × Bytes) → Bytes
written [] = []
written ((heading, body) ∷ rest) = codes "## " ++ (heading ++ (body ++ written rest))

-- The headings are the sections', up to the case of letters, and with "and" for "&".
pub SameHeadings : List (Bytes × Bytes) → List Bytes → Type 0
SameHeadings [] [] = Unit
SameHeadings [] (_ ∷ _) = ⊥
SameHeadings (_ ∷ _) [] = ⊥
SameHeadings ((heading, _) ∷ rest) (section ∷ sections) =
    (canonical heading ≡ canonical section) × SameHeadings rest sections

has_section_here :
    (before heading section rest : Bytes)
    → canonical heading ≡ canonical section
    → has_section (canonical (before ++ (codes "## " ++ (heading ++ rest)))) section ≡ true
unfolding has_section
has_section_here before heading section rest same =
    let mark = canonical (codes "## ") in
    let inner : canonical (codes "## " ++ (heading ++ rest))
        ≡ (mark ++ canonical section) ++ canonical rest =
      canonical-append (codes "## ") (heading ++ rest)
      ∙ ap (λ (t : Bytes). mark ++ t)
          (canonical-append heading rest ∙ ap (λ (t : Bytes). t ++ canonical rest) same)
      ∙ sym (append_assoc mark (canonical section) (canonical rest)) in
    let needle = canonical-append (codes "## ") section in
    rw (canonical-append before (codes "## " ++ (heading ++ rest)), inner, needle)
      (has_marker-behind (canonical before) ((mark ++ canonical section) ++ canonical rest)
        (mark ++ canonical section)
        (has_marker_start (mark ++ canonical section)
          ((mark ++ canonical section) ++ canonical rest)
          (starts_with-append (mark ++ canonical section) (canonical rest))))

written_next :
    (before heading body rest : Bytes)
    → before ++ (codes "## " ++ (heading ++ (body ++ rest)))
      ≡ (before ++ (codes "## " ++ (heading ++ body))) ++ rest
written_next before heading body rest =
    let mark = codes "## " in
    let under = append_assoc heading body rest in
    let marked = append_assoc mark (heading ++ body) rest in
    sym (
      append_assoc before (mark ++ (heading ++ body)) rest
      ∙ ap (λ (t : Bytes). before ++ t) (marked ∙ ap (λ (t : Bytes). mark ++ t) under))

has_sections :
    (text before : Bytes) (ps : List (Bytes × Bytes)) (sections : List Bytes)
    → text ≡ before ++ written ps
    → SameHeadings ps sections
    → all (has_section (canonical text)) sections ≡ true
unfolding written SameHeadings
has_sections text before [] [] e same = refl
has_sections text before ((heading, body) ∷ rest) (section ∷ sections) e same =
    let here = has_section_here before heading section (body ++ written rest) same.0 in
    let found = ap (λ (t : Bytes). has_section (canonical t) section) e ∙ here in
    let next = e ∙ written_next before heading body (written rest) in
    rw found
      (has_sections text (before ++ (codes "## " ++ (heading ++ body))) rest sections next same.1)
has_sections text before [] (section ∷ sections) e same = elim same [ ]
has_sections text before ((heading, body) ∷ rest) [] e same = elim same [ ]

is_empty-written :
    (before : Bytes) (ps : List (Bytes × Bytes))
    → SameHeadings ps required_summary_sections
    → is_empty (before ++ written ps) ≡ false
unfolding written SameHeadings is_empty
is_empty-written before [] same = elim same [ ]
is_empty-written [] (p ∷ ps) same = refl
is_empty-written (c ∷ before) (p ∷ ps) same = refl

-- A summary with the required headings in their order, in any case and with "and" for "&", is
-- accepted whatever stands before, under and between them, if it keeps to the tokens that are
-- allowed.
pub validate_summary-written :
    (before : Bytes) (ps : List (Bytes × Bytes)) (max_tokens : ℕ)
    → SameHeadings ps required_summary_sections
    → (ltb 0 max_tokens && ltb max_tokens (estimate_text_tokens (before ++ written ps))) ≡ false
    → validate_summary (before ++ written ps) max_tokens ≡ true
unfolding validate_summary
validate_summary-written before ps max_tokens same within =
    rw (is_empty-written before ps same, within)
      (has_sections (before ++ written ps) before ps required_summary_sections refl same)
