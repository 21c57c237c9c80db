-- ===== src/Permission/Bash/Quoting.antt =====
-- Shell quoting by itself, and that a round of the loop in `bash_pattern_authorizes` follows it.
use hai_code.Base.{
  Bytes, ℕ, ◌≡◌, refl, ap, ◌∙◌, ◌⊎◌, Bool, true, false, ◌&&◌, ◌||◌, Option, none, some, [], ◌∷◌,
  ◌==◌, if◌then◌else◌, arith, inl, inr,
}
use hai_code.Permission.Bash.{
  Scan, Step, one, two, step, scan, flush, backslash, trim, push_segment, in_quote, unquoted, mark,
  marks_subst, round, is, close,
}

-- Whether a text that starts inside the quote `q` ends outside quotes and in no open escape. This
-- is the shell's quoting by itself, without separators and segments.
unfoldable pub ends_outside : Option ℕ → Bytes → Bool
ends_outside none [] = true
ends_outside (some q) [] = false
ends_outside none (c ∷ []) =
    if c == backslash then false else if c == 39 || c == b'"' then false else true
ends_outside (some q) (c ∷ []) = c == q
ends_outside none (c ∷ d ∷ rest) =
    let skip = ends_outside none rest in
    let open_quote = ends_outside (some c) (d ∷ rest) in
    let on = ends_outside none (d ∷ rest) in
    if c == backslash then skip else if c == 39 || c == b'"' then open_quote else on
ends_outside (some q) (c ∷ d ∷ rest) =
    let skip = ends_outside (some q) rest in
    let closed = ends_outside none (d ∷ rest) in
    let on = ends_outside (some q) (d ∷ rest) in
    if q == b'"' && c == backslash then skip else if c == q then closed else on

push_segment-quote : (s : Bytes) (st : Scan) → (push_segment s st).quote ≡ st.quote
unfolding push_segment
push_segment-quote [] st = refl
push_segment-quote (c ∷ s) st = refl

pub flush-quote : (st : Scan) → (flush st).quote ≡ st.quote
unfolding flush
flush-quote st = push_segment-quote (trim st.cur) st

ends-plain :
    (c : ℕ) (rest : Bytes)
    → (c == backslash) ≡ false
    → (c == 39 || c == b'"') ≡ false
    → ends_outside none (c ∷ rest) ≡ ends_outside none rest
unfolding ends_outside
ends-plain c [] h k = ground arith
ends-plain c (d ∷ rest) h k = ground arith

-- What a round leaves to read still ends as the whole did.
abbrev pub Keeps : Bool → ℕ → Bytes → Step → Type 0
Keeps target d rest (one st) = ends_outside st.quote (d ∷ rest) ≡ target
Keeps target d rest (two st) = ends_outside st.quote rest ≡ target

unquoted-Keeps :
    (prev : Option ℕ) (c d : ℕ) (rest : Bytes) (st : Scan)
    → st.quote ≡ none
    → Keeps (ends_outside none (c ∷ d ∷ rest)) d rest (unquoted prev c (some d) st)
unfolding unquoted ends_outside step
unquoted-Keeps prev c d rest st e = ground (arith, flush-quote st, ends-plain d rest)

in_quote-Keeps :
    (q c d : ℕ) (rest : Bytes) (st : Scan)
    → st.quote ≡ some q
    → Keeps (ends_outside (some q) (c ∷ d ∷ rest)) d rest (in_quote q c (some d) st)
unfolding in_quote ends_outside step
in_quote-Keeps q c d rest st e = ground arith

mark-quote : (b : Bool) (st : Scan) → (mark b st).quote ≡ st.quote
unfolding mark
mark-quote b st = ground arith

pub step-none :
    (prev : Option ℕ) (c : ℕ) (look : Option ℕ) (st : Scan)
    → st.quote ≡ none
    → step prev c look st ≡ unquoted prev c look st
unfolding step
step-none prev c look st e = ap (λ q. round q prev c look st) e

step-some :
    (prev : Option ℕ) (c : ℕ) (look : Option ℕ) (st : Scan) (q : ℕ)
    → st.quote ≡ some q
    → step prev c look st ≡ in_quote q c look (mark (marks_subst c look) st)
unfolding step
step-some prev c look st q e = ap (λ r. round r prev c look st) e

pub step-Keeps :
    (prev : Option ℕ) (c d : ℕ) (rest : Bytes) (st : Scan) (q : Option ℕ)
    → st.quote ≡ q
    → Keeps (ends_outside q (c ∷ d ∷ rest)) d rest (step prev c (some d) st)
step-Keeps prev c d rest st none e =
    rw (step-none prev c (some d) st e) (unquoted-Keeps prev c d rest st e)
step-Keeps prev c d rest st (some q) e =
    rw (step-some prev c (some d) st q e)
      (in_quote-Keeps q c d rest _ (mark-quote (marks_subst c (some d)) st ∙ e))

pub scan-semicolon :
    (st : Scan) (prev : Option ℕ) (b : Bytes)
    → st.quote ≡ none
    → scan st prev (b';' ∷ b) ≡ scan (flush st) (some b';') b
unfolding scan unquoted
scan-semicolon st prev [] e = rw (step-none prev b';' none st e, scan)
scan-semicolon st prev (d ∷ b) e = rw (step-none prev b';' (some d) st e, scan)

pub Step-cases : (s : Step) → ((st : Scan) × (s ≡ one st)) ⊎ ((st : Scan) × (s ≡ two st))
Step-cases (one st) = inl (st, refl)
Step-cases (two st) = inr (st, refl)

-- A byte that no separator of two bytes ends with.
abbrev pub IsPlain : ℕ → Type 0
IsPlain x = ((x == b'|') ≡ false) × ((x == b'&') ≡ false)

last_not_two :
    (prev : Option ℕ) (c : ℕ) (st st' : Scan) (q : Option ℕ) (x : ℕ)
    → IsPlain x
    → st.quote ≡ q
    → ends_outside q (c ∷ []) ≡ true
    → step prev c (some x) st ≡ two st'
    → ⊥
unfolding step ends_outside
last_not_two prev c st st' none x n e h k = ground (arith, step-none prev c (some x) st e)
last_not_two prev c st st' (some q) x n e h k = ground (arith, step-some prev c (some x) st q e)

last_quote :
    (prev : Option ℕ) (c : ℕ) (st st' : Scan) (q : Option ℕ) (x : ℕ)
    → IsPlain x
    → st.quote ≡ q
    → ends_outside q (c ∷ []) ≡ true
    → step prev c (some x) st ≡ one st'
    → st'.quote ≡ none
unfolding step ends_outside
last_quote prev c st st' none x n e h k =
    ground (arith, step-none prev c (some x) st e, flush-quote st)
last_quote prev c st st' (some q) x n e h k = ground (arith, step-some prev c (some x) st q e)

-- The last byte before a plain one is read alone, and ends outside quotes.
pub last_round :
    (prev : Option ℕ) (c : ℕ) (st : Scan) (q : Option ℕ) (x : ℕ)
    → IsPlain x
    → st.quote ≡ q
    → ends_outside q (c ∷ []) ≡ true
    → (st' : Scan) × (step prev c (some x) st ≡ one st') × (st'.quote ≡ none)
unfolding step ends_outside
last_round prev c st q x n e h = elim (Step-cases (step prev c (some x) st)) [
  | inl (st', e') ↦ (st', e', last_quote prev c st st' q x n e h e')
  | inr (st', e') ↦ absurd (last_not_two prev c st st' q x n e h e')
]

pub quote_unclosed : (q : ℕ) → ends_outside (some q) [] ≡ true → ⊥
unfolding ends_outside
quote_unclosed q h = cc

-- What is read last does not see whether a `;` comes behind it.
pub last_unseen :
    (prev : Option ℕ) (c : ℕ) (st : Scan) (q : Option ℕ)
    → st.quote ≡ q
    → ends_outside q (c ∷ []) ≡ true
    → (c == b'&') ≡ false
    → step prev c none st ≡ step prev c (some b';') st
unfolding ends_outside unquoted in_quote is marks_subst close step
last_unseen prev c st none e h n =
    ground (arith, step-none prev c none st e, step-none prev c (some b';') st e)
last_unseen prev c st (some q) e h n =
    ground (arith, step-some prev c none st q e, step-some prev c (some b';') st q e)
