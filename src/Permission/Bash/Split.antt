-- ===== src/Permission/Bash/Split.antt =====
-- What the split makes of a separator: `;` outside quotes cuts a command in two.
use mathlib.Core.List.{append-nil}
use hai_code.Base.{
  Bytes, ℕ, ◌≡◌, refl, ap, ◌∙◌, Bool, true, false, Option, none, some, List, [], ◌∷◌, ◌++◌, arith,
  inl, inr, sym, ◌==◌,
}
use hai_code.Permission.Bash.Quoting.{
  ends_outside, IsPlain, step-Keeps, last_unseen, scan-semicolon, Step-cases, last_round,
  quote_unclosed, flush-quote,
}
use hai_code.Permission.Bash.Prefix.{with_prefix, scan-with_prefix}
use hai_code.Permission.Bash.{
  Scan, one, two, step, scan, flush, start, split_segments, trim, push_segment, unquoted,
  drop_blanks,
}

-- Reading on to a plain byte outside quotes arrives there outside quotes, whatever follows.
abbrev pub Reads : Scan → Option ℕ → Bytes → ℕ → Type 0
Reads st prev a x =
    (st' : Scan) × (at : Option ℕ) × (st'.quote ≡ none)
    × ((b : Bytes) → scan st prev (a ++ x ∷ b) ≡ scan st' at (x ∷ b))

Reads-one :
    (st st' : Scan) (prev : Option ℕ) (c d : ℕ) (rest : Bytes) (x : ℕ)
    → step prev c (some d) st ≡ one st'
    → Reads st' (some c) (d ∷ rest) x
    → Reads st prev (c ∷ d ∷ rest) x
unfolding scan
Reads-one st st' prev c d rest x e (s, at, k, h) = (s, at, k, λ b. rw (e, scan) (h b))

Reads-two :
    (st st' : Scan) (prev : Option ℕ) (c d : ℕ) (rest : Bytes) (x : ℕ)
    → step prev c (some d) st ≡ two st'
    → Reads st' (some d) rest x
    → Reads st prev (c ∷ d ∷ rest) x
unfolding scan
Reads-two st st' prev c d rest x e (s, at, k, h) = (s, at, k, λ b. rw (e, scan) (h b))

pub scan-Reads :
    (a : Bytes) (st : Scan) (prev : Option ℕ) (q : Option ℕ) (x : ℕ)
    → IsPlain x
    → st.quote ≡ q
    → ends_outside q a ≡ true
    → Reads st prev a x
unfolding scan
scan-Reads [] st prev none x n e h = (st, prev, e, λ b. refl)
scan-Reads [] st prev (some q) x n e h = absurd (quote_unclosed q h)
scan-Reads (c ∷ []) st prev q x n e h =
    let (st', e', k) = last_round prev c st q x n e h in (st', some c, k, λ b. rw (e', scan))
scan-Reads (c ∷ d ∷ rest) st prev q x n e h =
    let kept = step-Keeps prev c d rest st q e in
    elim (Step-cases (step prev c (some d) st)) [
      | inl (st', e') ↦
          Reads-one st st' prev c d rest x e'
            (scan-Reads (d ∷ rest) st' (some c) st'.quote x n refl ((rw e' at kept) ∙ h))
      | inr (st', e') ↦
          Reads-two st st' prev c d rest x e'
            (scan-Reads rest st' (some d) st'.quote x n refl ((rw e' at kept) ∙ h))
    ]

push_segment-empties :
    (s : Bytes) (st : Scan)
    → ((push_segment s st).cur ≡ []) × ((push_segment s st).cur_subst ≡ false)
unfolding push_segment
push_segment-empties [] st = (refl, refl)
push_segment-empties (c ∷ s) st = (refl, refl)

flush_empties : (st : Scan) → ((flush st).cur ≡ []) × ((flush st).cur_subst ≡ false)
unfolding flush
flush_empties st = push_segment-empties (trim st.cur) st

-- After a flush outside quotes only the segments tell the state from a fresh start.
flush-fresh : (st : Scan) → st.quote ≡ none → flush st ≡ with_prefix (flush st).segments start
flush-fresh st e =
    let k = flush-quote st in ground (arith, append-nil (flush st).segments, flush_empties st)

scan-start : (b : Bytes) → scan start (some b';') b ≡ scan start none b
unfolding scan step unquoted
scan-start [] = refl
scan-start (c ∷ []) = refl
scan-start (c ∷ d ∷ rest) = refl

scan-resume :
    (st : Scan) (b : Bytes)
    → st.quote ≡ none
    → (scan (flush st) (some b';') b).segments ≡ (flush st).segments ++ (scan start none b).segments
scan-resume st b e =
    ap (λ s. (scan s (some b';') b).segments) (flush-fresh st e)
    ∙ ap (λ s. s.segments) (scan-with_prefix (flush st).segments start (some b';') b)
    ∙ ap (λ s. (flush st).segments ++ s.segments) (scan-start b)

split-cut :
    (a : Bytes)
    → ends_outside none a ≡ true
    → (xs : List (Bytes × Bool)) × ((b : Bytes)
        → split_segments (a ++ b';' ∷ b) ≡ xs ++ split_segments b)
unfolding split_segments
split-cut a h =
    let (st, at, k, r) = scan-Reads a start none none b';' (refl, refl) refl h in
    (
      (flush st).segments,
      λ b. ap (λ s. s.segments) (r b ∙ scan-semicolon st at b k) ∙ scan-resume st b k,
    )

split-nil : split_segments [] ≡ []
unfolding split_segments
split-nil = refl

-- The last byte is a `&`.
unfoldable pub ends_amp : Bytes → Bool
ends_amp [] = false
ends_amp (c ∷ []) = c == b'&'
ends_amp (c ∷ d ∷ s) = ends_amp (d ∷ s)

flush-nil : (t : Scan) → t.cur ≡ [] → (flush t).segments ≡ t.segments
unfolding flush push_segment trim drop_blanks
flush-nil t e = rw e refl

flush_flushed : (st : Scan) → (flush (flush st)).segments ≡ (flush st).segments
flush_flushed st = let k = flush_empties st in flush-nil (flush st) k.0

scan-closed :
    (st : Scan) (prev : Option ℕ)
    → st.quote ≡ none
    → (scan st prev (b';' ∷ [])).segments ≡ (flush st).segments
unfolding scan
scan-closed st prev e = ap (λ t. t.segments) (scan-semicolon st prev [] e) ∙ flush_flushed st

amp_later : (d : ℕ) (s : Bytes) → ends_amp (d ∷ s) ≡ false → ends_amp s ≡ false
unfolding ends_amp
amp_later d [] h = refl
amp_later d (e ∷ s) h = h

scan-ended :
    (a : Bytes) (st : Scan) (prev : Option ℕ) (q : Option ℕ)
    → st.quote ≡ q
    → ends_outside q a ≡ true
    → ends_amp a ≡ false
    → (scan st prev (a ++ b';' ∷ [])).segments ≡ (scan st prev a).segments
unfolding scan ends_amp
scan-ended [] st prev none e h n = scan-closed st prev e
scan-ended [] st prev (some q) e h n = absurd (quote_unclosed q h)
scan-ended (c ∷ []) st prev q e h n =
    let (st', e', k) = last_round prev c st q b';' (refl, refl) e h in
    let same = last_unseen prev c st q e h n ∙ e' in
    rw (e', scan, same) (scan-closed st' (some c) k)
scan-ended (c ∷ d ∷ rest) st prev q e h n =
    let kept = step-Keeps prev c d rest st q e in
    elim (Step-cases (step prev c (some d) st)) [
      | inl (st', e') ↦
          rw (e', scan) (scan-ended (d ∷ rest) st' (some c) st'.quote refl ((rw e' at kept) ∙ h) n)
      | inr (st', e') ↦
          rw (e', scan)
            (scan-ended rest st' (some d) st'.quote refl ((rw e' at kept) ∙ h) (amp_later d rest n))
    ]

-- A `;` behind a command adds nothing.
split_segments-ended :
    (a : Bytes)
    → ends_outside none a ≡ true
    → ends_amp a ≡ false
    → split_segments (a ++ b';' ∷ []) ≡ split_segments a
unfolding split_segments
split_segments-ended a h n = scan-ended a start none none refl h n

-- A `;` outside quotes cuts a command in two: what follows is split as a command of its own.
pub split_segments-semicolon :
    (a b : Bytes)
    → ends_outside none a ≡ true
    → ends_amp a ≡ false
    → split_segments (a ++ b';' ∷ b) ≡ split_segments a ++ split_segments b
split_segments-semicolon a b h n =
    let (xs, cut) = split-cut a h in
    let first : xs ≡ split_segments a =
      sym (append-nil xs)
      ∙ ap (λ t. xs ++ t) (sym split-nil)
      ∙ sym (cut [])
      ∙ split_segments-ended a h n in
    cut b ∙ ap (λ t. t ++ split_segments b) first
