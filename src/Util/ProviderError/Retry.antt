-- ===== src/Util/ProviderError/Retry.antt =====
-- The retry suffix of an error text, read back.
use hai_code.Base.{
  Bytes, ◌≡◌, refl, ◌∙◌, Bool, true, not, ◌&&◌, [], ◌∷◌, ◌++◌, none, some, starts_with, drop, arith,
  ◌==◌, codes, all, all-append,
}
use hai_code.Util.ProviderError.{after_last, until_bracket, retry_after_text, retry_marker}

-- No '[' and no ']'.
abbrev pub plain : Bytes → Bool
plain = all (λ c. not (c == 91) && not (c == 93))

plain_parts :
    (s : Bytes)
    → plain s ≡ true
    → (all (λ c. not (c == 91)) s ≡ true) × (all (λ c. not (c == 93)) s ≡ true)
plain_parts [] h = (refl, refl)
plain_parts (c ∷ s) h =
    let rest = plain_parts s (ground arith) in (ground (arith, rest), ground (arith, rest))

after_last_plain :
    (s : Bytes) → all (λ c. not (c == 91)) s ≡ true → after_last retry_marker s ≡ none
unfolding after_last starts_with
after_last_plain [] h = refl
after_last_plain (c ∷ s) h = let rest = after_last_plain s (ground arith) in ground arith

after_last-marker :
    (s : Bytes)
    → all (λ c. not (c == 91)) s ≡ true
    → after_last retry_marker (retry_marker ++ s) ≡ some s
unfolding after_last starts_with drop
after_last-marker s h = rw (after_last_plain s h) refl

after_last-append :
    (e t u : Bytes) → after_last retry_marker t ≡ some u → after_last retry_marker (e ++ t) ≡ some u
unfolding after_last
after_last-append [] t u h = h
after_last-append (c ∷ e) t u h = rw (after_last-append e t u h) refl

until_bracket-append :
    (s : Bytes) → all (λ c. not (c == 93)) s ≡ true → until_bracket (s ++ 93 ∷ []) ≡ some s
unfolding until_bracket
until_bracket-append [] h = refl
until_bracket-append (c ∷ s) h = let rest = until_bracket-append s (ground arith) in ground arith

retry_after_text_found :
    (e t u : Bytes)
    → after_last retry_marker e ≡ some t
    → until_bracket t ≡ some u
    → retry_after_text e ≡ some u
unfolding retry_after_text
retry_after_text_found e t u h k = ground arith

-- A retry suffix at the end of an error text is what is read back, whatever the text before it is.
pub retry_after_text-append :
    (error seconds : Bytes)
    → plain seconds ≡ true
    → retry_after_text (error ++ (codes " [retry-after: " ++ (seconds ++ codes "]"))) ≡ some seconds
retry_after_text-append error seconds h =
    let (opening, closing) = plain_parts seconds h in
    let tail = seconds ++ codes "]" in
    let behind =
      after_last-marker tail
        (all-append (λ c. not (c == 91)) seconds (codes "]") ∙ rw opening refl) in
    let found = after_last-append error _ _ (after_last-append (codes " ") _ tail behind) in
    retry_after_text_found _ tail seconds found (until_bracket-append seconds closing)
