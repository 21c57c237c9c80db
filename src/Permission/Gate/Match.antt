-- ===== src/Permission/Gate/Match.antt =====
-- Which rule decides: in a layer the last one that matches, and among layers the first that says
-- more than to ask.
use mathlib.Core.List.{append_assoc, reverse-cons, reverse-reverse}
use hai_code.Base.{
  ap, any, codes, pos, reverse, ◌||◌, ◌⊎◌, Bytes, ℕ, zero, suc, ◌≤◌, ◌<◌, ◌≡◌, refl, sym, subst,
  ◌↔◌, ◌∙◌, Bool, true, false, inl, inr, Option, none, some, List, [], ◌∷◌, ◌++◌, length,
  length-append, get_elem?, if◌then◌else◌, arith, Bool-cases,
}
use hai_code.Permission.Types.{PermissionRule, AuthorizationDecision}
use hai_code.Permission.Gate.{
  Rules, Layer, matched_decision, match_down, walk, hold, is_ask, prompt_decision,
}

get_elem?-append_left :
    (rs : Rules) (r : PermissionRule) (i : ℕ)
    → i < length rs
    → get_elem? (rs ++ r ∷ []) i ≡ get_elem? rs i
get_elem?-append_left [] r i h = elim h [ ]
get_elem?-append_left (x ∷ rs) r zero h = refl
get_elem?-append_left (x ∷ rs) r (suc i) h = get_elem?-append_left rs r i (omega arith)

get_elem?-append_last :
    (rs : Rules) (r : PermissionRule) → get_elem? (rs ++ r ∷ []) (length rs) ≡ some r
get_elem?-append_last [] r = refl
get_elem?-append_last (x ∷ rs) r = get_elem?-append_last rs r

length-snoc : (rs : Rules) (r : PermissionRule) → length (rs ++ r ∷ []) ≡ suc (length rs)
length-snoc rs r = omega (arith, length-append rs (r ∷ []))

module _ (matches : PermissionRule → Bool) (source : Bytes) where
  match_down-append_left :
      (rs : Rules) (r : PermissionRule) (n : ℕ)
      → n ≤ length rs
      → match_down matches (rs ++ r ∷ []) source n ≡ match_down matches rs source n
  unfolding match_down
  match_down-append_left rs r zero h = refl
  match_down-append_left rs r (suc n) h =
      ground (arith, get_elem?-append_left rs r n, match_down-append_left rs r n)

  -- A rule behind the others decides what it matches, and leaves the rest to them.
  pub match_down-append :
      (rs : Rules) (r : PermissionRule)
      → match_down matches (rs ++ r ∷ []) source (length (rs ++ r ∷ [])) ≡ (
          if matches r
          then some (matched_decision r source (length rs))
          else match_down matches rs source (length rs))
  unfolding match_down
  match_down-append rs r =
      rw (length-snoc rs r)
        (ground (arith, get_elem?-append_last rs r, match_down-append_left rs r (length rs)))

-- No rule matches.
abbrev pub Quiet : (PermissionRule → Bool) → Rules → Type 0
Quiet matches rs = any matches rs ≡ false

-- The last rule of a layer that matches, with the layer's name and the rule's place, is the decision.
pub record Speaks (matches : PermissionRule → Bool) (source : Bytes) (rs : Rules)
    (d : AuthorizationDecision) : Type 0 where
  pub before : Rules
  pub rule : PermissionRule
  pub after : Rules
  pub place : rs ≡ before ++ rule ∷ after
  pub match : matches rule ≡ true
  pub last : Quiet matches after
  pub says : d ≡ record {
    effect = rule.effect;
    reason = codes "Matched " ++ (source ++ codes " rule");
    source = source;
    rule_index = pos (length before);
    blocked = false;
  }

any-snoc :
    (matches : PermissionRule → Bool) (rs : Rules) (r : PermissionRule)
    → any matches (rs ++ r ∷ []) ≡ (any matches rs || matches r)
any-snoc matches [] r = ground arith
any-snoc matches (x ∷ rs) r = ground (arith, any-snoc matches rs r)

-- What holds of no rules, and with a rule behind those of which it holds, holds of all rules.
from_behind :
    (P : Rules → Type 0)
    → P []
    → ((rs : Rules) (r : PermissionRule) → P rs → P (rs ++ r ∷ []))
    → (rs : Rules) → P rs
from_behind P base more rs = subst P (reverse-reverse rs) (turned (reverse rs))
  where
    turned : (rs : Rules) → P (reverse rs)
    turned [] = base
    turned (r ∷ rs) = subst P (sym (reverse-cons r rs)) (more (reverse rs) r (turned rs))

module _ (matches : PermissionRule → Bool) (source : Bytes) where
  -- The decision of a layer.
  abbrev decided : Rules → Option AuthorizationDecision
  decided rs = match_down matches rs source (length rs)

  Quiet-decided : (rs : Rules) → Quiet matches rs → decided rs ≡ none
  unfolding match_down
  Quiet-decided =
      from_behind (λ rs. Quiet matches rs → decided rs ≡ none) (λ h. refl)
        (λ rs r later h.
          let quiet : Quiet matches rs = ground (arith, any-snoc matches rs r) in
          let other : matches r ≡ false = ground (arith, any-snoc matches rs r) in
          match_down-append matches source rs r ∙ rw other (later quiet))

  spoken :
      (before : Rules) (r : PermissionRule)
      → matches r ≡ true
      → (after : Rules) → Quiet matches after
      → decided (before ++ r ∷ after) ≡ some (matched_decision r source (length before))
  spoken before r m =
      from_behind
        (λ after.
          Quiet matches after
          → decided (before ++ r ∷ after) ≡ some (matched_decision r source (length before)))
        (λ h. match_down-append matches source before r ∙ rw m refl)
        (λ after x later h.
          let quiet : Quiet matches after = ground (arith, any-snoc matches after x) in
          let other : matches x ≡ false = ground (arith, any-snoc matches after x) in
          ap decided (sym (append_assoc before (r ∷ after) (x ∷ [])))
          ∙ match_down-append matches source (before ++ r ∷ after) x
          ∙ rw other (later quiet))

  Speaks-decided :
      (rs : Rules) (d : AuthorizationDecision) → Speaks matches source rs d → decided rs ≡ some d
  unfolding matched_decision
  Speaks-decided rs d h =
      ap decided h.place
      ∙ spoken h.before h.rule h.match h.after h.last
      ∙ ap (λ e. some e) (sym h.says)

  -- A layer has no rule that matches, or its last one that does speaks.
  abbrev Settled : Rules → Type 0
  Settled rs =
      ((decided rs ≡ none) × Quiet matches rs)
      ⊎ ((d : AuthorizationDecision) × (decided rs ≡ some d) × Speaks matches source rs d)

  unmatched_behind :
      (rs : Rules) (r : PermissionRule) → matches r ≡ false → Settled rs → Settled (rs ++ r ∷ [])
  unmatched_behind rs r m (inl (e, q)) =
      inl (match_down-append matches source rs r ∙ rw m e, ground (arith, any-snoc matches rs r))
  unmatched_behind rs r m (inr (d, e, h)) = inr (
    d,
    match_down-append matches source rs r ∙ rw m e,
    record {
      before = h.before;
      rule = h.rule;
      after = h.after ++ r ∷ [];
      place = ap (λ t. t ++ r ∷ []) h.place ∙ append_assoc h.before (h.rule ∷ h.after) (r ∷ []);
      match = h.match;
      last = ground (arith, any-snoc matches h.after r, h.last);
      says = h.says;
    },
  )

  matched_behind : (rs : Rules) (r : PermissionRule) → matches r ≡ true → Settled (rs ++ r ∷ [])
  unfolding matched_decision
  matched_behind rs r m = inr (
    matched_decision r source (length rs),
    match_down-append matches source rs r ∙ rw m refl,
    record { before = rs; rule = r; after = []; place = refl; match = m; last = refl; says = refl },
  )

  settled : (rs : Rules) → Settled rs
  unfolding match_down
  settled = from_behind Settled (inl (refl, refl)) (λ rs r later. elim (Bool-cases (matches r)) [
    | inl m ↦ matched_behind rs r m
    | inr m ↦ unmatched_behind rs r m later
  ])

-- The verdict that the layers reach: a layer with no match, or whose last match says to ask, hands
-- on to the next one.
pub data Verdict (matches : PermissionRule → Bool)
    : List Layer → AuthorizationDecision → Type 0 where
  here :
      {rs : Rules} {source : Bytes} {ls : List Layer} {d : AuthorizationDecision}
      → Speaks matches source rs d
      → is_ask d.effect ≡ false
      → Verdict matches ((rs, source) ∷ ls) d
  unmatched :
      {rs : Rules} {source : Bytes} {ls : List Layer} {d : AuthorizationDecision}
      → Quiet matches rs
      → Verdict matches ls d
      → Verdict matches ((rs, source) ∷ ls) d
  asked :
      {rs : Rules} {source : Bytes} {ls : List Layer} {d e : AuthorizationDecision}
      → Speaks matches source rs e
      → is_ask e.effect ≡ true
      → Verdict matches ls d
      → Verdict matches ((rs, source) ∷ ls) d

module _ (matches : PermissionRule → Bool) where
  walk-Verdict :
      (ls : List Layer) {d : AuthorizationDecision} (held : Option AuthorizationDecision)
      → Verdict matches ls d
      → walk matches ls held ≡ d
  unfolding walk
  walk-Verdict [] held v = elim v [ ]
  walk-Verdict ((rs, source) ∷ ls) {d} held (here e n) =
      ground (arith, Speaks-decided matches source rs d e)
  walk-Verdict ((rs, source) ∷ ls) held (unmatched e v) =
      ground (arith, Quiet-decided matches source rs e, walk-Verdict ls held v)
  walk-Verdict ((rs, source) ∷ ls) held (asked {e = x} e a v) =
      ground (arith, Speaks-decided matches source rs x e, walk-Verdict ls (hold held x) v)

  -- What is held to be reported says to ask.
  abbrev HeldAsks : Option AuthorizationDecision → Type 0
  HeldAsks none = Unit
  HeldAsks (some d) = is_ask d.effect ≡ true

  walk_unmatched :
      (rs : Rules) (source : Bytes) (ls : List Layer) (held : Option AuthorizationDecision)
      → match_down matches rs source (length rs) ≡ none
      → walk matches ((rs, source) ∷ ls) held ≡ walk matches ls held
  unfolding walk
  walk_unmatched rs source ls held e = rw (e, walk)

  pub walk_matched :
      (rs : Rules) (source : Bytes) (ls : List Layer) (held : Option AuthorizationDecision)
      (d : AuthorizationDecision)
      → match_down matches rs source (length rs) ≡ some d
      → walk matches ((rs, source) ∷ ls) held
        ≡ (if is_ask d.effect then walk matches ls (hold held d) else d)
  unfolding walk
  walk_matched rs source ls held d e = rw (e, walk)

  hold-HeldAsks :
      (held : Option AuthorizationDecision) (d : AuthorizationDecision)
      → HeldAsks held
      → is_ask d.effect ≡ true
      → HeldAsks (hold held d)
  unfolding hold
  hold-HeldAsks none d h a = a
  hold-HeldAsks (some x) d h a = h

  ask_not_decided : (d : AuthorizationDecision) → prompt_decision ≡ d → is_ask d.effect ≡ false → ⊥
  unfolding prompt_decision is_ask
  ask_not_decided d e n = ground arith

  Verdict-walk :
      (ls : List Layer) (held : Option AuthorizationDecision) (d : AuthorizationDecision)
      → HeldAsks held
      → walk matches ls held ≡ d
      → is_ask d.effect ≡ false
      → Verdict matches ls d
  unfolding walk
  Verdict-walk [] none d h w n = absurd (ask_not_decided d w n)
  Verdict-walk [] (some x) d h w n = absurd (cc)
  Verdict-walk ((rs, source) ∷ ls) held d h w n = elim (settled matches source rs) [
    | inl (e, q) ↦
        unmatched q (Verdict-walk ls held d h (sym (walk_unmatched rs source ls held e) ∙ w) n)
    | inr (x, e, p) ↦ elim (Bool-cases (is_ask x.effect)) [
      | inl a ↦ asked p a (
          Verdict-walk ls (hold held x) d (hold-HeldAsks held x h a)
            (ground (arith, walk_matched rs source ls held x e)) n)
      | inr a ↦
          let f : x ≡ d = ground (arith, walk_matched rs source ls held x e) in
          subst (Verdict matches ((rs, source) ∷ ls)) f (here p a)
    ]
  ]

  -- The loop over the layers returns an Allow or a Deny exactly where that is the layers' verdict.
  pub walk_iff :
      (ls : List Layer) (d : AuthorizationDecision)
      → is_ask d.effect ≡ false
      → (walk matches ls none ≡ d) ↔ Verdict matches ls d
  walk_iff ls d n = (λ w. Verdict-walk ls none d tt w n, walk-Verdict ls none)

  pub walk_appended :
      (rs : Rules) (r : PermissionRule) (source : Bytes) (ls : List Layer)
      → matches r ≡ true
      → is_ask r.effect ≡ false
      → walk matches ((rs ++ r ∷ [], source) ∷ ls) none ≡ matched_decision r source (length rs)
  unfolding matched_decision
  walk_appended rs r source ls h n =
      let last = match_down-append matches source rs r in
      let m : match_down matches (rs ++ r ∷ []) source (length (rs ++ r ∷ []))
          ≡ some (matched_decision r source (length rs)) =
        rw h at last in
      walk_matched (rs ++ r ∷ []) source ls none (matched_decision r source (length rs)) m ∙ rw n
