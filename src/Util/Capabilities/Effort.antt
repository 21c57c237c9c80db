-- ===== src/Util/Capabilities/Effort.antt =====
-- Which effort levels are sent.
use hai_code.Base.{
  subst, Bytes, ℕ, ◌≡◌, refl, ap, sym, ◌∙◌, ◌⊎◌, inl, inr, Bool, true, not, ◌&&◌, ◌||◌, Option,
  none, some, List, [], ◌∷◌, codes, eq, any, All, arith, Bool-cases, Option-cases, ◌==◌,
}
use hai_code.Util.Capabilities.{
  CapsEntry, AnthropicModelCaps, effort_low, effort_high, effort_max, effort_xhigh, has_bit,
  starts_with_ci, anthropic_caps, longer, best_entry, caps_of, anthropic_model_caps, wanted,
  step_down, map_level, map_effort, anthropic_map_effort, is_adaptive, is_lowest_effort,
}

-- A mask is empty, or has the lowest level.
has_low : ℕ → Bool
has_low mask = mask == 0 || has_bit mask effort_low

LowOk : CapsEntry → Type 0
LowOk e = has_low e.effort_mask ≡ true

table_low : All LowOk anthropic_caps
unfolding LowOk has_low has_bit
table_low = (
  refl,
  (
    refl,
    (
      refl,
      (
        refl,
        (
          refl,
          (
            refl,
            (
              refl,
              (
                refl,
                (refl, (refl, (refl, (refl, (refl, (refl, (refl, (refl, (refl, (refl, tt)))))))))),
              ),
            ),
          ),
        ),
      ),
    ),
  ),
)

MaybeLow : Option CapsEntry → Type 0
MaybeLow none = Unit
MaybeLow (some e) = LowOk e

best_entry-MaybeLow :
    (model_id : Bytes) (best : Option CapsEntry) (es : List CapsEntry)
    → MaybeLow best
    → All LowOk es
    → MaybeLow (best_entry model_id best es)
unfolding best_entry MaybeLow
best_entry-MaybeLow model_id best [] h a = h
best_entry-MaybeLow model_id best (e ∷ es) h a =
    elim (Bool-cases (starts_with_ci model_id e.prefix && longer e best)) [
      | inl t ↦ rw t (best_entry-MaybeLow model_id (some e) es a.0 a.1)
      | inr t ↦ rw t (best_entry-MaybeLow model_id best es h a.1)
    ]

caps_low :
    (o : Option CapsEntry)
    → MaybeLow o
    → (caps_of o).supports_effort ≡ true
    → has_bit (caps_of o).effort_mask effort_low ≡ true
unfolding caps_of MaybeLow LowOk has_low
caps_low none h s = cc
caps_low (some e) h s = ground arith

-- The levels and their bits.
abbrev pub level_bits : List (Bytes × ℕ)
level_bits =
    (codes "low", 1)
    ∷ (codes "medium", 2)
    ∷ (codes "high", 4)
    ∷ (codes "xhigh", 8)
    ∷ (codes "max", 16)
    ∷ []

-- A level whose bit is in the mask.
pub Supported : ℕ → Bytes → Type 0
Supported mask level =
    (bit : ℕ) × (any (λ l. eq level l.0 && l.1 == bit) level_bits ≡ true)
    × (has_bit mask bit ≡ true)

wanted-level_bits :
    (level : Bytes) (bit : ℕ)
    → wanted level ≡ some bit
    → any (λ l. eq level l.0 && l.1 == bit) level_bits ≡ true
unfolding wanted
wanted-level_bits level bit w = ground arith

step_down-Supported :
    (mask want : ℕ) → has_bit mask effort_low ≡ true → Supported mask (step_down mask want)
unfolding step_down Supported wanted eq
step_down-Supported mask want low =
    elim (Bool-cases ((want == effort_max || want == effort_xhigh) && has_bit mask effort_high)) [
      | inl t ↦ rw t (effort_high, refl, ground arith)
      | inr t ↦ rw t (effort_low, refl, low)
    ]

map_level-Supported :
    (mask : ℕ) (ui_effort : Bytes)
    → has_bit mask effort_low ≡ true
    → (map_level mask ui_effort (wanted ui_effort) ≡ [])
      ⊎ Supported mask (map_level mask ui_effort (wanted ui_effort))
unfolding map_level Supported
map_level-Supported mask ui_effort low = elim (Option-cases (wanted ui_effort)) [
  | inl w ↦ inl (rw w refl)
  | inr (want, w) ↦ elim (Bool-cases (has_bit mask want)) [
    | inl t ↦
        let same : map_level mask ui_effort (wanted ui_effort) ≡ ui_effort = ground arith in
        inr (want, wanted-level_bits _ want (ap wanted same ∙ w), t)
    | inr t ↦
        let same : map_level mask ui_effort (wanted ui_effort) ≡ step_down mask want =
          ground arith in
        inr (subst (Supported mask) (sym same) (step_down-Supported mask want low))
  ]
]

-- What the caps make of a setting.
map_effort-Supported :
    (caps : AnthropicModelCaps) (ui_effort : Bytes)
    → (caps.supports_effort ≡ true → has_bit caps.effort_mask effort_low ≡ true)
    → (map_effort caps ui_effort ≡ [])
      ⊎ ((map_effort caps ui_effort ≡ codes "low") × (has_bit caps.effort_mask effort_low ≡ true))
      ⊎ ((has_bit caps.effort_mask effort_low ≡ true)
          × (map_effort caps ui_effort ≡ map_level caps.effort_mask ui_effort (wanted ui_effort)))
unfolding map_effort
map_effort-Supported caps ui_effort h = elim (Bool-cases caps.supports_effort) [
  | inr s ↦ inl (ground arith)
  | inl s ↦
      elim (Bool-cases (
        eq ui_effort (codes "off")
        && (is_adaptive caps.thinking && not (is_lowest_effort caps.off)))) [
          | inl o ↦ inl (ground arith)
          | inr o ↦
              elim (Bool-cases (eq ui_effort (codes "off") || eq ui_effort (codes "minimal"))) [
                | inl m ↦ inr (inl (ground arith, h s))
                | inr m ↦ inr (inr (h s, ground arith))
              ]
        ]
]

low-Supported : (mask : ℕ) → has_bit mask effort_low ≡ true → Supported mask (codes "low")
unfolding Supported wanted eq
low-Supported mask low = (effort_low, refl, low)

-- Whatever the model and the setting, what `anthropic_map_effort` sends is nothing, or a level whose
-- bit is in the model's effort mask.
pub anthropic_map_effort-Supported :
    (model_id ui_effort : Bytes)
    → (anthropic_map_effort model_id ui_effort ≡ [])
      ⊎ Supported
          (anthropic_model_caps model_id).effort_mask
          (anthropic_map_effort model_id ui_effort)
unfolding anthropic_map_effort anthropic_model_caps MaybeLow
anthropic_map_effort-Supported model_id ui_effort =
    let caps = anthropic_model_caps model_id in
    let best = best_entry-MaybeLow model_id none anthropic_caps tt table_low in
    let low = caps_low (best_entry model_id none anthropic_caps) best in
    elim (Bool-cases (eq ui_effort [] || eq ui_effort (codes "default"))) [
      | inl n ↦ inl (ground arith)
      | inr n ↦
          let same : anthropic_map_effort model_id ui_effort ≡ map_effort caps ui_effort =
            ground arith in
          elim (map_effort-Supported caps ui_effort low) [
            | inl e ↦ inl (same ∙ e)
            | inr (inl (e, l)) ↦ inr (
                subst (Supported caps.effort_mask) (sym (same ∙ e))
                  (low-Supported caps.effort_mask l))
            | inr (inr (l, e)) ↦ elim (map_level-Supported caps.effort_mask ui_effort l) [
              | inl z ↦ inl (same ∙ e ∙ z)
              | inr z ↦ inr (subst (Supported caps.effort_mask) (sym (same ∙ e)) z)
            ]
          ]
    ]
