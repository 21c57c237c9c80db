-- ===== src/Util/Capabilities.antt =====
-- lib/src/util/model_capabilities.cpp: what a model takes as thinking and effort parameters.
pub mod Effort
use hai_code.Base.{
  Bytes, ℕ, zero, suc, ◌+◌, ◌/◌, ◌%◌, Bool, true, false, not, ◌&&◌, ◌||◌, Option, none, some, List,
  [], ◌∷◌, leb, ltb, ◌==◌, if◌then◌else◌, codes, eq, length,
}

pub data ThinkingMode : Type 0 where
  no_thinking budgeted adaptive : ThinkingMode

pub data ThinkingOff : Type 0 where
  lowest_effort disabled between_tools : ThinkingOff

-- The bits of an effort mask, and `mask & bit`.
abbrev pub effort_low : ℕ
effort_low = 1

abbrev pub effort_medium : ℕ
effort_medium = 2

abbrev pub effort_high : ℕ
effort_high = 4

abbrev pub effort_xhigh : ℕ
effort_xhigh = 8

abbrev pub effort_max : ℕ
effort_max = 16

pub has_bit : ℕ → ℕ → Bool
has_bit mask bit = mask / bit % 2 == 1

abbrev effort_all : ℕ
effort_all = 31

abbrev effort_basic : ℕ
effort_basic = 7

-- `kEffortAll & ~kEffortXHigh`.
abbrev effort_no_xhigh : ℕ
effort_no_xhigh = 23

to_lower : ℕ → ℕ
to_lower c = if leb 65 c && leb c 90 then c + 32 else c

pub starts_with_ci : Bytes → Bytes → Bool
unfolding to_lower
starts_with_ci s [] = true
starts_with_ci [] (b ∷ prefix) = false
starts_with_ci (a ∷ s) (b ∷ prefix) = to_lower a == to_lower b && starts_with_ci s prefix

pub contains_ci : Bytes → Bytes → Bool
contains_ci [] needle = false
contains_ci (c ∷ s) needle = starts_with_ci (c ∷ s) needle || contains_ci s needle

pub record CapsEntry : Type 0 where
  pub prefix : Bytes
  pub effort_mask : ℕ
  pub thinking : ThinkingMode
  pub off : ThinkingOff

pub record AnthropicModelCaps : Type 0 where
  pub supports_effort : Bool
  pub effort_mask : ℕ
  pub thinking : ThinkingMode
  pub off : ThinkingOff

abbrev row : Bytes → ℕ → ThinkingMode → ThinkingOff → CapsEntry
row prefix mask thinking off = record {
  prefix = prefix;
  effort_mask = mask;
  thinking = thinking;
  off = off;
}

abbrev pub anthropic_caps : List CapsEntry
anthropic_caps =
    row (codes "claude-opus-5") effort_all adaptive disabled
    ∷ row (codes "claude-opus-5-5") effort_all adaptive lowest_effort
    ∷ row (codes "claude-sonnet-5") effort_all adaptive disabled
    ∷ row (codes "claude-sonnet-5-5") effort_all adaptive between_tools
    ∷ row (codes "claude-fable-5") effort_all adaptive lowest_effort
    ∷ row (codes "claude-mythos-5") effort_all adaptive lowest_effort
    ∷ row (codes "claude-mythos") effort_all adaptive lowest_effort
    ∷ row (codes "claude-opus-4-8") effort_all adaptive disabled
    ∷ row (codes "claude-opus-4-7") effort_all adaptive disabled
    ∷ row (codes "claude-opus-4-6") effort_no_xhigh adaptive disabled
    ∷ row (codes "claude-sonnet-4-6") effort_no_xhigh adaptive disabled
    ∷ row (codes "claude-opus-4-5") effort_basic budgeted lowest_effort
    ∷ row (codes "claude-sonnet-4-5") 0 budgeted lowest_effort
    ∷ row (codes "claude-haiku-4-5") 0 budgeted lowest_effort
    ∷ row (codes "claude-3-7-sonnet") 0 budgeted lowest_effort
    ∷ row (codes "claude-3-7-haiku") 0 budgeted lowest_effort
    ∷ row (codes "claude-3-5-sonnet") 0 no_thinking lowest_effort
    ∷ row (codes "claude-3-5-haiku") 0 no_thinking lowest_effort
    ∷ []

-- Whether `!best || n > best_len`.
pub longer : CapsEntry → Option CapsEntry → Bool
longer e none = true
longer e (some best) = ltb (length best.prefix) (length e.prefix)

pub best_entry : Bytes → Option CapsEntry → List CapsEntry → Option CapsEntry
best_entry model_id best [] = best
best_entry model_id best (e ∷ es) =
    best_entry model_id (if starts_with_ci model_id e.prefix && longer e best then some e else best)
      es

pub caps_of : Option CapsEntry → AnthropicModelCaps
caps_of none = record {
  supports_effort = false;
  effort_mask = 0;
  thinking = no_thinking;
  off = lowest_effort;
}
caps_of (some e) = record {
  supports_effort = not (e.effort_mask == 0);
  effort_mask = e.effort_mask;
  thinking = e.thinking;
  off = e.off;
}

pub anthropic_model_caps : Bytes → AnthropicModelCaps
anthropic_model_caps model_id = caps_of (best_entry model_id none anthropic_caps)

pub is_adaptive : ThinkingMode → Bool
is_adaptive adaptive = true
is_adaptive _ = false

pub is_lowest_effort : ThinkingOff → Bool
is_lowest_effort lowest_effort = true
is_lowest_effort _ = false

off_type : ThinkingOff → Bytes
off_type disabled = codes "disabled"
off_type between_tools = codes "between_tools"
off_type lowest_effort = codes "adaptive"

pub anthropic_thinking_type : Bytes → Bytes → Bytes
unfolding off_type is_adaptive
anthropic_thinking_type model_id ui_effort =
    let caps = anthropic_model_caps model_id in
    if not (is_adaptive caps.thinking)
    then []
    else if eq ui_effort (codes "off")
    then off_type caps.off
    else codes "adaptive"

-- `want` of a setting; none for an unknown one.
pub wanted : Bytes → Option ℕ
wanted ui_effort =
    if eq ui_effort (codes "low")
    then some effort_low
    else if eq ui_effort (codes "medium")
    then some effort_medium
    else if eq ui_effort (codes "high")
    then some effort_high
    else if eq ui_effort (codes "xhigh")
    then some effort_xhigh
    else if eq ui_effort (codes "max")
    then some effort_max
    else none

pub step_down : ℕ → ℕ → Bytes
step_down mask want =
    if (want == effort_max || want == effort_xhigh) && has_bit mask effort_high
    then codes "high"
    else codes "low"

pub map_level : ℕ → Bytes → Option ℕ → Bytes
map_level mask ui_effort none = []
map_level mask ui_effort (some want) = if has_bit mask want then ui_effort else step_down mask want

pub map_effort : AnthropicModelCaps → Bytes → Bytes
map_effort caps ui_effort =
    if not caps.supports_effort
    then []
    else if eq ui_effort (codes "off")
        && (is_adaptive caps.thinking && not (is_lowest_effort caps.off))
    then []
    else if eq ui_effort (codes "off") || eq ui_effort (codes "minimal")
    then codes "low"
    else map_level caps.effort_mask ui_effort (wanted ui_effort)

pub anthropic_map_effort : Bytes → Bytes → Bytes
anthropic_map_effort model_id ui_effort =
    if eq ui_effort [] || eq ui_effort (codes "default")
    then []
    else map_effort (anthropic_model_caps model_id) ui_effort

pub openai_is_reasoning_model : Bytes → Bool
openai_is_reasoning_model model_id =
    starts_with_ci model_id (codes "o1")
    || (starts_with_ci model_id (codes "o3")
        || (starts_with_ci model_id (codes "o4") || starts_with_ci model_id (codes "gpt-5")))

pub openai_map_effort : Bytes → Bytes → Bytes
openai_map_effort model_id ui_effort =
    if eq ui_effort (codes "off")
    then (if starts_with_ci model_id (codes "gpt-5") then codes "none" else [])
    else if eq ui_effort (codes "minimal")
        || (eq ui_effort (codes "low")
            || (eq ui_effort (codes "medium")
                || (eq ui_effort (codes "high") || eq ui_effort (codes "xhigh"))))
    then ui_effort
    else if eq ui_effort (codes "max")
    then codes "xhigh"
    else []

-- A level that is none of the six, the empty one too, is left out.
is_level : Bytes → Bool
is_level ui_effort =
    eq ui_effort (codes "minimal")
    || (eq ui_effort (codes "low")
        || (eq ui_effort (codes "medium")
            || (eq ui_effort (codes "high")
                || (eq ui_effort (codes "xhigh") || eq ui_effort (codes "max")))))

template_level : Bytes → Bytes → Bool → Bytes
template_level model_id ui_effort low =
    if contains_ci model_id (codes "mistral-small-4")
      || contains_ci model_id (codes "mistral-small-2603")
    then codes "high"
    else if contains_ci model_id (codes "hy3")
    then (if low then codes "low" else codes "high")
    else if contains_ci model_id (codes "gpt-oss")
    then (if low
        then codes "low"
        else if eq ui_effort (codes "medium")
        then codes "medium"
        else codes "high")
    else ui_effort

pub llamacpp_map_effort : Bytes → Bytes → Bytes
unfolding is_level template_level
llamacpp_map_effort model_id ui_effort =
    if eq ui_effort (codes "off")
    then codes "none"
    else if not (is_level ui_effort)
    then []
    else template_level model_id ui_effort
        (eq ui_effort (codes "minimal") || eq ui_effort (codes "low"))
