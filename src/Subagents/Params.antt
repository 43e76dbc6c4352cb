-- ===== src/Subagents/Params.antt =====
-- How src/assistant/subagents/coordinator.py reads the numbers, names and lists of a request and of
-- the tool's parameters. A dict is taken by the values under the keys that the code reads, `null`
-- for a missing one; a number below 0 acts as 0, and a fraction is not modelled.
pub mod Strip
use Prim.Native.Char.{Char}
use private_claw.Prelude.{
  ℕ, zero, suc, ◌*◌, max, min, String, Option, none, some, Bool, true, false, List, [], ◌∷◌,
  contains, ltb, if◌then◌else◌, ◌==◌, string_eq,
}
use private_claw.Store.Records.{Json, null, boolean, number, text, nested}

-- the tool's `default_params`
pub record ToolParams : Type 0 where
  pub delegation_allowed_backends : List String
  pub delegation_model_allowlist : List String
  pub delegation_default_model_id : Json
  pub delegation_default_ttl_seconds : Json
  pub delegation_max_ttl_seconds : Json
  pub delegation_max_concurrent_tasks : Json
  pub delegation_per_task_token_cap : Json
  pub delegation_per_session_token_cap : Json
  pub delegation_global_token_cap : Json
  pub delegation_budget_window_seconds : Json
  pub delegation_estimated_tokens_per_turn : Json
  pub delegation_default_max_turns : Json
  pub delegation_default_timeout_seconds : Json

-- `tool_params` is none where it is not a dict; `backend_params` is what `_resolve_backend_params`
-- makes of the request, and `logfire_context` the dict of that name, if it is there and not empty.
pub record Request : Type 0 where
  pub objective : Option Json
  pub backend : Json
  pub model_id : Json
  pub max_turns : Json
  pub timeout_seconds : Json
  pub task_id : Json
  pub tool_params : Option ToolParams
  pub backend_params : String
  pub logfire_context : Option String

-- the parts of the configuration and the backends that are registered
pub record Settings : Type 0 where
  pub model_allowlist : List String
  pub default_model_id : String
  pub backends : List String

abbrev pub or_default {ℓ} : {A : Type ℓ} → Option A → A → A
or_default none d = d
or_default (some a) d = a

-- a value of the tool's parameters, `null` without them
abbrev pub param : (ToolParams → Json) → Option ToolParams → Json
param field none = null
param field (some p) = field p

-- `str(value)`, for the printed form of a number
module _ (digits : ℕ → String) where
  abbrev pub str : Json → String
  str null = "None"
  str (boolean true) = "True"
  str (boolean false) = "False"
  str (number n) = digits n
  str (text s) = s
  str (nested s) = s

-- `strip` of a text, for the characters that `is_space` takes for whitespace
module _ (is_space : Char → Bool) where
  unfoldable pub strip_left : String → String
  strip_left String.[] = String.[]
  strip_left (String.◌∷◌ c s) =
      let rest = strip_left s in if is_space c then rest else String.◌∷◌ c s

  abbrev pub prepend : Char → String → String
  prepend c String.[] = if is_space c then String.[] else String.◌∷◌ c String.[]
  prepend c (String.◌∷◌ d s) = String.◌∷◌ c (String.◌∷◌ d s)

  unfoldable pub strip_right : String → String
  strip_right String.[] = String.[]
  strip_right (String.◌∷◌ c s) = prepend c (strip_right s)

  unfoldable pub strip : String → String
  unfolding strip_left strip_right
  strip s = strip_right (strip_left s)

  module _ (digits : ℕ → String) where
    -- `str(raw).strip() if raw is not None else ""`
    unfoldable pub stripped : Json → String
    unfolding strip
    stripped null = ""
    stripped (boolean b) = strip (str digits (boolean b))
    stripped (number n) = strip (str digits (number n))
    stripped (text s) = strip s
    stripped (nested s) = strip s

    unfoldable pub resolve_backend : Request → String
    resolve_backend request =
        let backend = stripped request.backend in if backend == "" then "claude_code" else backend

    abbrev pub or_if_empty : String → String → String
    or_if_empty s t = if s == "" then t else s

    unfoldable pub attempted_model_id : Settings → Request → String
    attempted_model_id settings request =
        or_if_empty
          (or_if_empty (stripped request.model_id)
            (stripped (param (λ p. p.delegation_default_model_id) request.tool_params)))
          settings.default_model_id

    unfoldable pub resolve_model_id : Settings → Request → Option String
    unfolding attempted_model_id
    resolve_model_id settings request =
        let model_id = attempted_model_id settings request in
        if contains settings.model_allowlist model_id then some model_id else none

-- `backend in {...}`, where an empty list allows everything
abbrev pub allows : List String → String → Bool
allows [] name = true
allows (x ∷ xs) name = contains (x ∷ xs) name

unfoldable pub backend_allowed : String → Option ToolParams → Bool
backend_allowed backend none = true
backend_allowed backend (some p) = allows p.delegation_allowed_backends backend

unfoldable pub model_allowed : String → Option ToolParams → Bool
model_allowed model_id none = true
model_allowed model_id (some p) = allows p.delegation_model_allowlist model_id

abbrev pub positive : Option ℕ → Option ℕ
positive none = none
positive (some zero) = none
positive (some (suc n)) = some (suc n)

-- `int_of` is `int` of a text, none where it raises ValueError.
module _ (int_of : String → Option ℕ) where
  abbrev pub as_int : Json → Option ℕ
  as_int null = none
  as_int (boolean true) = some 1
  as_int (boolean false) = some 0
  as_int (number n) = some n
  as_int (text s) = int_of s
  as_int (nested _) = none

  unfoldable pub coerce_int : Json → Option ℕ
  coerce_int value = positive (as_int value)

  unfoldable pub parse_positive_int : Json → Option ℕ
  parse_positive_int value = positive (as_int value)

  unfoldable pub resolve_max_turns : Request → ℕ
  unfolding parse_positive_int
  resolve_max_turns request = or_default (parse_positive_int request.max_turns) (
      or_default
        (parse_positive_int (param (λ p. p.delegation_default_max_turns) request.tool_params)) 8)

  unfoldable pub resolve_timeout_seconds : Request → ℕ
  unfolding parse_positive_int
  resolve_timeout_seconds request = or_default (parse_positive_int request.timeout_seconds) (
      or_default
        (parse_positive_int (param (λ p. p.delegation_default_timeout_seconds) request.tool_params))
        300)

  unfoldable pub resolve_ttl_seconds : Option ToolParams → ℕ
  resolve_ttl_seconds none = 3600
  resolve_ttl_seconds (some p) =
      let ttl = or_default (as_int p.delegation_default_ttl_seconds) 3600 in
      let max_ttl = or_default (as_int p.delegation_max_ttl_seconds) ttl in
      max (if ltb 0 max_ttl then min ttl max_ttl else ttl) 1

  unfoldable pub projected_tokens : ℕ → Option ToolParams → ℕ
  unfolding coerce_int
  projected_tokens max_turns tool_params =
      max max_turns 1
      * or_default (coerce_int (param (λ p. p.delegation_estimated_tokens_per_turn) tool_params))
          2000
