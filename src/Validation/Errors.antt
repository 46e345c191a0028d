-- ===== src/Validation/Errors.antt =====
-- The collected errors of a validation (src/validation/changeValidator.ts), with the field that each
-- names and without its message, and the helpers that the rules share.
use ptv_mcp.Base.{
  ℕ, ◌+◌, Bool, true, false, not, Option, none, some, List, [], ◌∷◌, ◌++◌, map, Text, text_eq,
  if◌then◌else◌, any, length, is_empty, trim,
}
use ptv_mcp.Validation.Domain.{LocalizedText}

-- `'names'`, `` `ontologyTerms[${index}]` `` and `` `summaries.${language}` ``.
pub data FieldPath : Type 0 where
  field : Text → FieldPath
  entry : Text → ℕ → FieldPath
  in_language : Text → Text → FieldPath

pub record ValidationResult : Type 0 where
  pub valid : Bool
  pub errors : List FieldPath

-- `{ valid: errors.length === 0, errors }`
abbrev pub is_nil : {A : Type 0} → List A → Bool
is_nil [] = true
is_nil (_ ∷ _) = false

abbrev pub result_of : List FieldPath → ValidationResult
result_of errors = record { valid = is_nil errors; errors = errors }

-- `if (test) errors.push({ field })`
abbrev pub error_if : Bool → FieldPath → List FieldPath
error_if test path = if test then path ∷ [] else []

-- `items.forEach((item, i) => rule(item, i))` from an index on.
unfoldable pub each_from : {A : Type 0} → (A → ℕ → List FieldPath) → ℕ → List A → List FieldPath
each_from rule i [] = []
each_from rule i (x ∷ xs) = rule x i ++ each_from rule (i + 1) xs

-- `for (const item of items) rule(item)`
unfoldable pub each : {A : Type 0} → (A → List FieldPath) → List A → List FieldPath
each rule [] = []
each rule (x ∷ xs) = rule x ++ each rule xs

-- `list ?? []`
abbrev pub or_nil : {A : Type 0} → Option (List A) → List A
or_nil none = []
or_nil (some xs) = xs

-- `text?.length ?? 0`, and a string's truth.
abbrev pub length_of : Option Text → ℕ
length_of none = 0
length_of (some s) = length s

abbrev pub is_truthy : Option Text → Bool
is_truthy none = false
is_truthy (some s) = not (is_empty s)

abbrev pub is_set : Option Bool → Bool
is_set none = false
is_set (some b) = b

abbrev pub is_given : {A : Type 0} → Option A → Bool
is_given none = false
is_given (some _) = true

-- `texts[language]`
unfoldable pub in_ : Text → LocalizedText → Option Text
in_ language [] = none
in_ language ((l, s) ∷ texts) = if text_eq l language then some s else in_ language texts

abbrev pub languages_of : LocalizedText → List Text
languages_of texts = map (λ p. p.0) texts

-- `Object.values(texts ?? {}).some(Boolean)`
abbrev pub has_text : Option LocalizedText → Bool
has_text texts = any (λ (p : Text × Text). not (is_empty p.1)) (or_nil texts)

-- `value.trim() === ''`
abbrev pub is_blank : Text → Bool
is_blank s = is_empty (trim s)

-- `list.includes(s)`
abbrev pub includes : List Text → Text → Bool
includes xs s = any (λ x. text_eq x s) xs
