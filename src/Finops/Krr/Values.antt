-- ===== src/Finops/Krr/Values.antt =====
-- What finops/app/clients.py reads in a value of KRR's output, and the durations of history.
use practical_project.Base.{
  ℕ, ◌*◌, Bool, true, false, not, ◌&&◌, ◌||◌, List, [], ◌∷◌, Option, none, some, ◌==◌,
  if◌then◌else◌,
}
use practical_project.Base.Classes.{nat_eq}
use practical_project.Base.Equality.{list_beq, list_eq, pair_eq}
use practical_project.Base.Raises.{◌>>=◌}
use practical_project.Base.Json.{Json, null, bool, num, str, arr, obj, get}
use practical_project.Float.{Floats, lit}
use practical_project.Float.Literal.{
  codes, is_empty, strip, span_digits, value, value_from, float_of,
}
use practical_project.Float.Decimal.{show}
use practical_project.Finops.Krr.{Resource, cpu, memory}
use practical_project.Finops.Quantity.{fraction_group, format_cpu, format_memory}

-- What is behind the number of a quantity that `_format_resource_value` passes on.
abbrev pub is_unit : Resource → List ℕ → Bool
is_unit r [] = false
is_unit cpu (c ∷ []) = c == 110 || c == 117 || c == 109
is_unit cpu (c ∷ d ∷ rest) = false
is_unit memory (c ∷ []) = c == 75 || c == 77 || c == 71 || c == 84 || c == 80 || c == 69 || c == 109
is_unit memory (c ∷ d ∷ []) =
    (c == 75 || c == 77 || c == 71 || c == 84 || c == 80 || c == 69) && d == 105
is_unit memory (c ∷ d ∷ e ∷ rest) = false

-- `re.fullmatch` of `[0-9]+(?:\.[0-9]+)?` and a unit.
unfoldable pub is_quantity : Resource → List ℕ → Bool
unfolding span_digits fraction_group
is_quantity r text =
    let (whole, behind) = span_digits text in
    let (decimals, unit) = fraction_group behind in not (is_empty whole) && is_unit r unit

-- `re.fullmatch(r"([1-9][0-9]*)(h|d|w)?", duration)`: the hours that it stands for.
abbrev pub unit_hours : List ℕ → Option ℕ
unit_hours [] = some 1
unit_hours (c ∷ []) =
    if c == 104 then some 1 else if c == 100 then some 24 else if c == 119 then some 168 else none
unit_hours (c ∷ d ∷ rest) = none

abbrev pub leading_zero : List ℕ → Bool
leading_zero [] = true
leading_zero (c ∷ cs) = c == 48

-- `duration_hours`, and `none` for the `ValueError`.
unfoldable pub duration_hours : List ℕ → Option (List ℕ)
unfolding span_digits value_from show
duration_hours duration =
    let (digits, unit) = span_digits duration in
    if leading_zero digits
    then none
    else elim (unit_hours unit) [ none ↦ none | some hours ↦ some (show (value digits * hours)) ]

module _ {F : Type 0} (fl : Floats F) where
  abbrev pub is_zero : F → Bool
  is_zero x = fl.eq x (lit fl 0 0)

  -- A number of cores or of bytes as text; `none` where `round` or `int` raises.
  unfoldable pub format_number : Resource → F → Option (Option (List ℕ))
  unfolding format_cpu format_memory
  format_number cpu x = do t ← format_cpu fl x; some (some t)
  format_number memory x = do
    t ← format_memory fl (fl.div x (fl.mul (lit fl 1024 0) (lit fl 1024 0)))
    some (some t)

  abbrev pub format_text : Resource → List ℕ → Option (Option (List ℕ))
  format_text r text =
      if is_empty text || list_beq text (codes "?")
      then some none
      else if is_quantity r text
      then some (some text)
      else elim (float_of text) [ none ↦ some none | some n ↦ format_number r (fl.of_numeral n) ]

  abbrev pub format_plain : Resource → Json F → Option (Option (List ℕ))
  format_plain r null = some none
  format_plain r (bool b) = format_number r (if b then lit fl 1 0 else lit fl 0 0)
  format_plain r (num x) = format_number r x
  format_plain r (str s) = format_text r (strip s)
  format_plain r (arr xs) = none
  format_plain r (obj fields) = none

  -- `_format_resource_value`: `none` where it raises, `some none` for a value that is not known.
  unfoldable pub format_resource_value : Resource → Json F → Option (Option (List ℕ))
  unfolding format_number is_quantity strip float_of
  format_resource_value r (obj fields) = do v ← get (codes "value") (obj fields); format_plain r v
  format_resource_value r j = format_plain r j
