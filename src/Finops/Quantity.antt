-- ===== src/Finops/Quantity.antt =====
-- CPU and memory quantities: the parsing and formatting functions of finops/app/engine.py. A text is
-- the list of its code points.
pub mod RoundTrip
use mathlib.Core.List.{reverse}
use practical_project.Base.{
  ℕ, ◌+◌, Bool, true, false, not, ◌&&◌, ◌||◌, List, [], ◌∷◌, ◌++◌, map, Option, none, some, leb,
  ◌==◌, if◌then◌else◌,
}
use practical_project.Base.Int.{ℤ}
use practical_project.Base.Classes.{nat_eq}
use practical_project.Base.Equality.{list_beq}
use practical_project.Float.{Floats, lit}
use practical_project.Float.Literal.{
  codes, is_digit, is_space, is_empty, lower, strip, strip_left, span_digits, float_of,
}
use practical_project.Float.Decimal.{show_ℤ}

abbrev pub is_letter : ℕ → Bool
is_letter c = leb 65 c && leb c 90 || leb 97 c && leb c 122

abbrev pub all_letters : List ℕ → Bool
all_letters [] = true
all_letters (c ∷ cs) = is_letter c && all_letters cs

-- `text[:-1]` and the last character.
unfoldable pub split_last : List ℕ → Option (List ℕ × ℕ)
split_last [] = none
split_last (c ∷ cs) = elim (split_last cs) [
  | none ↦ some ([], c)
  | some (front, last) ↦ some (c ∷ front, last)
]

abbrev pub sign_of : List ℕ → List ℕ × List ℕ
sign_of [] = ([], [])
sign_of (c ∷ cs) = if c == 45 || c == 43 then (c ∷ [], cs) else ([], c ∷ cs)

-- The optional group `\.[0-9]+`: what it takes, and the rest.
unfoldable pub fraction_group : List ℕ → List ℕ × List ℕ
unfolding span_digits
fraction_group [] = ([], [])
fraction_group (c ∷ cs) =
    let (digits, rest) = span_digits cs in
    if c == 46 && not (is_empty digits) then (c ∷ digits, rest) else ([], c ∷ cs)

-- The optional group `[eE][+-]?[0-9]+`.
unfoldable pub exponent_group : List ℕ → List ℕ × List ℕ
unfolding span_digits
exponent_group [] = ([], [])
exponent_group (c ∷ cs) =
    let (mark, behind) = sign_of cs in
    let (digits, rest) = span_digits behind in
    if lower c == 101 && not (is_empty digits) then (c ∷ mark ++ digits, rest) else ([], c ∷ cs)

-- The match of `parse_memory`: the groups `value` and `unit`.
unfoldable pub memory_match : List ℕ → Option (List ℕ × List ℕ)
unfolding span_digits fraction_group exponent_group strip_left
memory_match text =
    let (whole, behind) = span_digits text in
    let (decimals, behind') = fraction_group behind in
    let (power, behind'') = exponent_group behind' in
    let unit = strip_left behind'' in
    if is_empty whole
    then none
    else if all_letters unit
    then some (whole ++ decimals ++ power, unit)
    else none

abbrev pub unit_is : List ℕ → List ℕ → List ℕ → Bool
unit_is unit a b = list_beq unit a || list_beq unit b

module _ {F : Type 0} (fl : Floats F) where
  open fl use {
    of_numeral, add, sub, mul, div, fmod, lt, le, eq, round_to, round_int, truncate, repr,
  }

  abbrev pub zero_f : F
  zero_f = lit fl 0 0

  -- `float(text)`, and 0.0 where it raises `ValueError`.
  abbrev pub float_or_zero : List ℕ → F
  float_or_zero text = elim (float_of text) [ none ↦ zero_f | some n ↦ of_numeral n ]

  abbrev pub milli_or_cores : List ℕ → Option (List ℕ × ℕ) → F
  milli_or_cores text none = float_or_zero text
  milli_or_cores text (some (front, last)) =
      if last == 109
      then elim (float_of front) [ none ↦ zero_f | some n ↦ div (of_numeral n) (lit fl 1000 0) ]
      else float_or_zero text

  unfoldable pub parse_cpu : List ℕ → F
  unfolding split_last strip float_of
  parse_cpu cpu_str =
      let text = map lower (strip cpu_str) in
      if is_empty cpu_str then zero_f else milli_or_cores text (split_last text)

  abbrev pub in_mebibytes : F → List ℕ → F
  in_mebibytes val unit =
      if unit_is unit (codes "ti") (codes "t")
      then mul (mul val (lit fl 1024 0)) (lit fl 1024 0)
      else if unit_is unit (codes "gi") (codes "g")
      then mul val (lit fl 1024 0)
      else if unit_is unit (codes "mi") (codes "m")
      then val
      else if unit_is unit (codes "ki") (codes "k")
      then div val (lit fl 1024 0)
      else if unit_is unit (codes "b") []
      then div val (mul (lit fl 1024 0) (lit fl 1024 0))
      else div val (mul (lit fl 1024 0) (lit fl 1024 0))

  unfoldable pub parse_memory : List ℕ → F
  unfolding memory_match strip float_of
  parse_memory mem_str = if is_empty mem_str then zero_f else elim (memory_match (strip mem_str)) [
    | none ↦ zero_f
    | some (value, unit) ↦ elim (float_of value) [
      | none ↦ zero_f
      | some n ↦ in_mebibytes (of_numeral n) (map lower unit)
    ]
  ]

  -- `none` where `round` or `int` raises.
  abbrev pub with_suffix : Option ℤ → List ℕ → Option (List ℕ)
  with_suffix none suffix = none
  with_suffix (some n) suffix = some (show_ℤ n ++ suffix)

  unfoldable pub format_cpu : F → Option (List ℕ)
  unfolding show_ℤ
  format_cpu cores =
      if lt cores (lit fl 1 0)
      then with_suffix (round_int (mul cores (lit fl 1000 0))) (codes "m")
      else some (repr (round_to 2 cores))

  unfoldable pub format_memory : F → Option (List ℕ)
  unfolding show_ℤ
  format_memory mib =
      if le (lit fl 1024 0) mib && eq (fmod mib (lit fl 1024 0)) zero_f
      then with_suffix (truncate (div mib (lit fl 1024 0))) (codes "Gi")
      else with_suffix (round_int mib) (codes "Mi")
