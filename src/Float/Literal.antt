-- ===== src/Float/Literal.antt =====
-- `float(text)`: the grammar of Python's float literals, over code points. Digits are ASCII.
use practical_project.Base.{
  ℕ, ◌+◌, ◌-◌, ◌*◌, Bool, true, false, ◌&&◌, ◌||◌, List, [], ◌∷◌, ◌++◌, map, Option, none, some,
  leb, ◌==◌, length, if◌then◌else◌, String,
}
use practical_project.Base.Int.{ℤ, pos, sub_ℕ, ◌-ℤ◌}
use practical_project.Base.Equality.{list_beq}
use practical_project.Base.Classes.{nat_eq}
use Prim.Native.Char.{code}
use mathlib.Core.List.{reverse}
use practical_project.Float.{Numeral, decimal, infinite, not_a_number}

-- The code points of a text.
abbrev pub codes : String → List ℕ
codes String.[] = []
codes (String.◌∷◌ c rest) = code c ∷ codes rest

abbrev pub is_digit : ℕ → Bool
is_digit c = leb 48 c && leb c 57

-- What `str.strip` takes off.
abbrev pub is_space : ℕ → Bool
is_space c =
    leb 9 c && leb c 13
    || leb 28 c && leb c 32
    || c == 0x85
    || c == 0xa0
    || c == 0x1680
    || leb 0x2000 c && leb c 0x200a
    || c == 0x2028
    || c == 0x2029
    || c == 0x202f
    || c == 0x205f
    || c == 0x3000

abbrev pub lower : ℕ → ℕ
lower c = if leb 65 c && leb c 90 then c + 32 else c

unfoldable pub strip_left : List ℕ → List ℕ
strip_left [] = []
strip_left (c ∷ cs) = let rest = strip_left cs in if is_space c then rest else c ∷ cs

unfoldable pub strip : List ℕ → List ℕ
unfolding strip_left
strip s = reverse (strip_left (reverse (strip_left s)))

abbrev pub starts_with_digit : List ℕ → Bool
starts_with_digit [] = false
starts_with_digit (d ∷ ds) = is_digit d

-- Underscores may stand between two digits only.
unfoldable pub drop_underscores : Bool → List ℕ → Option (List ℕ)
drop_underscores after_digit [] = some []
drop_underscores after_digit (c ∷ cs) =
    let rest = drop_underscores (is_digit c) cs in
    if c == 95
    then (if after_digit && starts_with_digit cs then rest else none)
    else elim rest [ none ↦ none | some r ↦ some (c ∷ r) ]

unfoldable pub span_digits : List ℕ → List ℕ × List ℕ
span_digits [] = ([], [])
span_digits (c ∷ cs) =
    let (digits, rest) = span_digits cs in if is_digit c then (c ∷ digits, rest) else ([], c ∷ cs)

unfoldable pub value_from : ℕ → List ℕ → ℕ
value_from acc [] = acc
value_from acc (c ∷ cs) = value_from (acc * 10 + (c - 48)) cs

abbrev pub value : List ℕ → ℕ
value digits = value_from 0 digits

-- A sign, if there is one: whether it is `-`, and the rest.
unfoldable pub sign : List ℕ → Bool × List ℕ
sign [] = (false, [])
sign (c ∷ cs) = if c == 45 then (true, cs) else if c == 43 then (false, cs) else (false, c ∷ cs)

abbrev pub exponent_value : Bool → List ℕ × List ℕ → Option ℤ
exponent_value negative ([], rest) = none
exponent_value negative (d ∷ digits, c ∷ rest) = none
exponent_value negative (d ∷ digits, []) =
    some (if negative then sub_ℕ 0 (value (d ∷ digits)) else pos (value (d ∷ digits)))

-- The exponent behind the digits, which must end the text.
unfoldable pub exponent : List ℕ → Option ℤ
unfolding sign span_digits value_from
exponent [] = some (pos 0)
exponent (c ∷ cs) =
    if lower c == 101
    then (let (negative, digits) = sign cs in exponent_value negative (span_digits digits))
    else none

-- The digits behind a point, if there is one, and the rest.
unfoldable pub fraction : List ℕ → List ℕ × List ℕ
unfolding span_digits
fraction [] = ([], [])
fraction (c ∷ cs) = if c == 46 then span_digits cs else ([], c ∷ cs)

abbrev pub is_empty : List ℕ → Bool
is_empty [] = true
is_empty (_ ∷ _) = false

unfoldable pub unsigned : Bool → List ℕ → Option Numeral
unfolding span_digits fraction exponent value_from ◌-ℤ◌
unsigned negative s =
    let (whole, behind) = span_digits s in
    let (decimals, rest) = fraction behind in
    if is_empty whole && is_empty decimals then none else elim (exponent rest) [
      | none ↦ none
      | some e ↦ some (decimal negative (value (whole ++ decimals)) (e -ℤ pos (length decimals)))
    ]

unfoldable pub signed : Bool × List ℕ → Option Numeral
unfolding unsigned
signed (negative, body) =
    let word = map lower body in
    if list_beq word (codes "inf") || list_beq word (codes "infinity")
    then some (infinite negative)
    else if list_beq word (codes "nan")
    then some not_a_number
    else unsigned negative body

unfoldable pub float_of : List ℕ → Option Numeral
unfolding strip drop_underscores sign signed
float_of text = elim (drop_underscores false (strip text)) [
  | none ↦ none
  | some s ↦ signed (sign s)
]
