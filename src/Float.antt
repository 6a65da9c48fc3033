-- ===== src/Float.antt =====
-- Python's floats. Their arithmetic is the machine's: the operations that the program calls are an
-- interface, and the laws are those of IEEE 754 that its theorems rest on. They hold of infinities and
-- of NaN too, of which every comparison is false.
pub mod Literal
pub mod Decimal
pub mod Digits
pub mod Fixed
mod Tests
use practical_project.Base.{ℕ, ◌≡◌, ◌≤◌, ◌^◌, Bool, true, false, Option, List, if◌then◌else◌}
use practical_project.Base.Int.{ℤ, pos, sub_ℕ}

-- What `float` reads in a text: ± mantissa · 10 ^ exponent.
pub data Numeral : Type 0 where
  decimal : Bool → ℕ → ℤ → Numeral
  infinite : Bool → Numeral
  not_a_number : Numeral

-- `round_int`, `truncate` and `ceil` are `round(x)`, `int(x)` and `math.ceil(x)`, which raise on what is not finite.
pub record Floats (F : Type 0) : Type 0 where
  pub of_numeral : Numeral → F
  pub add : F → F → F
  pub sub : F → F → F
  pub mul : F → F → F
  pub div : F → F → F
  pub fmod : F → F → F
  pub lt : F → F → Bool
  pub le : F → F → Bool
  pub eq : F → F → Bool
  pub is_finite : F → Bool
  pub round_to : ℕ → F → F
  pub round_int : F → Option ℤ
  pub truncate : F → Option ℤ
  pub ceil : F → Option ℤ
  pub repr : F → List ℕ
  pub lt_irrefl : (x : F) → lt x x ≡ false
  pub lt_trans : (x y z : F) → lt x y ≡ true → lt y z ≡ true → lt x z ≡ true
  pub lt_of_not_above : (x y z : F) → lt y z ≡ true → lt y x ≡ false → eq x x ≡ true → lt x z ≡ true
  pub mul_shrinks :
      (x : F) (m k : ℕ)
      → le (of_numeral (decimal false 0 (pos 0))) x ≡ true
      → m ≤ 10 ^ k
      → lt x (mul x (of_numeral (decimal false m (sub_ℕ 0 k)))) ≡ false

module _ {F : Type 0} (fl : Floats F) where
  -- The literal m / 10 ^ k.
  abbrev pub lit : ℕ → ℕ → F
  lit m k = fl.of_numeral (decimal false m (sub_ℕ 0 k))

  -- `max(a, b)`: the first unless the second is above it.
  abbrev pub fmax : F → F → F
  fmax a b = if fl.lt a b then b else a

  -- `min(a, b)`
  abbrev pub fmin : F → F → F
  fmin a b = if fl.lt b a then b else a
