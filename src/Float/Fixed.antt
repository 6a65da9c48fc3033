-- ===== src/Float/Fixed.antt =====
-- Fixed-point numbers of six decimals, which stand for the floats where a test runs the program.
use practical_project.Base.{
  ℕ, zero, suc, ◌+◌, ◌-◌, ◌*◌, ◌/◌, ◌^◌, ◌≤◌, ◌≡◌, Bool, true, false, ◌&&◌, some, arith, ltb,
  if◌then◌else◌,
}
use native.Mathlib.Nat.{div-le_of_le-mul}
use practical_project.Base.Int.{ℤ, pos, negsuc, sub_ℕ, ◌+ℤ◌, ◌-ℤ◌, ltb_ℤ, leb_ℤ}
use practical_project.Float.{Numeral, decimal, infinite, not_a_number, Floats}
use practical_project.Float.Decimal.{show_ℤ}

abbrev size : ℤ → ℕ
size (pos n) = n
size (negsuc n) = suc n

-- Whether exactly one of two numbers is negative.
abbrev signs_differ : ℤ → ℤ → Bool
signs_differ (pos _) (negsuc _) = true
signs_differ (negsuc _) (pos _) = true
signs_differ _ _ = false

abbrev signed : Bool → ℕ → ℤ
signed negative n = if negative then sub_ℕ 0 n else pos n

abbrev scaled : ℕ → ℤ → ℕ
scaled m (pos e) = m * 1000000 * 10 ^ e
scaled m (negsuc e) = m * 1000000 / 10 ^ suc e

abbrev fixed_of : Numeral → ℤ
fixed_of (decimal negative m e) = signed negative (scaled m e)
fixed_of (infinite negative) = pos 0
fixed_of not_a_number = pos 0

abbrev fixed_mul : ℤ → ℤ → ℤ
fixed_mul a b = signed (signs_differ a b) (size a * size b / 1000000)

abbrev fixed_div : ℤ → ℤ → ℤ
fixed_div a b = signed (signs_differ a b) (size a * 1000000 / size b)

abbrev fixed_mod : ℤ → ℤ → ℤ
fixed_mod a b = pos (size a - size a / size b * size b)

abbrev fixed_round : ℤ → ℤ
fixed_round a = signed (signs_differ a (pos 0)) ((size a + 500000) / 1000000)

abbrev fixed_ceil : ℤ → ℤ
fixed_ceil (pos n) = pos ((n + 999999) / 1000000)
fixed_ceil (negsuc n) = sub_ℕ 0 (suc n / 1000000)

pub lt_irrefl : (x : ℤ) → ltb_ℤ x x ≡ false
lt_irrefl x = ground arith

pub lt_trans : (x y z : ℤ) → ltb_ℤ x y ≡ true → ltb_ℤ y z ≡ true → ltb_ℤ x z ≡ true
lt_trans x y z h k = ground arith

pub lt_of_not_above :
    (x y z : ℤ)
    → ltb_ℤ y z ≡ true
    → ltb_ℤ y x ≡ false
    → (leb_ℤ x x && leb_ℤ x x) ≡ true
    → ltb_ℤ x z ≡ true
lt_of_not_above x y z h k e = ground arith

quotient_le : (p x : ℕ) → p ≤ x * 1000000 → p / 1000000 ≤ x
quotient_le p x h = omega arith

product_le : (x f : ℕ) → f ≤ 1000000 → x * f ≤ x * 1000000
product_le zero f h = omega arith
product_le (suc x) f h = omega (arith, product_le x f h)

not_below : (x q : ℕ) → q ≤ x → ltb (x + 0) (q + 0) ≡ false
not_below x q h = ground arith

pub shrinks :
    (x : ℤ) (f : ℕ) → leb_ℤ (pos 0) x ≡ true → f ≤ 1000000 → ltb_ℤ x (fixed_mul x (pos f)) ≡ false
shrinks (negsuc x) f h g = ground arith
shrinks (pos x) f h g =
    let below : x * f / 1000000 ≤ x = quotient_le (x * f) x (product_le x f g) in
    not_below x (x * f / 1000000) below

pub scaled_le : (m k : ℕ) → m ≤ 10 ^ k → scaled m (sub_ℕ 0 k) ≤ 1000000
scaled_le m zero h = omega arith
scaled_le m (suc k) h =
    let below : sub_ℕ 0 (suc k) ≡ negsuc k = ground arith in
    rw below (div-le_of_le-mul (10 ^ suc k) (omega arith))

unfoldable pub fixed : Floats ℤ
unfolding ◌+ℤ◌ ◌-ℤ◌ show_ℤ
fixed = record {
  of_numeral = fixed_of;
  add = λ a b. a +ℤ b;
  sub = λ a b. a -ℤ b;
  mul = fixed_mul;
  div = fixed_div;
  fmod = fixed_mod;
  lt = ltb_ℤ;
  le = leb_ℤ;
  eq = λ a b. leb_ℤ a b && leb_ℤ b a;
  is_finite = λ a. true;
  round_to = λ digits a. a;
  round_int = λ a. some (fixed_round a);
  truncate = λ a. some (signed (signs_differ a (pos 0)) (size a / 1000000));
  ceil = λ a. some (fixed_ceil a);
  repr = show_ℤ;
  lt_irrefl = lt_irrefl;
  lt_trans = lt_trans;
  lt_of_not_above = lt_of_not_above;
  mul_shrinks = λ x m k h g. shrinks x (scaled m (sub_ℕ 0 k)) h (scaled_le m k g);
}
