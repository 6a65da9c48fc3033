-- ===== src/Float/Decimal.antt =====
-- Decimal digits of a whole number, written and read back.
use practical_project.Base.{
  ℕ, zero, suc, ◌+◌, ◌-◌, ◌*◌, ◌/◌, ◌%◌, ◌<◌, ◌≡◌, refl, ◌∙◌, ap, true, List, [], ◌∷◌, ◌++◌, ltb,
  arith, if◌then◌else◌, Bool-cases, inl, inr, All, All-append,
}
use practical_project.Base.Int.{ℤ, pos, negsuc}
use practical_project.Float.Literal.{is_digit, span_digits, value_from, value}

-- On fuel; a number above the fuel does not occur in `show`.
unfoldable pub show_from : ℕ → ℕ → List ℕ
show_from zero n = []
show_from (suc f) n =
    let higher = show_from f (n / 10) in
    if ltb n 10 then (48 + n) ∷ [] else higher ++ (48 + n % 10) ∷ []

-- The decimal text of a number.
unfoldable pub show : ℕ → List ℕ
unfolding show_from
show n = show_from (suc n) n

unfoldable pub show_ℤ : ℤ → List ℕ
unfolding show
show_ℤ (pos n) = show n
show_ℤ (negsuc n) = 45 ∷ show (suc n)

value_from-append :
    (acc : ℕ) (xs ys : List ℕ) → value_from acc (xs ++ ys) ≡ value_from (value_from acc xs) ys
unfolding value_from
value_from-append acc [] ys = refl
value_from-append acc (x ∷ xs) ys = value_from-append (acc * 10 + (x - 48)) xs ys

value_from-single : (acc d : ℕ) → value_from acc ((48 + d) ∷ []) ≡ acc * 10 + d
unfolding value_from
value_from-single acc d = omega arith

value-show_from : (f n : ℕ) → n < f → value (show_from f n) ≡ n
unfolding show_from
value-show_from zero n h = elim h [ ]
value-show_from (suc f) n h = elim (Bool-cases (ltb n 10)) [
  | inl small ↦ rw small (value_from-single 0 n ∙ omega arith)
  | inr big ↦
      let shorter : n / 10 < f = ground arith in
      rw big (
        value_from-append 0 (show_from f (n / 10)) ((48 + n % 10) ∷ [])
        ∙ ap (λ (v : ℕ). value_from v ((48 + n % 10) ∷ [])) (value-show_from f (n / 10) shorter)
        ∙ value_from-single (n / 10) (n % 10)
        ∙ omega arith)
]

pub value-show : (n : ℕ) → value (show n) ≡ n
unfolding show
value-show n = value-show_from (suc n) n (omega arith)

digit_lem : (d : ℕ) → d < 10 → is_digit (48 + d) ≡ true
digit_lem d h = ground arith

show_from-digits : (f n : ℕ) → n < f → All (λ c. is_digit c ≡ true) (show_from f n)
unfolding show_from
show_from-digits zero n h = elim h [ ]
show_from-digits (suc f) n h = elim (Bool-cases (ltb n 10)) [
  | inl small ↦ rw small (digit_lem n (ground arith), tt)
  | inr big ↦
      let shorter : n / 10 < f = ground arith in
      rw big (
        All-append (λ c. is_digit c ≡ true) (show_from f (n / 10)) ((48 + n % 10) ∷ [])
          (show_from-digits f (n / 10) shorter) (digit_lem (n % 10) (omega arith), tt))
]

pub show-digits : (n : ℕ) → All (λ c. is_digit c ≡ true) (show n)
unfolding show
show-digits n = show_from-digits (suc n) n (omega arith)

show_from-cons : (f n : ℕ) → n < f → (d : ℕ) × (ds : List ℕ) × (show_from f n ≡ d ∷ ds)
unfolding show_from
show_from-cons zero n h = elim h [ ]
show_from-cons (suc f) n h = elim (Bool-cases (ltb n 10)) [
  | inl small ↦ (48 + n, [], rw small)
  | inr big ↦
      let shorter : n / 10 < f = ground arith in
      let (d, ds, e) = show_from-cons f (n / 10) shorter in
      (d, ds ++ (48 + n % 10) ∷ [], rw (big, e))
]

pub show-cons : (n : ℕ) → (d : ℕ) × (ds : List ℕ) × (show n ≡ d ∷ ds)
unfolding show
show-cons n = show_from-cons (suc n) n (omega arith)

pub span_digits-All :
    (digits : List ℕ) → All (λ c. is_digit c ≡ true) digits → span_digits digits ≡ (digits, [])
unfolding span_digits
span_digits-All [] h = refl
span_digits-All (c ∷ cs) h = rw (h.0, span_digits-All cs h.1)
