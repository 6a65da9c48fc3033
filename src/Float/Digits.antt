-- ===== src/Float/Digits.antt =====
-- What `float` makes of a run of digits.
use mathlib.Core.List.{reverse, reverse-reverse, append-nil}
use practical_project.Base.{
  ℕ, ◌≡◌, refl, sym, subst, ◌∙◌, ap, Bool, true, false, List, [], ◌∷◌, ◌++◌, map, Option, none,
  some, arith, All, All-map, All-reverse, ◌==◌,
}
use practical_project.Base.Classes.{nat_eq}
use practical_project.Base.Int.{pos, ◌-ℤ◌}
use practical_project.Float.{Numeral, decimal}
use practical_project.Float.Literal.{
  is_digit, is_space, is_empty, lower, strip, strip_left, drop_underscores, sign, signed, unsigned,
  fraction, exponent, value, float_of,
}
use practical_project.Float.Decimal.{show, show-digits, show-cons, value-show, span_digits-All}

abbrev pub Digits : List ℕ → Type 0
Digits digits = All (λ (c : ℕ). is_digit c ≡ true) digits

abbrev pub Solid : List ℕ → Type 0
Solid text = All (λ (c : ℕ). is_space c ≡ false) text

solid_digit : (c : ℕ) → is_digit c ≡ true → is_space c ≡ false
solid_digit c h = ground arith

pub Digits-Solid : (digits : List ℕ) → Digits digits → Solid digits
Digits-Solid digits h = All-map solid_digit digits h

pub strip_left-Solid : (text : List ℕ) → Solid text → strip_left text ≡ text
unfolding strip_left
strip_left-Solid [] h = refl
strip_left-Solid (c ∷ cs) (h, hs) = rw h refl

pub strip-Solid : (text : List ℕ) → Solid text → strip text ≡ text
unfolding strip
strip-Solid text h =
    ap (λ (s : List ℕ). reverse (strip_left (reverse s))) (strip_left-Solid text h)
    ∙ ap reverse
        (strip_left-Solid (reverse text) (All-reverse (λ (c : ℕ). is_space c ≡ false) text h))
    ∙ reverse-reverse text

pub digit_plain : (c : ℕ) → is_digit c ≡ true → lower c ≡ c
digit_plain c h = ground arith

pub lower-Digits :
    (digits tail : List ℕ) → Digits digits → map lower (digits ++ tail) ≡ digits ++ map lower tail
lower-Digits [] tail h = refl
lower-Digits (c ∷ cs) tail (h, hs) = rw (digit_plain c h, lower-Digits cs tail hs) refl

pub not_underscore : (c : ℕ) → is_digit c ≡ true → (c == 95) ≡ false
not_underscore c h = ground arith

drop_underscores-Digits :
    (digits : List ℕ) (flag : Bool) → Digits digits → drop_underscores flag digits ≡ some digits
unfolding drop_underscores
drop_underscores-Digits [] flag h = refl
drop_underscores-Digits (c ∷ cs) flag (h, hs) =
    rw (not_underscore c h, drop_underscores-Digits cs (is_digit c) hs) refl

pub sign-digit : (c : ℕ) (cs : List ℕ) → is_digit c ≡ true → sign (c ∷ cs) ≡ (false, c ∷ cs)
unfolding sign
sign-digit c cs h = ground arith

pub not_letter : (c d : ℕ) → is_digit c ≡ true → is_digit d ≡ false → (c == d) ≡ false
not_letter c d h k = ground arith

unsigned-Digits :
    (text : List ℕ)
    → Digits text
    → is_empty text ≡ false
    → unsigned false text ≡ some (decimal false (value text) (pos 0))
unfolding unsigned fraction exponent ◌-ℤ◌
unsigned-Digits text h k =
    rw (unsigned, span_digits-All text h, k, span_digits-All text h)
      (ap (λ (t : List ℕ). some (decimal false (value t) (pos 0))) (append-nil text))

signed-Digits :
    (c : ℕ) (cs : List ℕ)
    → Digits (c ∷ cs)
    → signed (false, c ∷ cs) ≡ some (decimal false (value (c ∷ cs)) (pos 0))
unfolding signed
signed-Digits c cs h =
    rw (signed, digit_plain c h.0, not_letter c 105 h.0 refl, not_letter c 110 h.0 refl)
      (unsigned-Digits (c ∷ cs) h refl)

abbrev pub read : Option (List ℕ) → Option Numeral
read none = none
read (some s) = signed (sign s)

pub float_of-Digits :
    (c : ℕ) (cs : List ℕ)
    → Digits (c ∷ cs)
    → float_of (c ∷ cs) ≡ some (decimal false (value (c ∷ cs)) (pos 0))
unfolding float_of
float_of-Digits c cs h =
    let text = c ∷ cs in
    ap (λ (t : List ℕ). read (drop_underscores false t)) (strip-Solid text (Digits-Solid text h))
    ∙ ap read (drop_underscores-Digits text false h)
    ∙ ap signed (sign-digit c cs h.0)
    ∙ signed-Digits c cs h

-- A whole number's decimal text is read as that number.
pub float_of-show : (n : ℕ) → float_of (show n) ≡ some (decimal false n (pos 0))
float_of-show n =
    let (c, cs, text) = show-cons n in
    let digits = subst Digits text (show-digits n) in
    ap float_of text
    ∙ float_of-Digits c cs digits
    ∙ ap (λ (v : ℕ). some (decimal false v (pos 0))) (ap value (sym text) ∙ value-show n)
