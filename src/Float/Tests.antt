-- ===== src/Float/Tests.antt =====
-- Literals that `float` accepts and refuses.
use practical_project.Base.{◌≡◌, refl, true, false, some, none}
use practical_project.Base.Int.{pos, negsuc}
use practical_project.Float.{decimal, infinite}
use practical_project.Float.Literal.{codes, float_of}
use practical_project.Float.Decimal.{show_ℤ}

reads_exponent : float_of (codes " -1_0.25e3 ") ≡ some (decimal true 1025 (pos 1))
unfolding float_of
reads_exponent = refl

reads_words :
    (float_of (codes "Infinity") ≡ some (infinite false))
    × (float_of (codes "1__0") ≡ none)
    × (float_of (codes "0x10") ≡ none)
    × (float_of (codes ".5") ≡ some (decimal false 5 (negsuc 0)))
unfolding float_of
reads_words = (refl, refl, refl, refl)

shows_negative : show_ℤ (negsuc 249) ≡ codes "-250"
unfolding show_ℤ
shows_negative = refl
