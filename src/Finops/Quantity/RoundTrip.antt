-- ===== src/Finops/Quantity/RoundTrip.antt =====
-- Reading back the quantities that the program writes.
use mathlib.Core.List.{append-nil}
use practical_project.Base.{
  ℕ, ◌≡◌, refl, sym, ◌∙◌, ap, Bool, true, false, ◌&&◌, List, [], ◌∷◌, ◌++◌, map, Option, some,
  arith, All-append, Bool-cases, inl, inr, if◌then◌else◌,
}
use practical_project.Base.Int.{ℤ, pos}
use practical_project.Float.{Floats, lit, decimal}
use practical_project.Float.Literal.{codes, is_digit, is_space, is_empty, lower, span_digits}
use practical_project.Float.Decimal.{show, show_ℤ, show-digits, show-cons}
use practical_project.Float.Digits.{
  Digits, Solid, Digits-Solid, strip-Solid, lower-Digits, float_of-show,
}
use practical_project.Finops.Quantity.{
  split_last, memory_match, in_mebibytes, with_suffix, zero_f, parse_cpu, parse_memory, format_cpu,
  format_memory,
}

pub split_last-append :
    (front : List ℕ) (last : ℕ) → split_last (front ++ last ∷ []) ≡ some (front, last)
unfolding split_last
split_last-append [] last = refl
split_last-append (c ∷ front) last = rw (split_last-append front last) refl

pub is_empty-append :
    (digits tail : List ℕ) → is_empty digits ≡ false → is_empty (digits ++ tail) ≡ false
is_empty-append [] tail h = ground arith
is_empty-append (c ∷ cs) tail h = refl

show-filled : (n : ℕ) → is_empty (show n) ≡ false
show-filled n = let (c, cs, text) = show-cons n in ap is_empty text

suffix-Solid : (n : ℕ) (tail : List ℕ) → Solid tail → Solid (show n ++ tail)
suffix-Solid n tail h =
    All-append (λ (c : ℕ). is_space c ≡ false) (show n) tail (Digits-Solid (show n) (show-digits n))
      h

pub span_digits-before :
    (digits : List ℕ) (c : ℕ) (rest : List ℕ)
    → Digits digits
    → is_digit c ≡ false
    → span_digits (digits ++ c ∷ rest) ≡ (digits, c ∷ rest)
unfolding span_digits
span_digits-before [] c rest h k = rw k refl
span_digits-before (d ∷ ds) c rest (h, hs) k = rw (h, span_digits-before ds c rest hs k) refl

memory_match-Mi : (n : ℕ) → memory_match (show n ++ codes "Mi") ≡ some (show n, codes "Mi")
unfolding memory_match
memory_match-Mi n =
    rw
      (memory_match, span_digits-before (show n) 77 (codes "i") (show-digits n) refl, show-filled n)
      (ap (λ (t : List ℕ). some (t, codes "Mi")) (append-nil (show n ++ []) ∙ append-nil (show n)))

memory_match-Gi : (n : ℕ) → memory_match (show n ++ codes "Gi") ≡ some (show n, codes "Gi")
unfolding memory_match
memory_match-Gi n =
    rw
      (memory_match, span_digits-before (show n) 71 (codes "i") (show-digits n) refl, show-filled n)
      (ap (λ (t : List ℕ). some (t, codes "Gi")) (append-nil (show n ++ []) ∙ append-nil (show n)))

module _ {F : Type 0} (fl : Floats F) where
  -- A whole number of millicores.
  parse_cpu-millicores :
      (n : ℕ)
      → parse_cpu fl (show n ++ codes "m")
        ≡ fl.div (fl.of_numeral (decimal false n (pos 0))) (lit fl 1000 0)
  unfolding parse_cpu
  parse_cpu-millicores n =
      rw
        (
          parse_cpu,
          is_empty-append (show n) (codes "m") (show-filled n),
          strip-Solid (show n ++ codes "m") (suffix-Solid n (codes "m") (refl, tt)),
          lower-Digits (show n) (codes "m") (show-digits n),
          split_last-append (show n) 109,
          float_of-show n,
        )
        refl

  parse_memory-show :
      (n : ℕ) (unit : List ℕ)
      → Solid unit
      → memory_match (show n ++ unit) ≡ some (show n, unit)
      → parse_memory fl (show n ++ unit)
        ≡ in_mebibytes fl (fl.of_numeral (decimal false n (pos 0))) (map lower unit)
  unfolding parse_memory
  parse_memory-show n unit solid matched =
      rw
        (
          parse_memory,
          is_empty-append (show n) unit (show-filled n),
          strip-Solid (show n ++ unit) (suffix-Solid n unit solid),
          matched,
          float_of-show n,
        )
        refl

  -- A CPU request below one core, written and read back, is the whole number of millicores that the
  -- value rounds to, divided by a thousand, where that number is not negative.
  pub parse_cpu-format_cpu :
      (cores : F) (n : ℕ)
      → fl.lt cores (lit fl 1 0) ≡ true
      → fl.round_int (fl.mul cores (lit fl 1000 0)) ≡ some (pos n)
      → (text : List ℕ) × (format_cpu fl cores ≡ some text)
        × (parse_cpu fl text ≡ fl.div (fl.of_numeral (decimal false n (pos 0))) (lit fl 1000 0))
  unfolding format_cpu show_ℤ
  parse_cpu-format_cpu cores n small rounded =
      (show n ++ codes "m", rw (format_cpu, small, rounded) refl, parse_cpu-millicores n)

  abbrev pub in_gibibytes : F → Bool
  in_gibibytes mib = fl.le (lit fl 1024 0) mib && fl.eq (fl.fmod mib (lit fl 1024 0)) (zero_f fl)

  -- A memory request, written and read back, is the number of mebibytes that the value rounds to, or
  -- 1024 for each gibibyte where it is a whole number of those, if that number is not negative.
  pub parse_memory-format_memory :
      (mib : F) (n : ℕ)
      → (if in_gibibytes mib then fl.truncate (fl.div mib (lit fl 1024 0)) else fl.round_int mib)
        ≡ some (pos n)
      → (text : List ℕ) × (format_memory fl mib ≡ some text)
        × (parse_memory fl text ≡ (
            let whole = fl.of_numeral (decimal false n (pos 0)) in
            if in_gibibytes mib then fl.mul whole (lit fl 1024 0) else whole))
  unfolding format_memory show_ℤ
  parse_memory-format_memory mib n h =
      let number =
        λ (b : Bool). if b then fl.truncate (fl.div mib (lit fl 1024 0)) else fl.round_int mib in
      elim (Bool-cases (in_gibibytes mib)) [
        | inl big ↦ (
          show n ++ codes "Gi",
          rw (format_memory, big)
              (ap (λ (o : Option ℤ). with_suffix fl o (codes "Gi")) (sym (ap number big) ∙ h)),
          rw big (parse_memory-show n (codes "Gi") (refl, (refl, tt)) (memory_match-Gi n)),
        )
        | inr small ↦ (
          show n ++ codes "Mi",
          rw (format_memory, small)
              (ap (λ (o : Option ℤ). with_suffix fl o (codes "Mi")) (sym (ap number small) ∙ h)),
          rw small (parse_memory-show n (codes "Mi") (refl, (refl, tt)) (memory_match-Mi n)),
        )
      ]
