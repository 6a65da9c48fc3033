-- ===== src/Finops/Krr/Units.antt =====
-- Quantities that finops/app/clients.py passes on with their unit, as finops/app/engine.py reads them.
use mathlib.Core.List.{append-nil}
use practical_project.Base.{
  ℕ, ◌≡◌, refl, ◌∙◌, ap, Bool, true, false, List, [], ◌∷◌, ◌++◌, map, none, some, arith, ◌⊎◌, inl,
  inr, All-append, ◌==◌,
}
use practical_project.Base.Int.{pos}
use practical_project.Base.Classes.{nat_eq}
use practical_project.Base.Json.{str}
use practical_project.Float.{Floats, decimal}
use practical_project.Float.Literal.{
  is_digit, is_space, lower, drop_underscores, signed, unsigned, fraction, exponent, float_of,
  value,
}
use practical_project.Float.Digits.{
  Digits, read, Solid, Digits-Solid, strip-Solid, lower-Digits, float_of-Digits, not_underscore,
  sign-digit, not_letter, digit_plain,
}
use practical_project.Finops.Quantity.{
  split_last, fraction_group, memory_match, milli_or_cores, float_or_zero, zero_f, parse_cpu,
  parse_memory,
}
use practical_project.Finops.Quantity.RoundTrip.{split_last-append, span_digits-before}
use practical_project.Finops.Krr.{Resource, cpu, memory}
use practical_project.Finops.Krr.Values.{is_unit, is_quantity, format_resource_value}

-- A letter that ends no number.
record Tail (c : ℕ) : Type 0 where
  no_digit : is_digit c ≡ false
  no_space : is_space c ≡ false
  no_underscore : (c == 95) ≡ false
  no_point : (c == 46) ≡ false
  is_lower : lower c ≡ c
  no_exponent : (c == 101) ≡ false
  no_milli : (c == 109) ≡ false

Tail-u : Tail 117
Tail-u = record {
  no_digit = refl;
  no_space = refl;
  no_underscore = refl;
  no_point = refl;
  is_lower = refl;
  no_exponent = refl;
  no_milli = refl;
}

Tail-n : Tail 110
Tail-n = record {
  no_digit = refl;
  no_space = refl;
  no_underscore = refl;
  no_point = refl;
  is_lower = refl;
  no_exponent = refl;
  no_milli = refl;
}

drop_underscores-Tail :
    (digits : List ℕ) (c : ℕ) (flag : Bool)
    → Digits digits
    → (c == 95) ≡ false
    → drop_underscores flag (digits ++ c ∷ []) ≡ some (digits ++ c ∷ [])
unfolding drop_underscores
drop_underscores-Tail [] c flag h k = rw k refl
drop_underscores-Tail (d ∷ ds) c flag (h, hs) k =
    rw (not_underscore d h, drop_underscores-Tail ds c (is_digit d) hs k) refl

Solid-Tail :
    (digits : List ℕ) (c : ℕ) → Digits digits → is_space c ≡ false → Solid (digits ++ c ∷ [])
Solid-Tail digits c h k =
    All-append (λ (x : ℕ). is_space x ≡ false) digits (c ∷ []) (Digits-Solid digits h) (k, tt)

unsigned-Tail :
    (d : ℕ) (ds : List ℕ) (c : ℕ)
    → Digits (d ∷ ds)
    → Tail c
    → unsigned false ((d ∷ ds) ++ c ∷ []) ≡ none
unfolding unsigned fraction exponent
unsigned-Tail d ds c h t =
    rw
      (
        unsigned,
        span_digits-before (d ∷ ds) c [] h t.no_digit,
        t.no_point,
        t.is_lower,
        t.no_exponent,
      )
      refl

signed-Tail :
    (d : ℕ) (ds : List ℕ) (c : ℕ)
    → Digits (d ∷ ds)
    → Tail c
    → signed (false, (d ∷ ds) ++ c ∷ []) ≡ none
unfolding signed
signed-Tail d ds c h t =
    rw (signed, digit_plain d h.0, not_letter d 105 h.0 refl, not_letter d 110 h.0 refl)
      (unsigned-Tail d ds c h t)

float_of-Tail :
    (d : ℕ) (ds : List ℕ) (c : ℕ) → Digits (d ∷ ds) → Tail c → float_of ((d ∷ ds) ++ c ∷ []) ≡ none
unfolding float_of
float_of-Tail d ds c h t =
    let text = (d ∷ ds) ++ c ∷ [] in
    ap (λ (s : List ℕ). read (drop_underscores false s))
      (strip-Solid text (Solid-Tail (d ∷ ds) c h t.no_space))
    ∙ ap read (drop_underscores-Tail (d ∷ ds) c false h t.no_underscore)
    ∙ ap signed (sign-digit d (ds ++ c ∷ []) h.0)
    ∙ signed-Tail d ds c h t

is_quantity-Tail :
    (r : Resource) (d : ℕ) (ds : List ℕ) (c : ℕ)
    → Digits (d ∷ ds)
    → is_digit c ≡ false
    → (c == 46) ≡ false
    → is_unit r (c ∷ []) ≡ true
    → is_quantity r ((d ∷ ds) ++ c ∷ []) ≡ true
unfolding is_quantity fraction_group
is_quantity-Tail r d ds c h k p u = rw (is_quantity, span_digits-before (d ∷ ds) c [] h k, p) u

not_question : (d : ℕ) → is_digit d ≡ true → (d == 63) ≡ false
not_question d h = ground arith

module _ {F : Type 0} (fl : Floats F) where
  passed_on :
      (r : Resource) (d : ℕ) (ds : List ℕ) (c : ℕ)
      → Digits (d ∷ ds)
      → is_digit c ≡ false
      → is_space c ≡ false
      → (c == 46) ≡ false
      → is_unit r (c ∷ []) ≡ true
      → format_resource_value fl r (str ((d ∷ ds) ++ c ∷ [])) ≡ some (some ((d ∷ ds) ++ c ∷ []))
  unfolding format_resource_value
  passed_on r d ds c h k s p u =
      rw
        (
          format_resource_value,
          strip-Solid ((d ∷ ds) ++ c ∷ []) (Solid-Tail (d ∷ ds) c h s),
          not_question d h.0,
          is_quantity-Tail r d ds c h k p u,
        )
        refl

  float_or_zero-none : (text : List ℕ) → float_of text ≡ none → float_or_zero fl text ≡ zero_f fl
  float_or_zero-none text h = rw (float_or_zero, h) refl

  parse_cpu-Tail :
      (d : ℕ) (ds : List ℕ) (c : ℕ)
      → Digits (d ∷ ds)
      → Tail c
      → parse_cpu fl ((d ∷ ds) ++ c ∷ []) ≡ zero_f fl
  unfolding parse_cpu
  parse_cpu-Tail d ds c h t =
      let text = (d ∷ ds) ++ c ∷ [] in
      ap (λ (s : List ℕ). milli_or_cores fl (map lower s) (split_last (map lower s)))
        (strip-Solid text (Solid-Tail (d ∷ ds) c h t.no_space))
      ∙ ap (λ (s : List ℕ). milli_or_cores fl s (split_last s)) {y = text}
          (lower-Digits (d ∷ ds) (c ∷ []) h ∙ rw t.is_lower refl)
      ∙ ap (milli_or_cores fl text) (split_last-append (d ∷ ds) c)
      ∙ rw t.no_milli (float_or_zero-none text (float_of-Tail d ds c h t))

  memory_match-milli :
      (d : ℕ) (ds : List ℕ)
      → Digits (d ∷ ds)
      → memory_match ((d ∷ ds) ++ 109 ∷ []) ≡ some (d ∷ ds, 109 ∷ [])
  unfolding memory_match
  memory_match-milli d ds h =
      rw (memory_match, span_digits-before (d ∷ ds) 109 [] h refl)
        (ap (λ (t : List ℕ). some (t, 109 ∷ []))
          (append-nil ((d ∷ ds) ++ []) ∙ append-nil (d ∷ ds)))

  parse_memory-milli :
      (d : ℕ) (ds : List ℕ)
      → Digits (d ∷ ds)
      → parse_memory fl ((d ∷ ds) ++ 109 ∷ [])
        ≡ fl.of_numeral (decimal false (value (d ∷ ds)) (pos 0))
  unfolding parse_memory
  parse_memory-milli d ds h =
      rw
        (
          parse_memory,
          strip-Solid ((d ∷ ds) ++ 109 ∷ []) (Solid-Tail (d ∷ ds) 109 h refl),
          memory_match-milli d ds h,
          float_of-Digits d ds h,
        )
        refl

  -- Units on which the client and the engine differ: the client passes on a whole number of micro- or
  -- nanocores, which the engine reads as no CPU at all, and a whole number of thousandths of a byte,
  -- which the engine reads as so many mebibytes.
  pub parse-format_resource_value_units :
      (d : ℕ) (ds : List ℕ) (unit : ℕ)
      → Digits (d ∷ ds)
      → (unit ≡ 117) ⊎ (unit ≡ 110)
      → (format_resource_value fl cpu (str ((d ∷ ds) ++ unit ∷ []))
          ≡ some (some ((d ∷ ds) ++ unit ∷ [])))
        × (parse_cpu fl ((d ∷ ds) ++ unit ∷ []) ≡ zero_f fl)
        × (format_resource_value fl memory (str ((d ∷ ds) ++ 109 ∷ []))
            ≡ some (some ((d ∷ ds) ++ 109 ∷ [])))
        × (parse_memory fl ((d ∷ ds) ++ 109 ∷ [])
            ≡ fl.of_numeral (decimal false (value (d ∷ ds)) (pos 0)))
  parse-format_resource_value_units d ds unit h (inl e) = rw e (
    passed_on cpu d ds 117 h refl refl refl refl,
    parse_cpu-Tail d ds 117 h Tail-u,
    passed_on memory d ds 109 h refl refl refl refl,
    parse_memory-milli d ds h,
  )
  parse-format_resource_value_units d ds unit h (inr e) = rw e (
    passed_on cpu d ds 110 h refl refl refl refl,
    parse_cpu-Tail d ds 110 h Tail-n,
    passed_on memory d ds 109 h refl refl refl refl,
    parse_memory-milli d ds h,
  )
