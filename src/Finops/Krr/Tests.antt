-- ===== src/Finops/Krr/Tests.antt =====
-- Scans of a namespace of two rows, in fixed-point numbers.
use practical_project.Base.{◌≡◌, refl, false, List, [], ◌∷◌, none, some, All, inl, arith}
use practical_project.Base.Int.{ℤ, pos}
use practical_project.Base.Raises.{Ensures}
use practical_project.Base.Dict.{lookup}
use practical_project.Base.Json.{str}
use practical_project.Float.{decimal}
use practical_project.Float.Fixed.{fixed}
use practical_project.Float.Literal.{codes, value}
use practical_project.Finops.Quantity.{zero_f, parse_cpu, parse_memory}
use practical_project.Finops.Krr.{cpu, memory, Results, ScanState}
use practical_project.Finops.Krr.Values.{format_resource_value, duration_hours}
use practical_project.Finops.Krr.Rows.{parse_krr_output}
use practical_project.Finops.Krr.Scans.{scan_namespace, get_recommendation}
use practical_project.Finops.Krr.Served.{ScanCall, scan_each, scan_namespace-served}
use practical_project.Finops.Krr.Cached.{
  CacheIsSound, scan_namespace-AllSound, too_slow, scan_namespace-Fails,
}
use practical_project.Finops.Krr.Sound.{IsSound}
use practical_project.Finops.Krr.Found.{IsAnswer, get_recommendation-IsAnswer}
use practical_project.Finops.Krr.Sample.{
  output, plain, runs_well, runs_late, empty, api, found, Printed, prints,
}
use practical_project.Finops.Krr.Units.{parse-format_resource_value_units}

parsed : parse_krr_output fixed plain output (codes "prod") ≡ some found
unfolding fixed parse_krr_output
parsed = refl

abbrev after_scan : ScanState ℤ
after_scan = record {
  cache = ((codes "prod", codes "24"), (found, 1000000)) ∷ [];
  runs = (codes "prod", codes "24") ∷ [];
}

scanned_once :
    scan_namespace fixed plain runs_well (codes "prod") (codes "1d") 1000000 empty
    ≡ some (some found, after_scan)
unfolding fixed scan_namespace
scanned_once = refl

unreadable : scan_namespace fixed plain runs_well (codes "prod") (codes "0d") 1000000 empty ≡ none
unfolding scan_namespace
unreadable = refl

one_day : duration_hours (codes "1d") ≡ some (codes "24")
unfolding duration_hours
one_day = refl

of_hours : duration_hours (codes "24h") ≡ some (codes "24")
unfolding duration_hours
of_hours = refl

abbrev others : List (ScanCall ℤ)
others =
    record { namespace = codes "dev"; duration = codes "24"; now = 2000000; run = runs_late }
    ∷ record { namespace = codes "prod"; duration = codes "24"; now = 3000000; run = runs_late }
    ∷ []

scan_namespace-served_example :
    scan_namespace fixed plain runs_late
      (codes "prod")
      (codes "24h")
      300000000
      (scan_each fixed plain others after_scan)
    ≡ some (some found, scan_each fixed plain others after_scan)
scan_namespace-served_example =
    scan_namespace-served fixed plain runs_well runs_late (codes "prod") (codes "1d") (codes "24h")
      (codes "24") 1000000 300000000 empty after_scan found others one_day of_hours scanned_once
      refl (omega arith) (omega arith)

scan_namespace-AllSound_example :
    Ensures (All (IsSound fixed plain Printed (codes "prod"))) (some found)
    × CacheIsSound fixed plain Printed after_scan
scan_namespace-AllSound_example =
    scan_namespace-AllSound fixed plain Printed runs_well (codes "prod") (codes "1d") 1000000 empty
      after_scan (some found) prints tt scanned_once

scan_namespace-Fails_example :
    scan_namespace fixed plain runs_late (codes "prod") (codes "1d") 1000000 empty
    ≡ some (none, record empty { runs = (codes "prod", codes "24") ∷ [] })
unfolding lookup
scan_namespace-Fails_example =
    scan_namespace-Fails fixed plain runs_late (codes "prod") (codes "1d") (codes "24") 1000000
      empty one_day (inl refl) too_slow

asked :
    get_recommendation fixed plain runs_well
      (codes "api")
      (codes "prod")
      []
      (codes "1d")
      1000000
      empty
    ≡ some (some api, after_scan)
unfolding fixed get_recommendation
asked = refl

get_recommendation-IsAnswer_example :
    (results : Results ℤ) × (scan_namespace fixed plain runs_well
        (codes "prod")
        (codes "1d")
        1000000
        empty
      ≡ some (some results, after_scan))
    × IsAnswer fixed plain Printed (codes "api") (codes "prod") [] results api
get_recommendation-IsAnswer_example =
    get_recommendation-IsAnswer fixed plain Printed runs_well (codes "api") (codes "prod") []
      (codes "1d") 1000000 empty after_scan api prints tt asked

parse-format_resource_value_units_example :
    (format_resource_value fixed cpu (str (codes "900000u")) ≡ some (some (codes "900000u")))
    × (parse_cpu fixed (codes "900000u") ≡ zero_f fixed)
    × (format_resource_value fixed memory (str (codes "900000m")) ≡ some (some (codes "900000m")))
    × (parse_memory fixed (codes "900000m")
        ≡ fixed.of_numeral (decimal false (value (codes "900000")) (pos 0)))
parse-format_resource_value_units_example =
    parse-format_resource_value_units fixed 57 (codes "00000") 117
      (refl, (refl, (refl, (refl, (refl, (refl, tt)))))) (inl refl)
