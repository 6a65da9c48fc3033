-- ===== src/Finops/Krr.antt =====
-- KrrClient of finops/app/clients.py: the entries of a scan, the runs of KRR and the state of the cache.
-- KRR itself is an oracle; instants are whole microseconds of a clock that never goes back.
pub mod Values
pub mod Rows
pub mod Scans
pub mod Sound
pub mod Served
pub mod Cached
pub mod Units
pub mod Found
pub mod Sample
mod Tests
use practical_project.Base.{
  ℕ, zero, ◌+◌, ◌-◌, ◌*◌, ◌/◌, Bool, true, false, not, ◌&&◌, ◌||◌, List, [], ◌∷◌, ◌++◌, Option,
  none, some, ltb, leb, ◌==◌, if◌then◌else◌,
}
use practical_project.Base.Int.{ℤ, pos}
use practical_project.Base.Classes.{nat_eq}
use practical_project.Base.Equality.{list_beq, list_eq, pair_eq}
use practical_project.Base.Raises.{◌>>=◌}
use practical_project.Base.Dict.{lookup, put}
use practical_project.Base.Json.{
  Json, null, bool, num, str, arr, obj, nil, end, get, get_or, iterate, is_text, truthy, or_dict,
}
use practical_project.Float.{Floats, lit}
use practical_project.Float.Literal.{
  codes, is_digit, is_empty, strip, strip_left, span_digits, value, value_from, float_of,
}
use practical_project.Float.Decimal.{show}
use practical_project.Finops.Quantity.{fraction_group, format_cpu, format_memory}

pub data Resource : Type 0 where
  cpu memory : Resource

-- A container of the scan. A text may be missing; names are as KRR gives them.
pub record Entry (F : Type 0) : Type 0 where
  pub namespace : List ℕ
  pub workload : Json F
  pub container : Json F
  pub kind : Json F
  pub current_cpu : List ℕ
  pub current_memory : List ℕ
  pub recommended_cpu : Option (List ℕ)
  pub recommended_memory : Option (List ℕ)
  pub limit_cpu : Option (List ℕ)
  pub limit_memory : Option (List ℕ)

abbrev pub Results : Type 0 → Type 0
Results F = List (List ℕ × Entry F)

-- How a run of the `krr` command ends: it does not start, it takes more than 120 seconds, or it exits
-- with a code and an output, which is `none` if it is no JSON.
pub data Run (F : Type 0) : Type 0 where
  not_started timed_out : Run F
  exited : ℤ → Option (Json F) → Run F

-- A namespace and the hours of history.
abbrev pub ScanKey : Type 0
ScanKey = List ℕ × List ℕ

-- `_krr_cache`, and the scans for which KRR was started.
pub record ScanState (F : Type 0) : Type 0 where
  pub cache : List (ScanKey × (Results F × ℕ))
  pub runs : List ScanKey
