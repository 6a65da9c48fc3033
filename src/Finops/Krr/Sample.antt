-- ===== src/Finops/Krr/Sample.antt =====
-- A namespace of one deployment and one job, as KRR lists it.
use practical_project.Base.{◌≡◌, ◌⊎◌, refl, inl, inr, ℕ, List, [], ◌∷◌, none, some}
use practical_project.Base.Int.{ℤ, pos}
use practical_project.Base.Json.{Json, num, str, arr, obj, nil, cons, end, field}
use practical_project.Float.Literal.{codes}
use practical_project.Float.Fixed.{fixed}
use practical_project.Finops.Krr.Cached.{Prints}
use practical_project.Finops.Krr.{Entry, Results, Run, timed_out, exited, ScanKey, ScanState}

abbrev pub J : Type 0
J = Json ℤ

abbrev pub plain : J → List ℕ
plain j = []

abbrev pub row : List ℕ → J
row kind = obj (
    field (codes "object")
      (obj (
        field (codes "namespace") (str (codes "prod")) (
          field (codes "name") (str (codes "api")) (
            field (codes "container") (str (codes "web")) (
              field (codes "kind") (str kind) (
                field (codes "allocations")
                  (obj (
                    field (codes "requests")
                      (obj (
                        field (codes "cpu") (num (pos 500000))
                          (field (codes "memory") (num (pos 134217728000000)) end)))
                      end))
                  end))))))
      (field (codes "recommended")
        (obj (
          field (codes "requests")
            (obj (
              field (codes "cpu") (obj (field (codes "value") (str (codes " 250m ")) end))
                (field (codes "memory") (obj (field (codes "value") (str (codes "?")) end)) end)))
            end))
        end))

abbrev pub output : J
output = obj (
    field (codes "scans") (arr (cons (row (codes "Deployment")) (cons (row (codes "Job")) nil)))
      end)

abbrev pub runs_well : ScanKey → Run ℤ
runs_well key = exited (pos 0) (some output)

abbrev pub runs_late : ScanKey → Run ℤ
runs_late key = timed_out

abbrev pub empty : ScanState ℤ
empty = record { cache = []; runs = [] }

abbrev pub api : Entry ℤ
api = record {
  namespace = codes "prod";
  workload = str (codes "api");
  container = str (codes "web");
  kind = str (codes "Deployment");
  current_cpu = codes "500m";
  current_memory = codes "128Mi";
  recommended_cpu = some (codes "250m");
  recommended_memory = none;
  limit_cpu = none;
  limit_memory = none;
}

abbrev pub found : Results ℤ
found = (codes "prod/api/web", api) ∷ []

-- The rows that KRR prints here.
abbrev pub Printed : J → Type 0
Printed j = (j ≡ row (codes "Deployment")) ⊎ (j ≡ row (codes "Job"))

pub prints : (key : ScanKey) → Prints fixed plain Printed (runs_well key)
prints key = (inl refl, (inr refl, tt))
