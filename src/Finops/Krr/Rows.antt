-- ===== src/Finops/Krr/Rows.antt =====
-- The rows of KRR's output, as finops/app/clients.py puts them into a dictionary.
use practical_project.Base.{
  ℕ, Bool, not, ◌||◌, List, [], ◌∷◌, ◌++◌, Option, none, some, if◌then◌else◌,
}
use practical_project.Base.Classes.{nat_eq}
use practical_project.Base.Equality.{list_eq, pair_eq}
use practical_project.Base.Raises.{◌>>=◌}
use practical_project.Base.Dict.{put}
use practical_project.Base.Json.{
  Json, str, arr, obj, nil, end, get, get_or, iterate, is_text, truthy, or_dict,
}
use practical_project.Float.{Floats}
use practical_project.Float.Literal.{codes, is_empty}
use practical_project.Finops.Krr.{Resource, cpu, memory, Entry, Results}
use practical_project.Finops.Krr.Values.{is_zero, format_resource_value}

abbrev pub or_zero : List ℕ → Option (List ℕ) → List ℕ
or_zero nothing none = nothing
or_zero nothing (some text) = if is_empty text then nothing else text

module _ {F : Type 0} where
  abbrev pub is_job : Json F → Bool
  is_job kind = is_text (codes "Job") kind || is_text (codes "GroupedJob") kind

  -- The rows of the output: a list, or what a dictionary has under `scans`.
  abbrev pub rows_of : Json F → Option (List (Json F))
  rows_of (arr xs) = iterate (arr xs)
  rows_of j = do v ← get_or (arr nil) (codes "scans") j; iterate v

module _ {F : Type 0} (fl : Floats F) where
  -- `container.get(key, {}) or {}`
  abbrev pub section : List ℕ → Json F → Option (Json F)
  section key j = do v ← get_or (obj end) key j; some (or_dict (is_zero fl) v)

  abbrev pub quantity_at : Resource → Json F → Option (Option (List ℕ))
  quantity_at cpu requests = do v ← get (codes "cpu") requests; format_resource_value fl cpu v
  quantity_at memory requests = do
    v ← get (codes "memory") requests
    format_resource_value fl memory v

  unfoldable pub entry_of : List ℕ → Json F → Json F → Json F → Json F → Json F → Option (Entry F)
  unfolding format_resource_value
  entry_of namespace name container kind object scan = do
    recommended ← section (codes "recommended") scan
    current_alloc ← section (codes "allocations") object
    rec_requests ← section (codes "requests") recommended
    curr_requests ← section (codes "requests") current_alloc
    curr_limits ← section (codes "limits") current_alloc
    current_cpu ← quantity_at cpu curr_requests
    current_memory ← quantity_at memory curr_requests
    recommended_cpu ← quantity_at cpu rec_requests
    recommended_memory ← quantity_at memory rec_requests
    limit_cpu ← quantity_at cpu curr_limits
    limit_memory ← quantity_at memory curr_limits
    some (record {
      namespace = namespace;
      workload = name;
      container = container;
      kind = kind;
      current_cpu = or_zero (codes "0m") current_cpu;
      current_memory = or_zero (codes "0Mi") current_memory;
      recommended_cpu = recommended_cpu;
      recommended_memory = recommended_memory;
      limit_cpu = limit_cpu;
      limit_memory = limit_memory;
    })

  -- Whether the loop goes past a row.
  abbrev pub is_skipped : List ℕ → Json F → Json F → Json F → Json F → Bool
  is_skipped namespace space name container kind =
      not (is_text namespace space)
      || not (truthy (is_zero fl) name)
      || not (truthy (is_zero fl) container)
      || is_job kind

module _ {F : Type 0} (fl : Floats F) (python_str : Json F → List ℕ) where
  -- What an f-string writes.
  abbrev pub text_of : Json F → List ℕ
  text_of (str s) = s
  text_of j = python_str j

  unfoldable pub identifier : List ℕ → Json F → Json F → List ℕ
  identifier namespace name container = namespace ++ 47 ∷ (text_of name ++ 47 ∷ text_of container)

  -- One row of the output into the results: `none` where the loop raises.
  unfoldable pub add_row : List ℕ → Json F → Results F → Option (Results F)
  unfolding entry_of identifier put
  add_row namespace scan results = do
    object ← section fl (codes "object") scan
    space ← get (codes "namespace") object
    name ← get (codes "name") object
    container ← get (codes "container") object
    kind ← get (codes "kind") object
    let keep = (do
      e ← entry_of fl namespace name container kind object scan
      some (put (identifier namespace name container) e results))
    if is_skipped fl namespace space name container kind then some results else keep

  unfoldable pub add_rows : List ℕ → List (Json F) → Results F → Option (Results F)
  unfolding add_row
  add_rows namespace [] results = some results
  add_rows namespace (scan ∷ scans) results = do
    results' ← add_row namespace scan results
    add_rows namespace scans results'

  -- `_parse_krr_output`
  unfoldable pub parse_krr_output : Json F → List ℕ → Option (Results F)
  unfolding add_rows
  parse_krr_output output namespace = do rows ← rows_of output; add_rows namespace rows []
