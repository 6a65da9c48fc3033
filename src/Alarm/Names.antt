-- ===== src/Alarm/Names.antt =====
-- The names in a button's `callback_data`: how alarm/main.py writes and reads them.
use practical_project.Base.{
  ℕ, zero, suc, List, [], ◌∷◌, ◌++◌, Option, none, some, ◌==◌, if◌then◌else◌,
}
use practical_project.Base.Classes.{nat_eq}
use practical_project.Float.Literal.{codes, is_empty}
use practical_project.Alarm.{Target}

-- The rest of a text behind a prefix, if it has the prefix.
unfoldable pub behind : List ℕ → List ℕ → Option (List ℕ)
behind [] text = some text
behind (p ∷ ps) [] = none
behind (p ∷ ps) (c ∷ cs) = let rest = behind ps cs in if p == c then rest else none

-- `text.lstrip(":")`
unfoldable pub strip_colons : List ℕ → List ℕ
strip_colons [] = []
strip_colons (c ∷ cs) = let rest = strip_colons cs in if c == 58 then rest else c ∷ cs

-- The text before the first colon, and behind it if there is one.
unfoldable pub split_once : List ℕ → List ℕ × Option (List ℕ)
split_once [] = ([], none)
split_once (c ∷ cs) =
    let (part, rest) = split_once cs in if c == 58 then ([], some cs) else (c ∷ part, rest)

-- `text.split(":")`, for as many parts as the fuel has; the program reads three.
unfoldable pub split_colons : ℕ → List ℕ → List (List ℕ)
unfolding split_once
split_colons zero text = []
split_colons (suc n) text = elim (split_once text).1 [
  | none ↦ (split_once text).0 ∷ []
  | some rest ↦ (split_once text).0 ∷ split_colons n rest
]

-- `parts[i] if len(parts) > i and parts[i] else default`
abbrev pub part_or : List ℕ → ℕ → List (List ℕ) → List ℕ
part_or default i [] = default
part_or default zero (p ∷ ps) = if is_empty p then default else p
part_or default (suc i) (p ∷ ps) = part_or default i ps

-- The workload that the rest of `callback_data` names.
unfoldable pub target_of : List ℕ → Target
unfolding strip_colons split_colons
target_of rest =
    let names = strip_colons rest in
    let parts = if is_empty names then [] else split_colons 3 names in
    record {
      namespace = part_or (codes "sample-fastapi") 0 parts;
      deployment_name = part_or (codes "sample-worker") 1 parts;
      container_name = part_or (codes "worker") 2 parts;
    }

-- `f"{prefix}:{namespace}:{deployment_name}:{container_name}"`
unfoldable pub button_data : List ℕ → Target → List ℕ
button_data prefix t =
    prefix ++ 58 ∷ (t.namespace ++ 58 ∷ (t.deployment_name ++ 58 ∷ t.container_name))

-- `callback_data.replace("rollback_custom_", "")`, on fuel for the text's length.
unfoldable pub without : ℕ → List ℕ → List ℕ → List ℕ
unfolding behind
without zero word text = text
without (suc n) word [] = []
without (suc n) word (c ∷ cs) = elim (behind word (c ∷ cs)) [
  | some rest ↦ without n word rest
  | none ↦ c ∷ without n word cs
]
