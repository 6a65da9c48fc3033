-- ===== src/Base/Json.antt =====
-- JSON values as Python reads them, over a type of numbers. Texts are lists of code points; a key
-- stands once in an object.
use practical_project.Base.{
  ℕ, Bool, true, false, not, List, [], ◌∷◌, Option, none, some, if◌then◌else◌, map,
}
use practical_project.Base.Classes.{nat_eq}
use practical_project.Base.Equality.{list_beq}

mutual
  pub data Json (N : Type 0) : Type 0 where
    null : Json N
    bool : Bool → Json N
    num : N → Json N
    str : List ℕ → Json N
    arr : Items N → Json N
    obj : Fields N → Json N

  pub data Items (N : Type 0) : Type 0 where
    nil : Items N
    cons : Json N → Items N → Items N

  pub data Fields (N : Type 0) : Type 0 where
    end : Fields N
    field : List ℕ → Json N → Fields N → Fields N

module _ {N : Type 0} where
  abbrev pub items : Items N → List (Json N)
  items nil = []
  items (cons x xs) = x ∷ items xs

  abbrev pub keys : Fields N → List (Json N)
  keys end = []
  keys (field k v rest) = str k ∷ keys rest

  abbrev pub find_or : Json N → List ℕ → Fields N → Json N
  find_or default k end = default
  find_or default k (field j v rest) = if list_beq k j then v else find_or default k rest

  -- `value.get(key, default)`, which raises if the value is not a dictionary.
  abbrev pub get_or : Json N → List ℕ → Json N → Option (Json N)
  get_or default k (obj fields) = some (find_or default k fields)
  get_or default k _ = none

  abbrev pub get : List ℕ → Json N → Option (Json N)
  get = get_or null

  -- What a `for` loop runs over, if the value can be iterated.
  abbrev pub iterate : Json N → Option (List (Json N))
  iterate (arr xs) = some (items xs)
  iterate (obj fields) = some (keys fields)
  iterate (str cs) = some (map (λ (c : ℕ). str (c ∷ [])) cs)
  iterate _ = none

  -- Whether the value is this text.
  abbrev pub is_text : List ℕ → Json N → Bool
  is_text t (str s) = list_beq s t
  is_text t _ = false

  module _ (is_zero : N → Bool) where
    -- `bool(value)`
    abbrev pub truthy : Json N → Bool
    truthy null = false
    truthy (bool b) = b
    truthy (num x) = not (is_zero x)
    truthy (str []) = false
    truthy (arr nil) = false
    truthy (obj end) = false
    truthy _ = true

    -- `value or {}`
    abbrev pub or_dict : Json N → Json N
    or_dict j = if truthy j then j else obj end
