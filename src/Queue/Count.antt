-- ===== src/Queue/Count.antt =====
-- How often a job id occurs in a list of serialised jobs, and in the three lists of the queue.
use practical_project.Base.{
  ℕ, ◌+◌, ◌≡◌, refl, String, true, false, List, [], ◌∷◌, ◌++◌, Option, none, some, arith,
  if◌then◌else◌, map, Bool-cases, inl, inr,
}
use practical_project.Base.Classes.{Eq, ◌==◌, contains, erase_first, string_eq}
use practical_project.Redis.{View}
use practical_project.Queue.{Key, pending, processing, dead_letter, key_eq, Job, Wire}

abbrev pub has_id : String → Option Job → ℕ
has_id id none = 0
has_id id (some job) = if job.id == id then 1 else 0

unfoldable pub count_jobs : String → List Job → ℕ
count_jobs id [] = 0
count_jobs id (job ∷ jobs) = has_id id (some job) + count_jobs id jobs

module _ {Raw : Type 0} ⦃raw_eq : Eq Raw⦄ (wire : Wire Raw) where
  unfoldable pub count_raw : String → List Raw → ℕ
  count_raw id [] = 0
  count_raw id (raw ∷ raws) = has_id id (wire.loads raw) + count_raw id raws

  -- The entries that carry `id`, waiting, in work or given up.
  abbrev pub held : String → View Key Raw → ℕ
  held id w =
      count_raw id (w.items pending)
      + count_raw id (w.items processing)
      + count_raw id (w.items dead_letter)

  pub count_raw-append :
      (id : String) (xs ys : List Raw) → count_raw id (xs ++ ys) ≡ count_raw id xs + count_raw id ys
  unfolding count_raw
  count_raw-append id [] ys = omega arith
  count_raw-append id (x ∷ xs) ys = omega (arith, count_raw-append id xs ys)

  pub count_raw-cons :
      (id : String) (x : Raw) (xs : List Raw)
      → count_raw id (x ∷ xs) ≡ has_id id (wire.loads x) + count_raw id xs
  unfolding count_raw
  count_raw-cons id x xs = refl

  pub count_raw-single : (id : String) (x : Raw) → count_raw id (x ∷ []) ≡ has_id id (wire.loads x)
  unfolding count_raw
  count_raw-single id x = omega arith

  pub count_raw-map-dumps :
      (id : String) (jobs : List Job) → count_raw id (map wire.dumps jobs) ≡ count_jobs id jobs
  unfolding count_raw count_jobs
  count_raw-map-dumps id [] = refl
  count_raw-map-dumps id (job ∷ jobs) =
      rw wire.loads-dumps (omega (arith, count_raw-map-dumps id jobs))

  pub count_raw-erase_first :
      (id : String) (x : Raw) (xs : List Raw)
      → contains x xs ≡ true
      → count_raw id xs ≡ has_id id (wire.loads x) + count_raw id (erase_first x xs)
  unfolding count_raw
  count_raw-erase_first id x [] h = absurd (ground arith)
  count_raw-erase_first id x (y ∷ ys) h = elim (Bool-cases (x == y)) [
    | inl same ↦
        rw ((raw_eq.equal_iff x y).0 same, raw_eq.equal_iff y y, (raw_eq.equal_iff y y).1 refl)
    | inr other ↦ rw other (omega (arith, count_raw-erase_first id x ys (ground arith)))
  ]

  pub erase_first-absent : (x : Raw) (xs : List Raw) → contains x xs ≡ false → erase_first x xs ≡ xs
  erase_first-absent x [] h = refl
  erase_first-absent x (y ∷ ys) h = ground (arith, erase_first-absent x ys)
