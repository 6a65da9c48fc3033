-- ===== src/Queue/Held.antt =====
-- How one command of the queue changes the number of entries that carry an id: queue_service.py.
use practical_project.Base.{
  ℕ, ◌+◌, ◌≤◌, ◌≡◌, refl, ap, String, true, false, List, [], ◌∷◌, ◌++◌, none, some, arith, leb, inl,
  inr, Bool-cases,
}
use practical_project.Base.Classes.{Eq, contains, erase_first, string_eq}
use practical_project.Redis.{View, put_items, put_score, move_head}
use practical_project.Queue.{Key, pending, processing, dead_letter, leases, key_eq, Job, Wire}
use practical_project.Queue.Service.{QueueSettings, failed_job, destination}
use practical_project.Queue.Count.{
  has_id, held, count_raw, count_raw-append, count_raw-cons, count_raw-single,
  count_raw-erase_first, erase_first-absent,
}

module _ {Raw : Type 0} ⦃raw_eq : Eq Raw⦄ where
  -- The view with one occurrence of `raw` gone from the processing list.
  abbrev pub unlisted : Raw → View Key Raw → View Key Raw
  unlisted raw w = put_items processing (erase_first raw (w.items processing)) w

  abbrev pub appended : Key → List Raw → View Key Raw → View Key Raw
  appended k raws w = put_items k (w.items k ++ raws) w

module _ {Raw : Type 0} ⦃raw_eq : Eq Raw⦄ (wire : Wire Raw) where
  pub held-move_head :
      (id : String) (w : View Key Raw) (xs : List Raw)
      → w.items pending ≡ xs
      → held wire id (move_head pending processing xs w).1 ≡ held wire id w
  held-move_head id w [] e = refl
  held-move_head id w (x ∷ xs) e = omega (
    arith,
    ap (count_raw wire id) e,
    count_raw-cons wire id x xs,
    count_raw-append wire id (w.items processing) (x ∷ []),
    count_raw-single wire id x,
  )

  pub held-unlisted :
      (id : String) (raw : Raw) (w : View Key Raw)
      → contains raw (w.items processing) ≡ true
      → has_id id (wire.loads raw) + held wire id (unlisted raw w) ≡ held wire id w
  held-unlisted id raw w h = omega (arith, count_raw-erase_first wire id raw (w.items processing) h)

  pub held-unlisted_absent :
      (id : String) (raw : Raw) (w : View Key Raw)
      → contains raw (w.items processing) ≡ false
      → held wire id (unlisted raw w) ≡ held wire id w
  held-unlisted_absent id raw w h = rw (erase_first-absent wire raw (w.items processing) h)

  pub held-unlisted_other :
      (id : String) (raw : Raw) (w : View Key Raw)
      → has_id id (wire.loads raw) ≡ 0
      → held wire id (unlisted raw w) ≡ held wire id w
  held-unlisted_other id raw w h = elim (Bool-cases (contains raw (w.items processing))) [
    | inl listed ↦ omega (arith, held-unlisted id raw w listed)
    | inr absent ↦ held-unlisted_absent id raw w absent
  ]

  pub held-unlisted-le :
      (id : String) (raw : Raw) (w : View Key Raw) → held wire id (unlisted raw w) ≤ held wire id w
  held-unlisted-le id raw w = elim (Bool-cases (contains raw (w.items processing))) [
    | inl listed ↦ omega (arith, held-unlisted id raw w listed)
    | inr absent ↦ omega (arith, held-unlisted_absent id raw w absent)
  ]

  pub held-appended_pending :
      (id : String) (raws : List Raw) (w : View Key Raw)
      → held wire id (appended pending raws w) ≡ count_raw wire id raws + held wire id w
  held-appended_pending id raws w = omega (arith, count_raw-append wire id (w.items pending) raws)

  pub held-appended_dead_letter :
      (id : String) (raws : List Raw) (w : View Key Raw)
      → held wire id (appended dead_letter raws w) ≡ count_raw wire id raws + held wire id w
  held-appended_dead_letter id raws w =
      omega (arith, count_raw-append wire id (w.items dead_letter) raws)

  -- A job that failed leaves the processing list and enters another: its id is held as often.
  pub held-failed :
      (settings : QueueSettings) (id reason : String) (now : ℕ) (raw : Raw) (job : Job)
      (w : View Key Raw)
      → wire.loads raw ≡ some job
      → contains raw (w.items processing) ≡ true
      → held wire id (
          appended
            (destination settings (failed_job reason now job))
            (wire.dumps (failed_job reason now job) ∷ [])
            (put_score leases raw none (unlisted raw w)))
        ≡ held wire id w
  unfolding destination failed_job
  held-failed settings id reason now raw job w loaded listed =
      elim (Bool-cases (leb (job.attempts + 1) settings.max_retries)) [
        | inl more ↦ rw more (
            omega (
              arith,
              count_raw-append wire id (w.items pending) (wire.dumps job' ∷ []),
              count_raw-single wire id (wire.dumps job'),
              same,
              count_raw-erase_first wire id raw (w.items processing) listed,
            ))
        | inr over ↦ rw over (
            omega (
              arith,
              count_raw-append wire id (w.items dead_letter) (wire.dumps job' ∷ []),
              count_raw-single wire id (wire.dumps job'),
              same,
              count_raw-erase_first wire id raw (w.items processing) listed,
            ))
      ]
    where
      job' : Job
      job' = failed_job reason now job

      same :
          has_id id (wire.loads (wire.dumps (failed_job reason now job)))
          ≡ has_id id (wire.loads raw)
      same = rw (wire.loads-dumps, loaded)
