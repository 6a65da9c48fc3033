-- ===== src/Queue/Paths.antt =====
-- The methods of queue_service.py as sequences of steps of the transition system.
use practical_project.Base.{
  ℕ, ◌≡◌, refl, Bool, true, List, [], ◌∷◌, Option, none, some, arith, inl, inr, Bool-cases,
  Option-cases, All, String,
}
use practical_project.Base.Int.{ℤ, pos, pos_part, leb_ℤ}
use practical_project.Base.Classes.{Eq, contains, index_of-none}
use practical_project.Redis.{Redis}
use practical_project.Queue.{
  Key, processing, leases, completed, key_eq, Job, Payload, Wire, ReservedJob,
}
use practical_project.Queue.Service.{
  QueueSettings, new_job, failed_job, destination, new_jobs, enqueue_many, lease, reserve,
  acknowledge, move_failed, retry_or_dead_letter, add_leases, ensure_processing_leases, recover_one,
  recover_each, recover_stale, Recovered, nothing_recovered,
}
use practical_project.Queue.Steps.{
  AreNew, submit, take, take_waiting, grant, grant_missing, release, finish, discard, fail, Reach,
  here, next, Reach-trans, Reach-step,
}

module _ {Raw : Type 0} ⦃raw_eq : Eq Raw⦄ (wire : Wire Raw) (redis : Redis Key Raw)
    (settings : QueueSettings) (forgets : Bool) where
  open redis use {Db, view}

  -- Conflicts are the writes of other clients of the queue.
  abbrev pub AreSteps : List (Db → Db) → Type 0
  AreSteps conflicts =
      All (λ (c : Db → Db). (db : Db) → Reach wire redis settings forgets db (c db)) conflicts

  contains-lpos :
      (raw : Raw) (db : Db) (i : ℕ)
      → redis.lpos processing raw db ≡ some i
      → contains raw ((view db).items processing) ≡ true
  contains-lpos raw db i e = elim (Bool-cases (contains raw ((view db).items processing))) [
    | inl listed ↦ listed
    | inr absent ↦ ground (
      arith,
      redis.lpos-result processing raw db,
      index_of-none raw ((view db).items processing) absent,
    )
  ]

  new_jobs-AreNew :
      (ids : List (String × ℕ)) (job_type : String) (payload : Payload)
      → AreNew (new_jobs wire redis settings ids job_type payload)
  unfolding new_jobs new_job
  new_jobs-AreNew [] job_type payload = tt
  new_jobs-AreNew (i ∷ ids) job_type payload = (refl, new_jobs-AreNew ids job_type payload)

  pub enqueue_many-Reach :
      (ids : List (String × ℕ)) (job_type : String) (payload : Payload) (db : Db)
      → Reach wire redis settings forgets db
          (enqueue_many wire redis settings ids job_type payload db).1
  unfolding enqueue_many
  enqueue_many-Reach [] job_type payload db = here
  enqueue_many-Reach (i ∷ ids) job_type payload db = Reach-step wire redis settings forgets (
      submit db (new_jobs wire redis settings (i ∷ ids) job_type payload)
        (new_jobs-AreNew (i ∷ ids) job_type payload))

  lease-Reach :
      (now : ℕ) (raw : Option Raw) (db : Db)
      → Reach wire redis settings forgets db (lease wire redis settings now raw db).1
  unfolding lease
  lease-Reach now none db = here
  lease-Reach now (some raw) db = elim (Bool-cases (wire.is_blank raw)) [
    | inl blank ↦ rw blank here
    | inr full ↦ rw full (elim (Option-cases (wire.loads raw)) [
      | inl bad ↦ rw bad here
      | inr (job, loaded) ↦ rw loaded (next here (grant db raw _))
    ])
  ]

  pub reserve-Reach :
      (timeout : ℤ) (now : ℕ) (db : Db)
      → Reach wire redis settings forgets db (reserve wire redis settings timeout now db).1
  unfolding reserve
  reserve-Reach timeout now db = elim (Bool-cases (leb_ℤ timeout (pos 0))) [
    | inl poll ↦
        rw poll
          (Reach-trans wire redis settings forgets (next here (take db)) (lease-Reach now _ _))
    | inr wait ↦ rw wait (
        Reach-trans wire redis settings forgets (next here (take_waiting db (pos_part timeout)))
          (lease-Reach now _ _))
  ]

  pub acknowledge-Reach :
      (r : ReservedJob Raw) (db : Db)
      → wire.loads r.raw ≡ some r.job
      → Reach wire redis settings forgets db (acknowledge wire redis settings r db).1
  unfolding acknowledge
  acknowledge-Reach r db loaded = next here (finish db r.raw r.job loaded)

  move_failed-Reach :
      (raw : Raw) (job : Job) (reason : String) (now : ℕ) (conflicts : List (Db → Db)) (db : Db)
      → wire.loads raw ≡ some job
      → AreSteps conflicts
      → Reach wire redis settings forgets db
          (move_failed wire redis settings
            (destination settings (failed_job reason now job))
            raw
            (wire.dumps (failed_job reason now job))
            conflicts
            db).1
  unfolding move_failed
  move_failed-Reach raw job reason now [] db loaded others =
      elim (Option-cases (redis.lpos processing raw db)) [
        | inl gone ↦ rw (gone, move_failed) (next here (release db raw))
        | inr (i, found) ↦
            rw (found, move_failed)
              (next here (fail db raw job reason now loaded (contains-lpos raw db i found)))
      ]
  move_failed-Reach raw job reason now (conflict ∷ conflicts) db loaded others =
      elim (Option-cases (redis.lpos processing raw db)) [
        | inl gone ↦ rw (gone, move_failed) (next here (release db raw))
        | inr (i, found) ↦
            rw (found, move_failed)
              (Reach-trans wire redis settings forgets (others.0 db)
                (move_failed-Reach raw job reason now conflicts (conflict db) loaded others.1))
      ]

  pub retry_or_dead_letter-Reach :
      (r : ReservedJob Raw) (reason : String) (now : ℕ) (conflicts : List (Db → Db)) (db : Db)
      → wire.loads r.raw ≡ some r.job
      → AreSteps conflicts
      → Reach wire redis settings forgets db
          (retry_or_dead_letter wire redis settings r reason now conflicts db).1
  unfolding retry_or_dead_letter
  retry_or_dead_letter-Reach r reason now conflicts db loaded others =
      move_failed-Reach r.raw r.job reason now conflicts db loaded others

  add_leases-Reach :
      (now : ℕ) (raws : List Raw) (db : Db)
      → Reach wire redis settings forgets db (add_leases wire redis settings now raws db).1
  unfolding add_leases
  add_leases-Reach now [] db = here
  add_leases-Reach now (raw ∷ raws) db = elim (Option-cases ((view db).score leases raw)) [
    | inl missing ↦
        rw (missing, add_leases)
          (Reach-trans wire redis settings forgets (next here (grant_missing db raw _))
            (add_leases-Reach now raws _))
    | inr (s, old) ↦ rw (old, add_leases) (add_leases-Reach now raws db)
  ]

  pub ensure_processing_leases-Reach :
      (now : ℕ) (db : Db)
      → Reach wire redis settings forgets db (ensure_processing_leases wire redis settings now db).1
  unfolding ensure_processing_leases
  ensure_processing_leases-Reach now db = add_leases-Reach now ((view db).items processing) db

  recover_one-Reach :
      (failed_at : ℕ) (conflicts : List (Db → Db)) (raw : Raw) (job : Job) (result : Recovered)
      (db : Db)
      → wire.loads raw ≡ some job
      → AreSteps conflicts
      → Reach wire redis settings forgets db
          (recover_one wire redis settings failed_at conflicts raw job result db).1
  unfolding recover_one
  recover_one-Reach failed_at conflicts raw job result db loaded others =
      elim (Bool-cases ((view db).flag (completed job.id))) [
        | inl done ↦ rw done (next here (discard db raw job loaded done))
        | inr open_job ↦ rw open_job (
            move_failed-Reach raw job "visibility timeout exceeded" failed_at conflicts db loaded
              others)
      ]

  recover_each-Reach :
      (failed_at : ℕ) (conflicts : Raw → List (Db → Db)) (raws : List Raw) (result : Recovered)
      (db : Db)
      → ((raw : Raw) → AreSteps (conflicts raw))
      → Reach wire redis settings forgets db
          (recover_each wire redis settings failed_at conflicts raws result db).1
  unfolding recover_each
  recover_each-Reach failed_at conflicts [] result db others = here
  recover_each-Reach failed_at conflicts (raw ∷ raws) result db others =
      elim (Option-cases (wire.loads raw)) [
        | inl bad ↦ rw (bad, recover_each) here
        | inr (job, loaded) ↦
            rw (loaded, recover_each)
              (Reach-trans wire redis settings forgets
                (recover_one-Reach failed_at (conflicts raw) raw job result db loaded (others raw))
                (recover_each-Reach failed_at conflicts raws _ _ others))
      ]

  -- Recovery is a sequence of steps, whatever the other clients do between its WATCH and its EXEC as
  -- long as that is steps too: so it forgets no job, makes no copy of one and keeps the retry budget.
  pub recover_stale-Reach :
      (now failed_at : ℕ) (conflicts : Raw → List (Db → Db)) (db : Db)
      → ((raw : Raw) → AreSteps (conflicts raw))
      → Reach wire redis settings forgets db
          (recover_stale wire redis settings now failed_at conflicts db).1
  unfolding recover_stale
  recover_stale-Reach now failed_at conflicts db others =
      Reach-trans wire redis settings forgets (ensure_processing_leases-Reach now db)
        (recover_each-Reach failed_at conflicts _ nothing_recovered _ others)
