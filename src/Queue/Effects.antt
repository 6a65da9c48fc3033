-- ===== src/Queue/Effects.antt =====
-- What each method of queue_service.py does, on every branch.
use practical_project.Base.{
  ℕ, ◌+◌, ◌≡◌, refl, ◌∙◌, ap, Bool, true, false, not, List, [], ◌∷◌, ◌++◌, Option, none, some, leb,
  ◌==◌, inl, inr, Bool-cases, ◌⊎◌, if◌then◌else◌, String,
}
use practical_project.Base.Int.{ℤ, pos, pos_part, leb_ℤ}
use practical_project.Base.Classes.{Eq, contains, index_of-none, index_of-some, ==-self}
use practical_project.Redis.{View, Redis, put_score, put_flag, move_head}
use practical_project.Queue.{
  Key, pending, processing, dead_letter, leases, completed, key_eq, Job, Wire, ReservedJob, Outcome,
  ok, retry, dead_lettered, missing,
}
use practical_project.Queue.Service.{
  QueueSettings, failed_job, destination, lease, reserve, acknowledge, move_failed,
  retry_or_dead_letter,
}
use practical_project.Queue.Held.{unlisted, appended}

one_if : (b : Bool) → not ((if b then 1 else 0) == 0) ≡ b
one_if true = refl
one_if false = refl

kept_or_dropped :
    (settings : QueueSettings) (reason : String) (now : ℕ) (job : Job)
    → elim (destination settings (failed_job reason now job)) [
      | pending ↦ retry
      | _ ↦ dead_lettered
    ]
      ≡ (if leb (job.attempts + 1) settings.max_retries then retry else dead_lettered)
unfolding destination failed_job
kept_or_dropped settings reason now job =
    elim (Bool-cases (leb (job.attempts + 1) settings.max_retries)) [
      | inl more ↦ rw more
      | inr over ↦ rw over
    ]

module _ {Raw : Type 0} ⦃raw_eq : Eq Raw⦄ (wire : Wire Raw) (redis : Redis Key Raw)
    (settings : QueueSettings) where
  open redis use {Db, view}

  -- The entry `raw` of `job` has gone from the head of the pending list to the end of the processing
  -- list, with a lease that ends at `deadline`.
  pub record IsReserved (raw : Raw) (rest : List Raw) (job : Job) (deadline : ℕ) (db : Db)
      (done : Outcome (Option (ReservedJob Raw)) × Db) : Type 0 where
    pub returned : done.0 ≡ ok (some (record { job = job; raw = raw }))
    pub waiting : (view done.1).items pending ≡ rest
    pub in_work : (view done.1).items processing ≡ (view db).items processing ++ raw ∷ []
    pub given_up : (view done.1).items dead_letter ≡ (view db).items dead_letter
    pub leased : (view done.1).score leases raw ≡ some deadline

  lease_moved :
      (now : ℕ) (raw : Raw) (rest : List Raw) (job : Job) (db moved : Db)
      → wire.is_blank raw ≡ false
      → wire.loads raw ≡ some job
      → view moved ≡ (move_head pending processing (raw ∷ rest) (view db)).1
      → IsReserved raw rest job
          (now + settings.visibility_timeout)
          db
          (lease wire redis settings now (some raw) moved)
  unfolding lease
  lease_moved now raw rest job db moved full loaded e =
      rw (full, loaded)
        (record {
          returned = refl;
          waiting = simp (redis.view-zadd, e);
          in_work = simp (redis.view-zadd, e);
          given_up = simp (redis.view-zadd, e);
          leased = simp (redis.view-zadd, e, ==-self);
        })

  -- `reserve` takes the oldest pending job, whether it polls or waits: it returns that job, moves
  -- its entry to the end of the processing list and gives it a lease of `visibility_timeout`.
  pub reserve_oldest :
      (timeout : ℤ) (now : ℕ) (db : Db) (raw : Raw) (rest : List Raw) (job : Job)
      → (view db).items pending ≡ raw ∷ rest
      → wire.is_blank raw ≡ false
      → wire.loads raw ≡ some job
      → IsReserved raw rest job
          (now + settings.visibility_timeout)
          db
          (reserve wire redis settings timeout now db)
  unfolding reserve
  reserve_oldest timeout now db raw rest job waiting full loaded =
      elim (Bool-cases (leb_ℤ timeout (pos 0))) [
        | inl poll ↦
            let taken : (redis.lmove pending processing db).0 ≡ some raw =
              redis.lmove-result pending processing db ∙ rw waiting in
            rw (poll, taken)
              (lease_moved now raw rest job db _ full loaded
                (redis.view-lmove pending processing db ∙ rw waiting))
        | inr wait ↦
            let taken : (redis.blmove pending processing (pos_part timeout) db).0 ≡ some raw =
              redis.blmove-result pending processing (pos_part timeout) db ∙ rw waiting in
            rw (wait, taken)
              (lease_moved now raw rest job db _ full loaded
                (redis.view-blmove pending processing (pos_part timeout) db ∙ rw waiting))
      ]

  view-unlisted :
      (raw : Raw) (db : Db)
      → view (redis.zrem leases raw (redis.lrem processing raw db).1).1
        ≡ put_score leases raw none (unlisted raw (view db))
  view-unlisted raw db =
      redis.view-zrem leases raw (redis.lrem processing raw db).1
      ∙ ap (put_score leases raw none) (redis.view-lrem processing raw db)

  -- `acknowledge` says whether the entry was in work; it records the completion, takes one
  -- occurrence out of the processing list, ends the lease and leaves the other lists alone.
  pub acknowledge_effect :
      (r : ReservedJob Raw) (db : Db)
      → let (removed, db') = acknowledge wire redis settings r db in
        (removed ≡ contains r.raw ((view db).items processing))
        × (view db'
            ≡ put_score leases r.raw none
                (unlisted r.raw (put_flag (completed r.job.id) (view db))))
  unfolding acknowledge
  acknowledge_effect r db =
      let marked = redis.set_ex (completed r.job.id) settings.completed_ttl db in
      let mark : view marked ≡ put_flag (completed r.job.id) (view db) =
        redis.view-set_ex (completed r.job.id) settings.completed_ttl db in
      let removed : (redis.lrem processing r.raw marked).0
          ≡ (if contains r.raw ((view db).items processing) then 1 else 0) =
        redis.lrem-result processing r.raw marked
        ∙ ap (λ (w : View Key Raw). if contains r.raw (w.items processing) then 1 else 0) mark in
      (
        rw removed (one_if (contains r.raw ((view db).items processing))),
        view-unlisted r.raw marked
            ∙ ap (λ (w : View Key Raw). put_score leases r.raw none (unlisted r.raw w)) mark,
      )

  -- What a failed job does to the queue when no other client interferes: if it is in work it is
  -- moved, once, to the pending list while the budget lasts and to the dead letter list after that;
  -- if it is not, its lease alone goes.
  pub retry_or_dead_letter_effect :
      (r : ReservedJob Raw) (reason : String) (now : ℕ) (db : Db)
      → let (disposal, db') = retry_or_dead_letter wire redis settings r reason now [] db in
        let job = failed_job reason now r.job in
        let listed = contains r.raw ((view db).items processing) in
        (listed ≡ true)
          × (disposal
              ≡ (if leb (r.job.attempts + 1) settings.max_retries then retry else dead_lettered))
          × (view db'
              ≡ appended
                  (destination settings job)
                  (wire.dumps job ∷ [])
                  (put_score leases r.raw none (unlisted r.raw (view db))))
        ⊎ (listed ≡ false)
          × (disposal ≡ missing)
          × (view db' ≡ put_score leases r.raw none (view db))
  unfolding retry_or_dead_letter
  retry_or_dead_letter_effect r reason now db =
      elim (Bool-cases (contains r.raw ((view db).items processing))) [
        | inl listed ↦
            let (i, found) = index_of-some r.raw ((view db).items processing) listed in
            let position : redis.lpos processing r.raw db ≡ some i =
              redis.lpos-result processing r.raw db ∙ found in
            inl (
              listed,
              rw (position, retry_or_dead_letter, move_failed)
                  (kept_or_dropped settings reason now r.job),
              rw (position, retry_or_dead_letter, move_failed)
                  (redis.view-rpush _ _ _
                    ∙ ap
                        (appended (destination settings (failed_job reason now r.job))
                          (wire.dumps (failed_job reason now r.job) ∷ []))
                        (view-unlisted r.raw db)),
            )
        | inr absent ↦
            let position : redis.lpos processing r.raw db ≡ none =
              redis.lpos-result processing r.raw db
              ∙ index_of-none r.raw ((view db).items processing) absent in
            inr (
              absent,
              rw (position, retry_or_dead_letter, move_failed),
              rw (position, retry_or_dead_letter, move_failed) (redis.view-zrem leases r.raw db),
            )
      ]
