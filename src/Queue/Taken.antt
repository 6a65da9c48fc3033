-- ===== src/Queue/Taken.antt =====
-- `dequeue` of queue_service.py: a job that is taken is off the queue and marked as completed.
use practical_project.Base.{
  ℕ, ◌+◌, ◌≡◌, refl, ap, true, false, List, [], ◌∷◌, ◌++◌, Option, some, arith, Bool-cases, inl,
  inr,
}
use practical_project.Base.Int.{ℤ}
use practical_project.Base.Classes.{Eq, ◌==◌, ==-self, contains, erase_first, string_eq}
use practical_project.Redis.{Redis}
use practical_project.Queue.{
  Key, pending, processing, completed, key_eq, Job, Wire, ReservedJob, Outcome, ok,
}
use practical_project.Queue.Service.{QueueSettings, reserve, acknowledge_reserved, dequeue}
use practical_project.Queue.Count.{
  has_id, held, count_raw, count_raw-append, count_raw-cons, count_raw-single,
  count_raw-erase_first,
}
use practical_project.Queue.Effects.{IsReserved, reserve_oldest, acknowledge_effect}

contains_last : {A : Type 0} ⦃eq : Eq A⦄ (x : A) (xs : List A) → contains x (xs ++ x ∷ []) ≡ true
contains_last x [] = rw (==-self x) refl
contains_last x (y ∷ ys) = elim (Bool-cases (x == y)) [
  | inl same ↦ rw same refl
  | inr other ↦ rw other (contains_last x ys)
]

module _ {Raw : Type 0} ⦃raw_eq : Eq Raw⦄ (wire : Wire Raw) (redis : Redis Key Raw)
    (settings : QueueSettings) where
  open redis use {Db, view}

  -- The job is returned, its entry is off the pending list, its completion is recorded, and the three
  -- lists hold its id once less than before.
  pub record IsTaken (rest : List Raw) (job : Job) (db : Db) (done : Outcome (Option Job) × Db)
      : Type 0 where
    pub returned : done.0 ≡ ok (some job)
    pub waiting : (view done.1).items pending ≡ rest
    pub recorded : (view done.1).flag (completed job.id) ≡ true
    pub held_lem : held wire job.id (view done.1) + 1 ≡ held wire job.id (view db)

  acknowledged-IsTaken :
      (now : ℕ) (raw : Raw) (rest : List Raw) (job : Job) (db : Db)
      (out : Outcome (Option (ReservedJob Raw)) × Db)
      → (view db).items pending ≡ raw ∷ rest
      → wire.loads raw ≡ some job
      → IsReserved wire redis settings raw rest job now db out
      → IsTaken rest job db (acknowledge_reserved wire redis settings out.0 out.1)
  unfolding acknowledge_reserved
  acknowledged-IsTaken now raw rest job db out first loaded r =
      let reservation : ReservedJob Raw = record { job = job; raw = raw } in
      let after = (acknowledge_effect wire redis settings reservation out.1).1 in
      let one : has_id job.id (wire.loads raw) ≡ 1 = rw (loaded, ==-self job.id) refl in
      rw r.returned (record {
        returned = refl;
        waiting = rw after r.waiting;
        recorded = rw after (rw (==-self job.id) refl);
        held_lem = rw after (
            omega (
              arith,
              one,
              ap (count_raw wire job.id) first,
              ap (count_raw wire job.id) r.waiting,
              ap (count_raw wire job.id) r.given_up,
              ap (λ (xs : List Raw). count_raw wire job.id (erase_first raw xs)) r.in_work,
              count_raw-cons wire job.id raw rest,
              count_raw-append wire job.id ((view db).items processing) (raw ∷ []),
              count_raw-single wire job.id raw,
              count_raw-erase_first wire job.id raw ((view db).items processing ++ raw ∷ [])
                  (contains_last raw ((view db).items processing)),
            ));
      })

  -- `dequeue` takes the oldest pending job off the queue for good, whether it polls or waits.
  pub dequeue-IsTaken :
      (timeout : ℤ) (now : ℕ) (db : Db) (raw : Raw) (rest : List Raw) (job : Job)
      → (view db).items pending ≡ raw ∷ rest
      → wire.is_blank raw ≡ false
      → wire.loads raw ≡ some job
      → IsTaken rest job db (dequeue wire redis settings timeout now db)
  unfolding dequeue
  dequeue-IsTaken timeout now db raw rest job first full loaded =
      acknowledged-IsTaken _ raw rest job db (reserve wire redis settings timeout now db) first
        loaded (reserve_oldest wire redis settings timeout now db raw rest job first full loaded)
