-- ===== src/Queue/Budget.antt =====
-- The retry budget of queue_service.py: how many attempts a job has behind it in each list.
use practical_project.Base.{
  ℕ, ◌+◌, ◌≤◌, ◌≡◌, refl, Bool, true, false, List, [], ◌∷◌, Option, none, some, map, arith, leb,
  inl, inr, Bool-cases, if◌then◌else◌, All, All-append, String,
}
use practical_project.Base.Classes.{Eq, contains, All-erase_first, All-contains}
use practical_project.Redis.{View, Redis, is_some, put_score, move_head, drop_keys}
use practical_project.Queue.{Key, pending, processing, dead_letter, leases, key_eq, Job, Wire}
use practical_project.Queue.Service.{QueueSettings, failed_job, destination}
use practical_project.Queue.Held.{unlisted, appended}
use practical_project.Queue.Steps.{
  AreNew, Step, submit, take, take_waiting, grant, grant_missing, release, finish, discard, fail,
  remove, Reach, here, next,
}

abbrev pub AtMost : ℕ → Option Job → Type 0
AtMost n none = Unit
AtMost n (some job) = job.attempts ≤ n

abbrev pub Exactly : ℕ → Option Job → Type 0
Exactly n none = Unit
Exactly n (some job) = job.attempts ≡ n

module _ {Raw : Type 0} ⦃raw_eq : Eq Raw⦄ (wire : Wire Raw) (budget : ℕ) where
  -- A job that waits or is in work has failed at most `budget` times, one that was given up once
  -- more than that.
  pub record IsInBudget (w : View Key Raw) : Type 0 where
    pub waiting : All (λ raw. AtMost budget (wire.loads raw)) (w.items pending)
    pub in_work : All (λ raw. AtMost budget (wire.loads raw)) (w.items processing)
    pub given_up : All (λ raw. Exactly (budget + 1) (wire.loads raw)) (w.items dead_letter)

  budget-move_head :
      (w : View Key Raw) (xs : List Raw)
      → All (λ raw. AtMost budget (wire.loads raw)) xs
      → IsInBudget w
      → IsInBudget (move_head pending processing xs w).1
  budget-move_head w [] e h = h
  budget-move_head w (x ∷ xs) e h = record {
    waiting = e.1;
    in_work =
        All-append (λ raw. AtMost budget (wire.loads raw)) (w.items processing) (x ∷ []) h.in_work
          (e.0, tt);
    given_up = h.given_up;
  }

  budget-unlisted : (raw : Raw) (w : View Key Raw) → IsInBudget w → IsInBudget (unlisted raw w)
  budget-unlisted raw w h = record {
    waiting = h.waiting;
    in_work =
        All-erase_first (λ raw. AtMost budget (wire.loads raw)) raw (w.items processing) h.in_work;
    given_up = h.given_up;
  }

  budget-grant :
      (raw : Raw) (deadline : ℕ) (w : View Key Raw)
      → IsInBudget w
      → IsInBudget
          (if is_some (w.score leases raw) then w else put_score leases raw (some deadline) w)
  budget-grant raw deadline w h = elim (Bool-cases (is_some (w.score leases raw))) [
    | inl old ↦ rw old h
    | inr new ↦ rw new (record { waiting = h.waiting; in_work = h.in_work; given_up = h.given_up })
  ]

  budget-score :
      (raw : Raw) (s : Option ℕ) (w : View Key Raw)
      → IsInBudget w
      → IsInBudget (put_score leases raw s w)
  budget-score raw s w h = record {
    waiting = h.waiting;
    in_work = h.in_work;
    given_up = h.given_up;
  }

  budget-new :
      (jobs : List Job)
      → All (λ (job : Job). job.attempts ≡ 0) jobs
      → All (λ raw. AtMost budget (wire.loads raw)) (map wire.dumps jobs)
  budget-new [] h = tt
  budget-new (job ∷ jobs) h = (rw wire.loads-dumps (omega arith), budget-new jobs h.1)

  -- `attempts + 1` within the budget goes back to the pending list, and one above it does not.
  budget-failed :
      (settings : QueueSettings) (reason : String) (now : ℕ) (job : Job) (w : View Key Raw)
      → settings.max_retries ≡ budget
      → job.attempts ≤ budget
      → IsInBudget w
      → IsInBudget (
          appended
            (destination settings (failed_job reason now job))
            (wire.dumps (failed_job reason now job) ∷ [])
            w)
  unfolding destination failed_job
  budget-failed settings reason now job w limit below h =
      elim (Bool-cases (leb (job.attempts + 1) settings.max_retries)) [
        | inl more ↦ rw more (record {
          waiting =
              All-append (λ raw. AtMost budget (wire.loads raw)) (w.items pending) _ h.waiting
                (rw wire.loads-dumps (ground arith), tt);
          in_work = h.in_work;
          given_up = h.given_up;
        })
        | inr over ↦ rw over (record {
          waiting = h.waiting;
          in_work = h.in_work;
          given_up =
              All-append (λ raw. Exactly (budget + 1) (wire.loads raw)) (w.items dead_letter) _
                h.given_up (rw wire.loads-dumps (ground arith), tt);
        })
      ]

  attempts-loaded :
      (raw : Raw) (job : Job) (w : View Key Raw)
      → wire.loads raw ≡ some job
      → contains raw (w.items processing) ≡ true
      → IsInBudget w
      → job.attempts ≤ budget
  attempts-loaded raw job w loaded listed h = rw loaded at (
      All-contains (λ raw. AtMost budget (wire.loads raw)) raw (w.items processing) h.in_work
        listed)

  All-dropped :
      (P : Raw → Type 0) (gone : Bool) (raws : List Raw)
      → All P raws
      → All P (if gone then [] else raws)
  All-dropped P true raws h = tt
  All-dropped P false raws h = h

  budget-drop_keys :
      (keys : List Key) (w : View Key Raw) → IsInBudget w → IsInBudget (drop_keys keys w)
  budget-drop_keys keys w h = record {
    waiting =
        All-dropped (λ raw. AtMost budget (wire.loads raw)) (contains pending keys)
          (w.items pending) h.waiting;
    in_work =
        All-dropped (λ raw. AtMost budget (wire.loads raw)) (contains processing keys)
          (w.items processing) h.in_work;
    given_up =
        All-dropped (λ raw. Exactly (budget + 1) (wire.loads raw)) (contains dead_letter keys)
          (w.items dead_letter) h.given_up;
  }

module _ {Raw : Type 0} ⦃raw_eq : Eq Raw⦄ (wire : Wire Raw) (redis : Redis Key Raw)
    (settings : QueueSettings) (forgets : Bool) where
  open redis use {Db, view}

  budget-jobs : (jobs : List Job) → AreNew jobs → All (λ (job : Job). job.attempts ≡ 0) jobs
  budget-jobs [] h = tt
  budget-jobs (job ∷ jobs) h = (h.0, budget-jobs jobs h.1)

  unlisted-IsInBudget :
      (raw : Raw) (db : Db)
      → IsInBudget wire settings.max_retries (view db)
      → IsInBudget wire settings.max_retries
          (view (redis.zrem leases raw (redis.lrem processing raw db).1).1)
  unlisted-IsInBudget raw db h = rw redis.view-zrem (
      budget-score wire settings.max_retries raw none _
        (rw redis.view-lrem (budget-unlisted wire settings.max_retries raw (view db) h)))

  pub Step-IsInBudget :
      {a b : Db}
      → Step wire redis settings forgets a b
      → IsInBudget wire settings.max_retries (view a)
      → IsInBudget wire settings.max_retries (view b)
  Step-IsInBudget (submit db jobs new) h = rw redis.view-rpush (record {
    waiting =
        All-append (λ raw. AtMost settings.max_retries (wire.loads raw)) ((view db).items pending)
          (map wire.dumps jobs) h.waiting
          (budget-new wire settings.max_retries jobs (budget-jobs jobs new));
    in_work = h.in_work;
    given_up = h.given_up;
  })
  Step-IsInBudget (take db) h =
      rw redis.view-lmove (budget-move_head wire settings.max_retries (view db) _ h.waiting h)
  Step-IsInBudget (take_waiting db timeout) h =
      rw redis.view-blmove (budget-move_head wire settings.max_retries (view db) _ h.waiting h)
  Step-IsInBudget (grant db raw deadline) h =
      rw redis.view-zadd (budget-score wire settings.max_retries raw (some deadline) (view db) h)
  Step-IsInBudget (grant_missing db raw deadline) h =
      rw redis.view-zadd_nx (budget-grant wire settings.max_retries raw deadline (view db) h)
  Step-IsInBudget (release db raw) h =
      rw redis.view-zrem (budget-score wire settings.max_retries raw none (view db) h)
  Step-IsInBudget (finish db raw job loaded) h = unlisted-IsInBudget raw _ (
      rw redis.view-set_ex
        (record { waiting = h.waiting; in_work = h.in_work; given_up = h.given_up }))
  Step-IsInBudget (discard db raw job loaded flagged) h = unlisted-IsInBudget raw db h
  Step-IsInBudget (fail db raw job reason now loaded listed) h = rw redis.view-rpush (
      budget-failed wire settings.max_retries settings reason now job _ refl
        (attempts-loaded wire settings.max_retries raw job (view db) loaded listed h)
        (unlisted-IsInBudget raw db h))
  Step-IsInBudget (remove db keys allowed) h =
      rw redis.view-delete (budget-drop_keys wire settings.max_retries keys (view db) h)

  -- In every state that the commands can reach from one within the retry budget, a job that waits
  -- or is in work has failed at most `max_retries` times, and every job in the dead letter list has
  -- failed exactly once more than that.
  pub Reach-IsInBudget :
      {a b : Db}
      → Reach wire redis settings forgets a b
      → IsInBudget wire settings.max_retries (view a)
      → IsInBudget wire settings.max_retries (view b)
  Reach-IsInBudget here h = h
  Reach-IsInBudget (next r s) h = Step-IsInBudget s (Reach-IsInBudget r h)
