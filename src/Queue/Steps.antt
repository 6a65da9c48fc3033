-- ===== src/Queue/Steps.antt =====
-- The queue as a transition system. Several API processes and workers send their commands in any
-- order, and any of them may stop between two commands or send one again whose reply was lost: a step
-- is one command or one transaction. The DELETE of a reset and the expiry of a completion mark are
-- steps only where `forgets` is true.
use practical_project.Base.{ℕ, ◌≡◌, String, Bool, true, List, [], ◌∷◌, some, map}
use practical_project.Base.Classes.{Eq, contains}
use practical_project.Redis.{Redis}
use practical_project.Queue.{Key, pending, processing, leases, completed, key_eq, Job, Wire}
use practical_project.Queue.Service.{QueueSettings, failed_job, destination}

abbrev pub AreNew : List Job → Type 0
AreNew [] = Unit
AreNew (job ∷ jobs) = (job.attempts ≡ 0) × AreNew jobs

module _ {Raw : Type 0} ⦃raw_eq : Eq Raw⦄ (wire : Wire Raw) (redis : Redis Key Raw)
    (settings : QueueSettings) (forgets : Bool) where
  open redis use {Db, view, rpush, lmove, blmove, lrem, zadd, zadd_nx, zrem, set_ex, delete}
  open wire use {dumps, loads}

  -- `submit` is an RPUSH of jobs that have not failed, new ones or the same ones sent again; `remove`
  -- is a DELETE of any keys, or an expiry.
  pub data Step : Db → Db → Type 0 where
    submit : (db : Db) (jobs : List Job) → AreNew jobs → Step db (rpush pending (map dumps jobs) db)
    take : (db : Db) → Step db (lmove pending processing db).1
    take_waiting : (db : Db) (timeout : ℕ) → Step db (blmove pending processing timeout db).1
    grant : (db : Db) (raw : Raw) (deadline : ℕ) → Step db (zadd leases raw deadline db)
    grant_missing : (db : Db) (raw : Raw) (deadline : ℕ) → Step db (zadd_nx leases raw deadline db)
    release : (db : Db) (raw : Raw) → Step db (zrem leases raw db).1
    finish :
        (db : Db) (raw : Raw) (job : Job)
        → loads raw ≡ some job
        → Step db
            (zrem leases raw
              (lrem processing raw (set_ex (completed job.id) settings.completed_ttl db)).1).1
    discard :
        (db : Db) (raw : Raw) (job : Job)
        → loads raw ≡ some job
        → (view db).flag (completed job.id) ≡ true
        → Step db (zrem leases raw (lrem processing raw db).1).1
    fail :
        (db : Db) (raw : Raw) (job : Job) (reason : String) (now : ℕ)
        → loads raw ≡ some job
        → contains raw ((view db).items processing) ≡ true
        → Step db (
            rpush
              (destination settings (failed_job reason now job))
              (dumps (failed_job reason now job) ∷ [])
              (zrem leases raw (lrem processing raw db).1).1)
    remove : (db : Db) (keys : List Key) → forgets ≡ true → Step db (delete keys db)

  pub data Reach (db : Db) : Db → Type 0 where
    here : Reach db db
    next : {a b : Db} → Reach db a → Step a b → Reach db b

  pub Reach-trans : {a b c : Db} → Reach a b → Reach b c → Reach a c
  Reach-trans p here = p
  Reach-trans p (next q s) = next (Reach-trans p q) s

  pub Reach-step : {a b : Db} → Step a b → Reach a b
  Reach-step s = next here s
