-- ===== src/Queue/Service.antt =====
-- `class QueueService` of apps/sample-fastapi/queue_service.py. Each method takes the server's state
-- and returns it with the result; clock readings and job ids are arguments. Times are in
-- microseconds, the resolution of `datetime`.
use practical_project.Base.{
  ℕ, ◌+◌, String, Bool, true, false, not, List, [], ◌∷◌, Option, none, some, ◌==◌, leb, length, map,
  if◌then◌else◌,
}
use practical_project.Base.Int.{ℤ, pos, pos_part, leb_ℤ}
use practical_project.Base.Classes.{Eq}
use practical_project.Redis.{Redis}
use practical_project.Queue.{
  Key, pending, processing, dead_letter, leases, completed, key_eq, Job, Payload, Wire, ReservedJob,
  json_decode_error, response_error, Outcome, ok, raised, Disposal, retry, dead_lettered, missing,
  take_chars,
}

-- The settings that `__init__` keeps.
pub record QueueSettings : Type 0 where
  pub max_retries : ℕ
  pub visibility_timeout : ℕ
  pub completed_ttl : ℕ

-- `_new_job`
unfoldable pub new_job : String → ℕ → String → Payload → Job
new_job id now job_type payload = record {
  id = id;
  job_type = job_type;
  payload = payload;
  enqueued_at = now;
  attempts = 0;
  last_error = none;
  last_failed_at = none;
}

-- The failed job: one more attempt, the reason cut to 200 characters, the time of the failure.
unfoldable pub failed_job : String → ℕ → Job → Job
failed_job reason now job = record job {
  attempts = job.attempts + 1;
  last_error = some (take_chars 200 reason);
  last_failed_at = some now;
}

unfoldable pub destination : QueueSettings → Job → Key
destination s job = if leb job.attempts s.max_retries then pending else dead_letter

-- The dictionary that `recover_stale` returns.
pub record Recovered : Type 0 where
  pub retried : ℕ
  pub dead_lettered : ℕ
  pub already_completed : ℕ

abbrev pub nothing_recovered : Recovered
nothing_recovered = record { retried = 0; dead_lettered = 0; already_completed = 0 }

abbrev pub count_disposal : Disposal → Recovered → Recovered
count_disposal retry r = record r { retried = r.retried + 1 }
count_disposal dead_lettered r = record r { dead_lettered = r.dead_lettered + 1 }
count_disposal missing r = r

abbrev pub is_completed_key : Key → Bool
is_completed_key (completed _) = true
is_completed_key _ = false

module _ {Raw : Type 0} ⦃raw_eq : Eq Raw⦄ (wire : Wire Raw) (redis : Redis Key Raw)
    (settings : QueueSettings) where
  open redis use {
    Db, view, rpush, lmove, blmove, lrem, lpos, zadd, zadd_nx, zrem, zrangebyscore, set_ex, delete,
    scan,
  }
  open wire use {dumps, loads, is_blank}

  unfoldable pub enqueue : String → ℕ → String → Payload → Db → Job × Db
  unfolding new_job
  enqueue id now job_type payload db =
      let job = new_job id now job_type payload in (job, rpush pending (dumps job ∷ []) db)

  -- One job for each id and clock reading. RPUSH of no values is an error of the server.
  unfoldable pub new_jobs : List (String × ℕ) → String → Payload → List Job
  unfolding new_job
  new_jobs ids job_type payload = map (λ (i : String × ℕ). new_job i.0 i.1 job_type payload) ids

  unfoldable pub enqueue_many : List (String × ℕ) → String → Payload → Db → Outcome (List Job) × Db
  unfolding new_jobs
  enqueue_many [] job_type payload db = (raised response_error, db)
  enqueue_many (i ∷ ids) job_type payload db =
      let jobs = new_jobs (i ∷ ids) job_type payload in (ok jobs, rpush pending (map dumps jobs) db)

  -- The rest of `reserve` after the move: `now` is read when the lease is written.
  unfoldable pub lease : ℕ → Option Raw → Db → Outcome (Option (ReservedJob Raw)) × Db
  lease now none db = (ok none, db)
  lease now (some raw) db = if is_blank raw then (ok none, db) else elim (loads raw) [
    | none ↦ (raised json_decode_error, db)
    | some job ↦ (
      ok (some (record { job = job; raw = raw })),
      zadd leases raw (now + settings.visibility_timeout) db,
    )
  ]

  unfoldable pub reserve : ℤ → ℕ → Db → Outcome (Option (ReservedJob Raw)) × Db
  unfolding lease
  reserve timeout now db =
      let (raw, moved) =
        if leb_ℤ timeout (pos 0)
        then lmove pending processing db
        else blmove pending processing (pos_part timeout) db in
      lease now raw moved

  unfoldable pub acknowledge : ReservedJob Raw → Db → Bool × Db
  acknowledge reservation db =
      let marked = set_ex (completed reservation.job.id) settings.completed_ttl db in
      let (removed, unlisted) = lrem processing reservation.raw marked in
      let (_, released) = zrem leases reservation.raw unlisted in (not (removed == 0), released)

  unfoldable pub is_completed : String → Db → Bool
  is_completed id db = (view db).flag (completed id)

  -- The optimistic transaction. Each conflict is what other clients did to the watched list between
  -- WATCH and EXEC: EXEC then raises `WatchError`, nothing is written, and the loop goes round.
  unfoldable pub move_failed : Key → Raw → Raw → List (Db → Db) → Db → Disposal × Db
  move_failed dest raw updated [] db = elim (lpos processing raw db) [
    | none ↦ (missing, (zrem leases raw db).1)
    | some _ ↦
        let (_, unlisted) = lrem processing raw db in
        let (_, released) = zrem leases raw unlisted in
        (elim dest [ pending ↦ retry | _ ↦ dead_lettered ], rpush dest (updated ∷ []) released)
  ]
  move_failed dest raw updated (conflict ∷ conflicts) db =
      let again = move_failed dest raw updated conflicts (conflict db) in
      elim (lpos processing raw db) [ none ↦ (missing, (zrem leases raw db).1) | some _ ↦ again ]

  unfoldable pub retry_or_dead_letter :
      ReservedJob Raw → String → ℕ → List (Db → Db) → Db → Disposal × Db
  unfolding failed_job destination move_failed
  retry_or_dead_letter reservation reason now conflicts db =
      let job = failed_job reason now reservation.job in
      move_failed (destination settings job) reservation.raw (dumps job) conflicts db

  unfoldable pub add_leases : ℕ → List Raw → Db → ℕ × Db
  add_leases now [] db = (0, db)
  add_leases now (raw ∷ raws) db = elim ((view db).score leases raw) [
    | some _ ↦ add_leases now raws db
    | none ↦
        let (added, db') =
          add_leases now raws (zadd_nx leases raw (now + settings.visibility_timeout) db) in
        (added + 1, db')
  ]

  unfoldable pub ensure_processing_leases : ℕ → Db → ℕ × Db
  unfolding add_leases
  ensure_processing_leases now db = add_leases now ((view db).items processing) db

  -- One turn of the loop of `recover_stale`.
  unfoldable pub recover_one : ℕ → List (Db → Db) → Raw → Job → Recovered → Db → Recovered × Db
  unfolding is_completed retry_or_dead_letter
  recover_one failed_at conflicts raw job result db =
      if is_completed job.id db
      then (
        record result { already_completed = result.already_completed + 1 },
        (zrem leases raw (lrem processing raw db).1).1,
      )
      else (let (disposal, db') =
            retry_or_dead_letter (record { job = job; raw = raw }) "visibility timeout exceeded"
              failed_at conflicts db in
          (count_disposal disposal result, db'))

  unfoldable pub recover_each :
      ℕ → (Raw → List (Db → Db)) → List Raw → Recovered → Db → Outcome Recovered × Db
  unfolding recover_one
  recover_each failed_at conflicts [] result db = (ok result, db)
  recover_each failed_at conflicts (raw ∷ raws) result db = elim (loads raw) [
    | none ↦ (raised json_decode_error, db)
    | some job ↦
        let (result', db') = recover_one failed_at (conflicts raw) raw job result db in
        recover_each failed_at conflicts raws result' db'
  ]

  -- `failed_at` is the clock reading that a failed job is stamped with.
  unfoldable pub recover_stale : ℕ → ℕ → (Raw → List (Db → Db)) → Db → Outcome Recovered × Db
  unfolding ensure_processing_leases recover_each
  recover_stale now failed_at conflicts db =
      let (_, leased) = ensure_processing_leases now db in
      recover_each failed_at conflicts (zrangebyscore leases now leased) nothing_recovered leased

  -- The job that was reserved is acknowledged at once.
  unfoldable pub acknowledge_reserved :
      Outcome (Option (ReservedJob Raw)) → Db → Outcome (Option Job) × Db
  unfolding acknowledge
  acknowledge_reserved (raised e) db = (raised e, db)
  acknowledge_reserved (ok none) db = (ok none, db)
  acknowledge_reserved (ok (some r)) db = (ok (some r.job), (acknowledge r db).1)

  unfoldable pub dequeue : ℤ → ℕ → Db → Outcome (Option Job) × Db
  unfolding reserve acknowledge_reserved
  dequeue timeout now db =
      let (reservation, reserved) = reserve timeout now db in
      acknowledge_reserved reservation reserved

  -- LLEN of the three lists.
  unfoldable pub queue_length : Db → ℕ
  queue_length db = length ((view db).items pending)

  unfoldable pub processing_length : Db → ℕ
  processing_length db = length ((view db).items processing)

  unfoldable pub dead_letter_length : Db → ℕ
  dead_letter_length db = length ((view db).items dead_letter)

  unfoldable pub clear : Db → ℕ × Db
  unfolding queue_length processing_length dead_letter_length
  clear db = (
    queue_length db + processing_length db + dead_letter_length db,
    delete (pending ∷ processing ∷ dead_letter ∷ leases ∷ scan is_completed_key db) db,
  )
