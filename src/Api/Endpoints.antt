-- ===== src/Api/Endpoints.antt =====
-- The endpoints of apps/sample-fastapi/main.py, and a request from its token to its answer. What the
-- processor does, the clock, job ids and random numbers are arguments.
use practical_project.Base.{
  ℕ, zero, suc, ◌+◌, ◌*◌, Bool, true, false, List, [], ◌∷◌, map, Option, none, some, length, String,
  if◌then◌else◌,
}
use practical_project.Base.Int.{pos}
use practical_project.Base.Classes.{Eq}
use practical_project.Redis.{Redis}
use practical_project.Queue.{Key, key_eq, Job, Wire, Outcome, ok}
use practical_project.Queue.Service.{
  QueueSettings, enqueue, enqueue_many, dequeue, queue_length, processing_length,
  dead_letter_length, clear,
}
use practical_project.Api.{
  QueueMetrics, done, http_exception, Link, require_test_token, Body, malformed, given, JoinBody,
  BulkBody, QueueJoinRequest, QueueBulkJoinRequest, empty_payload, queue_join_request,
  queue_bulk_join_request, Action, pure, fail_with, ◌>>=◌, ◌>>◌, over, tell, count_failure, guarded,
}

pub data Reply : Type 0 where
  message : Reply
  cpu_result : ℕ → Reply
  items : ℕ → Reply
  joined : String → ℕ → Reply
  bulk_joined : ℕ → List String → ℕ → Reply
  processed : Option Job → ℕ → Reply
  lengths : ℕ → ℕ → ℕ → Reply
  was_reset : ℕ → Reply
  page : QueueMetrics → Reply

-- The routes with what each reads besides the token; `error` with whether `random.random() < 0.3`.
pub data Route : Type 0 where
  health ready normal cpu_load memory_load slow : Route
  error : Bool → Route
  join : Body (Option JoinBody) → Route
  bulk : Body BulkBody → Route
  process status reset metrics : Route

-- The routes that depend on `require_test_token`.
unfoldable pub is_protected : Route → Bool
is_protected cpu_load = true
is_protected memory_load = true
is_protected slow = true
is_protected (error failed) = true
is_protected (join body) = true
is_protected (bulk body) = true
is_protected process = true
is_protected reset = true
is_protected _ = false

unfoldable pub is_malformed : Route → Bool
is_malformed (join malformed) = true
is_malformed (bulk malformed) = true
is_malformed _ = false

-- What a request meets: how its calls of the server go, in order, the ids and times of the jobs
-- that it makes, and the clock when a job is reserved.
pub record Surroundings (Db : Type 0) : Type 0 where
  pub first : Link Db
  pub second : Link Db
  pub third : Link Db
  pub fresh : ℕ → String × ℕ
  pub now : ℕ

-- The loop of `cpu_load`.
unfoldable pub squares : ℕ → ℕ
squares zero = 0
squares (suc n) = squares n + n * n

-- The ids and times of `n` jobs.
unfoldable pub first_ids : ℕ → (ℕ → String × ℕ) → List (String × ℕ)
first_ids zero fresh = []
first_ids (suc n) fresh = fresh 0 ∷ first_ids n (λ i. fresh (suc i))

abbrev pub job_ids : List Job → List String
job_ids jobs = map (λ (j : Job). j.id) jobs

abbrev pub is_queued : Option Job → Bool
is_queued none = false
is_queued (some j) = true

abbrev pub set_length : ℕ → QueueMetrics → QueueMetrics
set_length n m = record m { queue_length = n }

abbrev pub set_processing : ℕ → QueueMetrics → QueueMetrics
set_processing n m = record m { queue_processing_length = n }

abbrev pub set_dead_letter : ℕ → QueueMetrics → QueueMetrics
set_dead_letter n m = record m { queue_dead_letter_length = n }

abbrev pub count_entered : ℕ → QueueMetrics → QueueMetrics
count_entered n m = record m { queue_enter = m.queue_enter + n }

abbrev pub count_processed : Option Job → QueueMetrics → QueueMetrics
count_processed job m =
    if is_queued job then record m { queue_processed = m.queue_processed + 1 } else m

module _ {Raw : Type 0} ⦃raw_eq : Eq Raw⦄ (wire : Wire Raw) (redis : Redis Key Raw)
    (settings : QueueSettings) (ping : redis.Db → Outcome (Unit {0})) where
  open redis use {Db}

  abbrev pub reads : {A : Type 0} → (Db → A) → Db → Outcome A × Db
  reads f db = (ok (f db), db)

  -- LLEN of a list through the connection.
  abbrev pub ask : Link Db → (Db → ℕ) → Action Db ℕ
  ask link f = over link (reads f)

  -- A call, and then the length of the queue.
  unfoldable pub then_length : {A : Type 0} → Action Db A → Link Db → Action Db (A × ℕ)
  unfolding over queue_length
  then_length m link = do a ← m; n ← ask link (queue_length wire redis settings); pure (a, n)

  unfoldable pub readiness_check : Surroundings Db → Action Db Reply
  unfolding guarded over
  readiness_check s = do guarded (λ m. m) (over s.first (λ db. (ping db, db))); pure message

  unfoldable pub join_queue : Surroundings Db → QueueJoinRequest → Action Db Reply
  unfolding guarded over then_length enqueue
  join_queue s request = do
    (job, n) ← guarded count_failure (
        then_length
          (over s.first (λ db.
            let (job, db') =
              enqueue wire redis settings (s.fresh 0).0 (s.fresh 0).1 request.job_type
                request.payload db in
            (ok job, db')))
          s.second)
    tell (count_entered 1)
    tell (set_length n)
    pure (joined job.id n)

  unfoldable pub bulk_join_queue : Surroundings Db → QueueBulkJoinRequest → Action Db Reply
  unfolding guarded over then_length enqueue_many first_ids
  bulk_join_queue s request = do
    (jobs, n) ← guarded count_failure (
        then_length
          (over s.first (
            enqueue_many wire redis settings (first_ids request.count s.fresh)
              request.request.job_type request.request.payload))
          s.second)
    tell (count_entered request.count)
    tell (set_length n)
    pure (bulk_joined (length (job_ids jobs)) (job_ids jobs) n)

  unfoldable pub process_queue : Surroundings Db → Action Db Reply
  unfolding guarded over then_length dequeue
  process_queue s = do
    (job, n) ←
        guarded count_failure
          (then_length (over s.first (dequeue wire redis settings (pos 0) s.now)) s.second)
    tell (count_processed job)
    tell (set_length n)
    pure (processed job n)

  unfoldable pub queue_status : Surroundings Db → Action Db Reply
  unfolding guarded over queue_length processing_length dead_letter_length
  queue_status s = do
    n ← guarded count_failure (ask s.first (queue_length wire redis settings))
    tell (set_length n)
    p ← ask s.second (processing_length wire redis settings)
    d ← ask s.third (dead_letter_length wire redis settings)
    tell (set_processing p)
    tell (set_dead_letter d)
    pure (lengths n p d)

  unfoldable pub reset_queue : Surroundings Db → Action Db Reply
  unfolding guarded over clear
  reset_queue s = do
    n ←
        guarded count_failure
          (over s.first (λ db. let (n, db') = clear wire redis settings db in (ok n, db')))
    tell (set_length 0)
    tell (set_processing 0)
    tell (set_dead_letter 0)
    pure (was_reset n)

  unfoldable pub read_metrics : Surroundings Db → Action Db Reply
  unfolding guarded over queue_length processing_length dead_letter_length
  read_metrics s = do
    guarded count_failure (do
      n ← ask s.first (queue_length wire redis settings)
      tell (set_length n)
      p ← ask s.second (processing_length wire redis settings)
      tell (set_processing p)
      d ← ask s.third (dead_letter_length wire redis settings)
      tell (set_dead_letter d))
    λ app. (done (page app.metrics), app)

  -- A body that the validation refuses is answered with 422.
  abbrev pub validated : {A : Type 0} → Option A → (A → Action Db Reply) → Action Db Reply
  validated none k = fail_with (http_exception 422)
  validated (some a) k = k a

  abbrev pub join_request : Option JoinBody → Option QueueJoinRequest
  join_request none = some (record { job_type = "sample"; payload = empty_payload })
  join_request (some body) = queue_join_request body

  unfoldable pub endpoint : Surroundings Db → Route → Action Db Reply
  unfolding readiness_check join_queue bulk_join_queue process_queue queue_status reset_queue
      read_metrics squares
  endpoint s health = pure message
  endpoint s ready = readiness_check s
  endpoint s normal = pure message
  endpoint s cpu_load = pure (cpu_result (squares 5_000_000))
  endpoint s memory_load = pure (items 100_000)
  endpoint s slow = pure message
  endpoint s (error failed) = if failed then fail_with (http_exception 500) else pure message
  endpoint s (join malformed) = fail_with (http_exception 422)
  endpoint s (join (given body)) = validated (join_request body) (join_queue s)
  endpoint s (bulk malformed) = fail_with (http_exception 422)
  endpoint s (bulk (given body)) = validated (queue_bulk_join_request body) (bulk_join_queue s)
  endpoint s process = process_queue s
  endpoint s status = queue_status s
  endpoint s reset = reset_queue s
  endpoint s metrics = read_metrics s

  -- A request. The framework reads the body as JSON first and answers 422 where it is none; then come
  -- the dependency on the token, the fields of the body and the endpoint.
  unfoldable pub serve : Option String → Option String → Surroundings Db → Route → Action Db Reply
  unfolding endpoint is_protected is_malformed require_test_token
  serve token header s route =
      if is_malformed route
      then fail_with (http_exception 422)
      else if is_protected route
      then (fail_with (require_test_token header token) >> endpoint s route)
      else endpoint s route
