-- ===== src/Api.antt =====
-- The API of apps/sample-fastapi/main.py, a client of the job queue: what it keeps, what an endpoint
-- may end in, and the token that guards it. Metrics are those of apps/sample-fastapi/metrics.py.
pub mod Config
pub mod Endpoints
pub mod Middleware
pub mod Results
pub mod Access
pub mod Gauge
mod Tests
pub mod Bulk
pub mod Outage
pub mod Lost
pub mod Tallies
pub mod Paths
use practical_project.Base.{
  ℕ, ◌+◌, Bool, true, false, not, ◌&&◌, List, [], ◌∷◌, Option, none, some, leb, ltb, String,
  if◌then◌else◌,
}
use practical_project.Base.Classes.{◌==◌, nat_eq, string_eq}
use practical_project.Base.Equality.{list_beq}
use practical_project.Base.Int.{ℤ, pos, pos_part, leb_ℤ}
use practical_project.Float.Literal.{codes}
use practical_project.Queue.{
  Payload, Exn, json_decode_error, response_error, timeout_error, value_error, Outcome, ok, raised,
}

-- The counters and gauges of the queue.
pub record QueueMetrics : Type 0 where
  pub queue_enter : ℕ
  pub queue_processed : ℕ
  pub queue_failed : ℕ
  pub queue_length : ℕ
  pub queue_processing_length : ℕ
  pub queue_dead_letter_length : ℕ

-- An endpoint ends in a value, in a `RedisError` or another exception that nothing caught, or in an
-- `HTTPException` with its status code.
pub data Try (A : Type 0) : Type 0 where
  done : A → Try A
  redis_error : Try A
  other_error : Try A
  http_exception : ℕ → Try A

-- A call of the server. It works, after what else happened to the database before its own effect:
-- writes of other clients, and attempts of the call whose reply was lost, for redis_client.py sends a
-- command again after a connection error or a timeout. Or every attempt fails, and then the server may
-- have done a part of what it was sent, or all. The commands that one call sends run together.
pub data Link (Db : Type 0) : Type 0 where
  works_after : (Db → Db) → Link Db
  fails : (Db → Db) → Link Db

-- The call works at once, and no other client acts before it.
abbrev pub works : {Db : Type 0} → Link Db
works = works_after (λ db. db)

-- `ResponseError` is a `RedisError`; a text that is no job raises another exception.
abbrev pub of_outcome : {A : Type 0} → Outcome A → Try A
of_outcome (ok a) = done a
of_outcome (raised response_error) = redis_error
of_outcome (raised json_decode_error) = other_error
of_outcome (raised timeout_error) = other_error
of_outcome (raised value_error) = other_error

unfoldable pub is_ascii : List ℕ → Bool
is_ascii [] = true
is_ascii (c ∷ cs) = ltb c 128 && is_ascii cs

-- `secrets.compare_digest` raises a `TypeError` for a text with a character beyond ASCII.
unfoldable pub compare_digest : String → String → Try Bool
unfolding is_ascii
compare_digest a b = if is_ascii (codes a) && is_ascii (codes b) then done (a == b) else other_error

abbrev pub token_verdict : Try Bool → Try (Unit {0})
token_verdict (done same) = if same then done tt else http_exception 403
token_verdict redis_error = redis_error
token_verdict other_error = other_error
token_verdict (http_exception code) = http_exception code

abbrev pub compare_token : Option String → String → Try (Unit {0})
compare_token none expected = http_exception 403
compare_token (some sent) expected = token_verdict (compare_digest sent expected)

-- The header, then the configured token.
unfoldable pub require_test_token : Option String → Option String → Try (Unit {0})
unfolding compare_digest
require_test_token header none = http_exception 503
require_test_token header (some expected) =
    if expected == "" then http_exception 503 else compare_token header expected

-- A body that is JSON, or that is not.
pub data Body (A : Type 0) : Type 0 where
  malformed : Body A
  given : A → Body A

-- A request's body before its defaults, and what is made of it.
pub record JoinBody : Type 0 where
  pub job_type : Option String
  pub payload : Option Payload

pub record BulkBody : Type 0 where
  pub join : JoinBody
  pub count : Option ℤ

pub record QueueJoinRequest : Type 0 where
  pub job_type : String
  pub payload : Payload

pub record QueueBulkJoinRequest : Type 0 where
  pub request : QueueJoinRequest
  pub count : ℕ

abbrev pub or_default {ℓ} : {A : Type ℓ} → A → Option A → A
or_default d none = d
or_default d (some a) = a

abbrev pub empty_payload : Payload
empty_payload = record { processing_seconds = none; rest = [] }

abbrev pub text_length : List ℕ → ℕ
text_length [] = 0
text_length (c ∷ cs) = text_length cs + 1

-- `min_length=1, max_length=100`; `none` where the validation refuses.
unfoldable pub queue_join_request : JoinBody → Option QueueJoinRequest
queue_join_request b =
    let job_type = or_default "sample" b.job_type in
    let n = text_length (codes job_type) in
    if leb 1 n && leb n 100
    then some (record { job_type = job_type; payload = or_default empty_payload b.payload })
    else none

-- `ge=1, le=1000`, once the inherited fields are accepted.
abbrev pub with_count : Option QueueJoinRequest → ℤ → Option QueueBulkJoinRequest
with_count none count = none
with_count (some request) count =
    if leb_ℤ (pos 1) count && leb_ℤ count (pos 1000)
    then some (record { request = request; count = pos_part count })
    else none

unfoldable pub queue_bulk_join_request : BulkBody → Option QueueBulkJoinRequest
unfolding queue_join_request
queue_bulk_join_request b = with_count (queue_join_request b.join) (or_default (pos 1) b.count)

-- What the process keeps beside the server's database.
pub record App (Db : Type 0) : Type 0 where
  pub db : Db
  pub metrics : QueueMetrics

abbrev pub Action : Type 0 → Type 0 → Type 0
Action Db A = App Db → Try A × App Db

abbrev pub count_failure : QueueMetrics → QueueMetrics
count_failure m = record m { queue_failed = m.queue_failed + 1 }

module _ {Db : Type 0} where
  abbrev pub tell : (QueueMetrics → QueueMetrics) → Action Db (Unit {0})
  tell f app = (done tt, record app { metrics = f app.metrics })

  module _ {A : Type 0} where
    abbrev pub pure : A → Action Db A
    pure a app = (done a, app)

    abbrev pub fail_with : Try A → Action Db A
    fail_with r app = (r, app)

    -- A call of the queue service over a connection.
    unfoldable pub over : Link Db → (Db → Outcome A × Db) → Action Db A
    over (works_after before) f app =
        let (r, db) = f (before app.db) in (of_outcome r, record app { db = db })
    over (fails left) f app = (redis_error, record app { db = left app.db })

    -- `except RedisError`: the failure is counted and answered with 503.
    abbrev pub on_redis_error : (QueueMetrics → QueueMetrics) → Try A → Action Db A
    on_redis_error f (done a) app = (done a, app)
    on_redis_error f redis_error app = (http_exception 503, record app { metrics = f app.metrics })
    on_redis_error f other_error app = (other_error, app)
    on_redis_error f (http_exception code) app = (http_exception code, app)

    unfoldable pub guarded : (QueueMetrics → QueueMetrics) → Action Db A → Action Db A
    guarded f m app = on_redis_error f (m app).0 (m app).1

  module _ {A B : Type 0} where
    abbrev pub and_then : Try A → App Db → (A → Action Db B) → Try B × App Db
    and_then (done a) app k = k a app
    and_then redis_error app k = (redis_error, app)
    and_then other_error app k = (other_error, app)
    and_then (http_exception code) app k = (http_exception code, app)

    infixl 5 ◌>>=◌ ◌>>◌
    abbrev pub ◌>>=◌ : Action Db A → (A → Action Db B) → Action Db B
    m >>= k = λ app. and_then (m app).0 (m app).1 k

    abbrev pub ◌>>◌ : Action Db A → Action Db B → Action Db B
    m >> n = m >>= λ _. n
