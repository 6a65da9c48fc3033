-- ===== src/Api/Tests.antt =====
-- The API of apps/sample-fastapi at concrete inputs.
use practical_project.Base.{
  ◌≡◌, ◌↔◌, ◌⊎◌, refl, true, false, List, [], ◌∷◌, none, some, leb, if◌then◌else◌,
}
use practical_project.Base.Int.{ℤ, pos}
use practical_project.Base.Classes.{◌==◌, string_eq, nat_eq}
use practical_project.Base.Equality.{bool_eq, pair_eq, option_eq, list_eq}
use practical_project.Float.Fixed.{fixed}
use practical_project.Float.Literal.{codes}
use practical_project.Redis.Memory.{Store}
use practical_project.Queue.{Key, key_eq, Outcome, ok}
use practical_project.Queue.Steps.{Reach, here}
use practical_project.Queue.Sample.{write_job, JobText, wire, server, settings, job, busy}
use practical_project.Api.{
  QueueMetrics, http_exception, works, fails, given, BulkBody, QueueBulkJoinRequest,
  queue_bulk_join_request, empty_payload, App,
}
use practical_project.Api.Config.{
  PythonText, scheme, Settings, Environment, read_settings, settings_of, redis_tls_enabled,
}
use practical_project.Api.Config.Accepted.{IsAcceptable, settings_of_iff}
use practical_project.Api.Endpoints.{
  join, bulk, process, status, reset, Surroundings, is_malformed, endpoint, process_queue, serve,
}
use practical_project.Api.Middleware.{HttpMetrics, Visit, Site, handle_all}
use practical_project.Api.Access.{IsConfigured, IsTurnedAway, serve-NeedsToken}
use practical_project.Api.Bulk.{IsAccepted, bulk_join_queue_effect}
use practical_project.Api.Gauge.{Answers, serve-IsShown}
use practical_project.Api.Outage.{unavailable, endpoint-Outage}
use practical_project.Api.Lost.{IsLost, process_queue-Lost}
use practical_project.Api.Paths.{serve-Reach}
use practical_project.Api.Tallies.{IsTally, answers, handle_all-IsTally}

abbrev Server : Type 0
Server = Store Key JobText

abbrev up : Server → Outcome (Unit {0})
up db = ok tt

abbrev calm : Surroundings Server
calm = record {
  first = works;
  second = works;
  third = works;
  fresh = λ i. (if leb i 0 then "d" else "e", 50);
  now = 100;
}

abbrev no_metrics : QueueMetrics
no_metrics = record {
  queue_enter = 0;
  queue_processed = 0;
  queue_failed = 0;
  queue_length = 1;
  queue_processing_length = 0;
  queue_dead_letter_length = 0;
}

abbrev app : App Server
app = record { db = busy; metrics = no_metrics }

serve-NeedsToken_example :
    IsConfigured (some "guess") (some "secret")
    ⊎ IsTurnedAway app (serve wire server settings up (some "secret") (some "guess") calm reset app)
    ⊎ (is_malformed reset ≡ true)
      × (serve wire server settings up (some "secret") (some "guess") calm reset app
          ≡ (http_exception 422, app))
serve-NeedsToken_example =
    serve-NeedsToken wire server settings up (some "secret") (some "guess") calm reset app (λ h. h)

abbrev idle : App Server
idle = record { db = record busy { lists = λ k. [] }; metrics = no_metrics }

-- A job is added, and then the connection fails.
abbrev interrupted : Surroundings Server
interrupted = record calm { second = fails (λ db. db) }

serve-Reach_example :
    Reach wire server settings false idle.db
      (serve wire server settings up
        (some "secret")
        (some "secret")
        interrupted
        (join (given none))
        idle).1.db
serve-Reach_example =
    serve-Reach wire server settings false up (some "secret") (some "secret") interrupted
      (join (given none)) idle (λ h. cc h) (here, λ db. here, λ db. here)

abbrev nothing_seen : HttpMetrics
nothing_seen = record {
  requests_total = λ l. 0;
  errors_total = λ l. 0;
  request_durations = λ t. [];
}

abbrev visits : List (Visit wire server settings up)
visits =
    record {
      token = some "secret";
      header = some "guess";
      route = reset;
      surroundings = calm;
      started_at = 5;
      finished_at = 9;
    }
    ∷ record {
      token = some "secret";
      header = none;
      route = status;
      surroundings = interrupted;
      started_at = 10;
      finished_at = 12;
    }
    ∷ []

abbrev site : Site wire server settings up
site = record { app = app; http = nothing_seen }

handle_all-IsTally_example :
    IsTally nothing_seen
      (handle_all wire server settings up visits site).http
      (answers wire server settings up visits site)
handle_all-IsTally_example = handle_all-IsTally wire server settings up visits site

-- The status endpoint fails on its second call, and ends in an exception.
answers_of_visits :
    answers wire server settings up visits site
    ≡ (("DELETE", "/api/queue/reset"), 403) ∷ (("GET", "/api/queue/status"), 500) ∷ []
unfolding handle_all serve
answers_of_visits = refl

abbrev two : BulkBody
two = record { join = record { job_type = some "load"; payload = none }; count = some (pos 2) }

abbrev two_jobs : QueueBulkJoinRequest
two_jobs = record { request = record { job_type = "load"; payload = empty_payload }; count = 2 }

bulk_join_queue_effect_example :
    IsAccepted wire server settings up two two_jobs calm app
      (endpoint wire server settings up calm (bulk (given two)) app)
unfolding queue_bulk_join_request
bulk_join_queue_effect_example =
    bulk_join_queue_effect wire server settings up calm two two_jobs app refl refl refl

abbrev broken : Surroundings Server
broken = record calm { first = fails (λ db. db) }

endpoint-Outage_example :
    endpoint wire server settings up broken process app
    ≡ unavailable wire server settings up (λ db. db) app
endpoint-Outage_example =
    endpoint-Outage wire server settings up broken process app (λ db. db) refl refl

process_queue-Lost_example :
    IsLost wire server settings up []
      (job "a" 0)
      app
      busy
      (process_queue wire server settings up interrupted app)
process_queue-Lost_example =
    process_queue-Lost wire server settings up interrupted app (λ db. db) (write_job (job "a" 0)) []
      (job "a" 0) refl refl refl refl refl

serve-IsShown_example :
    Answers wire server settings up
      (serve wire server settings up (some "secret") (some "secret") calm process app)
unfolding serve
serve-IsShown_example =
    serve-IsShown wire server settings up (some "secret") (some "secret") calm process app
      (λ db. refl, λ db. refl, λ db. refl) refl

abbrev python : PythonText
python = record { to_ascii = λ c. c; is_host = λ location. true; is_convertible = λ n. leb n 4300 }

abbrev environment : Environment
environment name =
    if name == "REDIS_URL"
    then some (codes "REDISS://cache:6380/0")
    else if name == "REDIS_SSL"
    then some (codes " Off ")
    else if name == "LOAD_TEST_TOKEN"
    then some (codes "secret")
    else none

abbrev running : Settings ℤ
running = record {
  redis_url = some (codes "REDISS://cache:6380/0");
  redis_host = codes "localhost";
  redis_port = pos 6379;
  redis_db = pos 0;
  redis_password = none;
  redis_queue_key = codes "dev:sample:queue";
  redis_ssl = false;
  redis_ssl_cert_reqs = codes "required";
  redis_connect_timeout = pos 5_000_000;
  redis_socket_timeout = pos 5_000_000;
  redis_health_check_interval = pos 30;
  redis_retry_attempts = pos 2;
  queue_max_retries = pos 3;
  queue_visibility_timeout_seconds = pos 60_000_000;
  queue_recovery_interval_seconds = pos 10_000_000;
  queue_completed_ttl_seconds = pos 86400;
  worker_processing_seconds = pos 250_000;
  worker_metrics_port = pos 9100;
  worker_job_timeout_seconds = pos 30_000_000;
  load_test_token = some (codes "secret");
}

settings_of_iff_example :
    (settings_of fixed python environment ≡ some running)
    ↔ ((read_settings fixed python environment ≡ some running) × IsAcceptable fixed python running)
settings_of_iff_example = settings_of_iff fixed python environment running

-- The defaults, and TLS by the scheme of the URL whatever REDIS_SSL says.
tls_by_url :
    (settings_of fixed python environment ≡ some running)
    × (redis_tls_enabled fixed python running ≡ some true)
unfolding settings_of fixed python redis_tls_enabled
tls_by_url = (refl, refl)

-- A bracket is not closed, and `urlsplit` raises.
unclosed : scheme python (codes "redis://[::1:6379") ≡ none
unfolding scheme
unclosed = refl
