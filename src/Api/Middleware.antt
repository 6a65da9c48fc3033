-- ===== src/Api/Middleware.antt =====
-- The middleware of apps/sample-fastapi/main.py, which counts every request, and a visit: a request
-- with its answer and its count. Times are readings of the clock, which does not run backwards.
use practical_project.Base.{
  ℕ, ◌+◌, ◌-◌, List, [], ◌∷◌, Option, none, some, leb, String, if◌then◌else◌,
}
use practical_project.Base.Classes.{Eq, ◌==◌, string_eq, nat_eq}
use practical_project.Base.Equality.{pair_eq}
use practical_project.Redis.{Redis}
use practical_project.Queue.{Key, key_eq, Wire, Outcome}
use practical_project.Queue.Service.{QueueSettings}
use practical_project.Api.{Try, done, redis_error, other_error, http_exception, App}
use practical_project.Api.Endpoints.{
  Route, health, ready, normal, cpu_load, memory_load, slow, error, join, bulk, process, status,
  reset, metrics, Surroundings, serve,
}

-- Method and path, and with the status code for the counters.
abbrev pub Target : Type 0
Target = String × String

abbrev pub Labels : Type 0
Labels = Target × ℕ

pub record HttpMetrics : Type 0 where
  pub requests_total : Labels → ℕ
  pub errors_total : Labels → ℕ
  pub request_durations : Target → List ℕ

abbrev pub inc : Labels → (Labels → ℕ) → Labels → ℕ
inc labels counter l = if labels == l then counter l + 1 else counter l

abbrev pub add_duration : Target → ℕ → (Target → List ℕ) → Target → List ℕ
add_duration target duration durations t =
    if target == t then duration ∷ durations t else durations t

abbrev pub count_request : Target → ℕ → ℕ → HttpMetrics → HttpMetrics
count_request target code duration m = record {
  requests_total = inc (target, code) m.requests_total;
  errors_total = if leb 400 code then inc (target, code) m.errors_total else m.errors_total;
  request_durations = add_duration target duration m.request_durations;
}

abbrev pub count_exception : Target → ℕ → HttpMetrics → HttpMetrics
count_exception target duration m = record {
  requests_total = inc (target, 500) m.requests_total;
  errors_total = inc (target, 500) m.errors_total;
  request_durations = add_duration target duration m.request_durations;
}

-- The status code of the response, or `none` where `call_next` raises.
unfoldable pub collect_http_metrics : Target → ℕ → ℕ → Option ℕ → HttpMetrics → HttpMetrics
collect_http_metrics target started_at finished_at none m =
    count_exception target (finished_at - started_at) m
collect_http_metrics target started_at finished_at (some code) m =
    count_request target code (finished_at - started_at) m

-- An `HTTPException` becomes a response; what nothing caught is raised through the middleware.
abbrev pub response_status : {A : Type 0} → Try A → Option ℕ
response_status (done a) = some 200
response_status redis_error = none
response_status other_error = none
response_status (http_exception code) = some code

-- The decorators of the endpoints.
unfoldable pub method_and_path : Route → Target
method_and_path health = ("GET", "/health")
method_and_path ready = ("GET", "/ready")
method_and_path normal = ("GET", "/api/normal")
method_and_path cpu_load = ("GET", "/api/cpu")
method_and_path memory_load = ("GET", "/api/memory")
method_and_path slow = ("GET", "/api/slow")
method_and_path (error failed) = ("GET", "/api/error")
method_and_path (join body) = ("POST", "/api/queue/join")
method_and_path (bulk body) = ("POST", "/api/queue/bulk")
method_and_path process = ("POST", "/api/queue/process")
method_and_path status = ("GET", "/api/queue/status")
method_and_path reset = ("DELETE", "/api/queue/reset")
method_and_path metrics = ("GET", "/metrics")

module _ {Raw : Type 0} ⦃raw_eq : Eq Raw⦄ (wire : Wire Raw) (redis : Redis Key Raw)
    (settings : QueueSettings) (ping : redis.Db → Outcome (Unit {0})) where
  open redis use {Db}

  pub record Visit : Type 0 where
    pub token : Option String
    pub header : Option String
    pub route : Route
    pub surroundings : Surroundings Db
    pub started_at : ℕ
    pub finished_at : ℕ

  pub record Site : Type 0 where
    pub app : App Db
    pub http : HttpMetrics

  unfoldable pub handle : Visit → Site → Site
  unfolding serve collect_http_metrics method_and_path
  handle v site =
      let (answer, app) =
        serve wire redis settings ping v.token v.header v.surroundings v.route site.app in
      record {
        app = app;
        http =
            collect_http_metrics (method_and_path v.route) v.started_at v.finished_at
              (response_status answer) site.http;
      }

  unfoldable pub handle_all : List Visit → Site → Site
  unfolding handle
  handle_all [] site = site
  handle_all (v ∷ visits) site = handle_all visits (handle v site)
