-- ===== src/Api/Paths.antt =====
-- The requests of apps/sample-fastapi/main.py as steps of the queue's transition system.
use practical_project.Base.{
  ℕ, ◌≡◌, refl, Bool, true, false, Option, none, some, String, Bool-cases, inl, inr,
}
use practical_project.Base.Int.{pos}
use practical_project.Base.Classes.{Eq}
use practical_project.Redis.{Redis}
use practical_project.Queue.{Key, key_eq, Wire, Outcome}
use practical_project.Queue.Service.{QueueSettings}
use practical_project.Queue.Steps.{Reach, here, Reach-trans}
use practical_project.Queue.Paths.{enqueue_many-Reach}
use practical_project.Queue.Loads.{enqueue-Reach, dequeue-Reach, clear-Reach}
use practical_project.Api.{
  QueueMetrics, Try, done, redis_error, other_error, http_exception, Link, works_after, fails,
  malformed, given, require_test_token, QueueJoinRequest, QueueBulkJoinRequest,
  queue_bulk_join_request, App, Action, pure, fail_with, and_then, ◌>>=◌, ◌>>◌, over, tell,
  on_redis_error, guarded,
}
use practical_project.Api.Endpoints.{
  Reply, Route, health, ready, normal, cpu_load, memory_load, slow, error, join, bulk, process,
  status, reset, metrics, is_protected, is_malformed, Surroundings, ask, then_length, join_request,
  validated, readiness_check, join_queue, bulk_join_queue, process_queue, queue_status, reset_queue,
  read_metrics, endpoint, serve,
}

module _ {Raw : Type 0} ⦃raw_eq : Eq Raw⦄ (wire : Wire Raw) (redis : Redis Key Raw)
    (settings : QueueSettings) (forgets : Bool) (ping : redis.Db → Outcome (Unit {0})) where
  open redis use {Db}

  -- What happens around a call is a sequence of steps too, and so is what a failed call leaves.
  abbrev pub IsStep : Db → Link Db → Type 0
  IsStep db (works_after before) = Reach wire redis settings forgets db (before db)
  IsStep db (fails left) = Reach wire redis settings forgets db (left db)

  abbrev pub AreLinks : Db → Surroundings Db → Type 0
  AreLinks db s = IsStep db s.first × ((a : Db) → IsStep a s.second) × ((a : Db) → IsStep a s.third)

  -- From the database of a state.
  abbrev Moves : {A : Type 0} → App Db → Try A × App Db → Type 0
  Moves app result = Reach wire redis settings forgets app.db result.1.db

  abbrev AlwaysMoves : {A : Type 0} → Action Db A → Type 0
  AlwaysMoves m = (app : App Db) → Moves app (m app)

  Moves-and_then :
      {A B : Type 0} (app app' : App Db) (r : Try A) (k : A → Action Db B)
      → Reach wire redis settings forgets app.db app'.db
      → ((a : A) → AlwaysMoves (k a))
      → Moves app (and_then r app' k)
  Moves-and_then app app' (done a) k p h = Reach-trans wire redis settings forgets p (h a app')
  Moves-and_then app app' redis_error k p h = p
  Moves-and_then app app' other_error k p h = p
  Moves-and_then app app' (http_exception code) k p h = p

  Moves-bind :
      {A B : Type 0} (m : Action Db A) (k : A → Action Db B) (app : App Db)
      → Moves app (m app)
      → ((a : A) → AlwaysMoves (k a))
      → Moves app ((m >>= k) app)
  Moves-bind m k app p h = Moves-and_then app (m app).1 (m app).0 k p h

  Moves-on_redis_error :
      {A : Type 0} (f : QueueMetrics → QueueMetrics) (app app' : App Db) (r : Try A)
      → Reach wire redis settings forgets app.db app'.db
      → Moves app (on_redis_error f r app')
  Moves-on_redis_error f app app' (done a) p = p
  Moves-on_redis_error f app app' redis_error p = p
  Moves-on_redis_error f app app' other_error p = p
  Moves-on_redis_error f app app' (http_exception code) p = p

  Moves-guarded :
      {A : Type 0} (f : QueueMetrics → QueueMetrics) (m : Action Db A) (app : App Db)
      → Moves app (m app)
      → Moves app (guarded f m app)
  unfolding guarded
  Moves-guarded f m app p = Moves-on_redis_error f app (m app).1 (m app).0 p

  Moves-over :
      {A : Type 0} (link : Link Db) (f : Db → Outcome A × Db) (app : App Db)
      → IsStep app.db link
      → ((db : Db) → Reach wire redis settings forgets db (f db).1)
      → Moves app (over link f app)
  unfolding over
  Moves-over (works_after before) f app h p =
      Reach-trans wire redis settings forgets h (p (before app.db))
  Moves-over (fails left) f app h p = h

  Moves-read :
      {A : Type 0} (link : Link Db) (f : Db → Outcome A) (app : App Db)
      → IsStep app.db link
      → Moves app (over link (λ db. (f db, db)) app)
  Moves-read link f app h = Moves-over link (λ db. (f db, db)) app h (λ db. here)

  Moves-ask :
      (link : Link Db) (f : Db → ℕ) (app : App Db)
      → IsStep app.db link
      → Moves app (ask wire redis settings ping link f app)
  Moves-ask link f app h = Moves-over link _ app h (λ db. here)

  Moves-tell : (f : QueueMetrics → QueueMetrics) (app : App Db) → Moves app (tell f app)
  Moves-tell f app = here

  Moves-pure : {A : Type 0} (a : A) (app : App Db) → Moves app (pure a app)
  Moves-pure a app = here

  Moves-then_length :
      {A : Type 0} (m : Action Db A) (link : Link Db) (app : App Db)
      → Moves app (m app)
      → ((a : Db) → IsStep a link)
      → Moves app (then_length wire redis settings ping m link app)
  unfolding then_length
  Moves-then_length m link app p h = Moves-bind m _ app p (λ a app'.
      Moves-bind (ask wire redis settings ping link _) _ app' (Moves-ask link _ app' (h app'.db))
        (λ n app''. here))

  ruleset moving =
      (Moves-bind, Moves-guarded, Moves-over, Moves-ask, Moves-tell, Moves-pure, Moves-then_length)

  ready-Moves :
      (s : Surroundings Db) (app : App Db)
      → AreLinks app.db s
      → Moves app (readiness_check wire redis settings ping s app)
  unfolding readiness_check
  ready-Moves s app (h1, h2, h3) = search (moving, Moves-read) depth 20

  join-Moves :
      (s : Surroundings Db) (request : QueueJoinRequest) (app : App Db)
      → AreLinks app.db s
      → Moves app (join_queue wire redis settings ping s request app)
  unfolding join_queue
  join-Moves s request app (h1, h2, h3) =
      search (moving, enqueue-Reach wire redis settings forgets) depth 30

  bulk-Moves :
      (s : Surroundings Db) (request : QueueBulkJoinRequest) (app : App Db)
      → AreLinks app.db s
      → Moves app (bulk_join_queue wire redis settings ping s request app)
  unfolding bulk_join_queue
  bulk-Moves s request app (h1, h2, h3) =
      search (moving, enqueue_many-Reach wire redis settings forgets) depth 30

  process-Moves :
      (s : Surroundings Db) (app : App Db)
      → AreLinks app.db s
      → Moves app (process_queue wire redis settings ping s app)
  unfolding process_queue
  process-Moves s app (h1, h2, h3) =
      search (moving, dequeue-Reach wire redis settings forgets (pos 0) s.now) depth 30

  status-Moves :
      (s : Surroundings Db) (app : App Db)
      → AreLinks app.db s
      → Moves app (queue_status wire redis settings ping s app)
  unfolding queue_status
  status-Moves s app (h1, h2, h3) = search moving depth 30

  metrics-Moves :
      (s : Surroundings Db) (app : App Db)
      → AreLinks app.db s
      → Moves app (read_metrics wire redis settings ping s app)
  unfolding read_metrics
  metrics-Moves s app (h1, h2, h3) = search moving depth 30

  reset-Moves :
      (s : Surroundings Db) (app : App Db)
      → forgets ≡ true
      → AreLinks app.db s
      → Moves app (reset_queue wire redis settings ping s app)
  unfolding reset_queue
  reset-Moves s app allowed (h1, h2, h3) =
      search (moving, λ (db : Db). clear-Reach wire redis settings forgets db allowed) depth 30

  validated-Moves :
      {A : Type 0} (o : Option A) (k : A → Action Db Reply) (app : App Db)
      → ((a : A) → Moves app (k a app))
      → Moves app (validated wire redis settings ping o k app)
  validated-Moves none k app h = here
  validated-Moves (some a) k app h = h a

  endpoint-Moves :
      (s : Surroundings Db) (route : Route) (app : App Db)
      → (route ≡ reset → forgets ≡ true)
      → AreLinks app.db s
      → Moves app (endpoint wire redis settings ping s route app)
  unfolding endpoint
  endpoint-Moves s health app allowed links = here
  endpoint-Moves s ready app allowed links = ready-Moves s app links
  endpoint-Moves s normal app allowed links = here
  endpoint-Moves s cpu_load app allowed links = here
  endpoint-Moves s memory_load app allowed links = here
  endpoint-Moves s slow app allowed links = here
  endpoint-Moves s (error true) app allowed links = here
  endpoint-Moves s (error false) app allowed links = here
  endpoint-Moves s (join malformed) app allowed links = here
  endpoint-Moves s (join (given body)) app allowed links =
      validated-Moves (join_request wire redis settings ping body) _ app
        (λ request. join-Moves s request app links)
  endpoint-Moves s (bulk malformed) app allowed links = here
  endpoint-Moves s (bulk (given body)) app allowed links =
      validated-Moves (queue_bulk_join_request body) _ app
        (λ request. bulk-Moves s request app links)
  endpoint-Moves s process app allowed links = process-Moves s app links
  endpoint-Moves s status app allowed links = status-Moves s app links
  endpoint-Moves s reset app allowed links = reset-Moves s app (allowed refl) links
  endpoint-Moves s metrics app allowed links = metrics-Moves s app links

  token_first :
      {A B : Type 0} (r : Try A) (m : Action Db B) (app : App Db)
      → Moves app (m app)
      → Moves app ((fail_with r >> m) app)
  token_first (done a) m app h = h
  token_first redis_error m app h = here
  token_first other_error m app h = here
  token_first (http_exception code) m app h = here

  -- Whatever a request of the API is, the database moves along steps of the queue. Where it is not a
  -- reset, and nothing else forgets jobs meanwhile, these forget none: so such a request keeps each
  -- job it finds and makes no copy of one but by an RPUSH. Calls of Redis may work, work after attempts
  -- whose reply was lost, or fail; what other clients do around them, and what the attempts leave, is
  -- steps too.
  pub serve-Reach :
      (token header : Option String) (s : Surroundings Db) (route : Route) (app : App Db)
      → (route ≡ reset → forgets ≡ true)
      → AreLinks app.db s
      → Reach wire redis settings forgets app.db
          (serve wire redis settings ping token header s route app).1.db
  unfolding serve
  serve-Reach token header s route app allowed links =
      let ended = endpoint-Moves s route app allowed links in
      elim (Bool-cases (is_malformed route)) [
        | inl broken ↦ rw broken here
        | inr readable ↦ elim (Bool-cases (is_protected route)) [
          | inl protected ↦
              rw (readable, protected)
                (token_first (require_test_token header token)
                  (endpoint wire redis settings ping s route) app ended)
          | inr open_route ↦ rw (readable, open_route) ended
        ]
      ]
