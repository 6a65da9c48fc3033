-- ===== src/Api/Results.antt =====
-- Properties of what a chain of calls in apps/sample-fastapi/main.py ends in.
use practical_project.Api.{
  QueueMetrics, Try, done, redis_error, other_error, http_exception, App, Action, and_then, ◌>>=◌,
  on_redis_error, guarded,
}

module _ {Db : Type 0} where
  -- A property of the value and of the state, if a value is returned.
  abbrev pub Holds : {A : Type 0} → (A → App Db → Type 0) → Try A × App Db → Type 0
  Holds P (done a, app) = P a app
  Holds P (redis_error, app) = Unit
  Holds P (other_error, app) = Unit
  Holds P (http_exception code, app) = Unit

  pub Holds-any : {A : Type 0} (r : Try A) (app : App Db) → Holds (λ a app'. Unit {0}) (r, app)
  Holds-any (done a) app = tt
  Holds-any redis_error app = tt
  Holds-any other_error app = tt
  Holds-any (http_exception code) app = tt

  pub Holds-and_then :
      {A B : Type 0} (P : A → App Db → Type 0) (Q : B → App Db → Type 0) (r : Try A) (app : App Db)
      (k : A → Action Db B)
      → Holds P (r, app)
      → ((a : A) (app' : App Db) → P a app' → Holds Q (k a app'))
      → Holds Q (and_then r app k)
  Holds-and_then P Q (done a) app k p h = h a app p
  Holds-and_then P Q redis_error app k p h = tt
  Holds-and_then P Q other_error app k p h = tt
  Holds-and_then P Q (http_exception code) app k p h = tt

  pub Holds-bind :
      {A B : Type 0} (P : A → App Db → Type 0) (Q : B → App Db → Type 0) (m : Action Db A)
      (k : A → Action Db B) (app : App Db)
      → Holds P (m app)
      → ((a : A) (app' : App Db) → P a app' → Holds Q (k a app'))
      → Holds Q ((m >>= k) app)
  Holds-bind P Q m k app p h = Holds-and_then P Q (m app).0 (m app).1 k p h

  Holds-on_redis_error :
      {A : Type 0} (P : A → App Db → Type 0) (f : QueueMetrics → QueueMetrics) (r : Try A)
      (app : App Db)
      → Holds P (r, app)
      → Holds P (on_redis_error f r app)
  Holds-on_redis_error P f (done a) app p = p
  Holds-on_redis_error P f redis_error app p = tt
  Holds-on_redis_error P f other_error app p = tt
  Holds-on_redis_error P f (http_exception code) app p = tt

  pub Holds-guarded :
      {A : Type 0} (P : A → App Db → Type 0) (f : QueueMetrics → QueueMetrics) (m : Action Db A)
      (app : App Db)
      → Holds P (m app)
      → Holds P (guarded f m app)
  unfolding guarded
  Holds-guarded P f m app p = Holds-on_redis_error P f (m app).0 (m app).1 p
