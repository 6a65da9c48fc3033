-- ===== src/Api/Bulk.antt =====
-- `bulk_join_queue` of apps/sample-fastapi/main.py when Redis answers.
use practical_project.Base.{
  ℕ, zero, suc, ◌+◌, ◌≤◌, ◌≡◌, refl, ap, ◌∙◌, List, [], ◌∷◌, ◌++◌, map, Option, none, some, String,
  arith, length, length-append,
}
use practical_project.Base.Raises.{Ensures, Ensures-some}
use practical_project.Base.Int.{ℤ, pos, negsuc}
use practical_project.Base.Classes.{Eq}
use practical_project.Redis.{Redis, View, put_items}
use practical_project.Queue.{Key, pending, key_eq, Job, Payload, Wire, Outcome, ok}
use practical_project.Queue.Service.{QueueSettings, new_jobs, enqueue_many, queue_length}
use practical_project.Api.{
  Try, done, works, given, BulkBody, QueueJoinRequest, QueueBulkJoinRequest, or_default, with_count,
  queue_join_request, queue_bulk_join_request, App, over, guarded,
}
use practical_project.Api.Endpoints.{
  Reply, bulk_joined, bulk, Surroundings, first_ids, job_ids, then_length, bulk_join_queue,
  endpoint,
}

-- The bounds of `count`.
abbrev pub InRange : QueueBulkJoinRequest → Type 0
InRange request = (1 ≤ request.count) × (request.count ≤ 1000)

with_count-InRange :
    (o : Option QueueJoinRequest) (count : ℤ) → Ensures InRange (with_count o count)
with_count-InRange none count = tt
with_count-InRange (some request) (pos n) = ground arith
with_count-InRange (some request) (negsuc n) = ground arith

queue_bulk_join_request-InRange : (body : BulkBody) → Ensures InRange (queue_bulk_join_request body)
unfolding queue_bulk_join_request
queue_bulk_join_request-InRange body =
    with_count-InRange (queue_join_request body.join) (or_default (pos 1) body.count)

length-first_ids : (n : ℕ) (fresh : ℕ → String × ℕ) → length (first_ids n fresh) ≡ n
unfolding first_ids
length-first_ids zero fresh = refl
length-first_ids (suc n) fresh = ap suc (length-first_ids n (λ i. fresh (suc i)))

length-map : {A B : Type 0} (f : A → B) (list : List A) → length (map f list) ≡ length list
length-map f [] = refl
length-map f (a ∷ list) = ap suc (length-map f list)

module _ {Raw : Type 0} ⦃raw_eq : Eq Raw⦄ (wire : Wire Raw) (redis : Redis Key Raw)
    (settings : QueueSettings) (ping : redis.Db → Outcome (Unit {0})) where
  open redis use {Db, view}

  enqueue_many-cons :
      (ids : List (String × ℕ)) (job_type : String) (payload : Payload) (db : Db)
      → 1 ≤ length ids
      → enqueue_many wire redis settings ids job_type payload db ≡ (
        ok (new_jobs wire redis settings ids job_type payload),
        redis.rpush pending (map wire.dumps (new_jobs wire redis settings ids job_type payload)) db,
      )
  unfolding enqueue_many
  enqueue_many-cons [] job_type payload db h = let absurd : ⊥ = omega (arith, h) in elim absurd [ ]
  enqueue_many-cons (i ∷ ids) job_type payload db h = refl

  length-new_jobs :
      (ids : List (String × ℕ)) (job_type : String) (payload : Payload)
      → length (new_jobs wire redis settings ids job_type payload) ≡ length ids
  unfolding new_jobs
  length-new_jobs ids job_type payload = length-map _ ids

  abbrev pub made : Surroundings Db → QueueBulkJoinRequest → List Job
  made s request =
      new_jobs wire redis settings (first_ids request.count s.fresh) request.request.job_type
        request.request.payload

  queue_length-rpush :
      (raws : List Raw) (db : Db)
      → queue_length wire redis settings (redis.rpush pending raws db)
        ≡ length ((view db).items pending) + length raws
  unfolding queue_length
  queue_length-rpush raws db =
      ap (λ (w : View Key Raw). length (w.items pending)) (redis.view-rpush pending raws db)
      ∙ length-append ((view db).items pending) raws

  -- What the answer, the queue and the metrics are after a bulk request that was accepted.
  pub record IsAccepted (body : BulkBody) (request : QueueBulkJoinRequest) (s : Surroundings Db)
      (app : App Db) (result : Try Reply × App Db) : Type 0 where
    pub at_least : 1 ≤ request.count
    pub at_most : request.count ≤ 1000
    pub jobs_lem : length (made s request) ≡ request.count
    pub answer_lem :
        result.0
        ≡ done (
            bulk_joined request.count
              (job_ids (made s request))
              (length ((view app.db).items pending) + request.count))
    pub queue_lem :
        view result.1.db
        ≡ put_items pending
            ((view app.db).items pending ++ map wire.dumps (made s request))
            (view app.db)
    pub metrics_lem : result.1.metrics ≡ record app.metrics {
      queue_enter = app.metrics.queue_enter + request.count;
      queue_length = length ((view app.db).items pending) + request.count;
    }

  -- A bulk request that the validation accepts adds as many jobs as it says, between 1 and 1000, to
  -- the end of the queue, when Redis answers: the answer names them and the new length, the counter
  -- of entered jobs grows by as many, and the gauge is the new length.
  pub bulk_join_queue_effect :
      (s : Surroundings Db) (body : BulkBody) (request : QueueBulkJoinRequest) (app : App Db)
      → queue_bulk_join_request body ≡ some request
      → s.first ≡ works
      → s.second ≡ works
      → IsAccepted body request s app (endpoint wire redis settings ping s (bulk (given body)) app)
  unfolding endpoint bulk_join_queue guarded over then_length queue_length
  bulk_join_queue_effect s body request app accepted first_up second_up =
      let (low, high) =
        Ensures-some InRange _ request (queue_bulk_join_request-InRange body) accepted in
      let ids = first_ids request.count s.fresh in
      let counted : length ids ≡ request.count = length-first_ids request.count s.fresh in
      let many =
        enqueue_many-cons ids request.request.job_type request.request.payload app.db
          (omega (arith, counted)) in
      let jobs_counted =
        length-new_jobs ids request.request.job_type request.request.payload ∙ counted in
      let grown =
        queue_length-rpush (map wire.dumps (made s request)) app.db
        ∙ ap (λ n. length ((view app.db).items pending) + n)
            (length-map wire.dumps (made s request) ∙ jobs_counted) in
      let listed = length-map (λ (j : Job). j.id) (made s request) ∙ jobs_counted in
      rw (accepted, first_up, second_up, many)
        (record {
          at_least = low;
          at_most = high;
          jobs_lem = jobs_counted;
          answer_lem = rw (listed, grown);
          queue_lem = redis.view-rpush _ _ _;
          metrics_lem = rw grown;
        })
