-- ===== src/Queue/Loads.antt =====
-- What `reserve` of queue_service.py returns, and `enqueue` and `dequeue` as steps of the queue.
use practical_project.Base.{
  Bool, true, ℕ, ◌≡◌, refl, sym, subst, ◌∙◌, Option, none, some, Bool-cases, Option-cases, inl, inr,
  String, [], ◌∷◌,
}
use mathlib.Core.Option.{some-injective, none-ne-some}
use practical_project.Base.Int.{ℤ}
use practical_project.Base.Classes.{Eq}
use practical_project.Redis.{Redis}
use practical_project.Queue.{Key, key_eq, Payload, Wire, ReservedJob, Outcome, ok, raised}
use practical_project.Queue.Service.{
  QueueSettings, new_job, enqueue, lease, reserve, acknowledge_reserved, dequeue, clear,
}
use practical_project.Queue.Steps.{submit, remove, Reach, here, Reach-trans, Reach-step}
use practical_project.Queue.Paths.{reserve-Reach, acknowledge-Reach}

-- The reserved entry that an outcome carries.
abbrev pub carried : {Raw : Type 0} → Outcome (Option (ReservedJob Raw)) → Option (ReservedJob Raw)
carried (raised e) = none
carried (ok o) = o

module _ {Raw : Type 0} ⦃raw_eq : Eq Raw⦄ (wire : Wire Raw) (redis : Redis Key Raw)
    (settings : QueueSettings) where
  open redis use {Db, view}

  lease-loads :
      (now : ℕ) (raw : Option Raw) (db : Db) (r : ReservedJob Raw)
      → carried (lease wire redis settings now raw db).0 ≡ some r
      → wire.loads r.raw ≡ some r.job
  unfolding lease
  lease-loads now none db r h = elim (none-ne-some r h) [ ]
  lease-loads now (some raw) db r h = elim (Bool-cases (wire.is_blank raw)) [
    | inl blank ↦ elim (none-ne-some r (sym (rw (lease, blank) refl) ∙ h)) [ ]
    | inr full ↦ elim (Option-cases (wire.loads raw)) [
      | inl bad ↦ elim (none-ne-some r (sym (rw (lease, full, bad) refl) ∙ h)) [ ]
      | inr (job, loaded) ↦
          let held : ReservedJob Raw = record { job = job; raw = raw } in
          let same = some-injective held r (sym (rw (lease, full, loaded) refl) ∙ h) in
          subst (λ (x : ReservedJob Raw). wire.loads x.raw ≡ some x.job) same loaded
    ]
  ]

  pub reserve-loads :
      (timeout : ℤ) (now : ℕ) (db : Db) (r : ReservedJob Raw)
      → carried (reserve wire redis settings timeout now db).0 ≡ some r
      → wire.loads r.raw ≡ some r.job
  unfolding reserve
  reserve-loads timeout now db r h = lease-loads now _ _ r h

module _ {Raw : Type 0} ⦃raw_eq : Eq Raw⦄ (wire : Wire Raw) (redis : Redis Key Raw)
    (settings : QueueSettings) (forgets : Bool) where
  open redis use {Db}

  pub enqueue-Reach :
      (id : String) (now : ℕ) (job_type : String) (payload : Payload) (db : Db)
      → Reach wire redis settings forgets db
          (enqueue wire redis settings id now job_type payload db).1
  unfolding enqueue new_job
  enqueue-Reach id now job_type payload db =
      Reach-step wire redis settings forgets
        (submit db (new_job id now job_type payload ∷ []) (refl, tt))

  acknowledge_reserved-Reach :
      (outcome : Outcome (Option (ReservedJob Raw))) (db : Db)
      → ((r : ReservedJob Raw) → carried outcome ≡ some r → wire.loads r.raw ≡ some r.job)
      → Reach wire redis settings forgets db (acknowledge_reserved wire redis settings outcome db).1
  unfolding acknowledge_reserved
  acknowledge_reserved-Reach (raised e) db h = here
  acknowledge_reserved-Reach (ok none) db h = here
  acknowledge_reserved-Reach (ok (some r)) db h =
      acknowledge-Reach wire redis settings forgets r db (h r refl)

  pub dequeue-Reach :
      (timeout : ℤ) (now : ℕ) (db : Db)
      → Reach wire redis settings forgets db (dequeue wire redis settings timeout now db).1
  unfolding dequeue
  dequeue-Reach timeout now db =
      Reach-trans wire redis settings forgets
        (reserve-Reach wire redis settings forgets timeout now db)
        (acknowledge_reserved-Reach (reserve wire redis settings timeout now db).0
          (reserve wire redis settings timeout now db).1
          (reserve-loads wire redis settings timeout now db))

  -- A reset is one DELETE.
  pub clear-Reach :
      (db : Db)
      → forgets ≡ true
      → Reach wire redis settings forgets db (clear wire redis settings db).1
  unfolding clear
  clear-Reach db allowed = Reach-step wire redis settings forgets (remove db _ allowed)
