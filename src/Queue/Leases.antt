-- ===== src/Queue/Leases.antt =====
-- Leases and the reset of queue_service.py: `ensure_processing_leases` and `clear`.
use practical_project.Base.{
  ℕ, ◌+◌, ◌≡◌, refl, ◌∙◌, ap, subst, Bool, true, false, List, [], ◌∷◌, Option, none, some, inl, inr,
  Bool-cases, Option-cases, if◌then◌else◌, String, length, All,
}
use practical_project.Base.Classes.{Eq, ◌==◌, ==-self}
use practical_project.Redis.{View, Redis, is_some, put_score, drop_keys}
use practical_project.Queue.{Key, pending, processing, dead_letter, leases, completed, key_eq, Wire}
use practical_project.Queue.Service.{
  QueueSettings, add_leases, ensure_processing_leases, is_completed, queue_length,
  processing_length, dead_letter_length, clear, is_completed_key,
}

drop_self : (b : Bool) → (if b then false else b) ≡ false
drop_self true = refl
drop_self false = refl

module _ {Raw : Type 0} ⦃raw_eq : Eq Raw⦄ (wire : Wire Raw) (redis : Redis Key Raw)
    (settings : QueueSettings) where
  open redis use {Db, view}

  -- The deadline of the lease that `raw` holds.
  abbrev pub lease_of : Db → Raw → Option ℕ
  lease_of db raw = (view db).score leases raw

  view-grant :
      (raw : Raw) (deadline : ℕ) (db : Db)
      → lease_of db raw ≡ none
      → view (redis.zadd_nx leases raw deadline db) ≡ put_score leases raw (some deadline) (view db)
  view-grant raw deadline db missing = redis.view-zadd_nx leases raw deadline db ∙ rw missing

  items-add_leases :
      (now : ℕ) (raws : List Raw) (db : Db) (k : Key)
      → (view (add_leases wire redis settings now raws db).1).items k ≡ (view db).items k
  unfolding add_leases
  items-add_leases now [] db k = refl
  items-add_leases now (raw ∷ raws) db k = elim (Option-cases (lease_of db raw)) [
    | inl missing ↦
        rw (missing, add_leases)
          (items-add_leases now raws
              (redis.zadd_nx leases raw (now + settings.visibility_timeout) db) k
            ∙ ap (λ (w : View Key Raw). w.items k)
                (view-grant raw (now + settings.visibility_timeout) db missing))
    | inr (s, old) ↦ rw (old, add_leases) (items-add_leases now raws db k)
  ]

  lease-grant :
      (raw : Raw) (deadline : ℕ) (db : Db) (raw' : Raw)
      → lease_of db raw ≡ none
      → lease_of (redis.zadd_nx leases raw deadline db) raw'
        ≡ (if raw == raw' then some deadline else lease_of db raw')
  lease-grant raw deadline db raw' missing =
      ap (λ (w : View Key Raw). w.score leases raw') (view-grant raw deadline db missing)

  lease-grant_other :
      (raw : Raw) (deadline : ℕ) (db : Db) (raw' : Raw) (s : ℕ)
      → lease_of db raw ≡ none
      → lease_of db raw' ≡ some s
      → lease_of (redis.zadd_nx leases raw deadline db) raw' ≡ some s
  lease-grant_other raw deadline db raw' s missing h = elim (Bool-cases (raw == raw')) [
    | inl same ↦
        let e : lease_of db raw ≡ lease_of db raw' =
          ap (lease_of db) ((raw_eq.equal_iff raw raw').0 same) in
        absurd (cc (e, missing, h))
    | inr other ↦ lease-grant raw deadline db raw' missing ∙ rw other h
  ]

  lease-add_leases :
      (now : ℕ) (raws : List Raw) (db : Db) (raw' : Raw) (s : ℕ)
      → lease_of db raw' ≡ some s
      → lease_of (add_leases wire redis settings now raws db).1 raw' ≡ some s
  unfolding add_leases
  lease-add_leases now [] db raw' s h = h
  lease-add_leases now (raw ∷ raws) db raw' s h = elim (Option-cases (lease_of db raw)) [
    | inl missing ↦
        rw (missing, add_leases)
          (lease-add_leases now raws
            (redis.zadd_nx leases raw (now + settings.visibility_timeout) db) raw' s
            (lease-grant_other raw (now + settings.visibility_timeout) db raw' s missing h))
    | inr (t, old) ↦ rw (old, add_leases) (lease-add_leases now raws db raw' s h)
  ]

  abbrev AreLeased : Db → List Raw → Type 0
  AreLeased db raws = All (λ raw. is_some (lease_of db raw) ≡ true) raws

  add_leases_covers :
      (now : ℕ) (raws : List Raw) (db : Db)
      → AreLeased (add_leases wire redis settings now raws db).1 raws
  unfolding add_leases
  add_leases_covers now [] db = tt
  add_leases_covers now (raw ∷ raws) db = elim (Option-cases (lease_of db raw)) [
    | inl missing ↦
        let deadline : ℕ = now + settings.visibility_timeout in
        let db1 = redis.zadd_nx leases raw deadline db in
        let granted : lease_of db1 raw ≡ some deadline =
          lease-grant raw deadline db raw missing ∙ rw (==-self raw) in
        let same : (add_leases wire redis settings now raws db1).1
            ≡ (add_leases wire redis settings now (raw ∷ raws) db).1 =
          rw (missing, add_leases) in
        subst (λ (d : Db). AreLeased d (raw ∷ raws)) same
          (
            ap is_some (lease-add_leases now raws db1 raw deadline granted),
            add_leases_covers now raws db1,
          )
    | inr (s, old) ↦
        let same : (add_leases wire redis settings now raws db).1
            ≡ (add_leases wire redis settings now (raw ∷ raws) db).1 =
          rw (old, add_leases) in
        subst (λ (d : Db). AreLeased d (raw ∷ raws)) same
          (ap is_some (lease-add_leases now raws db raw s old), add_leases_covers now raws db)
  ]

  -- After `ensure_processing_leases` every entry of the processing list has a lease; the lists are as
  -- before, and so is the deadline of every lease that there was.
  pub ensure_processing_leases_effect :
      (now : ℕ) (db : Db)
      → let db' = (ensure_processing_leases wire redis settings now db).1 in
        All (λ raw. is_some (lease_of db' raw) ≡ true) ((view db').items processing)
        × ((k : Key) → (view db').items k ≡ (view db).items k)
        × ((raw : Raw) (s : ℕ) → lease_of db raw ≡ some s → lease_of db' raw ≡ some s)
  unfolding ensure_processing_leases
  ensure_processing_leases_effect now db = (
    rw (items-add_leases now ((view db).items processing) db processing)
        (add_leases_covers now ((view db).items processing) db),
    items-add_leases now ((view db).items processing) db,
    lease-add_leases now ((view db).items processing) db,
  )

  flag_gone :
      (id : String) (db : Db)
      → (drop_keys
            (pending ∷ processing ∷ dead_letter ∷ leases ∷ redis.scan is_completed_key db)
            (view db)).flag
          (completed id)
        ≡ false
  flag_gone id db =
      rw (redis.contains-scan is_completed_key db (completed id))
        (drop_self ((view db).flag (completed id)))

  -- `clear` says how many entries the three lists held, and leaves none of them, no lease and no
  -- record of a completion.
  pub clear_effect :
      (db : Db)
      → let (cleared, db') = clear wire redis settings db in
        (cleared
          ≡ length ((view db).items pending)
            + length ((view db).items processing)
            + length ((view db).items dead_letter))
        × ((view db').items pending ≡ [])
        × ((view db').items processing ≡ [])
        × ((view db').items dead_letter ≡ [])
        × ((raw : Raw) → lease_of db' raw ≡ none)
        × ((id : String) → is_completed wire redis settings id db' ≡ false)
  unfolding clear queue_length processing_length dead_letter_length is_completed
  clear_effect db =
      let keys = pending ∷ processing ∷ dead_letter ∷ leases ∷ redis.scan is_completed_key db in
      let gone : view (redis.delete keys db) ≡ drop_keys keys (view db) =
        redis.view-delete keys db in
      (
        refl,
        ap (λ (w : View Key Raw). w.items pending) gone,
        ap (λ (w : View Key Raw). w.items processing) gone,
        ap (λ (w : View Key Raw). w.items dead_letter) gone,
        λ raw. ap (λ (w : View Key Raw). w.score leases raw) gone,
        λ id. ap (λ (w : View Key Raw). w.flag (completed id)) gone ∙ flag_gone id db,
      )
