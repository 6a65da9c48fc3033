-- ===== src/Queue/Safety.antt =====
-- Jobs under any interleaving of queue_service.py's commands: what is held and how often.
use practical_project.Base.{
  ℕ, ◌≤◌, ◌≡◌, refl, String, Bool, true, false, ◌||◌, ◌+◌, List, [], ◌∷◌, some, map, arith, ◌⊎◌,
  inl, inr, Bool-cases, if◌then◌else◌,
}
use practical_project.Base.Classes.{Eq, ◌==◌, string_eq, contains}
use practical_project.Redis.{View, Redis, is_some, put_score, put_flag, move_head, drop_keys}
use practical_project.Queue.{
  Key, pending, processing, dead_letter, leases, completed, key_eq, Job, Wire,
}
use practical_project.Queue.Service.{QueueSettings}
use practical_project.Queue.Count.{held, count_raw, count_jobs, count_raw-map-dumps}
use practical_project.Queue.Held.{
  unlisted, held-move_head, held-unlisted_other, held-unlisted-le, held-appended_pending,
  held-failed,
}
use practical_project.Queue.Steps.{
  Step, submit, take, take_waiting, grant, grant_missing, release, finish, discard, fail, remove,
  Reach, here, next,
}

-- The keys that hold what is known of a job: the lists, and its completion mark.
abbrev pub forgotten : String → List Key → Bool
forgotten id keys =
    contains pending keys
    || contains processing keys
    || contains dead_letter keys
    || contains (completed id) keys

module _ {Raw : Type 0} ⦃raw_eq : Eq Raw⦄ (wire : Wire Raw) where
  -- The job is in one of the three lists, or its completion is recorded.
  abbrev pub IsAccountedFor : String → View Key Raw → Type 0
  IsAccountedFor id w = (1 ≤ held wire id w) ⊎ (w.flag (completed id) ≡ true)

  -- An occurrence leaves the processing list only with its completion recorded.
  accounted-unlisted :
      (id : String) (raw : Raw) (job : Job) (w : View Key Raw)
      → wire.loads raw ≡ some job
      → w.flag (completed job.id) ≡ true
      → IsAccountedFor id w
      → IsAccountedFor id (unlisted raw w)
  accounted-unlisted id raw job w loaded flagged h = elim (Bool-cases (job.id == id)) [
    | inl same ↦ inr (rw ((string_eq.equal_iff job.id id).0 same) at flagged)
    | inr other ↦ elim h [
      | inl kept ↦ inl (omega (arith, held-unlisted_other wire id raw w (rw (loaded, other))))
      | inr done ↦ inr done
    ]
  ]

  accounted-flag :
      (id key : String) (w : View Key Raw)
      → IsAccountedFor id w
      → IsAccountedFor id (put_flag (completed key) w)
  accounted-flag id key w (inl kept) = inl kept
  accounted-flag id key w (inr done) = inr (ground arith)

  flag-put_flag :
      (key : String) (w : View Key Raw) → (put_flag (completed key) w).flag (completed key) ≡ true
  flag-put_flag key w = rw (string_eq.equal_iff key key).1

  accounted-move_head :
      (id : String) (w : View Key Raw) (xs : List Raw)
      → w.items pending ≡ xs
      → IsAccountedFor id w
      → IsAccountedFor id (move_head pending processing xs w).1
  accounted-move_head id w [] e h = h
  accounted-move_head id w (x ∷ xs) e (inl kept) =
      inl (omega (arith, held-move_head wire id w (x ∷ xs) e))
  accounted-move_head id w (x ∷ xs) e (inr done) = inr done

  accounted-grant :
      (id : String) (raw : Raw) (deadline : ℕ) (w : View Key Raw)
      → IsAccountedFor id w
      → IsAccountedFor id
          (if is_some (w.score leases raw) then w else put_score leases raw (some deadline) w)
  accounted-grant id raw deadline w h = elim (Bool-cases (is_some (w.score leases raw))) [
    | inl old ↦ rw old h
    | inr new ↦ rw new h
  ]

  held-grant :
      (id : String) (raw : Raw) (deadline : ℕ) (w : View Key Raw)
      → held wire id
          (if is_some (w.score leases raw) then w else put_score leases raw (some deadline) w)
        ≡ held wire id w
  held-grant id raw deadline w = elim (Bool-cases (is_some (w.score leases raw))) [
    | inl old ↦ rw old
    | inr new ↦ rw new
  ]

  count-dropped :
      (id : String) (gone : Bool) (raws : List Raw)
      → count_raw wire id (if gone then [] else raws) ≤ count_raw wire id raws
  unfolding count_raw
  count-dropped id true raws = omega arith
  count-dropped id false raws = omega arith

  held-drop_keys :
      (id : String) (keys : List Key) (w : View Key Raw)
      → held wire id (drop_keys keys w) ≤ held wire id w + 0
  held-drop_keys id keys w = omega (
    arith,
    count-dropped id (contains pending keys) (w.items pending),
    count-dropped id (contains processing keys) (w.items processing),
    count-dropped id (contains dead_letter keys) (w.items dead_letter),
  )

  accounted-drop_keys :
      (id : String) (keys : List Key) (w : View Key Raw)
      → forgotten id keys ≡ false
      → IsAccountedFor id w
      → IsAccountedFor id (drop_keys keys w)
  accounted-drop_keys id keys w left h =
      let p : contains pending keys ≡ false = ground (arith, left) in
      let q : contains processing keys ≡ false = ground (arith, left) in
      let d : contains dead_letter keys ≡ false = ground (arith, left) in
      let c : contains (completed id) keys ≡ false = ground (arith, left) in rw (p, q, d, c) h

module _ {Raw : Type 0} ⦃raw_eq : Eq Raw⦄ (wire : Wire Raw) (redis : Redis Key Raw)
    (settings : QueueSettings) (forgets : Bool) where
  open redis use {Db, view}

  -- A step that takes the record of a job away: a DELETE of one of the lists, or the end of the
  -- completion mark of the job.
  abbrev pub Takes : String → {a b : Db} → Step wire redis settings forgets a b → Type 0
  Takes id (remove db keys allowed) = forgotten id keys ≡ true
  Takes id _ = ⊥

  abbrev pub Forgets : String → {a b : Db} → Reach wire redis settings forgets a b → Type 0
  Forgets id here = ⊥
  Forgets id (next r s) = Forgets id r ⊎ Takes id s

  -- How often an RPUSH of new jobs brings an entry with the id.
  abbrev pub brings : String → {a b : Db} → Step wire redis settings forgets a b → ℕ
  brings id (submit db jobs new) = count_jobs id jobs
  brings id _ = 0

  abbrev pub pushed : String → {a b : Db} → Reach wire redis settings forgets a b → ℕ
  pushed id here = 0
  pushed id (next r s) = pushed id r + brings id s

  pub Step-IsAccountedFor :
      (id : String) {a b : Db} (s : Step wire redis settings forgets a b)
      → IsAccountedFor wire id (view a)
      → IsAccountedFor wire id (view b) ⊎ Takes id s
  Step-IsAccountedFor id (submit db jobs new) h = inl (
      rw redis.view-rpush (elim h [
        | inl kept ↦
            inl (omega (arith, held-appended_pending wire id (map wire.dumps jobs) (view db)))
        | inr done ↦ inr done
      ]))
  Step-IsAccountedFor id (take db) h =
      inl (rw redis.view-lmove (accounted-move_head wire id (view db) _ refl h))
  Step-IsAccountedFor id (take_waiting db timeout) h =
      inl (rw redis.view-blmove (accounted-move_head wire id (view db) _ refl h))
  Step-IsAccountedFor id (grant db raw deadline) h = inl (rw redis.view-zadd h)
  Step-IsAccountedFor id (grant_missing db raw deadline) h =
      inl (rw redis.view-zadd_nx (accounted-grant wire id raw deadline (view db) h))
  Step-IsAccountedFor id (release db raw) h = inl (rw redis.view-zrem h)
  Step-IsAccountedFor id (finish db raw job loaded) h = inl (
      simp (redis.view-zrem, redis.view-lrem, redis.view-set_ex)
        (accounted-unlisted wire id raw job (put_flag (completed job.id) (view db)) loaded
          (flag-put_flag wire job.id (view db)) (accounted-flag wire id job.id (view db) h)))
  Step-IsAccountedFor id (discard db raw job loaded flagged) h = inl (
      simp (redis.view-zrem, redis.view-lrem)
        (accounted-unlisted wire id raw job (view db) loaded flagged h))
  Step-IsAccountedFor id (fail db raw job reason now loaded listed) h = inl (
      simp (redis.view-rpush, redis.view-zrem, redis.view-lrem)
        (elim h [
          | inl kept ↦ inl (
              omega
                (arith, held-failed wire settings id reason now raw job (view db) loaded listed))
          | inr done ↦ inr done
        ]))
  Step-IsAccountedFor id (remove db keys allowed) h = elim (Bool-cases (forgotten id keys)) [
    | inl taken ↦ inr taken
    | inr left ↦ inl (rw redis.view-delete (accounted-drop_keys wire id keys (view db) left h))
  ]

  Step-NoCopies :
      (id : String) {a b : Db} (s : Step wire redis settings forgets a b)
      → held wire id (view b) ≤ held wire id (view a) + brings id s
  Step-NoCopies id (submit db jobs new) = rw redis.view-rpush (
      omega (
        arith,
        held-appended_pending wire id (map wire.dumps jobs) (view db),
        count_raw-map-dumps wire id jobs,
      ))
  Step-NoCopies id (take db) =
      rw redis.view-lmove (omega (arith, held-move_head wire id (view db) _ refl))
  Step-NoCopies id (take_waiting db timeout) =
      rw redis.view-blmove (omega (arith, held-move_head wire id (view db) _ refl))
  Step-NoCopies id (grant db raw deadline) = rw redis.view-zadd (omega arith)
  Step-NoCopies id (grant_missing db raw deadline) =
      rw redis.view-zadd_nx (omega (arith, held-grant wire id raw deadline (view db)))
  Step-NoCopies id (release db raw) = rw redis.view-zrem (omega arith)
  Step-NoCopies id (finish db raw job loaded) =
      simp (redis.view-zrem, redis.view-lrem, redis.view-set_ex)
        (omega (arith, held-unlisted-le wire id raw (view db)))
  Step-NoCopies id (discard db raw job loaded flagged) =
      simp (redis.view-zrem, redis.view-lrem)
        (omega (arith, held-unlisted-le wire id raw (view db)))
  Step-NoCopies id (fail db raw job reason now loaded listed) =
      simp (redis.view-rpush, redis.view-zrem, redis.view-lrem)
        (omega (arith, held-failed wire settings id reason now raw job (view db) loaded listed))
  Step-NoCopies id (remove db keys allowed) =
      rw redis.view-delete (held-drop_keys wire id keys (view db))

  -- No job is lost: one that is in the queue, or whose completion is recorded, stays so in every
  -- state that the commands of any number of API processes and workers can reach, unless on the way
  -- one of the lists is deleted, as a reset does, or the record of that completion ends.
  pub Reach-IsAccountedFor :
      (id : String) {a b : Db} (r : Reach wire redis settings forgets a b)
      → IsAccountedFor wire id (view a)
      → IsAccountedFor wire id (view b) ⊎ Forgets id r
  Reach-IsAccountedFor id here h = inl h
  Reach-IsAccountedFor id (next r s) h = elim (Reach-IsAccountedFor id r h) [
    | inr gone ↦ inr (inl gone)
    | inl kept ↦ elim (Step-IsAccountedFor id s kept) [
      | inl still ↦ inl still
      | inr taken ↦ inr (inr taken)
    ]
  ]

  -- No job is copied: the entries that carry an id, in the three lists together, grow by no more than
  -- what the RPUSHes of new jobs brought of it, one that was sent again counted again. So an id that
  -- is pushed once is held once at most, whatever the workers, the retries and the recovery do.
  pub Reach-NoCopies :
      (id : String) {a b : Db} (r : Reach wire redis settings forgets a b)
      → held wire id (view b) ≤ held wire id (view a) + pushed id r
  Reach-NoCopies id here = omega arith
  Reach-NoCopies id (next r s) = omega (arith, Reach-NoCopies id r, Step-NoCopies id s)

module _ {Raw : Type 0} ⦃raw_eq : Eq Raw⦄ (wire : Wire Raw) (redis : Redis Key Raw)
    (settings : QueueSettings) where
  open redis use {Db, view}

  Takes-never :
      (id : String) {a b : Db} (s : Step wire redis settings false a b)
      → ¬ Takes wire redis settings false id s
  Takes-never id (submit db jobs new) t = t
  Takes-never id (take db) t = t
  Takes-never id (take_waiting db timeout) t = t
  Takes-never id (grant db raw deadline) t = t
  Takes-never id (grant_missing db raw deadline) t = t
  Takes-never id (release db raw) t = t
  Takes-never id (finish db raw job loaded) t = t
  Takes-never id (discard db raw job loaded flagged) t = t
  Takes-never id (fail db raw job reason now loaded listed) t = t
  Takes-never id (remove db keys allowed) t = cc allowed

  -- Where no step may forget, none does.
  pub Forgets-never :
      (id : String) {a b : Db} (r : Reach wire redis settings false a b)
      → ¬ Forgets wire redis settings false id r
  Forgets-never id here t = t
  Forgets-never id (next r s) (inl t) = Forgets-never id r t
  Forgets-never id (next r s) (inr t) = Takes-never id s t
