-- ===== src/Queue/Tests.antt =====
-- The job queue of apps/sample-fastapi/queue_service.py at concrete inputs.
use practical_project.Base.{◌+◌, ◌≤◌, ◌≡◌, refl, true, false, [], ◌∷◌, none, arith, ◌⊎◌, inl}
use practical_project.Base.Classes.{string_eq, nat_eq, contains}
use practical_project.Base.Equality.{bool_eq, pair_eq, option_eq, list_eq}
use practical_project.Redis.{put_score}
use practical_project.Redis.Memory.{observe}
use practical_project.Queue.{
  pending, processing, leases, key_eq, ReservedJob, ok, dead_lettered, missing,
}
use practical_project.Queue.Service.{retry_or_dead_letter, destination, failed_job, recover_stale}
use practical_project.Queue.Count.{count_raw, count_jobs, held}
use practical_project.Queue.Held.{unlisted, appended}
use practical_project.Queue.Steps.{Reach, here, next, submit, remove}
use practical_project.Queue.Safety.{
  IsAccountedFor, Forgets, pushed, Reach-IsAccountedFor, Reach-NoCopies,
}
use practical_project.Queue.Budget.{IsInBudget, Reach-IsInBudget}
use practical_project.Queue.Paths.{recover_stale-Reach}
use practical_project.Queue.Effects.{retry_or_dead_letter_effect}
use practical_project.Queue.Sample.{JobText, write_job, wire, server, settings, job, busy}

retry_or_dead_letter_effect_example :
    let r : ReservedJob JobText = record { job = job "b" 1; raw = write_job (job "b" 1) } in
    let (disposal, db') = retry_or_dead_letter wire server settings r "TimeoutError" 9 [] busy in
    let job' = failed_job "TimeoutError" 9 (job "b" 1) in
    let listed = contains r.raw (busy.lists processing) in
    (listed ≡ true)
      × (disposal ≡ dead_lettered)
      × (observe db'
          ≡ appended
              (destination settings job')
              (write_job job' ∷ [])
              (put_score leases r.raw none (unlisted r.raw (observe busy))))
    ⊎ (listed ≡ false)
      × (disposal ≡ missing)
      × (observe db' ≡ put_score leases r.raw none (observe busy))
retry_or_dead_letter_effect_example =
    retry_or_dead_letter_effect wire server settings
      (record { job = job "b" 1; raw = write_job (job "b" 1) }) "TimeoutError" 9 busy

recover_stale-Reach_example :
    Reach wire server settings true busy
      (recover_stale wire server settings 100 101 (λ raw. []) busy).1
recover_stale-Reach_example =
    recover_stale-Reach wire server settings true 100 101 (λ raw. []) busy (λ raw. tt)

-- After the recovery, the queue is reset.
abbrev reset_later :
    Reach wire server settings true busy
      (server.delete (pending ∷ []) (recover_stale wire server settings 100 101 (λ raw. []) busy).1)
reset_later = next recover_stale-Reach_example (remove _ (pending ∷ []) refl)

Reach-IsAccountedFor_example :
    IsAccountedFor wire "b" (
      observe (
        server.delete
          (pending ∷ [])
          (recover_stale wire server settings 100 101 (λ raw. []) busy).1))
    ⊎ Forgets wire server settings true "b" reset_later
unfolding count_raw
Reach-IsAccountedFor_example =
    Reach-IsAccountedFor wire server settings true "b" reset_later (inl (omega arith))

Reach-IsInBudget_example :
    IsInBudget wire 1 (observe (recover_stale wire server settings 100 101 (λ raw. []) busy).1)
Reach-IsInBudget_example =
    Reach-IsInBudget wire server settings true recover_stale-Reach_example
      (record { waiting = (omega arith, tt); in_work = (omega arith, tt); given_up = (refl, tt) })

-- A job is pushed, and pushed again because the first reply was lost.
abbrev pushed_twice : Reach wire server settings false busy (
    server.rpush pending
      (write_job (job "d" 0) ∷ [])
      (server.rpush pending (write_job (job "d" 0) ∷ []) busy))
pushed_twice =
    next (next here (submit busy (job "d" 0 ∷ []) (refl, tt)))
      (submit _ (job "d" 0 ∷ []) (refl, tt))

Reach-NoCopies_example :
    held wire "d" (
      observe (
        server.rpush pending
          (write_job (job "d" 0) ∷ [])
          (server.rpush pending (write_job (job "d" 0) ∷ []) busy)))
    ≤ held wire "d" (observe busy) + pushed wire server settings false "d" pushed_twice
unfolding count_raw count_jobs
Reach-NoCopies_example = Reach-NoCopies wire server settings false "d" pushed_twice

-- The recovery at work: the stale job `b` has used its retry up, and joins `c`.
recover_busy :
    (recover_stale wire server settings 100 101 (λ raw. []) busy).0
    ≡ ok (record { retried = 0; dead_lettered = 1; already_completed = 0 })
unfolding recover_stale
recover_busy = refl
