-- ===== src/Queue/Sample.antt =====
-- A queue in a server in memory, its jobs serialised field by field, for the tests of apps/sample-fastapi.
use practical_project.Base.{
  ℕ, ◌≡◌, refl, ap, Bool, true, false, List, [], ◌∷◌, Option, none, some, String,
}
use practical_project.Base.Int.{pos, negsuc}
use practical_project.Base.Classes.{string_eq, nat_eq}
use practical_project.Base.Equality.{bool_eq, pair_eq, option_eq, list_eq}
use practical_project.Redis.{Redis}
use practical_project.Redis.Memory.{Store, memory}
use practical_project.Queue.{
  Key, pending, processing, dead_letter, leases, key_eq, Seconds, micros, not_a_number, Job, Wire,
}
use practical_project.Queue.Service.{QueueSettings}

abbrev pub SecondsText : Type 0
SecondsText = Option (Bool × ℕ)

-- The fields of a job, in order.
abbrev pub JobText : Type 0
JobText =
    String
    × (String
        × (Option SecondsText × (List (String × String) × (ℕ × (ℕ × (Option String × Option ℕ))))))

abbrev pub write_seconds : Seconds → SecondsText
write_seconds (micros (pos n)) = some (true, n)
write_seconds (micros (negsuc n)) = some (false, n)
write_seconds not_a_number = none

abbrev pub read_seconds : SecondsText → Seconds
read_seconds none = not_a_number
read_seconds (some (true, n)) = micros (pos n)
read_seconds (some (false, n)) = micros (negsuc n)

abbrev pub write_delay : Option Seconds → Option SecondsText
write_delay none = none
write_delay (some s) = some (write_seconds s)

abbrev pub read_delay : Option SecondsText → Option Seconds
read_delay none = none
read_delay (some s) = some (read_seconds s)

abbrev pub write_job : Job → JobText
write_job j = (
  j.id,
  (
    j.job_type,
    (
      write_delay j.payload.processing_seconds,
      (j.payload.rest, (j.enqueued_at, (j.attempts, (j.last_error, j.last_failed_at)))),
    ),
  ),
)

abbrev pub read_job : JobText → Job
read_job
      (id, (job_type, (delay, (rest, (enqueued_at, (attempts, (last_error, last_failed_at))))))) =
    record {
      id = id;
      job_type = job_type;
      payload = record { processing_seconds = read_delay delay; rest = rest };
      enqueued_at = enqueued_at;
      attempts = attempts;
      last_error = last_error;
      last_failed_at = last_failed_at;
    }

pub read-write_delay : (d : Option Seconds) → read_delay (write_delay d) ≡ d
read-write_delay none = refl
read-write_delay (some (micros (pos n))) = refl
read-write_delay (some (micros (negsuc n))) = refl
read-write_delay (some not_a_number) = refl

pub read-write_job : (j : Job) → some (read_job (write_job j)) ≡ some j
read-write_job j =
    ap
      (λ (d : Option Seconds).
        some (record j { payload = record { processing_seconds = d; rest = j.payload.rest } }))
      (read-write_delay j.payload.processing_seconds)

abbrev pub wire : Wire JobText
wire = record {
  dumps = write_job;
  loads = λ t. some (read_job t);
  is_blank = λ t. false;
  loads-dumps = read-write_job;
  is_blank-dumps = λ j. refl;
}

abbrev pub server : Redis Key JobText
server = memory

abbrev pub settings : QueueSettings
settings = record { max_retries = 1; visibility_timeout = 60_000_000; completed_ttl = 86_400 }

abbrev pub job : String → ℕ → Job
job id attempts = record {
  id = id;
  job_type = "sample";
  payload = record { processing_seconds = some (micros (pos 250_000)); rest = [] };
  enqueued_at = 5;
  attempts = attempts;
  last_error = none;
  last_failed_at = none;
}

-- Job `a` waits, `b` is in work for the second time and `c` was given up.
abbrev pub busy : Store Key JobText
busy = record {
  lists = λ k. elim k [
    | pending ↦ write_job (job "a" 0) ∷ []
    | processing ↦ write_job (job "b" 1) ∷ []
    | dead_letter ↦ write_job (job "c" 2) ∷ []
    | _ ↦ []
  ];
  scores = (leases, write_job (job "b" 1), 7) ∷ [];
  flags = [];
}
