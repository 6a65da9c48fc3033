-- ===== src/Queue.antt =====
-- The job queue of apps/sample-fastapi/queue_service.py: keys, jobs and their serialised form.
pub mod Service
pub mod Count
pub mod Steps
pub mod Held
pub mod Safety
pub mod Budget
pub mod Paths
pub mod Loads
pub mod Effects
pub mod Taken
pub mod Leases
pub mod Sample
mod Tests
use Prim.Native.Char.{Char}
use practical_project.Base.{
  ℕ, zero, suc, ◌+◌, ◌≡◌, ◌↔◌, refl, String, Bool, true, false, List, [], ◌∷◌, Option, none, some,
  arith,
}
use practical_project.Base.Int.{ℤ}
use practical_project.Base.Classes.{Eq, ◌==◌, string_eq}

-- The keys that `__init__` derives from one queue key: the key itself and the key followed by
-- `:processing`, `:dead-letter`, `:leases` and `:completed:<job id>`. The suffixes differ, so the
-- names are distinct.
pub data Key : Type 0 where
  pending processing dead_letter leases : Key
  completed : String → Key

abbrev pub key_beq : Key → Key → Bool
key_beq pending pending = true
key_beq processing processing = true
key_beq dead_letter dead_letter = true
key_beq leases leases = true
key_beq (completed i) (completed j) = i == j
key_beq _ _ = false

pub key_beq_iff : (a b : Key) → (key_beq a b ≡ true) ↔ (a ≡ b)
key_beq_iff pending pending = ground arith
key_beq_iff processing processing = ground arith
key_beq_iff dead_letter dead_letter = ground arith
key_beq_iff leases leases = ground arith
key_beq_iff (completed i) (completed j) = ground (arith, string_eq.equal_iff i j)
key_beq_iff _ _ = ground arith

instance abbrev pub key_eq : Eq Key
key_eq = record { equal = key_beq; equal_iff = key_beq_iff }

-- The entry `processing_seconds` of a payload, as `float` reads it: in microseconds, or refused.
pub data Seconds : Type 0 where
  micros : ℤ → Seconds
  not_a_number : Seconds

-- `rest` is the other entries, which the program passes on unread.
pub record Payload : Type 0 where
  pub processing_seconds : Option Seconds
  pub rest : List (String × String)

pub record Job : Type 0 where
  pub id : String
  pub job_type : String
  pub payload : Payload
  pub enqueued_at : ℕ
  pub attempts : ℕ
  pub last_error : Option String
  pub last_failed_at : Option ℕ

-- The text of a job: `json.dumps` and `json.loads`, with the round trip that the json module
-- documents. `loads` is `none` where it raises, or where the text is not that of a job.
pub record Wire (Raw : Type 0) : Type 0 where
  pub dumps : Job → Raw
  pub loads : Raw → Option Job
  pub is_blank : Raw → Bool
  pub loads-dumps : (j : Job) → loads (dumps j) ≡ some j
  pub is_blank-dumps : (j : Job) → is_blank (dumps j) ≡ false

pub record ReservedJob (Raw : Type 0) : Type 0 where
  pub job : Job
  pub raw : Raw

pub data Exn : Type 0 where
  json_decode_error response_error timeout_error value_error : Exn

pub data Outcome (A : Type 0) : Type 0 where
  ok : A → Outcome A
  raised : Exn → Outcome A

-- What `retry_or_dead_letter` returns.
pub data Disposal : Type 0 where
  retry dead_lettered missing : Disposal

-- `text[:n]`
unfoldable pub take_chars : ℕ → String → String
take_chars zero s = String.[]
take_chars (suc n) String.[] = String.[]
take_chars (suc n) (String.◌∷◌ c s) = String.◌∷◌ c (take_chars n s)
