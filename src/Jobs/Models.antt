-- ===== src/Jobs/Models.antt =====
-- pulsepay/jobs/models.py.
use tru_dev_tasks.Prelude.{ℕ, String, Bool, Option, List, ◌==◌}
use tru_dev_tasks.Core.Exceptions.{Exception}

pub data JobStatus : Type 0 where
  queued running completed failed dead : JobStatus

-- What a payload holds under a key: the text of a UUID, that of an amount in cents, another text or
-- a number.
pub data Value : Type 0 where
  uuid_text : ℕ → Value
  amount_text : ℕ → Value
  text : String → Value
  number : ℕ → Value

abbrev pub Payload : Type 0
Payload = List (String × Value)

-- `last_error` is the exception whose text the program stores.
pub record Job : Type 0 where
  pub id : ℕ
  pub job_type : String
  pub payload : Payload
  pub status : JobStatus
  pub attempt_count : ℕ
  pub max_attempts : ℕ
  pub run_at : ℕ
  pub last_error : Option Exception

abbrev pub job_clash : Job → Job → Bool
job_clash j k = j.id == k.id
