-- ===== src/Gateway.antt =====
-- The HTTP handler of spark/gateway/job_gateway.py, and its clients, the tasks `run_iceberg_batch`
-- of airflow/dags/ecommerce_pipeline.py and `compact_and_expire_snapshots` of
-- airflow/dags/lakehouse_maintenance.py. The subprocess is the environment's: a request that starts a
-- job is answered when the job has ended.
pub mod Exclusive
mod Tests
use Prim.Native.Char.{code}
use Prim.Native.String.{◌++◌ as ◌<>◌}
use local_data_platform.Prelude.{
  ℕ, zero, suc, ◌≡◌, ◌-◌, String, Bool, true, false, Option, none, some, List, [], ◌∷◌, ◌++◌,
  Result, ok, err, ◌==◌, nat_eq, string_eq, ltb, if◌then◌else◌, In,
}
use local_data_platform.Prelude.Int.{ℤ, pos, negsuc}

-- `JOBS`
abbrev pub jobs : List (String × List String)
jobs =
    ("iceberg-sales", "/opt/spark/jobs/iceberg_sales.py" ∷ [])
    ∷ ("iceberg-maintenance", "/opt/spark/jobs/maintain_iceberg.py" ∷ [])
    ∷ ("validate-platform", "/opt/spark/jobs/validate_platform.py" ∷ [])
    ∷ []

-- `sorted(JOBS)`
abbrev pub allowed_jobs : List String
allowed_jobs = "iceberg-maintenance" ∷ "iceberg-sales" ∷ "validate-platform" ∷ []

-- `JOBS.get(job_name)`
abbrev pub job_args : String → List (String × List String) → Option (List String)
job_args name [] = none
job_args name ((job, args) ∷ rest) = if job == name then some args else job_args name rest

-- The answers, by their status and payload.
pub data Response : Type 0 where
  not_found gateway_busy : Response
  health : Bool → Response
  unknown_job : List String → Response
  job_ended : String → ℤ → String → Response
  job_timeout : String → String → Response

abbrev pub is_zero : ℤ → Bool
is_zero (pos n) = n == 0
is_zero (negsuc n) = false

abbrev pub status : Response → ℕ
status not_found = 404
status gateway_busy = 409
status (health busy) = 200
status (unknown_job allowed) = 400
status (job_ended job return_code log_tail) = if is_zero return_code then 200 else 502
status (job_timeout job detail) = 504

-- What `subprocess.run` does: it returns, times out, or raises another exception.
pub data Completed : Type 0 where
  returned : ℤ → String → Completed
  timeout_expired : String → Completed
  failed : Completed

unfoldable pub do_get : String → Bool → Response
do_get path locked = if path == "/health" then health locked else not_found

-- `self.path.startswith(prefix)`, with `self.path[len(prefix):]`.
unfoldable pub strip_prefix : String → String → Option String
strip_prefix String.[] s = some s
strip_prefix (String.◌∷◌ c p) String.[] = none
strip_prefix (String.◌∷◌ c p) (String.◌∷◌ d s) =
    let rest = strip_prefix p s in if code c == code d then rest else none

abbrev pub text_length : String → ℕ
text_length String.[] = 0
text_length (String.◌∷◌ c s) = suc (text_length s)

abbrev pub text_drop : ℕ → String → String
text_drop n String.[] = String.[]
text_drop zero (String.◌∷◌ c s) = String.◌∷◌ c s
text_drop (suc n) (String.◌∷◌ c s) = text_drop n s

-- `text[-n:]`
abbrev pub text_tail : ℕ → String → String
text_tail n s = text_drop (text_length s - n) s

abbrev pub command : List String → List String
command args =
    ("/opt/spark/bin/spark-submit" ∷ "--master" ∷ "spark://spark-master:7077" ∷ "--deploy-mode"
      ∷ "client" ∷ "--conf" ∷ "spark.driver.host=spark-gateway" ∷ "--conf"
      ∷ "spark.driver.bindAddress=0.0.0.0" ∷ "--conf" ∷ "spark.executor.cores=1" ∷ "--conf"
      ∷ "spark.cores.max=1" ∷ "--conf" ∷ "spark.executor.memory=2g" ∷ [])
    ++ args

-- `do_POST` up to the subprocess: an answer at once, or a job that is started with the lock taken.
pub data Admission : Type 0 where
  answered : Response → Admission
  started : String → List String → Admission

abbrev pub admit_job : String → Option (List String) → Bool → Admission
admit_job job none locked = answered (unknown_job allowed_jobs)
admit_job job (some args) true = answered gateway_busy
admit_job job (some args) false = started job (command args)

unfoldable pub admit : String → Bool → Admission
unfolding strip_prefix
admit path locked = elim (strip_prefix "/jobs/" path) [
  | none ↦ answered not_found
  | some job ↦ admit_job job (job_args job jobs) locked
]

-- `do_POST` from the end of the subprocess: the answer, if there is one; the lock is released.
abbrev pub finish : String → Completed → Option Response
finish job (returned return_code stdout) = some (job_ended job return_code (text_tail 12000 stdout))
finish job (timeout_expired detail) = some (job_timeout job detail)
finish job failed = none

abbrev pub answer : Admission → Completed → Option Response
answer (answered response) completed = some response
answer (started job args) completed = finish job completed

-- The whole of `do_POST` for a job that would end in the given way.
unfoldable pub do_post : String → Bool → Completed → Option Response
unfolding admit
do_post path locked completed = answer (admit path locked) completed

-- The server, with the lock and the jobs that run.
pub record Server : Type 0 where
  pub locked : Bool
  pub running : List String

-- The threads of the server interleave in any order.
pub data Step : Server → Server → Type 0 where
  got : (s : Server) (path : String) → Step s s
  refused :
      (s : Server) (path : String) (r : Response) → admit path s.locked ≡ answered r → Step s s
  began :
      (s : Server) (path job : String) (args : List String)
      → admit path s.locked ≡ started job args
      → Step s (record { locked = true; running = job ∷ s.running })
  ended :
      (s : Server) (job : String) (others more : List String)
      → s.running ≡ others ++ job ∷ more
      → Step s (record { locked = false; running = others ++ more })

pub data Reachable : Server → Type 0 where
  idle : Reachable (record { locked = false; running = [] })
  next : {s t : Server} → Reachable s → Step s t → Reachable t

pub data ClientError : Type 0 where
  gateway_unreachable : ClientError
  gateway_failed : ℕ → ClientError
  job_failed : ClientError

-- `result.get("return_code") != 0`
abbrev pub return_code_of : Response → Option ℤ
return_code_of (job_ended job return_code log_tail) = some return_code
return_code_of _ = none

abbrev pub check_return_code : Option ℤ → Result ClientError (Unit {0})
check_return_code none = err job_failed
check_return_code (some c) = if is_zero c then ok tt else err job_failed

unfoldable pub run_iceberg_batch : Option Response → Result ClientError (Unit {0})
run_iceberg_batch none = err gateway_unreachable
run_iceberg_batch (some response) =
    if ltb (status response) 400
    then check_return_code (return_code_of response)
    else err (gateway_failed (status response))

-- The task of airflow/dags/lakehouse_maintenance.py, for the answer to
-- POST /jobs/iceberg-maintenance.
unfoldable pub compact_and_expire_snapshots : Option Response → Result ClientError (Unit {0})
compact_and_expire_snapshots none = err gateway_unreachable
compact_and_expire_snapshots (some response) =
    if ltb (status response) 400
    then check_return_code (return_code_of response)
    else err (gateway_failed (status response))
