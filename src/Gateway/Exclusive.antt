-- ===== src/Gateway/Exclusive.antt =====
-- What spark/gateway/job_gateway.py guarantees of the jobs that it starts, and what its answer means
-- to the task that asks for one.
use local_data_platform.Prelude.{
  ℕ, suc, zero, ◌+◌, String, ◌≡◌, refl, sym, ap, ◌∙◌, ◌↔◌, Bool, true, false, Option, none, some,
  List, ◌∷◌, arith, ok, nat_eq, string_eq, if◌then◌else◌, length, length-append,
}
use local_data_platform.Prelude.Int.{pos, negsuc}
use local_data_platform.Gateway.{
  jobs, job_args, not_found, Completed, returned, timeout_expired, failed, strip_prefix, command,
  answered, started, admit_job, admit, finish, do_post, Server, Step, got, refused, began, ended,
  Reachable, idle, next, run_iceberg_batch,
}

-- The lock is held exactly while one job runs.
abbrev pub IsExclusive : Server → Type 0
IsExclusive s = length s.running ≡ (if s.locked then 1 else 0)

started_inj : {j k : String} {a b : List String} → started j a ≡ started k b → (j ≡ k) × (a ≡ b)
started_inj h = (cc, cc)

admit_job-started :
    (job : String) (args : Option (List String)) (locked : Bool) (name : String) (cmd : List String)
    → admit_job job args locked ≡ started name cmd
    → (locked ≡ false) × (name ≡ job) × ((a : List String) × (args ≡ some a) × (cmd ≡ command a))
admit_job-started job none locked name cmd h = cc
admit_job-started job (some a) true name cmd h = cc
admit_job-started job (some a) false name cmd h =
    (refl, sym (started_inj h).0, (a, refl, sym (started_inj h).1))

-- A job that is started was named by the path, is on the allow-list, and finds the lock free; its
-- command is the fixed one with the arguments that the list has for it.
pub admit-started :
    (path : String) (locked : Bool) (job : String) (cmd : List String)
    → admit path locked ≡ started job cmd
    → (locked ≡ false)
      × (strip_prefix "/jobs/" path ≡ some job)
      × ((args : List String) × (job_args job jobs ≡ some args) × (cmd ≡ command args))
unfolding admit
admit-started path locked job cmd h = named (strip_prefix "/jobs/" path) h
  where
    named :
        (o : Option String)
        → (elim o [
          | none ↦ answered not_found
          | some name ↦ admit_job name (job_args name jobs) locked
        ])
          ≡ started job cmd
        → (locked ≡ false)
          × (o ≡ some job)
          × ((args : List String) × (job_args job jobs ≡ some args) × (cmd ≡ command args))
    named none h = cc
    named (some name) h =
        let (free, same, (a, found, is)) =
          admit_job-started name (job_args name jobs) locked job cmd h in
        (free, ap some (sym same), (a, ap (λ n. job_args n jobs) same ∙ found, is))

began_alone : (locked : Bool) (n : ℕ) → locked ≡ false → n ≡ (if locked then 1 else 0) → suc n ≡ 1
began_alone locked n free h = ground arith

-- Of one job, none is left.
ended_alone :
    (locked : Bool) (n before after : ℕ)
    → n ≡ (if locked then 1 else 0)
    → n ≡ before + suc after
    → before + after ≡ 0
ended_alone locked n before after h e = ground arith

Step-IsExclusive : {s t : Server} → Step s t → IsExclusive s → IsExclusive t
Step-IsExclusive (got s path) h = h
Step-IsExclusive (refused s path r e) h = h
Step-IsExclusive (began s path job args e) h =
    let (free, named, listed) = admit-started path s.locked job args e in
    began_alone s.locked (length s.running) free h
Step-IsExclusive (ended s job others more e) h =
    length-append others more
    ∙ ended_alone s.locked (length s.running) (length others) (length more) h
        (ap length e ∙ length-append others (job ∷ more))

-- However the requests interleave, at most one job runs, and the lock is held exactly while one
-- does: no job ends with the lock left behind.
pub Reachable-IsExclusive :
    (s : Server) → Reachable s → length s.running ≡ (if s.locked then 1 else 0)
Reachable-IsExclusive s idle = refl
Reachable-IsExclusive s (next r step) = Step-IsExclusive step (Reachable-IsExclusive _ r)

returned_inj : {m n : ℕ} {a b : String} → returned (pos m) a ≡ returned (pos n) b → m ≡ n
returned_inj h = cc

answered_zero :
    (completed : Completed)
    → (run_iceberg_batch (finish "iceberg-sales" completed) ≡ ok tt)
      ↔ ((log : String) × (completed ≡ returned (pos zero) log))
unfolding run_iceberg_batch
answered_zero failed = (λ h. cc, λ k. cc k.1)
answered_zero (timeout_expired detail) = (λ h. cc, λ k. cc k.1)
answered_zero (returned (negsuc n) log) = (λ h. cc, λ k. cc k.1)
answered_zero (returned (pos zero) log) = (λ h. (log, refl), λ k. refl)
answered_zero (returned (pos (suc n)) log) = (
  λ h. absurd (ground arith),
  λ k. let same : suc n ≡ zero = returned_inj k.1 in absurd (omega arith),
)

-- The Airflow task succeeds exactly when its request found the gateway free and the job returned 0.
pub run_iceberg_batch_iff :
    (locked : Bool) (completed : Completed)
    → (run_iceberg_batch (do_post "/jobs/iceberg-sales" locked completed) ≡ ok tt)
      ↔ ((locked ≡ false) × ((log : String) × (completed ≡ returned (pos 0) log)))
unfolding run_iceberg_batch do_post
run_iceberg_batch_iff true completed = (λ h. cc, λ k. cc k.0)
run_iceberg_batch_iff false completed =
    (λ h. (refl, (answered_zero completed).0 h), λ k. (answered_zero completed).1 k.1)
