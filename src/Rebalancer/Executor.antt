-- ===== src/Rebalancer/Executor.antt =====
-- cyxcloud-rebalancer/src/executor.rs. A semaphore only delays a task, or refuses it when it is closed;
-- progress messages and durations are left out. A transfer is given the number of the attempt, since
-- it may answer differently each time, and gives nothing where the timeout passes first.
use cyxcloud.Prelude.{
  is_empty, ℕ, zero, suc, ◌+◌, Bool, true, false, not, String, Option, none, some, List, [], ◌∷◌,
  ◌++◌, length, if◌then◌else◌,
}
use cyxcloud.Prelude.Rows.{select}
use cyxcloud.Prelude.Results.{Result, ok, err}
use cyxcloud.Rebalancer.Planner.{RepairTask, RepairPlan}
use cyxcloud.Rebalancer.Detector.{contains}

-- A text: one that the transfer gave, or the one on a partial success.
pub data Message : Type 0 where
  given : String → Message
  partial_success : (got all : ℕ) → Message

pub data ExecutorError : Type 0 where
  transfer_failed : Message → ExecutorError
  timed_out : ExecutorError
  source_unavailable target_unavailable : String → ExecutorError
  rate_limit_exceeded shut_down : ExecutorError

pub record TaskResult : Type 0 where
  pub task_id : ℕ
  pub success : Bool
  pub error : Option ExecutorError
  pub bytes_transferred : ℕ
  pub targets_succeeded : List String
  pub targets_failed : List String

pub record ExecutionResult : Type 0 where
  pub succeeded : List TaskResult
  pub failed : List TaskResult
  pub total_bytes : ℕ
  pub skipped : ℕ

-- What the retries keep.
pub record Progress : Type 0 where
  pub last_error : Option ExecutorError
  pub targets_succeeded : List String
  pub targets_failed : List String

abbrev pub Transfer : Type 0
Transfer = ℕ → List String → Option (Result String (List String))

unfoldable pub push_new : List String → List String → List String
push_new [] known = known
push_new (s ∷ ss) known = push_new ss (if contains known s then known else known ++ (s ∷ []))

-- One attempt on a task with so many targets.
unfoldable pub record_attempt : ℕ → Option (Result String (List String)) → Progress → Progress
record_attempt all (some (ok succeeded)) s =
    let known = push_new succeeded s.targets_succeeded in
    let left = select (λ t. not (contains succeeded t)) s.targets_failed in
    record {
      last_error =
          if is_empty left
          then s.last_error
          else some (transfer_failed (partial_success (length known) all));
      targets_succeeded = known;
      targets_failed = left;
    }
record_attempt all (some (err e)) s = record s { last_error = some (transfer_failed (given e)) }
record_attempt all none s = record s { last_error = some timed_out }

-- The loop is left only after a transfer that was answered.
abbrev pub is_done : Option (Result String (List String)) → Progress → Bool
is_done (some (ok succeeded)) s = is_empty s.targets_failed
is_done (some (err e)) s = false
is_done none s = false

-- So many attempts, the first of them with the given number.
unfoldable pub attempts : Transfer → ℕ → ℕ → ℕ → Progress → Progress
attempts transfer all zero k s = s
attempts transfer all (suc n) k s =
    let answer = transfer k s.targets_failed in
    let s' = record_attempt all answer s in
    let rest = attempts transfer all n (suc k) s' in if is_done answer s' then s' else rest

abbrev pub fresh : RepairTask → Progress
fresh t = record { last_error = none; targets_succeeded = []; targets_failed = t.target_nodes }

unfoldable pub run_attempts : ℕ → Transfer → RepairTask → Progress
run_attempts max_retries transfer t =
    attempts transfer (length t.target_nodes) (suc max_retries) 0 (fresh t)

abbrev pub refused : RepairTask → ExecutorError → TaskResult
refused t e = record {
  task_id = t.task_id;
  success = false;
  error = some e;
  bytes_transferred = 0;
  targets_succeeded = [];
  targets_failed = t.target_nodes;
}

-- Whether the two semaphores are open comes first.
unfoldable pub execute_task :
    (global_open source_open : Bool) → ℕ → Transfer → RepairTask → TaskResult
execute_task false source_open max_retries transfer t = refused t shut_down
execute_task true false max_retries transfer t = refused t (source_unavailable t.source_node)
execute_task true true max_retries transfer t =
    let s = run_attempts max_retries transfer t in
    let success = is_empty s.targets_failed in
    record {
      task_id = t.task_id;
      success = success;
      error = if success then none else s.last_error;
      bytes_transferred = if success then t.chunk_size else 0;
      targets_succeeded = s.targets_succeeded;
      targets_failed = s.targets_failed;
    }

-- The first half of `execute`: a task is spawned unless the shutdown flag is set when its turn comes. A
-- spawned task ends in a result, or in nothing where it panics.
unfoldable pub spawn_all :
    (ℕ → Bool)
    → (RepairTask → Option TaskResult)
    → ℕ
    → List RepairTask
    → List (Option TaskResult) × ℕ
spawn_all shutdown run i [] = ([], 0)
spawn_all shutdown run i (t ∷ ts) =
    let (handles, skipped) = spawn_all shutdown run (suc i) ts in
    if shutdown i then (handles, suc skipped) else (run t ∷ handles, skipped)

abbrev pub collect_one : Option TaskResult → ExecutionResult → ExecutionResult
collect_one none r = r
collect_one (some t) r =
    let r' = record r { total_bytes = r.total_bytes + t.bytes_transferred } in
    if t.success
    then record r' { succeeded = r.succeeded ++ (t ∷ []) }
    else record r' { failed = r.failed ++ (t ∷ []) }

unfoldable pub collect : List (Option TaskResult) → ExecutionResult → ExecutionResult
collect [] r = r
collect (h ∷ hs) r = collect hs (collect_one h r)

unfoldable pub execute :
    (ℕ → Bool) → (RepairTask → Option TaskResult) → RepairPlan → ExecutionResult
execute shutdown run plan =
    let (handles, skipped) = spawn_all shutdown run 0 plan.tasks in
    collect handles (record { succeeded = []; failed = []; total_bytes = 0; skipped = skipped })
