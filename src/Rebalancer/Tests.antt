-- ===== src/Rebalancer/Tests.antt =====
-- A cluster of three nodes, one of which holds the only copy of a chunk.
use cyxcloud.Prelude.{
  ◌=?◌, string_key, false, ℕ, ◌+◌, ◌-◌, ◌*◌, ◌/◌, ◌<◌, ◌≤◌, min, ◌≡◌, ◌⊎◌, refl, true, not, ◌&&◌,
  Option, none, some, String, List, [], ◌∷◌, length, All, Unique, ne_of_=?, leb, ◌==◌,
  if◌then◌else◌, arith,
}
use cyxcloud.Prelude.Rows.{select}
use cyxcloud.Prelude.Assoc.{get, insert}
use cyxcloud.Prelude.Sorting.{sort_by, place}
use cyxcloud.Prelude.Results.{ok, err}
use cyxcloud.Rebalancer.Detector.{
  ChunkInfo, Clients, Detector, ScanResult, NodeAvailability, check_nodes, issue_of, issues_of,
  scan, should_scan, critical, contains, ChunkIssue, under_replicated, calculate_priority,
}
use cyxcloud.Rebalancer.Scan.{Each, IsIssueOf, scan_ok, scan-plan_repair}
use cyxcloud.Prelude.Floats.{Floats}
use cyxcloud.Rebalancer.Planner.{
  Planner, NodeInfo, RepairTask, RepairPlan, megabyte, gigabyte, plan_under_replicated, create_plan,
  select_source_node, select_target_nodes, get_node_load, score_target, is_candidate,
  no_target_nodes, refuses, no_source_nodes, plan_repair, empty_plan,
}
use cyxcloud.Rebalancer.Executor.{Transfer, TaskResult, execute_task, execute}
use cyxcloud.Rebalancer.Targets.{IsSound, plan_under_replicated_ok}
use cyxcloud.Rebalancer.Limits.{create_plan_ok}
use cyxcloud.Rebalancer.Retries.{execute_task-splits, execute_task_succeeds}
use cyxcloud.Rebalancer.Report.{started, results_of, bytes_of, execute_accounts}

-- Numbers in tenths.
abbrev tenths_of : Floats ℕ
tenths_of = record {
  of_nat = λ n. n * 10;
  tenths = λ n. n;
  plus = λ a b. a + b;
  minus = λ a b. a - b;
  times = λ a b. a * b / 10;
  over = λ a b. a * 10 / b;
  smaller = λ a b. min a b;
  at_most = leb;
}

abbrev node : String → ℕ → NodeInfo ℕ
node id load = record {
  id = id;
  address = id;
  available_storage = gigabyte;
  load = load;
  datacenter = none;
  is_healthy = true;
}

abbrev nodes : List (NodeInfo ℕ)
nodes = node "a" 1 ∷ node "b" 6 ∷ node "c" 2 ∷ []

abbrev planner : Planner ℕ
planner = record {
  config = record {
    replication_factor = 3;
    max_tasks = 10;
    max_bytes = gigabyte;
    prefer_local = true;
    max_node_load = 8;
    node_rate_limit = megabyte;
  };
  pending_load = [];
  task_counter = 0;
}

abbrev issue : ChunkIssue
issue = record {
  chunk_id = 1 ∷ [];
  health = under_replicated 1 3;
  current_nodes = "a" ∷ [];
  file_id = none;
  priority = 800;
}

abbrev task : RepairTask
task = record {
  task_id = 1;
  chunk_id = 1 ∷ [];
  source_node = "a";
  target_nodes = "c" ∷ "b" ∷ [];
  chunk_size = megabyte;
  priority = 800;
  issue = issue;
}

priority_of_issue : calculate_priority issue.health ≡ ok 800
unfolding calculate_priority
priority_of_issue = refl

plans :
    plan_under_replicated tenths_of planner issue nodes 1 3
    ≡ ok (record planner { task_counter = 1 }, task)
unfolding plan_under_replicated select_source_node select_target_nodes get_node_load score_target
    is_candidate select sort_by place get
plans = refl

distinct : Unique (λ (n : NodeInfo ℕ). n.id) nodes
distinct =
    ((ne_of_=? "b" "a" refl, (ne_of_=? "c" "a" refl, tt)), ((ne_of_=? "c" "b" refl, tt), (tt, tt)))

plan_under_replicated_ok_example :
    IsSound nodes task
    × Unique (λ s. s) task.target_nodes
    × (length task.target_nodes ≡ 3 - 1)
    × (1 < 3)
    × (task.issue ≡ issue)
    × (planner.config ≡ planner.config)
plan_under_replicated_ok_example =
    plan_under_replicated_ok tenths_of planner (record planner { task_counter = 1 }) nodes issue
      task 1 3 distinct plans

create_plan_ok_example :
    let usable = select (λ (n : NodeInfo ℕ). n.is_healthy) nodes in
    ((length usable ≡ 0)
      × ((create_plan tenths_of (issue ∷ []) nodes planner).1 ≡ err (refuses no_target_nodes)))
    ⊎ ((0 < length usable)
        × ((plan : RepairPlan) × ((create_plan tenths_of (issue ∷ []) nodes planner).1 ≡ ok plan)
            × (length plan.tasks ≤ 10)
            × All (IsSound usable) plan.tasks))
create_plan_ok_example = create_plan_ok tenths_of (issue ∷ []) nodes planner (omega arith)

-- The first attempt reaches one target, the second all that are left.
abbrev transfer : Transfer
transfer k targets =
    if k == 0 then some (ok ("c" ∷ [])) else if k == 1 then some (ok targets) else none

execute_task-splits_example :
    let r = execute_task true true 0 transfer task in
    contains r.targets_failed "b"
    ≡ (contains task.target_nodes "b" && not (contains r.targets_succeeded "b"))
execute_task-splits_example = execute_task-splits 0 transfer task "b"

execute_task_succeeds_example :
    let r = execute_task true true 3 transfer task in
    (r.success ≡ true) × (r.error ≡ none) × (r.bytes_transferred ≡ megabyte)
execute_task_succeeds_example = execute_task_succeeds 3 transfer task 1 (omega arith) (λ ts. refl)

abbrev run : RepairTask → Option TaskResult
run t = some (execute_task true true 3 transfer t)

abbrev plan : RepairPlan
plan = record empty_plan { tasks = task ∷ task ∷ [] }

execute_accounts_example :
    let r = execute (λ i. i == 1) run plan in
    let turns = started (λ i. i == 1) 0 plan.tasks in
    let ended = results_of run turns in
    (r.succeeded ≡ select (λ t. t.success) ended)
    × (r.failed ≡ select (λ t. not t.success) ended)
    × (r.total_bytes ≡ bytes_of ended)
    × (r.skipped + length turns ≡ 2)
execute_accounts_example = execute_accounts (λ i. i == 1) run plan

-- A cluster in which one node is in quarantine and one does not answer.
abbrev chunk : ChunkInfo
chunk = record { chunk_id = 9 ∷ []; node_ids = "b" ∷ "c" ∷ []; file_id = none; size = 5 }

abbrev lost_chunk : ChunkInfo
lost_chunk = record { chunk_id = 8 ∷ []; node_ids = "c" ∷ []; file_id = none; size = 5 }

abbrev clients : Clients
clients = record {
  get_all_nodes = ok ("b" ∷ "c" ∷ []);
  check_node_availability =
      λ n. if n =? "b" then ok NodeAvailability.recovering else err "no answer";
  get_under_replicated_chunks = λ limit. ok (chunk ∷ lost_chunk ∷ []);
}

abbrev detector : Detector
detector = record {
  config = record { replication_factor = 3; batch_size = 10; scan_interval = 60 };
  last_scan = none;
  node_health = [];
  node_availability = [];
}

abbrev scanned : Detector
scanned = record detector {
  last_scan = some 70;
  node_health = ("b", true) ∷ ("c", false) ∷ [];
  node_availability = ("b", NodeAvailability.recovering) ∷ ("c", NodeAvailability.unavailable) ∷ [];
}

abbrev report : ScanResult
report = record {
  total_scanned = 2;
  under_replicated =
      record {
        chunk_id = 9 ∷ [];
        health = under_replicated 1 3;
        current_nodes = "b" ∷ [];
        file_id = none;
        priority = 800;
      }
      ∷ record {
        chunk_id = 8 ∷ [];
        health = critical;
        current_nodes = [];
        file_id = none;
        priority = 1000;
      }
      ∷ [];
}

scans : scan clients 70 detector ≡ (scanned, ok report)
unfolding scan check_nodes issues_of issue_of calculate_priority select insert
scans = refl

waits : should_scan 100 scanned ≡ false
unfolding should_scan
waits = refl

scan_ok_example :
    (nodes : List String) × (chunks : List ChunkInfo) × (clients.get_all_nodes ≡ ok nodes)
    × (clients.get_under_replicated_chunks 10 ≡ ok chunks)
    × Each (IsIssueOf clients.check_node_availability 3 nodes) report.under_replicated chunks
    × (report.total_scanned ≡ length report.under_replicated)
    × (scanned.last_scan ≡ some 70)
scan_ok_example = scan_ok clients 70 detector scanned report scans

scan-plan_repair_example :
    All
      (λ i. i.health ≡ critical → plan_repair tenths_of planner i nodes ≡ err no_source_nodes)
      report.under_replicated
scan-plan_repair_example =
    scan-plan_repair tenths_of planner nodes clients 70 detector scanned report scans
