-- ===== src/Rebalancer/Planner.antt =====
-- cyxcloud-rebalancer/src/planner.rs. Loads and scores are `f64`: their arithmetic is an interface, on
-- whose comparisons the code relies as total (`partial_cmp(..).unwrap()`, where no load is NaN).
use cyxcloud.Prelude.{
  is_empty, ℕ, ◌+◌, ◌-◌, ◌*◌, ◌/◌, max, Bool, false, not, ◌&&◌, ◌||◌, String, Option, none, some,
  List, [], ◌∷◌, ◌++◌, map, ltb, leb, ◌==◌, if◌then◌else◌, length, take, ◌=?◌, string_key,
}
use cyxcloud.Prelude.Rows.{select}
use cyxcloud.Prelude.Floats.{Floats}
use cyxcloud.Prelude.Assoc.{Map, get, insert}
use cyxcloud.Prelude.Results.{Result, ok, err, guard, ◌>>=◌, ◌>>◌}
use cyxcloud.Prelude.Sorting.{sort_by, descending}
use cyxcloud.Rebalancer.Detector.{
  contains, ChunkHealth, ChunkIssue, healthy, under_replicated, over_replicated, critical, orphaned,
  corrupt,
}

pub data PlannerError : Type 0 where
  no_source_nodes no_target_nodes : PlannerError
  insufficient_nodes : (have need : ℕ) → PlannerError
  internal : PlannerError

-- The identifier is `repair-` before the number.
pub record RepairTask : Type 0 where
  pub task_id : ℕ
  pub chunk_id : List ℕ
  pub source_node : String
  pub target_nodes : List String
  pub chunk_size : ℕ
  pub priority : ℕ
  pub issue : ChunkIssue

abbrev pub estimated_bandwidth : RepairTask → ℕ
estimated_bandwidth t = t.chunk_size * length t.target_nodes

-- `HashSet`s as lists without repetitions.
pub record RepairPlan : Type 0 where
  pub tasks : List RepairTask
  pub total_bytes : ℕ
  pub estimated_duration : ℕ
  pub source_nodes : List String
  pub target_nodes : List String

abbrev pub insert_node : String → List String → List String
insert_node s xs = if contains xs s then xs else s ∷ xs

abbrev pub insert_nodes : List String → List String → List String
insert_nodes [] xs = xs
insert_nodes (s ∷ ss) xs = insert_nodes ss (insert_node s xs)

unfoldable pub add_task : RepairTask → RepairPlan → RepairPlan
add_task t p = record p {
  tasks = p.tasks ++ (t ∷ []);
  total_bytes = p.total_bytes + estimated_bandwidth t;
  source_nodes = insert_node t.source_node p.source_nodes;
  target_nodes = insert_nodes t.target_nodes p.target_nodes;
}

unfoldable pub tasks_for_source : String → RepairPlan → List RepairTask
tasks_for_source node p = select (λ t. t.source_node =? node) p.tasks

pub record NodeInfo (F : Type 0) : Type 0 where
  pub id : String
  pub address : String
  pub available_storage : ℕ
  pub load : F
  pub datacenter : Option String
  pub is_healthy : Bool

pub record PlannerConfig (F : Type 0) : Type 0 where
  pub replication_factor : ℕ
  pub max_tasks : ℕ
  pub max_bytes : ℕ
  pub prefer_local : Bool
  pub max_node_load : F
  pub node_rate_limit : ℕ

pub record Planner (F : Type 0) : Type 0 where
  pub config : PlannerConfig F
  pub pending_load : Map String ℕ
  pub task_counter : ℕ

abbrev pub megabyte : ℕ
megabyte = 1024 * 1024

abbrev pub gigabyte : ℕ
gigabyte = 1024 * megabyte

abbrev pub or_zero : Option ℕ → ℕ
or_zero none = 0
or_zero (some n) = n

abbrev pub same_datacenter : Option String → Option String → Bool
same_datacenter (some a) (some b) = a =? b
same_datacenter none b = false
same_datacenter (some a) none = false

abbrev pub find_datacenter : {F : Type 0} → String → List (NodeInfo F) → Option String
find_datacenter source [] = none
find_datacenter source (n ∷ ns) = if n.id =? source then n.datacenter else find_datacenter source ns

abbrev pub add_load : ℕ → String → Map String ℕ → Map String ℕ
add_load size node loads = insert node (or_zero (get node loads) + size) loads

abbrev pub add_loads : ℕ → List String → Map String ℕ → Map String ℕ
add_loads size [] loads = loads
add_loads size (n ∷ ns) loads = add_loads size ns (add_load size n loads)

abbrev pub is_full_plan : {F : Type 0} → PlannerConfig F → RepairPlan → Bool
is_full_plan c plan = leb c.max_tasks (length plan.tasks) || leb c.max_bytes plan.total_bytes

abbrev pub largest : List ℕ → ℕ
largest [] = 0
largest (n ∷ ns) = max n (largest ns)

abbrev pub total_size : List RepairTask → ℕ
total_size [] = 0
total_size (t ∷ ts) = t.chunk_size + total_size ts

-- What `create_plan` ends in where there is no plan: an error, or the panic of a division by zero.
pub data PlanFailure : Type 0 where
  refuses : PlannerError → PlanFailure
  divides_by_zero : PlanFailure

unfoldable pub estimate_duration :
    {F : Type 0} → PlannerConfig F → RepairPlan → Result PlanFailure ℕ
estimate_duration c plan =
    if is_empty plan.tasks || is_empty plan.source_nodes
    then ok 0
    else if c.node_rate_limit == 0
    then err divides_by_zero
    else ok (
        largest (map (λ n. total_size (tasks_for_source n plan)) plan.source_nodes)
        / c.node_rate_limit)

abbrev pub with_duration : RepairPlan → Result PlanFailure ℕ → Result PlanFailure RepairPlan
with_duration plan (err e) = err e
with_duration plan (ok d) = ok (record plan { estimated_duration = d })

abbrev pub empty_plan : RepairPlan
empty_plan = record {
  tasks = [];
  total_bytes = 0;
  estimated_duration = 0;
  source_nodes = [];
  target_nodes = [];
}

module _ {F : Type 0} (fl : Floats F) where
  open fl use {of_nat, tenths, plus, minus, times, over, smaller, at_most}

  unfoldable pub get_node_load : Planner F → String → F → F
  get_node_load p node_id base_load =
      let pending = or_zero (get node_id p.pending_load) in
      smaller (plus base_load (over (of_nat pending) (of_nat (10 * gigabyte)))) (of_nat 1)

  unfoldable pub score_target : Planner F → Option String → NodeInfo F → F
  score_target p source_dc node =
      let local =
        if p.config.prefer_local && same_datacenter source_dc node.datacenter
        then plus (of_nat 1) (tenths 5)
        else of_nat 1 in
      let storage_score =
        smaller (over (of_nat node.available_storage) (of_nat (100 * gigabyte))) (of_nat 1) in
      plus (plus local (times storage_score (tenths 3)))
        (times (minus (of_nat 1) (get_node_load p node.id node.load)) (tenths 2))

  -- `Iterator::min_by`: the first of the smallest.
  abbrev pub min_by_load : Planner F → NodeInfo F → List (NodeInfo F) → NodeInfo F
  min_by_load p best [] = best
  min_by_load p best (n ∷ ns) =
      min_by_load p
        (if at_most (get_node_load p best.id best.load) (get_node_load p n.id n.load)
          then best
          else n)
        ns

  abbrev pub first_best : Planner F → List (NodeInfo F) → Result PlannerError String
  first_best p [] = err no_source_nodes
  first_best p (n ∷ ns) = ok (min_by_load p n ns).id

  unfoldable pub select_source_node :
      Planner F → ChunkIssue → List (NodeInfo F) → Result PlannerError String
  select_source_node p issue nodes =
      first_best p (select (λ n. contains issue.current_nodes n.id) nodes)

  -- Not holding the chunk, with space, not overloaded: `load < max` is `not (max <= load)`.
  unfoldable pub is_candidate : Planner F → ChunkIssue → String → NodeInfo F → Bool
  is_candidate p issue source n =
      not (contains issue.current_nodes n.id)
      && not (n.id =? source)
      && leb megabyte n.available_storage
      && not (at_most p.config.max_node_load (get_node_load p n.id n.load))

  unfoldable pub select_target_nodes :
      Planner F → ChunkIssue → List (NodeInfo F) → String → ℕ → Result PlannerError (List String)
  select_target_nodes p issue nodes source count =
      let candidates = select (is_candidate p issue source) nodes in
      let score = score_target p (find_datacenter source nodes) in
      guard (not (ltb (length candidates) count)) (insufficient_nodes (length candidates) count)
      >> ok (map (λ n. n.id) (take count (sort_by (λ a b. at_most (score b) (score a)) candidates)))

  unfoldable pub plan_under_replicated :
      Planner F
      → ChunkIssue
      → List (NodeInfo F)
      → (current target : ℕ) → Result PlannerError (Planner F × RepairTask)
  plan_under_replicated p issue nodes current target =
      let replicas_needed = target - current in
      select_source_node p issue nodes >>= λ source.
      guard (not (replicas_needed == 0)) internal
      >> select_target_nodes p issue nodes source replicas_needed
      >>= λ targets.
          let counter = p.task_counter + 1 in
          ok (
            record p { task_counter = counter },
            record {
              task_id = counter;
              chunk_id = issue.chunk_id;
              source_node = source;
              target_nodes = targets;
              chunk_size = megabyte;
              priority = issue.priority;
              issue = issue;
            },
          )

  abbrev pub plan_by_health :
      ChunkHealth
      → Planner F
      → ChunkIssue
      → List (NodeInfo F)
      → Result PlannerError (Planner F × RepairTask)
  plan_by_health (under_replicated current target) p issue nodes =
      plan_under_replicated p issue nodes current target
  plan_by_health critical p issue nodes =
      guard (not (length issue.current_nodes == 0)) no_source_nodes
      >> plan_under_replicated p issue nodes 0 p.config.replication_factor
  plan_by_health (over_replicated current target) p issue nodes = err internal
  plan_by_health healthy p issue nodes = err internal
  plan_by_health orphaned p issue nodes = err internal
  plan_by_health (corrupt node_ids) p issue nodes = err internal

  unfoldable pub plan_repair :
      Planner F → ChunkIssue → List (NodeInfo F) → Result PlannerError (Planner F × RepairTask)
  plan_repair p issue nodes = plan_by_health issue.health p issue nodes

  -- A task that was planned; an issue that cannot be repaired is logged and passed over.
  abbrev pub take_task :
      Result PlannerError (Planner F × RepairTask) → Planner F → RepairPlan → Planner F × RepairPlan
  take_task (err e) p plan = (p, plan)
  take_task (ok (p', t)) p plan = (
    record p' {
      pending_load =
          add_loads t.chunk_size t.target_nodes
            (add_load t.chunk_size t.source_node p'.pending_load);
    },
    add_task t plan,
  )

  unfoldable pub plan_issues :
      List ChunkIssue → List (NodeInfo F) → Planner F → RepairPlan → Planner F × RepairPlan
  plan_issues [] nodes p plan = (p, plan)
  plan_issues (i ∷ is) nodes p plan =
      let (p', plan') = take_task (plan_repair p i nodes) p plan in
      let rest = plan_issues is nodes p' plan' in
      if is_full_plan p.config plan then (p, plan) else rest

  unfoldable pub create_plan :
      List ChunkIssue → List (NodeInfo F) → Planner F → Planner F × Result PlanFailure RepairPlan
  create_plan issues nodes p =
      let usable = select (λ n. n.is_healthy) nodes in
      let sorted = sort_by (descending (λ i. i.priority)) issues in
      let (p', plan) = plan_issues sorted usable (record p { pending_load = [] }) empty_plan in
      if length usable == 0
      then (p, err (refuses no_target_nodes))
      else (p', with_duration plan (estimate_duration p.config plan))
