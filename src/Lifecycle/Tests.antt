-- ===== src/Lifecycle/Tests.antt =====
-- Three nodes: one online and silent, one offline for long that holds a chunk, one in quarantine.
use cyxcloud.Prelude.{
  Unique, ℕ, ◌+◌, ◌<◌, ◌≡◌, ◌≢◌, ◌++◌, refl, true, false, Option, none, some, List, [], ◌∷◌, map,
  All, length, arith,
}
use cyxcloud.Prelude.Rows.{filter_rows, select}
use cyxcloud.Prelude.Sorting.{sort_by, place}
use mathlib.Core.List.{Memᴰ}
use cyxcloud.Prelude.Parts.{Part}
use cyxcloud.Lifecycle.{
  ChunkLocation, Node, NodeStatus, Database, RepairJob, stored, online, offline, recovering,
  maintenance, node_key, is_referenced, coalesce, set_offline, set_draining, get_chunks_on_node,
  get_online_nodes, delete_node, is_stale, is_for_draining, is_for_removal, is_recovered,
}
use cyxcloud.Lifecycle.Monitor.{
  Step, EvacuationStep, Cycle, default_fault_tolerance, run_check_cycle, start_draining, mark_stale,
  trigger_chunk_evacuation,
}
use cyxcloud.Lifecycle.Pass.{one_cycle, run_check_cycle-nodes}
use cyxcloud.Lifecycle.Edges.{Edge, one_cycle-Edge, one_cycle_removes}
use cyxcloud.Lifecycle.Evacuation.{
  IsEvacuation, IsStoredOn, targets_of, trigger_chunk_evacuation_lem, evacuation_blocks_deletion,
}

abbrev node : ℕ → NodeStatus → Option ℕ → Option ℕ → Node
node id status last_heartbeat first_offline_at = record {
  id = id;
  storage_used = 0;
  status = status;
  last_heartbeat = last_heartbeat;
  failure_count = 0;
  first_offline_at = first_offline_at;
  status_changed_at = some 0;
}

abbrev silent : Node
silent = node 1 online (some 999000) none

abbrev lost : Node
lost = node 2 offline (some 100) (some 100)

abbrev returning : Node
returning = node 3 recovering (some 5) (some 5)

abbrev alive : Node
alive = node 4 online (some 999990) none

abbrev database : Database
database = record {
  nodes = silent ∷ lost ∷ returning ∷ alive ∷ [];
  chunk_locations = record { chunk_id = 7 ∷ []; node_id = 2; status = stored } ∷ [];
  repair_jobs = [];
}

abbrev step : Step
step = record { asked = true; asked_at = 1000000; updates = λ id. true; updated_at = λ id. 1000001 }

abbrev all_created : EvacuationStep
all_created = record { chunks_asked = true; nodes_asked = true; creates = λ i. true }

abbrev cycle : Cycle
cycle = record {
  stale = step;
  drain = step;
  evacuate = λ id. all_created;
  remove = step;
  recover = step;
}

database-Unique : Unique node_key database.nodes
database-Unique = (
  ((λ p. omega arith), ((λ p. omega arith), ((λ p. omega arith), tt))),
  (((λ p. omega arith), ((λ p. omega arith), tt)), (((λ p. omega arith), tt), (tt, tt))),
)

run_check_cycle-nodes_example :
    let jobs =
      (start_draining default_fault_tolerance step
        (λ id. all_created)
        (mark_stale default_fault_tolerance step database)).repair_jobs in
    (run_check_cycle default_fault_tolerance cycle database).nodes
    ≡ filter_rows (one_cycle default_fault_tolerance cycle jobs) database.nodes
run_check_cycle-nodes_example =
    run_check_cycle-nodes default_fault_tolerance cycle database database-Unique refl refl refl refl

marks_silent : one_cycle default_fault_tolerance cycle [] silent ≡ some (set_offline 1000001 silent)
unfolding is_stale is_for_draining is_for_removal is_recovered set_offline
marks_silent = refl

one_cycle-Edge_example : Edge silent.status (set_offline 1000001 silent).status
one_cycle-Edge_example =
    one_cycle-Edge default_fault_tolerance cycle [] silent (set_offline 1000001 silent) marks_silent

removes_lost : one_cycle default_fault_tolerance cycle [] lost ≡ none
unfolding is_stale is_for_draining is_for_removal is_recovered is_referenced set_draining
removes_lost = refl

one_cycle_removes_example :
    (is_referenced 2 [] ≡ false)
    × (coalesce (some 100) 1000001 + 604800 < 1000000)
    × (lost.status ≢ recovering)
    × (lost.status ≢ maintenance)
one_cycle_removes_example = one_cycle_removes default_fault_tolerance cycle [] lost removes_lost

has_target : 0 < length (targets_of 2 database)
unfolding get_online_nodes select sort_by place
has_target = omega arith

trigger_chunk_evacuation_lem_example :
    (jobs : List RepairJob) × ((trigger_chunk_evacuation all_created 2 database).repair_jobs
      ≡ [] ++ jobs)
    × (map (λ j. j.chunk_id) jobs ≡ map (λ c. c.chunk_id) (get_chunks_on_node 2 database))
    × All (IsEvacuation 2 database) jobs
    × Part (get_chunks_on_node 2 database) database.chunk_locations
    × All (IsStoredOn 2) (get_chunks_on_node 2 database)
    × ((l : ChunkLocation)
        → Memᴰ l database.chunk_locations
        → IsStoredOn 2 l
        → Memᴰ l (get_chunks_on_node 2 database))
trigger_chunk_evacuation_lem_example =
    trigger_chunk_evacuation_lem all_created 2 database refl refl (λ i. refl) has_target

has_chunk : 0 < length (get_chunks_on_node 2 database)
unfolding get_chunks_on_node select
has_chunk = omega arith

evacuation_blocks_deletion_example :
    delete_node 2 (trigger_chunk_evacuation all_created 2 database) ≡ none
evacuation_blocks_deletion_example =
    evacuation_blocks_deletion all_created 2 database refl refl (λ i. refl) has_target has_chunk
