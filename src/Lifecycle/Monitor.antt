-- ===== src/Lifecycle/Monitor.antt =====
-- cyxcloud-gateway/src/node_monitor.rs: `run_check_cycle` and `trigger_chunk_evacuation`. Every statement
-- can fail, and has its own NOW(): what it meets is given beforehand, for an update by the identifier
-- of the node. Log messages and the metrics, which only count what was done, are left out.
use cyxcloud.Prelude.{
  ℕ, suc, ◌*◌, ◌%◌, Bool, true, false, not, ◌&&◌, Option, none, some, List, [], ◌∷◌, ◌++◌, length,
  get_elem?, ◌==◌, if◌then◌else◌,
}
use cyxcloud.Prelude.Rows.{select}
use cyxcloud.Lifecycle.{
  Node, ChunkLocation, RepairJob, Database, is_stale, is_for_draining, is_for_removal, is_recovered,
  set_offline, set_online, set_draining, update_node, delete_node, get_chunks_on_node,
  get_online_nodes,
}

-- The thresholds, in seconds.
pub record FaultToleranceConfig : Type 0 where
  pub offline_threshold : ℕ
  pub drain_threshold : ℕ
  pub remove_threshold : ℕ
  pub recovery_quarantine : ℕ

abbrev pub default_fault_tolerance : FaultToleranceConfig
default_fault_tolerance = record {
  offline_threshold = 5 * 60;
  drain_threshold = 4 * 60 * 60;
  remove_threshold = 7 * 24 * 60 * 60;
  recovery_quarantine = 5 * 60;
}

-- A query, whether it is answered and when, and the updates that follow it.
pub record Step : Type 0 where
  pub asked : Bool
  pub asked_at : ℕ
  pub updates : ℕ → Bool
  pub updated_at : ℕ → ℕ

-- The statements of an evacuation; `creates i` is the insertion of the i-th job.
pub record EvacuationStep : Type 0 where
  pub chunks_asked : Bool
  pub nodes_asked : Bool
  pub creates : ℕ → Bool

pub record Cycle : Type 0 where
  pub stale : Step
  pub drain : Step
  pub evacuate : ℕ → EvacuationStep
  pub remove : Step
  pub recover : Step

-- A job for the chunk, where the statement goes through.
abbrev pub job_for : Bool → ℕ → Option Node → ChunkLocation → List RepairJob → List RepairJob
job_for true source (some target) c rest =
    record {
      chunk_id = c.chunk_id;
      source_node_id = some source;
      target_node_id = target.id;
      priority = 100;
    }
    ∷ rest
job_for false source target c rest = rest
job_for true source none c rest = rest

-- The targets in turn.
unfoldable pub evacuation_jobs :
    (ℕ → Bool) → ℕ → List Node → ℕ → List ChunkLocation → List RepairJob
evacuation_jobs creates source targets i [] = []
evacuation_jobs creates source targets i (c ∷ cs) =
    job_for (creates i) source (get_elem? targets (i % length targets)) c
      (evacuation_jobs creates source targets (suc i) cs)

-- Where there are no chunks or no other online nodes, the list of jobs is empty.
unfoldable pub trigger_chunk_evacuation : EvacuationStep → ℕ → Database → Database
trigger_chunk_evacuation e id db =
    let targets = select (λ n. not (n.id == id)) (get_online_nodes db) in
    if e.chunks_asked && e.nodes_asked
    then record db {
      repair_jobs =
          db.repair_jobs ++ evacuation_jobs e.creates id targets 0 (get_chunks_on_node id db);
    }
    else db

-- The loops over what a query returned.
unfoldable pub update_each : Step → (ℕ → Node → Node) → List Node → Database → Database
update_each s set [] db = db
update_each s set (n ∷ ns) db =
    update_each s set ns
      (if s.updates n.id then update_node n.id (set (s.updated_at n.id)) db else db)

unfoldable pub drain_each : Step → (ℕ → EvacuationStep) → List Node → Database → Database
drain_each s e [] db = db
drain_each s e (n ∷ ns) db = drain_each s e ns (
    if s.updates n.id
    then trigger_chunk_evacuation (e n.id) n.id
        (update_node n.id (set_draining (s.updated_at n.id)) db)
    else db)

abbrev pub or_else : {A : Type 0} → Option A → A → A
or_else none a = a
or_else (some b) a = b

unfoldable pub delete_each : Step → List Node → Database → Database
delete_each s [] db = db
delete_each s (n ∷ ns) db =
    delete_each s ns (if s.updates n.id then or_else (delete_node n.id db) db else db)

-- The four steps.
unfoldable pub mark_stale : FaultToleranceConfig → Step → Database → Database
mark_stale c s db =
    update_each s set_offline (select (is_stale c.offline_threshold s.asked_at) db.nodes) db

unfoldable pub start_draining :
    FaultToleranceConfig → Step → (ℕ → EvacuationStep) → Database → Database
start_draining c s e db =
    drain_each s e (select (is_for_draining c.drain_threshold s.asked_at) db.nodes) db

unfoldable pub remove_gone : FaultToleranceConfig → Step → Database → Database
remove_gone c s db =
    delete_each s (select (is_for_removal c.remove_threshold s.asked_at) db.nodes) db

unfoldable pub promote_recovered : FaultToleranceConfig → Step → Database → Database
promote_recovered c s db =
    update_each s set_online (select (is_recovered c.recovery_quarantine s.asked_at) db.nodes) db

-- A query that fails ends the cycle with what has been done.
unfoldable pub run_check_cycle : FaultToleranceConfig → Cycle → Database → Database
run_check_cycle c y db =
    let db1 = mark_stale c y.stale db in
    let db2 = start_draining c y.drain y.evacuate db1 in
    let db3 = remove_gone c y.remove db2 in
    let db4 = promote_recovered c y.recover db3 in
    if y.stale.asked
    then if y.drain.asked
      then if y.remove.asked then if y.recover.asked then db4 else db3 else db2
      else db1
    else db
