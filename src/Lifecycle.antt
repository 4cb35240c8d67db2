-- ===== src/Lifecycle.antt =====
-- The life of a storage node: the tables nodes, chunk_locations and repair_jobs of
-- cyxcloud-metadata/migrations (001 and 002), the queries on them in cyxcloud-metadata/src/postgres.rs,
-- and the check cycle of cyxcloud-gateway/src/node_monitor.rs, in Lifecycle/Monitor. Only the columns that
-- these statements read or write are kept. Times are in seconds; `now` is NOW() of the statement.
pub mod Monitor
pub mod Loops
pub mod Pass
pub mod Edges
pub mod Evacuation
mod Tests
use cyxcloud.Prelude.{
  ℕ, ◌+◌, Bool, true, false, not, ◌&&◌, ◌||◌, String, Option, none, some, List, [], ◌∷◌, ltb, ◌==◌,
  if◌then◌else◌,
}
use cyxcloud.Prelude.Rows.{select, modify}
use cyxcloud.Prelude.Sorting.{sort_by, ascending}

-- The text of the column; `unknown` is any other text.
pub data NodeStatus : Type 0 where
  online offline recovering draining maintenance : NodeStatus
  unknown : String → NodeStatus

pub data LocationStatus : Type 0 where
  pending stored verified failed : LocationStatus

pub record Node : Type 0 where
  pub id : ℕ
  pub storage_used : ℕ
  pub status : NodeStatus
  pub last_heartbeat : Option ℕ
  pub failure_count : ℕ
  pub first_offline_at : Option ℕ
  pub status_changed_at : Option ℕ

pub record ChunkLocation : Type 0 where
  pub chunk_id : List ℕ
  pub node_id : ℕ
  pub status : LocationStatus

pub record RepairJob : Type 0 where
  pub chunk_id : List ℕ
  pub source_node_id : Option ℕ
  pub target_node_id : ℕ
  pub priority : ℕ

pub record Database : Type 0 where
  pub nodes : List Node
  pub chunk_locations : List ChunkLocation
  pub repair_jobs : List RepairJob

abbrev pub is_online : NodeStatus → Bool
is_online online = true
is_online offline = false
is_online recovering = false
is_online draining = false
is_online maintenance = false
is_online (unknown s) = false

abbrev pub is_offline : NodeStatus → Bool
is_offline offline = true
is_offline online = false
is_offline recovering = false
is_offline draining = false
is_offline maintenance = false
is_offline (unknown s) = false

abbrev pub is_recovering : NodeStatus → Bool
is_recovering recovering = true
is_recovering online = false
is_recovering offline = false
is_recovering draining = false
is_recovering maintenance = false
is_recovering (unknown s) = false

-- status IN ('offline', 'draining')
abbrev pub is_gone : NodeStatus → Bool
is_gone offline = true
is_gone draining = true
is_gone online = false
is_gone recovering = false
is_gone maintenance = false
is_gone (unknown s) = false

abbrev pub is_stored : LocationStatus → Bool
is_stored stored = true
is_stored pending = false
is_stored verified = false
is_stored failed = false

-- t IS NOT NULL AND t < NOW() - make_interval(secs)
abbrev pub is_before : Option ℕ → ℕ → ℕ → Bool
is_before none secs now = false
is_before (some t) secs now = ltb (t + secs) now

abbrev pub is_null : Option ℕ → Bool
is_null none = true
is_null (some t) = false

-- COALESCE(t, now)
abbrev pub coalesce : Option ℕ → ℕ → ℕ
coalesce none now = now
coalesce (some t) now = t

-- The conditions of the four queries.
unfoldable pub is_stale : ℕ → ℕ → Node → Bool
is_stale secs now n =
    is_online n.status && (is_null n.last_heartbeat || is_before n.last_heartbeat secs now)

unfoldable pub is_for_draining : ℕ → ℕ → Node → Bool
is_for_draining secs now n = is_offline n.status && is_before n.first_offline_at secs now

unfoldable pub is_for_removal : ℕ → ℕ → Node → Bool
is_for_removal secs now n = is_gone n.status && is_before n.first_offline_at secs now

unfoldable pub is_recovered : ℕ → ℕ → Node → Bool
is_recovered secs now n = is_recovering n.status && is_before n.status_changed_at secs now

-- The SET clauses of the updates.
unfoldable pub set_offline : ℕ → Node → Node
set_offline now n = record n {
  status = offline;
  status_changed_at = some now;
  first_offline_at = some (coalesce n.first_offline_at now);
}

unfoldable pub set_recovering : ℕ → Node → Node
set_recovering now n = record n {
  status = recovering;
  status_changed_at = some now;
  last_heartbeat = some now;
  failure_count = 0;
}

unfoldable pub set_online : ℕ → Node → Node
set_online now n = record n {
  status = online;
  status_changed_at = some now;
  first_offline_at = none;
  last_heartbeat = some now;
  failure_count = 0;
}

unfoldable pub set_draining : ℕ → Node → Node
set_draining now n = record n { status = draining; status_changed_at = some now }

-- What a heartbeat sets, by the status that was read, and the status that it returns.
unfoldable pub set_heartbeat : ℕ → Node → Node × NodeStatus
set_heartbeat now n = elim n.status [
  | online ↦ (record n { last_heartbeat = some now; failure_count = 0 }, online)
  | recovering ↦ (record n { last_heartbeat = some now; failure_count = 0 }, recovering)
  | offline ↦ (set_recovering now n, recovering)
  | draining ↦ (set_recovering now n, recovering)
  | maintenance ↦ (record n { last_heartbeat = some now }, maintenance)
  | unknown s ↦ (record n { last_heartbeat = some now }, maintenance)
]

abbrev pub node_key : Node → ℕ
node_key n = n.id

unfoldable pub get_chunks_on_node : ℕ → Database → List ChunkLocation
get_chunks_on_node id db = select (λ c. (c.node_id == id) && is_stored c.status) db.chunk_locations

-- In ascending order of the storage used.
unfoldable pub get_online_nodes : Database → List Node
get_online_nodes db =
    sort_by (ascending (λ n. n.storage_used)) (select (λ n. is_online n.status) db.nodes)

-- Whether a repair job names the node: `source_node_id` and `target_node_id` are foreign keys without
-- ON DELETE, so that the deletion of such a node is an error.
abbrev pub names_node : ℕ → RepairJob → Bool
names_node id j =
    (j.target_node_id == id) || (elim j.source_node_id [ none ↦ false | some s ↦ s == id ])

unfoldable pub is_referenced : ℕ → List RepairJob → Bool
is_referenced id [] = false
is_referenced id (j ∷ js) = names_node id j || is_referenced id js

-- `delete_node`, with ON DELETE CASCADE on chunk_locations.
unfoldable pub delete_node : ℕ → Database → Option Database
delete_node id db =
    if is_referenced id db.repair_jobs
    then none
    else some (record db {
      nodes = modify node_key id (λ n. none) db.nodes;
      chunk_locations = select (λ c. not (c.node_id == id)) db.chunk_locations;
    })

-- One of the updates by identifier.
unfoldable pub update_node : ℕ → (Node → Node) → Database → Database
update_node id change db = record db { nodes = modify node_key id (λ n. some (change n)) db.nodes }
