-- ===== src/Catalog/Jobs.antt =====
-- The queue of repair jobs in cyxcloud-metadata/src/postgres.rs.
use cyxcloud.Prelude.{
  ℕ, Bool, true, ◌&&◌, ◌||◌, String, Option, none, some, List, [], ◌∷◌, ◌++◌, ltb, leb, ◌==◌,
  if◌then◌else◌, take, ◌=?◌, string_key,
}
use cyxcloud.Prelude.Rows.{select, modify}
use cyxcloud.Prelude.Sorting.{sort_by}
use cyxcloud.Catalog.{Catalog, JobRow, StorageNode}
use cyxcloud.Catalog.Locations.{has_node}

abbrev pub job_key : JobRow → ℕ
job_key j = j.id

abbrev pub has_source : Option ℕ → List StorageNode → Bool
has_source none nodes = true
has_source (some n) nodes = has_node n nodes

-- The identifier is generated; foreign keys ask for the nodes.
unfoldable pub create_repair_job :
    (generated now : ℕ) → List ℕ → Option ℕ → (target rank : ℕ) → Catalog → Option Catalog
create_repair_job generated now chunk source target rank c =
    if has_source source c.nodes && has_node target c.nodes
    then some (record c {
      jobs =
          c.jobs
          ++ (record {
            id = generated;
            chunk_id = chunk;
            source_node_id = source;
            target_node_id = target;
            status = "pending";
            priority = rank;
            started_at = none;
            completed_at = none;
            error_message = none;
            created_at = now;
          }
              ∷ []);
    })
    else none

-- ORDER BY priority DESC, created_at ASC
abbrev pub is_served_before : JobRow → JobRow → Bool
is_served_before a b =
    if a.priority == b.priority then leb a.created_at b.created_at else ltb b.priority a.priority

unfoldable pub get_pending_repair_jobs : ℕ → Catalog → List JobRow
get_pending_repair_jobs limit c =
    take limit (sort_by is_served_before (select (λ j. j.status =? "pending") c.jobs))

abbrev pub with_status : String → Option String → ℕ → JobRow → JobRow
with_status text message now j = record j {
  status = text;
  error_message = message;
  started_at = if text =? "in_progress" then some now else j.started_at;
  completed_at = if (text =? "completed") || (text =? "failed") then some now else j.completed_at;
}

unfoldable pub update_repair_job_status : ℕ → String → Option String → ℕ → Catalog → Catalog
update_repair_job_status id text message now c = record c {
  jobs = modify job_key id (λ j. some (with_status text message now j)) c.jobs;
}
