-- ===== src/Catalog/Tests.antt =====
-- Runs of the catalogue on one file with one chunk.
use cyxcloud.Prelude.{
  ℕ, ◌≢◌, true, false, none, some, List, [], ◌∷◌, ◌≡◌, refl, map, All, number_key, pair_key,
  string_key, arith,
}
use cyxcloud.Prelude.Rows.{select, modify}
use cyxcloud.Prelude.Assoc.{get, insert}
use cyxcloud.Prelude.Sorting.{sort_by, place}
use cyxcloud.Lifecycle.{online, stored}
use cyxcloud.Catalog.{Catalog, File, ChunkRow, CreateFile, LocationRow, bytes_key}
use cyxcloud.Catalog.Files.{
  create_file, get_file, new_file, update_chunk_status, get_under_replicated_chunks,
}
use cyxcloud.Catalog.Locations.{
  AddSteps, add_chunk_location, increment_chunk_replicas, insert_location, get_chunk_locations,
  get_chunk_node_addresses, update_chunk_verification,
}
use cyxcloud.Catalog.Jobs.{get_pending_repair_jobs, update_repair_job_status}
use cyxcloud.Catalog.Counting.{
  Event, added, removed, checked, run, locations_of, IsCounted, broken_additions, run-IsCounted,
}
use cyxcloud.Catalog.Verified.{verification_hides, IsNewRow, create_file-get_file}

abbrev chunk : List ℕ
chunk = 7 ∷ []

abbrev chunk_row : ChunkRow
chunk_row = record {
  chunk_id = chunk;
  file_id = 1;
  chunk_index = 0;
  shard_index = 0;
  is_parity = false;
  size_bytes = 100;
  replication_factor = 2;
  current_replicas = 0;
  status = "pending";
}

abbrev catalog : Catalog
catalog = record {
  nodes = record { id = 5; peer_id = "peer"; grpc_address = "five"; status = online } ∷ [];
  files = [];
  chunks = (chunk, chunk_row) ∷ [];
  locations = [];
  users = [];
  buckets = [];
  jobs = [];
}

abbrev all_go : AddSteps
all_go = record { inserts = true; counts = true; marks = true }

abbrev added_once : Catalog
added_once = (add_chunk_location all_go chunk 5 catalog).0

abbrev added_again : Catalog
added_again = (add_chunk_location all_go chunk 5 added_once).0

-- The second report of the same location is counted once more.
counted_twice :
    (map (λ k. k.current_replicas) (get_under_replicated_chunks 10 added_once) ≡ 1 ∷ [])
    × (get_under_replicated_chunks 10 added_again ≡ [])
    × (locations_of chunk added_again ≡ 1)
unfolding add_chunk_location increment_chunk_replicas insert_location update_chunk_status
    get_under_replicated_chunks get insert select sort_by place
counted_twice = (refl, refl, refl)

abbrev row : LocationRow
row = record {
  chunk_id = chunk;
  node_id = 5;
  status = stored;
  last_verified = none;
  verification_failures = 0;
}

abbrev located : Catalog
located = record catalog { locations = ((chunk, 5), row) ∷ [] }

row_found : get (chunk, 5) located.locations ≡ some row
unfolding get
row_found = refl

read_before : get_chunk_node_addresses chunk located ≡ "five" ∷ []
unfolding get_chunk_node_addresses get_chunk_locations select
read_before = refl

verification_hides_example :
    All
      (λ (s : LocationRow). s.node_id ≢ 5)
      (get_chunk_locations chunk (update_chunk_verification chunk 5 true 9 located))
verification_hides_example = verification_hides chunk 5 9 located row (refl, tt) (tt, tt) row_found

catalog-IsCounted : IsCounted (λ id. 0) catalog
catalog-IsCounted id k e = omega arith

abbrev uncounted : AddSteps
uncounted = record all_go { counts = false }

-- The second addition is broken off before its location is counted.
abbrev history : List Event
history =
    added all_go chunk 5 ∷ checked chunk 5 true 9 ∷ removed chunk 5 ∷ added uncounted chunk 5 ∷ []

run-IsCounted_example : IsCounted (broken_additions history) (run history catalog)
run-IsCounted_example = run-IsCounted history catalog catalog-IsCounted

abbrev upload : CreateFile
upload = record {
  id = some 1;
  name = "a";
  path = "b/a";
  content_hash = chunk;
  size_bytes = 100;
  chunk_count = 1;
  data_shards = 1;
  parity_shards = 0;
  chunk_size = 100;
  owner_id = none;
  bucket = some "b";
  content_type = none;
  metadata = some "{}";
}

abbrev uploaded : Catalog
uploaded = record catalog { files = new_file upload 2 ∷ [] }

upload_created : create_file upload 2 catalog ≡ some uploaded
unfolding create_file
upload_created = refl

create_file-get_file_example :
    ((r : File) × (get_file 1 uploaded ≡ some r) × IsNewRow upload 1 r)
    × ((other : ℕ) → 1 ≢ other → get_file other uploaded ≡ get_file other catalog)
create_file-get_file_example = create_file-get_file upload 2 catalog uploaded upload_created

-- The job of the higher priority comes first.
abbrev two_jobs : Catalog
two_jobs = record catalog {
  jobs =
      record {
        id = 1;
        chunk_id = chunk;
        source_node_id = none;
        target_node_id = 5;
        status = "pending";
        priority = 1;
        started_at = none;
        completed_at = none;
        error_message = none;
        created_at = 3;
      }
      ∷ record {
        id = 2;
        chunk_id = chunk;
        source_node_id = some 5;
        target_node_id = 5;
        status = "pending";
        priority = 4;
        started_at = none;
        completed_at = none;
        error_message = none;
        created_at = 4;
      }
      ∷ [];
}

priority_first :
    (map (λ j. j.id) (get_pending_repair_jobs 10 two_jobs) ≡ 2 ∷ 1 ∷ [])
    × (map
          (λ j. j.id)
          (get_pending_repair_jobs 10 (update_repair_job_status 2 "completed" none 6 two_jobs))
        ≡ 1 ∷ [])
unfolding get_pending_repair_jobs update_repair_job_status select sort_by place modify
priority_first = (refl, refl)
