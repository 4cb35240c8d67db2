-- ===== src/Transfers/Tests.antt =====
-- A transfer to two targets, the second of which refuses the chunk.
use cyxcloud.Prelude.{
  ℕ, ◌=?◌, true, false, String, none, some, List, [], ◌∷◌, ◌≡◌, refl, All, replicate, if◌then◌else◌,
  string_key, number_key, pair_key,
}
use cyxcloud.Prelude.Rows.{select}
use cyxcloud.Prelude.Assoc.{Map, get, insert}
use cyxcloud.Prelude.Parts.{Part}
use cyxcloud.Prelude.Results.{ok, err}
use cyxcloud.Lifecycle.{online}
use cyxcloud.Catalog.{Catalog, StorageNode, bytes_key}
use cyxcloud.Catalog.Locations.{add_chunk_location, insert_location, increment_chunk_replicas}
use cyxcloud.Transfers.{
  ChunkClient, TransferSteps, get_node_by_peer_id, transfer_chunk, transfer_to_multiple, answer_of,
  run_transfer,
}
use cyxcloud.Transfers.Recorded.{IsRecorded, IsLocated, transfer_to_multiple-IsRecorded}

-- Each address holds at most one chunk, and the node "full" stores nothing.
abbrev client : ChunkClient (Map String (List ℕ))
client = record {
  get_chunk = λ address id nodes. ok (get address nodes);
  store_chunk = λ address id bytes nodes.
      if address =? "full" then (nodes, err "no space") else (insert address bytes nodes, ok tt);
  verify_chunk = λ address id nodes. ok (elim (get address nodes) [ none ↦ false | some b ↦ true ]);
}

abbrev node : ℕ → String → String → StorageNode
node id peer address = record { id = id; peer_id = peer; grpc_address = address; status = online }

abbrev chunk : List ℕ
chunk = replicate 32 7

abbrev catalog : Catalog
catalog = record {
  nodes = node 1 "a" "at-a" ∷ node 2 "b" "at-b" ∷ node 3 "c" "full" ∷ [];
  files = [];
  chunks =
      (
        chunk,
        record {
          chunk_id = chunk;
          file_id = 1;
          chunk_index = 0;
          shard_index = 0;
          is_parity = false;
          size_bytes = 1;
          replication_factor = 2;
          current_replicas = 1;
          status = "active";
        },
      )
      ∷ [];
  locations = [];
  users = [];
  buckets = [];
  jobs = [];
}

abbrev nodes_before : Map String (List ℕ)
nodes_before = ("at-a", 5 ∷ []) ∷ []

abbrev all_steps : ℕ → TransferSteps
all_steps i = record {
  finds_source = true;
  finds_target = true;
  adds = record { inserts = true; counts = true; marks = true };
}

reports_one :
    (run_transfer client chunk all_steps "a" ("b" ∷ "c" ∷ []) nodes_before catalog).1
    ≡ ok ("b" ∷ [])
unfolding run_transfer answer_of transfer_to_multiple transfer_chunk get_node_by_peer_id select get
    insert add_chunk_location insert_location increment_chunk_replicas
reports_one = refl

reports_none :
    (run_transfer client chunk all_steps "x" ("b" ∷ []) nodes_before catalog).1
    ≡ err "All transfers failed"
unfolding run_transfer answer_of transfer_to_multiple transfer_chunk get_node_by_peer_id select
reports_none = refl

transfer_to_multiple-IsRecorded_example :
    let out =
      transfer_to_multiple client chunk all_steps "a" ("b" ∷ "c" ∷ []) nodes_before catalog in
    All (IsRecorded chunk out.0.1) out.1
    × Part out.1 ("b" ∷ "c" ∷ [])
    × (out.0.1.nodes ≡ catalog.nodes)
    × ((j : List ℕ) (m : ℕ) → IsLocated j m catalog → IsLocated j m out.0.1)
transfer_to_multiple-IsRecorded_example =
    transfer_to_multiple-IsRecorded client chunk all_steps "a" ("b" ∷ "c" ∷ []) nodes_before catalog
