-- ===== src/Catalog/Locations.antt =====
-- The locations of chunks in cyxcloud-metadata/src/postgres.rs.
use cyxcloud.Prelude.{
  ℕ, ◌+◌, Bool, true, false, ◌&&◌, String, Option, none, some, List, [], ◌∷◌, ◌++◌, map, leb, ◌==◌,
  if◌then◌else◌, ◌=?◌, number_key, pair_key,
}
use cyxcloud.Prelude.Rows.{select}
use cyxcloud.Prelude.Assoc.{Map, get, insert, remove}
use cyxcloud.Lifecycle.{stored, verified, failed, is_stored, is_online}
use cyxcloud.Catalog.{Catalog, ChunkRow, LocationRow, StorageNode, bytes_key}
use cyxcloud.Catalog.Files.{update_chunk_status}

abbrev pub has_node : ℕ → List StorageNode → Bool
has_node id [] = false
has_node id (n ∷ ns) = if n.id == id then true else has_node id ns

-- INSERT ... ON CONFLICT (chunk_id, node_id) DO UPDATE SET status = 'stored'
abbrev pub stored_row : List ℕ → ℕ → Option LocationRow → LocationRow
stored_row id node (some r) = record r { status = stored }
stored_row id node none = record {
  chunk_id = id;
  node_id = node;
  status = stored;
  last_verified = none;
  verification_failures = 0;
}

unfoldable pub insert_location : List ℕ → ℕ → Catalog → Catalog
insert_location id node c = record c {
  locations = insert (id, node) (stored_row id node (get (id, node) c.locations)) c.locations;
}

abbrev pub increment_row : List ℕ → Option ChunkRow → Catalog → Catalog × Option ℕ
increment_row id none c = (c, none)
increment_row id (some k) c = (
  record c { chunks = insert id (record k { current_replicas = k.current_replicas + 1 }) c.chunks },
  some (k.current_replicas + 1),
)

-- The new count; none where there is no such chunk.
unfoldable pub increment_chunk_replicas : List ℕ → Catalog → Catalog × Option ℕ
increment_chunk_replicas id c = increment_row id (get id c.chunks) c

-- Whether the three statements of `add_chunk_location`, which run without a transaction, go through.
pub record AddSteps : Type 0 where
  pub inserts : Bool
  pub counts : Bool
  pub marks : Bool

abbrev pub activate : Bool → List ℕ → Catalog × Option ℕ → Catalog × Bool
activate marks id (c, none) = (c, false)
activate marks id (c, some count) =
    if count == 1
    then (if marks then (update_chunk_status id "active" c, true) else (c, false))
    else (c, true)

abbrev pub count_location : AddSteps → List ℕ → Catalog → Catalog × Bool
count_location s id c =
    if s.counts then activate s.marks id (increment_chunk_replicas id c) else (c, false)

-- Whether the call succeeds; what went through before a failure stays.
unfoldable pub add_chunk_location : AddSteps → List ℕ → ℕ → Catalog → Catalog × Bool
add_chunk_location s id node c =
    if s.inserts && has_node node c.nodes
    then count_location s id (insert_location id node c)
    else (c, false)

abbrev pub is_at : List ℕ → LocationRow → Bool
is_at id r = (r.chunk_id =? id) && is_stored r.status

unfoldable pub get_chunk_locations : List ℕ → Catalog → List LocationRow
get_chunk_locations id c = select (is_at id) (map (λ p. p.1) c.locations)

abbrev pub online_address : ℕ → List StorageNode → List String
online_address id [] = []
online_address id (n ∷ ns) =
    let rest = online_address id ns in
    if (n.id == id) && is_online n.status then n.grpc_address ∷ rest else rest

abbrev pub addresses_of : List StorageNode → List LocationRow → List String
addresses_of nodes [] = []
addresses_of nodes (r ∷ rs) = online_address r.node_id nodes ++ addresses_of nodes rs

unfoldable pub get_chunk_node_addresses : List ℕ → Catalog → List String
get_chunk_node_addresses id c = addresses_of c.nodes (get_chunk_locations id c)

unfoldable pub remove_chunk_location : List ℕ → ℕ → Catalog → Catalog
remove_chunk_location id node c = record c { locations = remove (id, node) c.locations }

abbrev pub verify_row : Bool → ℕ → LocationRow → LocationRow
verify_row true now r = record r {
  last_verified = some now;
  status = verified;
  verification_failures = 0;
}
verify_row false now r = record r {
  verification_failures = r.verification_failures + 1;
  status = if leb 2 r.verification_failures then failed else r.status;
}

abbrev pub change_location :
    List ℕ × ℕ
    → (LocationRow → LocationRow)
    → Option LocationRow
    → Map (List ℕ × ℕ) LocationRow
    → Map (List ℕ × ℕ) LocationRow
change_location k f none m = m
change_location k f (some r) m = insert k (f r) m

unfoldable pub update_chunk_verification : List ℕ → ℕ → Bool → ℕ → Catalog → Catalog
update_chunk_verification id node valid now c = record c {
  locations =
      change_location (id, node) (verify_row valid now) (get (id, node) c.locations) c.locations;
}
