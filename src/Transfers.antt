-- ===== src/Transfers.antt =====
-- cyxcloud-rebalancer/src/transfer.rs: copies of a chunk from one node to others over the client of
-- cyxcloud-network, a parameter over the contents N of the nodes, with the statements of Catalog.
pub mod Recorded
mod Tests
use cyxcloud.Prelude.{
  is_empty, ℕ, suc, Bool, true, false, String, Option, none, some, List, [], ◌∷◌, ◌==◌, ◌=?◌,
  if◌then◌else◌, length, string_key,
}
use cyxcloud.Prelude.Rows.{select}
use cyxcloud.Prelude.Results.{Result, ok, err}
use cyxcloud.Catalog.{Catalog, StorageNode}
use cyxcloud.Catalog.Files.{first_row}
use cyxcloud.Catalog.Locations.{AddSteps, add_chunk_location}

-- A chunk's identifier stands for its text in hexadecimal, and a length for the text that names it.
pub data TransferError : Type 0 where
  source_not_found : String → TransferError
  target_not_found : String → TransferError
  chunk_not_found : List ℕ → TransferError
  invalid_length : ℕ → TransferError
  verification_failed : TransferError
  database_error : TransferError
  network_error : String → TransferError

-- The calls of the client take an address and an identifier; a call that stores may change the nodes
-- whatever it answers.
pub record ChunkClient (N : Type 0) : Type 0 where
  pub get_chunk : String → List ℕ → N → Result String (Option (List ℕ))
  pub store_chunk : String → List ℕ → List ℕ → N → N × Result String (Unit {0})
  pub verify_chunk : String → List ℕ → N → Result String Bool

unfoldable pub get_node_by_peer_id : String → Catalog → Option StorageNode
get_node_by_peer_id peer c = first_row (select (λ n. n.peer_id =? peer) c.nodes)

-- Whether the statements of one transfer go through: the two lookups, and those that record the location.
pub record TransferSteps : Type 0 where
  pub finds_source : Bool
  pub finds_target : Bool
  pub adds : AddSteps

abbrev pub look_up : Bool → Option StorageNode → Result TransferError (Option StorageNode)
look_up false o = err database_error
look_up true o = ok o

module _ {N : Type 0} (client : ChunkClient N) (id : List ℕ) where
  abbrev pub Outcome : Type 0
  Outcome = (N × Catalog) × Result TransferError (Unit {0})

  abbrev pub record_location : N → Catalog × Bool → Outcome
  record_location nodes (c, true) = ((nodes, c), ok tt)
  record_location nodes (c, false) = ((nodes, c), err database_error)

  abbrev pub after_verify : AddSteps → StorageNode → N → Catalog → Result String Bool → Outcome
  after_verify s target nodes c (err e) = ((nodes, c), err (network_error e))
  after_verify s target nodes c (ok false) = ((nodes, c), err verification_failed)
  after_verify s target nodes c (ok true) =
      record_location nodes (add_chunk_location s id target.id c)

  abbrev pub after_store : AddSteps → StorageNode → Catalog → N × Result String (Unit {0}) → Outcome
  after_store s target c (nodes, err e) = ((nodes, c), err (network_error e))
  after_store s target c (nodes, ok u) =
      after_verify s target nodes c (client.verify_chunk target.grpc_address id nodes)

  abbrev pub after_get :
      AddSteps → StorageNode → N → Catalog → Result String (Option (List ℕ)) → Outcome
  after_get s target nodes c (err e) = ((nodes, c), err (network_error e))
  after_get s target nodes c (ok none) = ((nodes, c), err (chunk_not_found id))
  after_get s target nodes c (ok (some bytes)) =
      after_store s target c (client.store_chunk target.grpc_address id bytes nodes)

  abbrev pub between_nodes :
      AddSteps
      → String
      → String
      → Result TransferError (Option StorageNode)
      → Result TransferError (Option StorageNode)
      → N
      → Catalog
      → Outcome
  between_nodes s source target (err e) b nodes c = ((nodes, c), err e)
  between_nodes s source target (ok none) b nodes c = ((nodes, c), err (source_not_found source))
  between_nodes s source target (ok (some a)) (err e) nodes c = ((nodes, c), err e)
  between_nodes s source target (ok (some a)) (ok none) nodes c =
      ((nodes, c), err (target_not_found target))
  between_nodes s source target (ok (some a)) (ok (some b)) nodes c =
      if length id == 32
      then after_get s b nodes c (client.get_chunk a.grpc_address id nodes)
      else ((nodes, c), err (invalid_length (length id)))

  unfoldable pub transfer_chunk : TransferSteps → (source target : String) → N → Catalog → Outcome
  transfer_chunk s source target nodes c =
      between_nodes s.adds source target (look_up s.finds_source (get_node_by_peer_id source c))
        (look_up s.finds_target (get_node_by_peer_id target c)) nodes c

  abbrev pub push_successful : String → Result TransferError (Unit {0}) → List String → List String
  push_successful target (ok u) rest = target ∷ rest
  push_successful target (err e) rest = rest

  -- The i-th transfer meets the statements `s i`.
  unfoldable pub transfer_to_multiple :
      (ℕ → TransferSteps) → String → List String → N → Catalog → (N × Catalog) × List String
  transfer_to_multiple s source [] nodes c = ((nodes, c), [])
  transfer_to_multiple s source (t ∷ ts) nodes c =
      let out = transfer_chunk (s 0) source t nodes c in
      let rest = transfer_to_multiple (λ i. s (suc i)) source ts out.0.0 out.0.1 in
      (rest.0, push_successful t out.1 rest.1)

  -- The answer of the function of `create_transfer_fn`.
  unfoldable pub answer_of : List String → Result String (List String)
  answer_of successful = if is_empty successful then err "All transfers failed" else ok successful

  unfoldable pub run_transfer :
      (ℕ → TransferSteps)
      → String
      → List String
      → N
      → Catalog
      → (N × Catalog) × Result String (List String)
  run_transfer s source targets nodes c =
      let out = transfer_to_multiple s source targets nodes c in (out.0, answer_of out.1)
