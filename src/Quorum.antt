-- ===== src/Quorum.antt =====
-- cyxcloud-metadata/src/quorum.rs. Times are in milliseconds. The requests of one operation run
-- concurrently, so it takes as long as the slowest of them.
pub mod Overlap
pub mod Outcomes
pub mod Fastest
mod Tests
use cyxcloud.Prelude.{
  is_empty, ℕ, ◌+◌, ◌/◌, min, max, String, Bool, true, false, not, Option, none, some, List, [],
  ◌∷◌, map, leb, ltb, ◌==◌, if◌then◌else◌, length, take,
}
use cyxcloud.Prelude.Rows.{select}
use cyxcloud.Prelude.Results.{Result, ok, err, guard, ◌>>=◌, ◌>>◌}
use cyxcloud.Prelude.Sorting.{sort_by, ascending}

pub data QuorumError : Type 0 where
  quorum_not_achieved : (got needed : ℕ) → QuorumError
  no_nodes_available all_failed timed_out : QuorumError
  database network : String → QuorumError

pub record QuorumConfig : Type 0 where
  pub read_quorum : ℕ
  pub write_quorum : ℕ
  pub replication_factor : ℕ
  pub node_timeout : ℕ
  pub quorum_timeout : ℕ

abbrev pub default_config : QuorumConfig
default_config = record {
  read_quorum = 2;
  write_quorum = 2;
  replication_factor = 3;
  node_timeout = 10000;
  quorum_timeout = 30000;
}

abbrev pub strict : ℕ → QuorumConfig
strict replication_factor =
    let majority = replication_factor / 2 + 1 in
    record default_config {
      read_quorum = majority;
      write_quorum = majority;
      replication_factor = replication_factor;
    }

abbrev pub eventual : ℕ → QuorumConfig
eventual replication_factor = record default_config {
  read_quorum = 1;
  write_quorum = 1;
  replication_factor = replication_factor;
}

unfoldable pub validate : QuorumConfig → Result QuorumError (Unit {0})
validate c =
    guard (not (c.read_quorum == 0)) (quorum_not_achieved 0 1)
    >> guard (not (c.write_quorum == 0)) (quorum_not_achieved 0 1)
    >> guard (not (ltb c.replication_factor c.write_quorum))
        (quorum_not_achieved c.replication_factor c.write_quorum)

pub record NodeResult (T : Type 0) : Type 0 where
  pub node_id : String
  pub result : Result String T
  pub latency_ms : ℕ

pub record QuorumResult (T : Type 0) : Type 0 where
  pub successes : List (NodeResult T)
  pub failures : List (NodeResult T)
  pub quorum_achieved : Bool
  pub total_latency_ms : ℕ

-- A request to a node: when it is answered and how, where it is answered at all.
abbrev pub Request : Type 0 → Type 0
Request T = String → Option (ℕ × Result String T)

-- `timeout(node_timeout, op(node))`: the future is polled before the timer is.
unfoldable pub answer : {T : Type 0} → ℕ → String → Option (ℕ × Result String T) → NodeResult T
answer limit node none = record { node_id = node; result = err "timeout"; latency_ms = limit }
answer limit node (some (t, r)) =
    if leb t limit
    then record { node_id = node; result = r; latency_ms = t }
    else record { node_id = node; result = err "timeout"; latency_ms = limit }

abbrev pub is_ok : {T : Type 0} → Result String T → Bool
is_ok (ok a) = true
is_ok (err e) = false

abbrev pub succeeded : {T : Type 0} → NodeResult T → Bool
succeeded r = is_ok r.result

unfoldable pub slowest : {T : Type 0} → List (NodeResult T) → ℕ
slowest [] = 0
slowest (r ∷ rs) = max r.latency_ms (slowest rs)

abbrev pub ask_all : {T : Type 0} → ℕ → Request T → List String → List (NodeResult T)
ask_all limit operation nodes = map (λ node. answer limit node (operation node)) nodes

-- `timeout(quorum_timeout, join_all(futures))`
unfoldable pub join_within :
    {T : Type 0} → ℕ → List (NodeResult T) → Result QuorumError (List (NodeResult T))
join_within limit results = if leb (slowest results) limit then ok results else err timed_out

-- The successes and failures, and whether there are enough of the former.
unfoldable pub tally : {T : Type 0} → ℕ → List (NodeResult T) → QuorumResult T
tally needed results =
    let successes = select succeeded results in
    record {
      successes = successes;
      failures = select (λ r. not (succeeded r)) results;
      quorum_achieved = leb needed (length successes);
      total_latency_ms = slowest results;
    }

unfoldable pub read_with_quorum :
    {T : Type 0} → QuorumConfig → List String → Request T → Result QuorumError (QuorumResult T)
read_with_quorum c nodes operation =
    guard (not (is_empty nodes)) no_nodes_available
    >> join_within c.quorum_timeout (ask_all c.node_timeout operation nodes)
    >>= λ results. ok (tally (min c.read_quorum (length nodes)) results)

unfoldable pub write_with_quorum :
    QuorumConfig → List String → Request (Unit {0}) → Result QuorumError (QuorumResult (Unit {0}))
write_with_quorum c nodes operation =
    let needed = min c.write_quorum (length nodes) in
    guard (not (is_empty nodes)) no_nodes_available
    >> join_within c.quorum_timeout (ask_all c.node_timeout operation nodes)
    >>= λ results.
        let r = tally needed results in
        guard r.quorum_achieved (quorum_not_achieved (length r.successes) needed) >> ok r

-- The answers to the pings, with their latencies.
unfoldable pub reachable : (String → Option ℕ) → List String → List (String × ℕ)
reachable ping [] = []
reachable ping (node ∷ nodes) =
    let rest = reachable ping nodes in
    elim (ping node) [ none ↦ rest | some latency ↦ (node, latency) ∷ rest ]

unfoldable pub select_fastest_nodes : List String → ℕ → (String → Option ℕ) → List String
select_fastest_nodes nodes count ping =
    map (λ r. r.0) (take count (sort_by (ascending (λ r. r.1)) (reachable ping nodes)))

unfoldable pub repair_chunk :
    {H : Type 0}
    → QuorumConfig
    → H
    → String
    → List String
    → (String → String → H → Option (ℕ × Result String (Unit {0})))
    → Result QuorumError (List String)
repair_chunk c chunk_id source_node target_nodes transfer =
    write_with_quorum c target_nodes (λ target. transfer source_node target chunk_id) >>= λ result.
    ok (map (λ r. r.node_id) result.successes)
