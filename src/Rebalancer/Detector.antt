-- ===== src/Rebalancer/Detector.antt =====
-- cyxcloud-rebalancer/src/detector.rs: the issues and their priorities, and the scan. The time stamp of an issue is left
-- out, since nothing reads it.
use cyxcloud.Prelude.{
  ℕ, ◌+◌, ◌-◌, ◌*◌, ◌%◌, ◌^◌, String, Option, none, some, List, [], ◌∷◌, Bool, true, false, ltb,
  leb, ◌==◌, not, ◌||◌, length, is_empty, if◌then◌else◌, ◌=?◌, string_key,
}
use cyxcloud.Prelude.Rows.{select}
use cyxcloud.Prelude.Assoc.{Map, get, insert}
use cyxcloud.Prelude.Results.{Result, guard, ok, err, ◌>>◌, ◌>>=◌}
use cyxcloud.Error.{Outcome, panics}

pub data ChunkHealth : Type 0 where
  healthy : ChunkHealth
  under_replicated over_replicated : (current target : ℕ) → ChunkHealth
  critical orphaned : ChunkHealth
  corrupt : (node_ids : List String) → ChunkHealth

pub record ChunkIssue : Type 0 where
  pub chunk_id : List ℕ
  pub health : ChunkHealth
  pub current_nodes : List String
  pub file_id : Option String
  pub priority : ℕ

-- The subtraction is checked on `usize`, the sum and the product on `u32`.
unfoldable pub calculate_priority : ChunkHealth → Outcome ℕ
calculate_priority critical = ok 1000
calculate_priority (under_replicated current target) =
    if current == 0
    then ok 900
    else if current == 1
    then ok 800
    else guard (not (ltb target current)) panics
      >> guard (ltb (500 + (target - current) % 2 ^ 32 * 100) (2 ^ 32)) panics
      >> ok (500 + (target - current) % 2 ^ 32 * 100)
calculate_priority (corrupt node_ids) = ok 700
calculate_priority (over_replicated current target) = ok 100
calculate_priority orphaned = ok 50
calculate_priority healthy = ok 0

pub data NodeAvailability : Type 0 where
  online recovering unavailable : NodeAvailability

pub data DetectorError : Type 0 where
  metadata network storage : String → DetectorError

pub record DetectorConfig : Type 0 where
  pub replication_factor : ℕ
  pub batch_size : ℕ
  pub scan_interval : ℕ

pub record ChunkInfo : Type 0 where
  pub chunk_id : List ℕ
  pub node_ids : List String
  pub file_id : Option String
  pub size : ℕ

-- The lists of other issues are never filled.
pub record ScanResult : Type 0 where
  pub total_scanned : ℕ
  pub under_replicated : List ChunkIssue

pub record Detector : Type 0 where
  pub config : DetectorConfig
  pub last_scan : Option ℕ
  pub node_health : Map String Bool
  pub node_availability : Map String NodeAvailability

-- The two clients: what their calls give, errors as texts.
pub record Clients : Type 0 where
  pub get_all_nodes : Result String (List String)
  pub check_node_availability : String → Result String NodeAvailability
  pub get_under_replicated_chunks : ℕ → Result String (List ChunkInfo)

abbrev pub or_unavailable : Result String NodeAvailability → NodeAvailability
or_unavailable (err e) = unavailable
or_unavailable (ok a) = a

-- Both online and recovering nodes can be read from.
abbrev pub can_read : NodeAvailability → Bool
can_read online = true
can_read recovering = true
can_read unavailable = false

abbrev pub is_available : NodeAvailability → Bool
is_available unavailable = false
is_available online = true
is_available recovering = true

-- One turn for each node: both caches are written.
unfoldable pub check_nodes :
    (String → Result String NodeAvailability) → List String → Detector → Detector × List String
check_nodes check [] d = (d, [])
check_nodes check (n ∷ ns) d =
    let availability = or_unavailable (check n) in
    let (d', rest) = check_nodes check ns (record d {
      node_availability = insert n availability d.node_availability;
      node_health = insert n (is_available availability) d.node_health;
    }) in
    (d', if can_read availability then n ∷ rest else rest)

abbrev pub get_node_availability : String → Detector → NodeAvailability
get_node_availability n d = elim (get n d.node_availability) [ none ↦ unavailable | some a ↦ a ]

abbrev pub contains : List String → String → Bool
contains [] s = false
contains (x ∷ xs) s = (x =? s) || contains xs s

-- The issue of a chunk, whose nodes are those that can be read from.
unfoldable pub issue_of : ℕ → List String → ChunkInfo → Outcome ChunkIssue
issue_of replication_factor healthy_nodes chunk =
    let available = select (contains healthy_nodes) chunk.node_ids in
    let health =
      if is_empty available
      then critical
      else under_replicated (length available) replication_factor in
    calculate_priority health >>= λ priority. ok (record {
      chunk_id = chunk.chunk_id;
      health = health;
      current_nodes = available;
      file_id = chunk.file_id;
      priority = priority;
    })

unfoldable pub issues_of : ℕ → List String → List ChunkInfo → Outcome (List ChunkIssue)
issues_of replication_factor healthy_nodes [] = ok []
issues_of replication_factor healthy_nodes (c ∷ cs) = do
  i ← issue_of replication_factor healthy_nodes c
  is ← issues_of replication_factor healthy_nodes cs
  ok (i ∷ is)

-- An error that `scan` returns, or the panic on a priority.
pub data ScanFailure : Type 0 where
  reports : DetectorError → ScanFailure
  overflows : ScanFailure

abbrev pub finish_scan :
    ℕ → Detector → Outcome (List ChunkIssue) → Detector × Result ScanFailure ScanResult
finish_scan now d (err e) = (d, err overflows)
finish_scan now d (ok is) = (
  record d { last_scan = some now },
  ok (record { total_scanned = length is; under_replicated = is }),
)

abbrev pub scan_chunks :
    ℕ
    → Detector
    → List String
    → Result String (List ChunkInfo)
    → Detector × Result ScanFailure ScanResult
scan_chunks now d healthy_nodes (err e) = (d, err (reports (metadata e)))
scan_chunks now d healthy_nodes (ok chunks) =
    finish_scan now d (issues_of d.config.replication_factor healthy_nodes chunks)

abbrev pub scan_nodes :
    Clients → ℕ → Detector → Result String (List String) → Detector × Result ScanFailure ScanResult
scan_nodes c now d (err e) = (d, err (reports (network e)))
scan_nodes c now d (ok nodes) =
    let (d', healthy_nodes) = check_nodes c.check_node_availability nodes d in
    scan_chunks now d' healthy_nodes (c.get_under_replicated_chunks d.config.batch_size)

-- `now` is the reading of the clock at the end.
unfoldable pub scan : Clients → ℕ → Detector → Detector × Result ScanFailure ScanResult
scan c now d = scan_nodes c now d c.get_all_nodes

-- `elapsed` saturates at 0.
unfoldable pub should_scan : ℕ → Detector → Bool
should_scan now d = elim d.last_scan [
  | none ↦ true
  | some last ↦ leb d.config.scan_interval (now - last)
]
