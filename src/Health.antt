-- ===== src/Health.antt =====
-- cyxcloud-metadata/src/health.rs: the checks of nodes and what is remembered of them. The checker is a
-- parameter: a function from the address to the outcomes of its three methods. The clock is the argument
-- `now`, in seconds, and the maximum age is in the same unit.
pub mod Failures
pub mod Summary
mod Tests
use cyxcloud.Prelude.{
  ℕ, ◌+◌, ◌-◌, ◌/◌, Bool, true, false, not, ◌&&◌, ◌||◌, String, Option, none, some, List, [], ◌∷◌,
  map, ltb, leb, if◌then◌else◌, ◌=?◌, string_key,
}
use cyxcloud.Prelude.Assoc.{Map, get, insert, remove}

pub data HealthStatus : Type 0 where
  healthy degraded unhealthy unknown : HealthStatus

abbrev pub status_text : HealthStatus → String
status_text healthy = "healthy"
status_text degraded = "degraded"
status_text unhealthy = "unhealthy"
status_text unknown = "unknown"

pub record HealthCheckResult : Type 0 where
  pub status : HealthStatus
  pub network_ok : Bool
  pub latency_ms : Option ℕ
  pub grpc_ok : Bool
  pub storage_ok : Bool
  pub checked_at : ℕ
  pub consecutive_failures : ℕ
  pub error : Option String

abbrev pub empty_result : ℕ → HealthCheckResult
empty_result now = record {
  status = unknown;
  network_ok = false;
  latency_ms = none;
  grpc_ok = false;
  storage_ok = false;
  checked_at = now;
  consecutive_failures = 0;
  error = none;
}

abbrev pub is_healthy_status : HealthStatus → Bool
is_healthy_status healthy = true
is_healthy_status degraded = false
is_healthy_status unhealthy = false
is_healthy_status unknown = false

abbrev pub is_unhealthy_status : HealthStatus → Bool
is_unhealthy_status healthy = false
is_unhealthy_status degraded = false
is_unhealthy_status unhealthy = true
is_unhealthy_status unknown = false

abbrev pub is_healthy_result : HealthCheckResult → Bool
is_healthy_result r = is_healthy_status r.status

abbrev pub is_stale_result : ℕ → ℕ → HealthCheckResult → Bool
is_stale_result now max_age r = ltb max_age (now - r.checked_at)

unfoldable pub determine_status : HealthCheckResult → HealthCheckResult
determine_status r = record r {
  status =
      if r.network_ok && r.grpc_ok && r.storage_ok
      then healthy
      else if r.network_ok && (r.grpc_ok || r.storage_ok)
      then degraded
      else unhealthy;
}

pub record HealthConfig : Type 0 where
  pub check_interval : ℕ
  pub check_timeout : ℕ
  pub failure_threshold : ℕ
  pub recovery_threshold : ℕ
  pub stale_threshold : ℕ

abbrev pub default_health_config : HealthConfig
default_health_config = record {
  check_interval = 30;
  check_timeout = 5;
  failure_threshold = 3;
  recovery_threshold = 2;
  stale_threshold = 120;
}

-- What the three methods of the checker answer in one round.
pub record HealthChecker : Type 0 where
  pub check_network : String → Bool × Option ℕ
  pub check_grpc : String → Bool
  pub check_storage : String → Bool

pub record HealthMonitor : Type 0 where
  pub results : Map String HealthCheckResult
  pub config : HealthConfig

abbrev pub new_monitor : HealthConfig → HealthMonitor
new_monitor c = record { results = []; config = c }

-- `previous.map(|p| p.consecutive_failures + 1).unwrap_or(1)`; the count of 32 bits is below its limit.
abbrev pub one_failure_more : Option HealthCheckResult → ℕ
one_failure_more none = 1
one_failure_more (some p) = p.consecutive_failures + 1

abbrev pub record_failures :
    Bool → Bool → Option HealthCheckResult → HealthCheckResult → HealthCheckResult
record_failures false grpc_ok previous r = record r {
  consecutive_failures = one_failure_more previous;
  error = some "Network check failed";
}
record_failures true false previous r = record r {
  consecutive_failures = one_failure_more previous;
  error = some "gRPC check failed";
}
record_failures true true previous r = r

-- The result of one check, from the stored one.
unfoldable pub check_result :
    HealthChecker → ℕ → String → Option HealthCheckResult → HealthCheckResult
check_result checker now address previous =
    let (network, latency) = checker.check_network address in
    let grpc = if network then checker.check_grpc address else false in
    let storage = if grpc then checker.check_storage address else false in
    let result : HealthCheckResult = record {
      status = unknown;
      network_ok = network;
      latency_ms = latency;
      grpc_ok = grpc;
      storage_ok = storage;
      checked_at = now;
      consecutive_failures = 0;
      error = none;
    } in
    determine_status (record_failures network grpc previous result)

-- The two lock acquisitions of a check: the result before it is read, and the new one is stored.
unfoldable pub previous_result : String → HealthMonitor → Option HealthCheckResult
previous_result address m = get address m.results

unfoldable pub store_result : String → HealthCheckResult → HealthMonitor → HealthMonitor
store_result address result m = record m { results = insert address result m.results }

-- A check during which no other one of the address is under way.
unfoldable pub check_node :
    HealthChecker → ℕ → String → HealthMonitor → HealthMonitor × HealthCheckResult
unfolding previous_result store_result
check_node checker now address m =
    let result = check_result checker now address (previous_result address m) in
    (store_result address result m, result)

-- `collect` into a `HashMap`: of two results for an address the later one stays.
abbrev pub add_earlier :
    String
    → HealthCheckResult
    → Option HealthCheckResult
    → Map String HealthCheckResult
    → Map String HealthCheckResult
add_earlier a r none others = (a, r) ∷ others
add_earlier a r (some later) others = others

-- The addresses one after another, without overlap; the results are collected in the order of the addresses.
unfoldable pub check_addresses :
    HealthChecker → ℕ → List String → HealthMonitor → HealthMonitor × Map String HealthCheckResult
check_addresses checker now [] m = (m, [])
check_addresses checker now (a ∷ rest) m =
    let (m1, result) = check_node checker now a m in
    let (m2, others) = check_addresses checker now rest m1 in
    (m2, add_earlier a result (get a others) others)

abbrev pub get_status : String → HealthMonitor → Option HealthCheckResult
get_status address m = get address m.results

unfoldable pub addresses_where :
    (HealthCheckResult → Bool) → Map String HealthCheckResult → List String
addresses_where test [] = []
addresses_where test ((a, r) ∷ rs) =
    let rest = addresses_where test rs in if test r then a ∷ rest else rest

abbrev pub get_healthy_nodes : HealthMonitor → List String
get_healthy_nodes m = addresses_where is_healthy_result m.results

abbrev pub get_unhealthy_nodes : HealthMonitor → List String
get_unhealthy_nodes m = addresses_where (λ r. is_unhealthy_status r.status) m.results

abbrev pub has_failed : ℕ → Option HealthCheckResult → Bool
has_failed threshold none = false
has_failed threshold (some r) = leb threshold r.consecutive_failures

unfoldable pub should_mark_failed : String → HealthMonitor → Bool
should_mark_failed address m = has_failed m.config.failure_threshold (get address m.results)

unfoldable pub remove_node : String → HealthMonitor → HealthMonitor
remove_node address m = record m { results = remove address m.results }

pub record HealthSummary : Type 0 where
  pub total : ℕ
  pub healthy_count : ℕ
  pub degraded_count : ℕ
  pub unhealthy_count : ℕ
  pub unknown_count : ℕ
  pub avg_latency_ms : Option ℕ
  pub total_latency_ms : ℕ
  pub latency_samples : ℕ

abbrev pub empty_summary : HealthSummary
empty_summary = record {
  total = 0;
  healthy_count = 0;
  degraded_count = 0;
  unhealthy_count = 0;
  unknown_count = 0;
  avg_latency_ms = none;
  total_latency_ms = 0;
  latency_samples = 0;
}

abbrev pub count_status : HealthStatus → HealthSummary → HealthSummary
count_status healthy s = record s { healthy_count = s.healthy_count + 1 }
count_status degraded s = record s { degraded_count = s.degraded_count + 1 }
count_status unhealthy s = record s { unhealthy_count = s.unhealthy_count + 1 }
count_status unknown s = record s { unknown_count = s.unknown_count + 1 }

abbrev pub count_latency : Option ℕ → HealthSummary → HealthSummary
count_latency none s = s
count_latency (some l) s = record s {
  total_latency_ms = s.total_latency_ms + l;
  latency_samples = s.latency_samples + 1;
}

abbrev pub count_results : Map String HealthCheckResult → HealthSummary → HealthSummary
count_results [] s = s
count_results ((a, r) ∷ rs) s =
    count_results rs
      (count_latency r.latency_ms (count_status r.status (record s { total = s.total + 1 })))

abbrev pub with_average : HealthSummary → HealthSummary
with_average s =
    if ltb 0 s.latency_samples
    then record s { avg_latency_ms = some (s.total_latency_ms / s.latency_samples) }
    else s

unfoldable pub get_summary : HealthMonitor → HealthSummary
get_summary m = with_average (count_results m.results empty_summary)
