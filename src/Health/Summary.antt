-- ===== src/Health/Summary.antt =====
-- What one check records, and what the summary counts.
use cyxcloud.Prelude.{
  ℕ, ◌+◌, ◌/◌, Bool, true, false, ◌&&◌, String, Option, none, some, List, [], ◌∷◌, ◌≡◌, ◌≢◌, refl,
  ap, ◌∙◌, if◌then◌else◌, length, ltb, =?_refl, =?_ne, string_key, arith,
}
use cyxcloud.Prelude.Assoc.{Map, get, get-insert}
use cyxcloud.Health.{
  HealthStatus, healthy, degraded, unhealthy, unknown, HealthChecker, HealthCheckResult,
  HealthMonitor, HealthSummary, empty_summary, determine_status, check_result, check_node,
  record_failures, get_status, is_healthy_result, is_unhealthy_status, addresses_where,
  get_healthy_nodes, get_unhealthy_nodes, count_status, count_latency, count_results, get_summary,
}
use cyxcloud.Health.Failures.{answers}

status_of :
    (network grpc storage : Bool) (p : Option HealthCheckResult) (r : HealthCheckResult)
    → r.network_ok ≡ network
    → r.grpc_ok ≡ (if network then grpc else false)
    → r.storage_ok ≡ (if (if network then grpc else false) then storage else false)
    → (determine_status (record_failures network (if network then grpc else false) p r)).status
      ≡ (if network && grpc then if storage then healthy else degraded else unhealthy)
unfolding determine_status
status_of false grpc storage p r h k l = ground (arith, h)
status_of true false storage p r h k l = ground (arith, h, k, l)
status_of true true true p r h k l = ground (arith, h, k, l)
status_of true true false p r h k l = ground (arith, h, k, l)

-- A check stores its result under the address and touches no other address. The result is healthy where
-- all three checks pass, degraded where only that of the storage fails, and unhealthy otherwise.
pub check_node_outcome :
    (checker : HealthChecker) (now : ℕ) (address : String) (m : HealthMonitor)
    → let (m', r) = check_node checker now address m in
      (r.status ≡ (
        if answers checker address
        then if checker.check_storage address then healthy else degraded
        else unhealthy))
      × (get_status address m' ≡ some r)
      × ((other : String) → address ≢ other → get_status other m' ≡ get_status other m)
unfolding check_node
check_node_outcome checker now address m = (
  status_result,
  get-insert address address _ m.results
      ∙ ap
          (λ b.
            if b
            then some (check_result checker now address (get address m.results))
            else get address m.results)
          (=?_refl address),
  λ other n.
      get-insert address other _ m.results
      ∙ ap
          (λ b.
            if b
            then some (check_result checker now address (get address m.results))
            else get other m.results)
          (=?_ne address other n),
)
  where
    status_result : (check_result checker now address (get address m.results)).status ≡ (
        if answers checker address
        then if checker.check_storage address then healthy else degraded
        else unhealthy)
    status_result =
        unfold check_result in
        status_of (checker.check_network address).0 (checker.check_grpc address)
          (checker.check_storage address) (get address m.results) _ refl refl refl

-- The counts agree with a list of results.
abbrev Counts : HealthSummary → HealthSummary → (total good bad : ℕ) → Type 0
Counts s s' total good bad =
    (s'.total ≡ s.total + total)
    × (s'.healthy_count ≡ s.healthy_count + good)
    × (s'.unhealthy_count ≡ s.unhealthy_count + bad)
    × (s'.healthy_count + s'.degraded_count + s'.unhealthy_count + s'.unknown_count + s.total
        ≡ s.healthy_count + s.degraded_count + s.unhealthy_count + s.unknown_count + s'.total)

abbrev one_if : Bool → ℕ
one_if true = 1
one_if false = 0

count_latency-Counts :
    (o : Option ℕ) (s t : HealthSummary) (a b c : ℕ)
    → Counts s t a b c
    → Counts s (count_latency o t) a b c
count_latency-Counts none s t a b c h = h
count_latency-Counts (some l) s t a b c h = h

count_status-Counts :
    (r : HealthCheckResult) (s : HealthSummary)
    → Counts s
        (count_status r.status (record s { total = s.total + 1 }))
        1
        (one_if (is_healthy_result r))
        (one_if (is_unhealthy_status r.status))
count_status-Counts r s = go r.status
  where
    go :
        (t : HealthStatus)
        → Counts s
            (count_status t (record s { total = s.total + 1 }))
            1
            (one_if (elim t [ healthy ↦ true | _ ↦ false ]))
            (one_if (is_unhealthy_status t))
    go healthy = (refl, refl, omega arith, omega arith)
    go degraded = (refl, omega arith, omega arith, omega arith)
    go unhealthy = (refl, omega arith, refl, omega arith)
    go unknown = (refl, omega arith, omega arith, omega arith)

length_if :
    {A : Type 0} (b : Bool) (x : A) (xs : List A)
    → length (if b then x ∷ xs else xs) ≡ one_if b + length xs
length_if true x xs = omega arith
length_if false x xs = omega arith

count_results-Counts :
    (rs : Map String HealthCheckResult) (s : HealthSummary)
    → Counts s
        (count_results rs s)
        (length rs)
        (length (addresses_where is_healthy_result rs))
        (length (addresses_where (λ r. is_unhealthy_status r.status) rs))
unfolding addresses_where
count_results-Counts [] s = (omega arith, omega arith, omega arith, omega arith)
count_results-Counts ((a, r) ∷ rs) s =
    let one =
      count_latency-Counts r.latency_ms s (count_status r.status (record s { total = s.total + 1 }))
        1 (one_if (is_healthy_result r)) (one_if (is_unhealthy_status r.status))
        (count_status-Counts r s) in
    let rest =
      count_results-Counts rs
        (count_latency r.latency_ms (count_status r.status (record s { total = s.total + 1 }))) in
    let good = length_if (is_healthy_result r) a (addresses_where is_healthy_result rs) in
    let bad =
      length_if (is_unhealthy_status r.status) a
        (addresses_where (λ q. is_unhealthy_status q.status) rs) in
    (
      omega (arith, one.0, rest.0),
      omega (arith, one.1, rest.1, good),
      omega (arith, one.2, rest.2, bad),
      omega (arith, one.3, rest.3),
    )

average_same :
    (t : Bool) (s : HealthSummary) (l a b c : ℕ)
    → Counts empty_summary s a b c
    → Counts empty_summary (if t then record s { avg_latency_ms = some l } else s) a b c
average_same true s l a b c h = h
average_same false s l a b c h = h

-- The summary counts every stored result once: the four counts add up to the number of results, those
-- of healthy and of unhealthy nodes to the lengths of the lists of such nodes.
pub get_summary_counts :
    (m : HealthMonitor)
    → let s = get_summary m in
      (s.total ≡ length m.results)
      × (s.healthy_count ≡ length (get_healthy_nodes m))
      × (s.unhealthy_count ≡ length (get_unhealthy_nodes m))
      × (s.healthy_count + s.degraded_count + s.unhealthy_count + s.unknown_count ≡ s.total)
unfolding get_summary
get_summary_counts m =
    let counted = count_results m.results empty_summary in
    let h =
      average_same (ltb 0 counted.latency_samples) counted
        (counted.total_latency_ms / counted.latency_samples) _ _ _
        (count_results-Counts m.results empty_summary) in
    (omega (arith, h.0), omega (arith, h.1), omega (arith, h.2), omega (arith, h.3))
