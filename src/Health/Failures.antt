-- ===== src/Health/Failures.antt =====
-- What the count of failures of a node means, over any history of checks, no two of which overlap, and of
-- removals.
use cyxcloud.Prelude.{
  ℕ, ◌+◌, ◌≤◌, Bool, true, false, ◌&&◌, String, Option, none, some, List, [], ◌∷◌, ◌≡◌, ◌↔◌, refl,
  sym, ap, ◌∙◌, subst, if◌then◌else◌, ◌=?◌, string_key, arith,
}
use cyxcloud.Prelude.Assoc.{Map, get, get-insert, get-remove}
use cyxcloud.Health.{
  HealthChecker, HealthCheckResult, HealthConfig, HealthMonitor, new_monitor, record_failures,
  one_failure_more, determine_status, check_result, check_node, remove_node, has_failed,
  should_mark_failed,
}

-- A method that changes the state, with what the checker answers and when.
pub data Event : Type 0 where
  checked : HealthChecker → ℕ → String → Event
  removed : String → Event

abbrev pub apply : Event → HealthMonitor → HealthMonitor
apply (checked checker now address) m = (check_node checker now address m).0
apply (removed address) m = remove_node address m

abbrev pub run : List Event → HealthMonitor → HealthMonitor
run [] m = m
run (e ∷ es) m = run es (apply e m)

-- The node answers on the network and by gRPC.
abbrev pub answers : HealthChecker → String → Bool
answers checker address = (checker.check_network address).0 && checker.check_grpc address

-- The failures of an address since its last success or its removal, counted over the events.
abbrev pub failures_after : String → Event → ℕ → ℕ
failures_after address (checked checker now a) n =
    if a =? address then if answers checker address then 0 else n + 1 else n
failures_after address (removed a) n = if a =? address then 0 else n

abbrev pub trailing_failures : String → List Event → ℕ → ℕ
trailing_failures address [] n = n
trailing_failures address (e ∷ es) n = trailing_failures address es (failures_after address e n)

abbrev pub stored_failures : Option HealthCheckResult → ℕ
stored_failures none = 0
stored_failures (some r) = r.consecutive_failures

one_failure_more-stored :
    (p : Option HealthCheckResult) → one_failure_more p ≡ stored_failures p + 1
one_failure_more-stored none = omega arith
one_failure_more-stored (some p) = refl

failures_of :
    (network grpc : Bool) (p : Option HealthCheckResult) (r : HealthCheckResult)
    → r.consecutive_failures ≡ 0
    → (record_failures network (if network then grpc else false) p r).consecutive_failures
      ≡ (if network && grpc then 0 else stored_failures p + 1)
failures_of false grpc p r h = one_failure_more-stored p
failures_of true false p r h = one_failure_more-stored p
failures_of true true p r h = h

check_result-failures :
    (checker : HealthChecker) (now : ℕ) (a : String) (p : Option HealthCheckResult)
    → (check_result checker now a p).consecutive_failures
      ≡ (if answers checker a then 0 else stored_failures p + 1)
unfolding check_result determine_status
check_result-failures checker now a p =
    failures_of (checker.check_network a).0 (checker.check_grpc a) p _ refl

stored_if :
    (b : Bool) (r : HealthCheckResult) (o : Option HealthCheckResult)
    → stored_failures (if b then some r else o)
      ≡ (if b then r.consecutive_failures else stored_failures o)
stored_if true r o = refl
stored_if false r o = refl

stored_none :
    (b : Bool) (o : Option HealthCheckResult)
    → stored_failures (if b then none else o) ≡ (if b then 0 else stored_failures o)
stored_none true o = refl
stored_none false o = refl

-- Where the addresses are equal, it does not matter which of them is named.
at_same :
    (a address : String) (checker : HealthChecker) (results : Map String HealthCheckResult) (n : ℕ)
    → (if a =? address
        then if answers checker a then 0 else stored_failures (get a results) + 1
        else n)
      ≡ (if a =? address
          then if answers checker address then 0 else stored_failures (get address results) + 1
          else n)
at_same a address checker results n = go (a =? address) (string_key.same_iff a address).0
  where
    go :
        (b : Bool)
        → (b ≡ true → a ≡ address)
        → (if b then if answers checker a then 0 else stored_failures (get a results) + 1 else n)
          ≡ (if b
              then if answers checker address then 0 else stored_failures (get address results) + 1
              else n)
    go true h =
        ap (λ x. if answers checker x then 0 else stored_failures (get x results) + 1) (h refl)
    go false h = refl

apply-failures :
    (address : String) (e : Event) (m : HealthMonitor)
    → stored_failures (get address (apply e m).results)
      ≡ failures_after address e (stored_failures (get address m.results))
unfolding check_node remove_node
apply-failures address (checked checker now a) m =
    let r = check_result checker now a (get a m.results) in
    ap stored_failures (get-insert a address r m.results)
    ∙ stored_if (a =? address) r (get address m.results)
    ∙ ap (λ n. if a =? address then n else stored_failures (get address m.results))
        (check_result-failures checker now a (get a m.results))
    ∙ at_same a address checker m.results (stored_failures (get address m.results))
apply-failures address (removed a) m =
    ap stored_failures (get-remove a address m.results)
    ∙ stored_none (a =? address) (get address m.results)

run-failures :
    (address : String) (es : List Event) (m : HealthMonitor)
    → stored_failures (get address (run es m).results)
      ≡ trailing_failures address es (stored_failures (get address m.results))
run-failures address [] m = refl
run-failures address (e ∷ es) m =
    run-failures address es (apply e m)
    ∙ ap (trailing_failures address es) (apply-failures address e m)

apply-config : (e : Event) (m : HealthMonitor) → (apply e m).config ≡ m.config
unfolding check_node remove_node
apply-config (checked checker now a) m = refl
apply-config (removed a) m = refl

run-config : (es : List Event) (m : HealthMonitor) → (run es m).config ≡ m.config
run-config [] m = refl
run-config (e ∷ es) m = run-config es (apply e m) ∙ apply-config e m

has_failed-stored :
    (threshold : ℕ) (o : Option HealthCheckResult)
    → 1 ≤ threshold
    → (has_failed threshold o ≡ true) ↔ (threshold ≤ stored_failures o)
has_failed-stored threshold none h = ground arith
has_failed-stored threshold (some r) h = ground arith

-- After any history of checks, no two of which overlap, and removals on a new monitor with a positive failure threshold, an
-- address is to be marked as failed exactly where its checks since the last one that was answered on
-- the network and by gRPC, or since its removal, are at least as many as the threshold.
pub should_mark_failed_iff :
    (c : HealthConfig) (es : List Event) (address : String)
    → 1 ≤ c.failure_threshold
    → (should_mark_failed address (run es (new_monitor c)) ≡ true)
      ↔ (c.failure_threshold ≤ trailing_failures address es 0)
unfolding should_mark_failed get
should_mark_failed_iff c es address h =
    let m = run es (new_monitor c) in
    let e1 = ap (λ (k : HealthConfig). k.failure_threshold) (run-config es (new_monitor c)) in
    let e2 = run-failures address es (new_monitor c) in
    subst
      (λ t.
        (has_failed t (get address m.results) ≡ true)
        ↔ (c.failure_threshold ≤ trailing_failures address es 0))
      (sym e1)
      (subst
        (λ n.
          (has_failed c.failure_threshold (get address m.results) ≡ true)
          ↔ (c.failure_threshold ≤ n))
        e2 (has_failed-stored c.failure_threshold (get address m.results) h))
