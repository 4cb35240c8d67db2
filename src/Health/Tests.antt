-- ===== src/Health/Tests.antt =====
-- Runs of the health monitor.
use cyxcloud.Prelude.{
  map, ◌≤◌, true, false, none, some, List, [], ◌∷◌, ◌≡◌, ◌↔◌, refl, string_key, arith,
}
use cyxcloud.Prelude.Assoc.{get, insert}
use cyxcloud.Health.{
  HealthChecker, HealthMonitor, previous_result, store_result, check_addresses,
  default_health_config, new_monitor, check_node, check_result, determine_status,
  should_mark_failed,
}
use cyxcloud.Health.Failures.{
  Event, checked, run, stored_failures, trailing_failures, should_mark_failed_iff,
}

abbrev silent : HealthChecker
silent = record {
  check_network = λ a. (false, none);
  check_grpc = λ a. true;
  check_storage = λ a. true;
}

abbrev without_storage : HealthChecker
without_storage = record {
  check_network = λ a. (true, some 3);
  check_grpc = λ a. true;
  check_storage = λ a. false;
}

abbrev history : List Event
history =
    checked silent 1 "a" ∷ checked silent 2 "a" ∷ checked silent 2 "b" ∷ checked silent 3 "a" ∷ []

abbrev monitor : HealthMonitor
monitor = run history (new_monitor default_health_config)

three_failures : should_mark_failed "a" monitor ≡ true
unfolding should_mark_failed check_node check_result determine_status get insert
three_failures = refl

-- A storage check that fails again and again never counts as a failure.
storage_forgiven :
    trailing_failures "a" (checked without_storage 4 "a" ∷ checked without_storage 5 "a" ∷ []) 3 ≡ 0
storage_forgiven = refl

should_mark_failed_iff_example :
    (should_mark_failed "a" monitor ≡ true) ↔ (3 ≤ trailing_failures "a" history 0)
should_mark_failed_iff_example =
    should_mark_failed_iff default_health_config history "a" (omega arith)

-- Two checks of one address that overlap read the same previous result, so that their failures count once.
overlapping :
    stored_failures (
      get "a"
        (store_result "a" (check_result silent 2 "a" (previous_result "a" monitor)) (
          store_result "a"
            (check_result silent 1 "a" (previous_result "a" monitor))
            monitor)).results)
    ≡ 4
unfolding previous_result store_result check_node check_result determine_status get insert
overlapping = refl

-- Of two results for one address the later one is kept.
repeated :
    map (λ p. p.1.consecutive_failures) (check_addresses silent 5 ("c" ∷ "d" ∷ "c" ∷ []) monitor).1
    ≡ 1 ∷ 2 ∷ []
unfolding check_addresses check_node check_result determine_status get insert
repeated = refl
