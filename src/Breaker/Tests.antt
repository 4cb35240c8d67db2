-- ===== src/Breaker/Tests.antt =====
-- Runs of a breaker, and the theorems about it at concrete inputs.
use cyxcloud.Prelude.{◌≡◌, ◌<◌, refl, some, List, [], ◌∷◌, arith}
use cyxcloud.Breaker.{
  CircuitBreaker, CircuitBreakerConfig, open_, Event, asks, fails, succeeds, new, run, step,
}
use cyxcloud.Breaker.Invariant.{IsUsable}
use cyxcloud.Breaker.Counting.{trailing, closed_counts}

abbrev config : CircuitBreakerConfig
config = record { failure_threshold = 2; recovery_timeout = 10; name = "test" }

abbrev history : List Event
history = fails 3 ∷ succeeds ∷ asks 4 ∷ fails 5 ∷ []

abbrev opened : CircuitBreaker
opened = record {
  config = config;
  state = open_;
  failure_count = 2;
  success_count = 0;
  last_failure_time = some 5;
}

opens_at_threshold : run (new config) (fails 3 ∷ fails 5 ∷ []) ≡ opened
unfolding run new step
opens_at_threshold = refl

config-IsUsable : IsUsable config
config-IsUsable = omega arith

closed_counts_example :
    ((run (new config) history).failure_count ≡ 1)
    × (1 < 2)
    × ((step (run (new config) history) (fails 6)).state ≡ open_)
unfolding trailing step
closed_counts_example = closed_counts config history 6 config-IsUsable (unfold run new in refl)
