-- ===== src/Breaker/Invariant.antt =====
-- What holds of a circuit breaker after any sequence of requests, successes and failures, none of which overlap.
use cyxcloud.Prelude.{◌^◌, ◌<◌, ◌≡◌, ◌≢◌, refl, none, List, [], ◌∷◌, arith, ◌∙◌, ap}
use cyxcloud.Breaker.{
  CircuitBreaker, CircuitBreakerConfig, closed, Event, asks, fails, succeeds, new, step, run,
}

-- A threshold that a `u64` holds and that one success satisfies.
pub record IsUsable (c : CircuitBreakerConfig) : Type 0 where
  pub positive : 0 < c.failure_threshold
  pub fits : c.failure_threshold < 2 ^ 64

pub record Inv (b : CircuitBreaker) : Type 0 where
  pub usable : IsUsable b.config
  pub below : b.state ≡ closed → b.failure_count < b.failure_threshold
  pub timed : b.state ≢ closed → b.last_failure_time ≢ none

pub new-Inv : (c : CircuitBreakerConfig) → IsUsable c → Inv (new c)
unfolding new
new-Inv c u = record { usable = u; below = λ _. u.positive; timed = λ h. absurd (h refl) }

pub step-Inv : (b : CircuitBreaker) (e : Event) → Inv b → Inv (step b e)
unfolding step
step-Inv b (asks now) v = ground arith
step-Inv b (fails now) v = ground arith
step-Inv b succeeds v = ground arith

run-Inv : (b : CircuitBreaker) (es : List Event) → Inv b → Inv (run b es)
unfolding run
run-Inv b [] v = v
run-Inv b (e ∷ es) v = run-Inv (step b e) es (step-Inv b e v)

-- From a fresh breaker with a usable threshold, after any sequence of requests, successes and
-- failures: while the circuit is closed the failures counted are below the threshold, and while it is
-- not closed the time of a failure is on record.
pub run-new-Inv : (c : CircuitBreakerConfig) (es : List Event) → IsUsable c → Inv (run (new c) es)
run-new-Inv c es u = run-Inv (new c) es (new-Inv c u)

config-step : (b : CircuitBreaker) (e : Event) → (step b e).config ≡ b.config
unfolding step
config-step b (asks now) = ground arith
config-step b (fails now) = ground arith
config-step b succeeds = ground arith

config-run : (b : CircuitBreaker) (es : List Event) → (run b es).config ≡ b.config
unfolding run
config-run b [] = refl
config-run b (e ∷ es) = config-run (step b e) es ∙ config-step b e

pub threshold-run :
    (c : CircuitBreakerConfig) (es : List Event)
    → (run (new c) es).failure_threshold ≡ c.failure_threshold
unfolding new
threshold-run c es = ap (λ (k : CircuitBreakerConfig). k.failure_threshold) (config-run (new c) es)
