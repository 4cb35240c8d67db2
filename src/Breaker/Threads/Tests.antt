-- ===== src/Breaker/Threads/Tests.antt =====
-- Interleavings of the single operations: where the methods are not one step.
use cyxcloud.Prelude.{ℕ, ◌≡◌, ◌≤◌, refl, true, false, List, [], ◌∷◌}
use cyxcloud.Breaker.{CircuitBreakerConfig, closed, new}
use cyxcloud.Breaker.Threads.{Task, asking, answered, succeeding, failing, done, tick, run_threads}
use cyxcloud.Breaker.Threads.Alone.{ticks}
use cyxcloud.Breaker.Threads.Timed.{IsTimed, run_threads-IsTimed, allow_request_eventually}

abbrev config : CircuitBreakerConfig
config = record { failure_threshold = 1; recovery_timeout = 10; name = "test" }

-- The count has reached the threshold, and the circuit is still closed.
counted_but_closed :
    let b = (run_threads (0 ∷ 0 ∷ []) (new config) (failing 5 ∷ [])).0 in
    (b.failure_count ≡ 1) × (b.state ≡ closed)
unfolding run_threads tick new
counted_but_closed = (refl, refl)

-- Of two requests after the timeout that both see the circuit open, the second is refused.
one_of_two :
    (run_threads
      (0 ∷ 0 ∷ 0 ∷ 0 ∷ 1 ∷ 2 ∷ 1 ∷ 2 ∷ 1 ∷ 2 ∷ [])
      (new config)
      (failing 5 ∷ asking 20 ∷ asking 20 ∷ [])).1
    ≡ done ∷ answered true ∷ answered false ∷ []
unfolding run_threads tick new
one_of_two = refl

abbrev threads : List Task
threads = failing 5 ∷ succeeding ∷ asking 20 ∷ []

abbrev schedule : List ℕ
schedule = 0 ∷ 1 ∷ 0 ∷ 0 ∷ 1 ∷ 0 ∷ 2 ∷ 2 ∷ []

run_threads-IsTimed_example : IsTimed (run_threads schedule (new config) threads).0
run_threads-IsTimed_example = run_threads-IsTimed config threads schedule (tt, (tt, (tt, tt)))

allow_request_eventually_example :
    (t : ℕ) × ((now : ℕ)
      → t ≤ now
      → (ticks 3 (run_threads schedule (new config) threads).0 (asking now)).1 ≡ answered true)
allow_request_eventually_example =
    allow_request_eventually config threads schedule (tt, (tt, (tt, tt)))
