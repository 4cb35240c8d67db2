-- ===== src/Breaker/Threads/Alone.antt =====
-- Where no other thread comes between, the operations of a method amount to the method as one step.
use cyxcloud.Prelude.{ℕ, ◌≡◌, arith, zero, suc}
use cyxcloud.Breaker.{CircuitBreaker, allow_request, record_success, record_failure}
use cyxcloud.Breaker.Threads.{Task, asking, answered, succeeding, failing, done, tick}

-- So many operations of one thread.
abbrev pub ticks : ℕ → CircuitBreaker → Task → CircuitBreaker × Task
ticks zero b t = (b, t)
ticks (suc n) b t = ticks n (tick b t).0 (tick b t).1

pub ticks_alone :
    (b : CircuitBreaker) (now : ℕ)
    → (ticks 3 b (asking now) ≡ ((allow_request now b).0, answered (allow_request now b).1))
      × (ticks 4 b succeeding ≡ (record_success b, done))
      × (ticks 4 b (failing now) ≡ (record_failure now b, done))
unfolding tick allow_request record_success record_failure
ticks_alone b now = (ground arith, ground arith, ground arith)
