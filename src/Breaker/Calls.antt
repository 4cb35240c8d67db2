-- ===== src/Breaker/Calls.antt =====
-- What one request or one `call` does in each state of the circuit.
use cyxcloud.Prelude.{ℕ, ◌+◌, ◌≤◌, ◌<◌, ◌≡◌, some, arith}
use cyxcloud.Prelude.Results.{Result, ok, err}
use cyxcloud.Breaker.{
  CircuitBreaker, closed, open_, allow_request, record_success, record_failure, call, inner,
  is_open, add_one,
}

module _ {E T : Type 0} (b : CircuitBreaker) (last now : ℕ) (f : Unit {0} → ℕ × Result E T) where
  -- Before its timeout has passed since the last failure an open circuit rejects a call, whatever the
  -- operation is, and does not change.
  pub call_rejects :
      b.state ≡ open_
      → b.last_failure_time ≡ some last
      → last ≤ now
      → now < last + b.recovery_timeout
      → call now f b ≡ (b, err (is_open b.name))
  unfolding call allow_request
  call_rejects s t p h = ground arith

  -- Once the timeout has passed the operation is run and its own result is returned: a success closes
  -- the circuit and clears the failures, a failure opens it again for a full timeout from then on.
  pub call_probes :
      b.state ≡ open_
      → b.last_failure_time ≡ some last
      → last + b.recovery_timeout ≤ now
      → ((v : T)
          → (f tt).1 ≡ ok v
          → call now f b ≡ (
            record b { state = closed; failure_count = 0; success_count = add_one b.success_count },
            ok v,
          ))
        × ((e : E)
            → (f tt).1 ≡ err e
            → call now f b ≡ (
              record b {
                state = open_;
                failure_count = add_one b.failure_count;
                last_failure_time = some (f tt).0;
              },
              err (inner e),
            ))
  unfolding call allow_request record_success record_failure
  call_probes s t h = (λ v r. ground arith, λ e r. ground arith)
