-- ===== src/Breaker/Threads.antt =====
-- The lock and atomic operations of cyxcloud-core/src/circuit_breaker.rs one by one: each thread runs one
-- method, and a schedule says which thread makes the next operation.
pub mod Alone
pub mod Timed
mod Tests
use cyxcloud.Prelude.{
  ℕ, Bool, true, false, Option, none, some, List, [], ◌∷◌, leb, if◌then◌else◌, get_elem?, set,
}
use cyxcloud.Breaker.{
  CircuitState, closed, open_, half_open, CircuitBreaker, add_one, has_recovered,
}

-- What a thread does next, with what it has read so far.
pub data Task : Type 0 where
  asking timing : ℕ → Task
  claiming : Task
  answered : Bool → Task
  succeeding success_reads success_closes success_resets : Task
  failing : ℕ → Task
  failure_stamps : (count now : ℕ) → Task
  failure_reads : ℕ → Task
  failure_opens done : Task

abbrev pub state_seen : CircuitState → ℕ → Task
state_seen closed now = answered true
state_seen open_ now = timing now
state_seen half_open now = answered true

abbrev pub claim_open : CircuitState → CircuitBreaker → CircuitBreaker × Task
claim_open open_ b = (record b { state = half_open }, answered true)
claim_open closed b = (b, answered false)
claim_open half_open b = (b, answered false)

abbrev pub success_seen : CircuitState → Task
success_seen half_open = success_closes
success_seen closed = success_resets
success_seen open_ = done

abbrev pub failure_seen : CircuitState → (threshold count : ℕ) → Task
failure_seen closed threshold count = if leb threshold count then failure_opens else done
failure_seen half_open threshold count = failure_opens
failure_seen open_ threshold count = done

-- The next operation of a thread.
unfoldable pub tick : CircuitBreaker → Task → CircuitBreaker × Task
tick b (asking now) = (b, state_seen b.state now)
tick b (timing now) = (
  b,
  if has_recovered now b.recovery_timeout b.last_failure_time then claiming else answered false,
)
tick b claiming = claim_open b.state b
tick b (answered r) = (b, answered r)
tick b succeeding = (record b { success_count = add_one b.success_count }, success_reads)
tick b success_reads = (b, success_seen b.state)
tick b success_closes = (record b { state = closed }, success_resets)
tick b success_resets = (record b { failure_count = 0 }, done)
tick b (failing now) = (
  record b { failure_count = add_one b.failure_count },
  failure_stamps (add_one b.failure_count) now,
)
tick b (failure_stamps count now) = (record b { last_failure_time = some now }, failure_reads count)
tick b (failure_reads count) = (b, failure_seen b.state b.failure_threshold count)
tick b failure_opens = (record b { state = open_ }, done)
tick b done = (b, done)

-- The i-th thread makes an operation, if there is one.
abbrev pub advance : Option Task → ℕ → CircuitBreaker → List Task → CircuitBreaker × List Task
advance none i b ts = (b, ts)
advance (some t) i b ts = ((tick b t).0, set ts i (tick b t).1)

unfoldable pub run_threads : List ℕ → CircuitBreaker → List Task → CircuitBreaker × List Task
run_threads [] b ts = (b, ts)
run_threads (i ∷ is) b ts =
    let next = advance (get_elem? ts i) i b ts in run_threads is next.0 next.1
