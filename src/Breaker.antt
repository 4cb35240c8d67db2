-- ===== src/Breaker.antt =====
-- cyxcloud-core/src/circuit_breaker.rs. Here each method is one step, as it is where no other one is under
-- way; Breaker/Threads has the single lock and atomic operations, which threads interleave. `now` is the
-- reading of the monotonic clock, in any unit.
pub mod Threads
pub mod Invariant
pub mod Counting
pub mod Calls
mod Tests
use cyxcloud.Prelude.{
  ℕ, ◌+◌, ◌-◌, ◌%◌, ◌^◌, String, Bool, true, false, Option, none, some, List, [], ◌∷◌, leb,
  if◌then◌else◌,
}
use cyxcloud.Prelude.Results.{Result, ok, err}

pub data CircuitState : Type 0 where
  closed open_ half_open : CircuitState

pub record CircuitBreakerConfig : Type 0 where
  pub failure_threshold : ℕ  -- u64
  pub recovery_timeout : ℕ
  pub name : String

pub record CircuitBreaker : Type 0 where
  pub config : CircuitBreakerConfig
  pub open config use *
  pub state : CircuitState
  pub failure_count : ℕ  -- AtomicU64
  pub success_count : ℕ  -- AtomicU64
  pub last_failure_time : Option ℕ

-- `fetch_add(1)` on an `AtomicU64` wraps.
abbrev pub add_one : ℕ → ℕ
add_one n = (n + 1) % 2 ^ 64

unfoldable pub new : CircuitBreakerConfig → CircuitBreaker
new config = record {
  config = config;
  state = closed;
  failure_count = 0;
  success_count = 0;
  last_failure_time = none;
}

-- `last_failure.elapsed() >= recovery_timeout`, where a failure was recorded; `elapsed` saturates at 0.
abbrev pub has_recovered : ℕ → ℕ → Option ℕ → Bool
has_recovered now timeout none = false
has_recovered now timeout (some last) = leb timeout (now - last)

-- Under the write lock: the state is read again, and only an open circuit becomes half-open.
abbrev pub claim : CircuitState → CircuitBreaker → CircuitBreaker × Bool
claim open_ b = (record b { state = half_open }, true)
claim closed b = (b, false)
claim half_open b = (b, false)

allow_in : CircuitState → ℕ → CircuitBreaker → CircuitBreaker × Bool
allow_in closed now b = (b, true)
allow_in open_ now b =
    if has_recovered now b.recovery_timeout b.last_failure_time then claim b.state b else (b, false)
allow_in half_open now b = (b, true)

unfoldable pub allow_request : ℕ → CircuitBreaker → CircuitBreaker × Bool
unfolding allow_in
allow_request now b = allow_in b.state now b

success_in : CircuitState → CircuitBreaker → CircuitBreaker
success_in half_open b = record b { state = closed; failure_count = 0 }
success_in closed b = record b { failure_count = 0 }
success_in open_ b = b

unfoldable pub record_success : CircuitBreaker → CircuitBreaker
unfolding success_in
record_success b = success_in b.state (record b { success_count = add_one b.success_count })

failure_in : CircuitState → ℕ → CircuitBreaker → CircuitBreaker
failure_in closed count b = if leb b.failure_threshold count then record b { state = open_ } else b
failure_in half_open count b = record b { state = open_ }
failure_in open_ count b = b

unfoldable pub record_failure : ℕ → CircuitBreaker → CircuitBreaker
unfolding failure_in
record_failure now b =
    let count = add_one b.failure_count in
    failure_in b.state count (record b { failure_count = count; last_failure_time = some now })

pub data CircuitBreakerError (E : Type 0) : Type 0 where
  is_open : String → CircuitBreakerError E
  inner : E → CircuitBreakerError E

-- What `call` does once the future has resolved to `r` at time `done`.
settle :
    {E T : Type 0}
    → Result E T
    → ℕ
    → CircuitBreaker
    → CircuitBreaker × Result (CircuitBreakerError E) T
settle (ok val) done b = (record_success b, ok val)
settle (err e) done b = (record_failure done b, err (inner e))

-- `f` is the future: its result and the time at which it resolves, if it is polled at all.
unfoldable pub call :
    {E T : Type 0}
    → ℕ
    → (Unit {0} → ℕ × Result E T)
    → CircuitBreaker
    → CircuitBreaker × Result (CircuitBreakerError E) T
unfolding settle
call now f b =
    let (b', allowed) = allow_request now b in
    if allowed then settle (f tt).1 (f tt).0 b' else (b', err (is_open b.name))

-- The methods that users of one breaker call, one after another.
pub data Event : Type 0 where
  asks fails : ℕ → Event
  succeeds : Event

unfoldable pub step : CircuitBreaker → Event → CircuitBreaker
unfolding allow_request record_success record_failure
step b (asks now) = (allow_request now b).0
step b (fails now) = record_failure now b
step b succeeds = record_success b

unfoldable pub run : CircuitBreaker → List Event → CircuitBreaker
unfolding step
run b [] = b
run b (e ∷ es) = run (step b e) es
