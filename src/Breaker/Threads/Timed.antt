-- ===== src/Breaker/Threads/Timed.antt =====
-- What holds under every interleaving of the single operations.
use cyxcloud.Prelude.{
  ℕ, zero, suc, ◌+◌, ◌≤◌, ◌≡◌, ◌≢◌, refl, Bool, true, false, if◌then◌else◌, leb, subst, ◌∙◌, Option,
  none, some, List, [], ◌∷◌, All, All-imp, get_elem?, set, arith, ap,
}
use cyxcloud.Breaker.{
  CircuitState, CircuitBreaker, CircuitBreakerConfig, closed, open_, half_open, new, allow_request,
}
use cyxcloud.Breaker.Threads.Alone.{ticks, ticks_alone}
use cyxcloud.Breaker.Threads.{
  state_seen, claim_open, success_seen, failure_seen, Task, asking, timing, claiming, answered,
  succeeding, success_reads, success_closes, success_resets, failing, failure_stamps, failure_reads,
  failure_opens, done, tick, advance, run_threads,
}

-- A thread at the start of a method.
abbrev pub IsStart : Task → Type 0
IsStart (asking now) = Unit
IsStart succeeding = Unit
IsStart (failing now) = Unit
IsStart (timing now) = ⊥
IsStart claiming = ⊥
IsStart (answered r) = ⊥
IsStart success_reads = ⊥
IsStart success_closes = ⊥
IsStart success_resets = ⊥
IsStart (failure_stamps count now) = ⊥
IsStart (failure_reads count) = ⊥
IsStart failure_opens = ⊥
IsStart done = ⊥

-- Once the circuit is not closed the time of a failure is on record.
abbrev pub IsTimed : CircuitBreaker → Type 0
IsTimed b = b.state ≢ closed → b.last_failure_time ≢ none

-- A thread that may open the circuit has recorded the time.
abbrev IsStamped : CircuitBreaker → Task → Type 0
IsStamped b (failure_reads count) = b.last_failure_time ≢ none
IsStamped b failure_opens = b.last_failure_time ≢ none
IsStamped b (asking now) = Unit
IsStamped b (timing now) = Unit
IsStamped b claiming = Unit
IsStamped b (answered r) = Unit
IsStamped b succeeding = Unit
IsStamped b success_reads = Unit
IsStamped b success_closes = Unit
IsStamped b success_resets = Unit
IsStamped b (failing now) = Unit
IsStamped b (failure_stamps count now) = Unit
IsStamped b done = Unit

abbrev Keeps : CircuitBreaker → CircuitBreaker → Type 0
Keeps b c = b.last_failure_time ≢ none → c.last_failure_time ≢ none

tick-IsTimed :
    (b : CircuitBreaker) (t : Task)
    → IsTimed b
    → IsStamped b t
    → IsTimed (tick b t).0 × Keeps b (tick b t).0
unfolding tick
tick-IsTimed b (asking now) h s = (h, λ k. k)
tick-IsTimed b (timing now) h s = (h, λ k. k)
tick-IsTimed b claiming h s = ground arith
tick-IsTimed b (answered r) h s = (h, λ k. k)
tick-IsTimed b succeeding h s = (h, λ k. k)
tick-IsTimed b success_reads h s = (h, λ k. k)
tick-IsTimed b success_closes h s = (λ n. absurd (n refl), λ k. k)
tick-IsTimed b success_resets h s = (h, λ k. k)
tick-IsTimed b (failing now) h s = (h, λ k. k)
tick-IsTimed b (failure_stamps count now) h s = ground arith
tick-IsTimed b (failure_reads count) h s = (h, λ k. k)
tick-IsTimed b failure_opens h s = (λ n. s, λ k. k)
tick-IsTimed b done h s = (h, λ k. k)

state_seen-IsStamped :
    (b : CircuitBreaker) (s : CircuitState) (now : ℕ) → IsStamped b (state_seen s now)
state_seen-IsStamped b closed now = tt
state_seen-IsStamped b open_ now = tt
state_seen-IsStamped b half_open now = tt

timing-IsStamped :
    (b : CircuitBreaker) (c : Bool) → IsStamped b (if c then claiming else answered false)
timing-IsStamped b true = tt
timing-IsStamped b false = tt

claim_open-IsStamped : (b c : CircuitBreaker) (s : CircuitState) → IsStamped c (claim_open s b).1
claim_open-IsStamped b c closed = tt
claim_open-IsStamped b c open_ = tt
claim_open-IsStamped b c half_open = tt

success_seen-IsStamped : (b : CircuitBreaker) (s : CircuitState) → IsStamped b (success_seen s)
success_seen-IsStamped b closed = tt
success_seen-IsStamped b open_ = tt
success_seen-IsStamped b half_open = tt

if-IsStamped :
    (b : CircuitBreaker) (c : Bool)
    → b.last_failure_time ≢ none
    → IsStamped b (if c then failure_opens else done)
if-IsStamped b true h = h
if-IsStamped b false h = tt

failure_seen-IsStamped :
    (b : CircuitBreaker) (s : CircuitState) (threshold count : ℕ)
    → b.last_failure_time ≢ none
    → IsStamped b (failure_seen s threshold count)
failure_seen-IsStamped b closed threshold count h = if-IsStamped b (leb threshold count) h
failure_seen-IsStamped b half_open threshold count h = h
failure_seen-IsStamped b open_ threshold count h = tt

tick-IsStamped :
    (b : CircuitBreaker) (t : Task) → IsStamped b t → IsStamped (tick b t).0 (tick b t).1
unfolding tick
tick-IsStamped b (asking now) s = state_seen-IsStamped b b.state now
tick-IsStamped b (timing now) s = timing-IsStamped b _
tick-IsStamped b claiming s = claim_open-IsStamped b (claim_open b.state b).0 b.state
tick-IsStamped b (answered r) s = tt
tick-IsStamped b succeeding s = tt
tick-IsStamped b success_reads s = success_seen-IsStamped b b.state
tick-IsStamped b success_closes s = tt
tick-IsStamped b success_resets s = tt
tick-IsStamped b (failing now) s = tt
tick-IsStamped b (failure_stamps count now) s = λ e. absurd (ground (arith, e))
tick-IsStamped b (failure_reads count) s =
    failure_seen-IsStamped b b.state b.failure_threshold count s
tick-IsStamped b failure_opens s = tt
tick-IsStamped b done s = tt

keep-IsStamped : (b c : CircuitBreaker) → Keeps b c → (t : Task) → IsStamped b t → IsStamped c t
keep-IsStamped b c k (failure_reads count) s = k s
keep-IsStamped b c k failure_opens s = k s
keep-IsStamped b c k (asking now) s = tt
keep-IsStamped b c k (timing now) s = tt
keep-IsStamped b c k claiming s = tt
keep-IsStamped b c k (answered r) s = tt
keep-IsStamped b c k succeeding s = tt
keep-IsStamped b c k success_reads s = tt
keep-IsStamped b c k success_closes s = tt
keep-IsStamped b c k success_resets s = tt
keep-IsStamped b c k (failing now) s = tt
keep-IsStamped b c k (failure_stamps count now) s = tt
keep-IsStamped b c k done s = tt

start-IsStamped : (b : CircuitBreaker) (t : Task) → IsStart t → IsStamped b t
start-IsStamped b (failure_reads count) h = absurd h
start-IsStamped b failure_opens h = absurd h
start-IsStamped b (asking now) s = tt
start-IsStamped b (timing now) s = tt
start-IsStamped b claiming s = tt
start-IsStamped b (answered r) s = tt
start-IsStamped b succeeding s = tt
start-IsStamped b success_reads s = tt
start-IsStamped b success_closes s = tt
start-IsStamped b success_resets s = tt
start-IsStamped b (failing now) s = tt
start-IsStamped b (failure_stamps count now) s = tt
start-IsStamped b done s = tt

All-set :
    (P : Task → Type 0) (ts : List Task) (i : ℕ) (t : Task) → All P ts → P t → All P (set ts i t)
All-set P [] i t h p = tt
All-set P (x ∷ xs) zero t h p = (p, h.1)
All-set P (x ∷ xs) (suc i) t h p = (h.0, All-set P xs i t h.1 p)

All-get :
    (P : Task → Type 0) (ts : List Task) (i : ℕ) (t : Task)
    → All P ts
    → get_elem? ts i ≡ some t
    → P t
All-get P [] i t h e = absurd (ground arith)
All-get P (x ∷ xs) zero t h e = subst P (some_task x t e) h.0
  where
    some_task : (a c : Task) → some a ≡ some c → a ≡ c
    some_task a c p = ap (λ (o : Option Task). elim o [ none ↦ a | some z ↦ z ]) p
All-get P (x ∷ xs) (suc i) t h e = All-get P xs i t h.1 e

advance-IsTimed :
    (o : Option Task) (i : ℕ) (b : CircuitBreaker) (ts : List Task)
    → get_elem? ts i ≡ o
    → IsTimed b
    → All (IsStamped b) ts
    → IsTimed (advance o i b ts).0 × All (IsStamped (advance o i b ts).0) (advance o i b ts).1
advance-IsTimed none i b ts e h s = (h, s)
advance-IsTimed (some t) i b ts e h s =
    let stamped = All-get (IsStamped b) ts i t s e in
    let (h', k) = tick-IsTimed b t h stamped in
    (
      h',
      All-set (IsStamped (tick b t).0) ts i (tick b t).1
          (All-imp (keep-IsStamped b (tick b t).0 k) ts s) (tick-IsStamped b t stamped),
    )

run_from :
    (is : List ℕ) (b : CircuitBreaker) (ts : List Task)
    → IsTimed b
    → All (IsStamped b) ts
    → IsTimed (run_threads is b ts).0
unfolding run_threads
run_from [] b ts h s = h
run_from (i ∷ is) b ts h s =
    let (h', s') = advance-IsTimed (get_elem? ts i) i b ts refl h s in run_from is _ _ h' s'

-- On a fresh breaker, however the single operations of any number of requests, successes and failures are
-- interleaved, the time of a failure is on record whenever the circuit is not closed.
pub run_threads-IsTimed :
    (c : CircuitBreakerConfig) (ts : List Task) (is : List ℕ)
    → All IsStart ts
    → IsTimed (run_threads is (new c) ts).0
unfolding new
run_threads-IsTimed c ts is h =
    run_from is (new c) ts (λ n. absurd (n refl)) (All-imp (start-IsStamped (new c)) ts h)

allow_request_from :
    (b : CircuitBreaker) (o : Option ℕ)
    → IsTimed b
    → b.last_failure_time ≡ o
    → (t : ℕ) × ((now : ℕ) → t ≤ now → (allow_request now b).1 ≡ true)
unfolding allow_request
allow_request_from b none v e = (0, λ now h. ground arith)
allow_request_from b (some last) v e = (last + b.recovery_timeout, λ now h. ground arith)

-- The circuit can always be left: however the single operations of any number of requests, successes and
-- failures on a fresh breaker have been interleaved, there is a time such that one request that comes then or
-- later, and that no other thread interrupts, is let through.
pub allow_request_eventually :
    (c : CircuitBreakerConfig) (ts : List Task) (is : List ℕ)
    → All IsStart ts
    → (t : ℕ) × ((now : ℕ)
        → t ≤ now
        → (ticks 3 (run_threads is (new c) ts).0 (asking now)).1 ≡ answered true)
allow_request_eventually c ts is h =
    let b = (run_threads is (new c) ts).0 in
    let (t, allowed) =
      allow_request_from b b.last_failure_time (run_threads-IsTimed c ts is h) refl in
    (
      t,
      λ now le.
          ap (λ (r : CircuitBreaker × Task). r.1) (ticks_alone b now).0
          ∙ ap answered (allowed now le),
    )
