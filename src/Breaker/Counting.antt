-- ===== src/Breaker/Counting.antt =====
-- The failure counter against an independent count: the failures since the last success.
use cyxcloud.Prelude.{ℕ, ◌+◌, ◌<◌, ◌≡◌, refl, List, [], ◌∷◌, arith, leb, if◌then◌else◌}
use cyxcloud.Breaker.{
  CircuitBreaker, CircuitBreakerConfig, closed, open_, Event, asks, fails, succeeds, new, step, run,
}
use cyxcloud.Breaker.Invariant.{IsUsable, Inv, new-Inv, step-Inv, run-new-Inv, threshold-run}

-- The failures of a history since its last success, or since the start, where there were `n`.
unfoldable pub trailing : ℕ → List Event → ℕ
trailing n [] = n
trailing n (asks now ∷ es) = trailing n es
trailing n (fails now ∷ es) = trailing (n + 1) es
trailing n (succeeds ∷ es) = trailing 0 es

-- What one more event makes of the number of trailing failures.
abbrev counted : ℕ → Event → ℕ
counted n (asks now) = n
counted n (fails now) = n + 1
counted n succeeds = 0

step_counts :
    (b : CircuitBreaker) (n : ℕ) (e : Event)
    → Inv b
    → (b.state ≡ closed → b.failure_count ≡ n)
    → (step b e).state ≡ closed
    → (step b e).failure_count ≡ counted n e
unfolding step
step_counts b n (asks now) v h = ground arith
step_counts b n (fails now) v h = ground arith
step_counts b n succeeds v h = ground arith

run_counts :
    (b : CircuitBreaker) (n : ℕ) (es : List Event)
    → Inv b
    → (b.state ≡ closed → b.failure_count ≡ n)
    → (run b es).state ≡ closed
    → (run b es).failure_count ≡ trailing n es
unfolding run trailing
run_counts b n [] v h = h
run_counts b n (asks now ∷ es) v h =
    run_counts (step b (asks now)) n es (step-Inv b (asks now) v) (step_counts b n (asks now) v h)
run_counts b n (fails now ∷ es) v h =
    run_counts (step b (fails now)) (n + 1) es (step-Inv b (fails now) v)
      (step_counts b n (fails now) v h)
run_counts b n (succeeds ∷ es) v h =
    run_counts (step b succeeds) 0 es (step-Inv b succeeds v) (step_counts b n succeeds v h)

fail_closed :
    (b : CircuitBreaker) (n t now : ℕ)
    → Inv b
    → b.state ≡ closed
    → b.failure_count ≡ n
    → b.failure_threshold ≡ t
    → (step b (fails now)).state ≡ (if leb t (n + 1) then open_ else closed)
unfolding step
fail_closed b n t now v h p q = ground arith

-- Whenever the circuit of a fresh breaker with a positive threshold that a u64 holds is closed, after any
-- history of methods of which no two overlap, the
-- counter is the number of failures since the last success, that number is below the threshold, and
-- the next failure opens the circuit exactly when it brings the number to the threshold.
pub closed_counts :
    (c : CircuitBreakerConfig) (es : List Event) (now : ℕ)
    → IsUsable c
    → (run (new c) es).state ≡ closed
    → ((run (new c) es).failure_count ≡ trailing 0 es)
      × (trailing 0 es < c.failure_threshold)
      × ((step (run (new c) es) (fails now)).state
          ≡ (if leb c.failure_threshold (trailing 0 es + 1) then open_ else closed))
closed_counts c es now u h =
    let b = run (new c) es in
    let v = run-new-Inv c es u in
    let same = run_counts (new c) 0 es (new-Inv c u) (λ _. unfold new in refl) h in
    let low = v.below h in
    let conf = threshold-run c es in (same, omega arith, fail_closed b _ _ now v h same conf)
