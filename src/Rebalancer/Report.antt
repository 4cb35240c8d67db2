-- ===== src/Rebalancer/Report.antt =====
-- The report on a whole plan.
use cyxcloud.Prelude.{
  ℕ, suc, ◌+◌, Bool, true, false, not, Option, none, some, List, [], ◌∷◌, ◌++◌, map, length, ◌≡◌,
  refl, sym, ap, ◌∙◌, if◌then◌else◌, arith,
}
use cyxcloud.Prelude.Rows.{select, cons?}
use cyxcloud.Rebalancer.Planner.{RepairTask, RepairPlan}
use cyxcloud.Rebalancer.Executor.{
  TaskResult, ExecutionResult, execute, collect, collect_one, spawn_all,
}

-- The tasks whose turn comes while the shutdown flag is not set.
unfoldable pub started : (ℕ → Bool) → ℕ → List RepairTask → List RepairTask
started shutdown i [] = []
started shutdown i (t ∷ ts) =
    let rest = started shutdown (suc i) ts in if shutdown i then rest else t ∷ rest

abbrev pub bytes_of : List TaskResult → ℕ
bytes_of [] = 0
bytes_of (t ∷ ts) = t.bytes_transferred + bytes_of ts

-- The results of some tasks, less those that panic.
unfoldable pub results_of : (RepairTask → Option TaskResult) → List RepairTask → List TaskResult
results_of run [] = []
results_of run (t ∷ ts) = cons? (run t) (results_of run ts)

spawn_all-started :
    (shutdown : ℕ → Bool) (run : RepairTask → Option TaskResult) (i : ℕ) (ts : List RepairTask)
    → ((spawn_all shutdown run i ts).0 ≡ map run (started shutdown i ts))
      × ((spawn_all shutdown run i ts).1 + length (started shutdown i ts) ≡ length ts)
unfolding spawn_all started
spawn_all-started shutdown run i [] = (refl, refl)
spawn_all-started shutdown run i (t ∷ ts) =
    let (same, count) = spawn_all-started shutdown run (suc i) ts in
    by_flag (shutdown i) (spawn_all shutdown run (suc i) ts).0 (spawn_all shutdown run (suc i) ts).1
      (started shutdown (suc i) ts) same count
  where
    by_flag :
        (b : Bool) (hs : List (Option TaskResult)) (n : ℕ) (rest : List RepairTask)
        → hs ≡ map run rest
        → n + length rest ≡ length ts
        → let both : List (Option TaskResult) × ℕ = if b then (hs, suc n) else (run t ∷ hs, n) in
          (both.0 ≡ map run (if b then rest else t ∷ rest))
          × (both.1 + length (if b then rest else t ∷ rest) ≡ suc (length ts))
    by_flag true hs n rest h k = (h, omega (arith, k))
    by_flag false hs n rest h k = (ap (run t ∷◌) h, omega (arith, k))

append_assoc : {A : Type 0} (xs ys zs : List A) → (xs ++ ys) ++ zs ≡ xs ++ (ys ++ zs)
append_assoc [] ys zs = refl
append_assoc (x ∷ xs) ys zs = ap (x ∷◌) (append_assoc xs ys zs)

append_nil : {A : Type 0} (xs : List A) → xs ++ [] ≡ xs
append_nil [] = refl
append_nil (x ∷ xs) = ap (x ∷◌) (append_nil xs)

-- What a report has gained by some results.
abbrev Gains : ExecutionResult → ExecutionResult → List TaskResult → Type 0
Gains r r' ended =
    (r'.succeeded ≡ r.succeeded ++ select (λ t. t.success) ended)
    × (r'.failed ≡ r.failed ++ select (λ t. not t.success) ended)
    × (r'.total_bytes ≡ r.total_bytes + bytes_of ended)
    × (r'.skipped ≡ r.skipped)

collect_some-Gains :
    (b : Bool) (t : TaskResult) (r r' : ExecutionResult) (ended : List TaskResult)
    → t.success ≡ b
    → let q = record r { total_bytes = r.total_bytes + t.bytes_transferred } in
      Gains
        (if b
          then record q { succeeded = r.succeeded ++ (t ∷ []) }
          else record q { failed = r.failed ++ (t ∷ []) })
        r'
        ended
      → Gains r r' (t ∷ ended)
unfolding select
collect_some-Gains true t r r' ended h (a, b, c, d) =
    let won = select (λ (u : TaskResult). u.success) ended in
    let lost = select (λ (u : TaskResult). not u.success) ended in
    (
      a
          ∙ append_assoc r.succeeded (t ∷ []) won
          ∙ ap (λ x. r.succeeded ++ (if x then t ∷ won else won)) (sym h),
      b ∙ ap (λ x. r.failed ++ (if not x then t ∷ lost else lost)) (sym h),
      omega (arith, c),
      d,
    )
collect_some-Gains false t r r' ended h (a, b, c, d) =
    let won = select (λ (u : TaskResult). u.success) ended in
    let lost = select (λ (u : TaskResult). not u.success) ended in
    (
      a ∙ ap (λ x. r.succeeded ++ (if x then t ∷ won else won)) (sym h),
      b
          ∙ append_assoc r.failed (t ∷ []) lost
          ∙ ap (λ x. r.failed ++ (if not x then t ∷ lost else lost)) (sym h),
      omega (arith, c),
      d,
    )

collect-Gains :
    (run : RepairTask → Option TaskResult) (ts : List RepairTask) (r : ExecutionResult)
    → Gains r (collect (map run ts) r) (results_of run ts)
unfolding collect results_of
collect-Gains run [] r =
    unfold select in (sym (append_nil r.succeeded), sym (append_nil r.failed), omega arith, refl)
collect-Gains run (t ∷ ts) r = by_handle (run t) (collect-Gains run ts)
  where
    by_handle :
        (o : Option TaskResult)
        → ((q : ExecutionResult) → Gains q (collect (map run ts) q) (results_of run ts))
        → Gains r (collect (map run ts) (collect_one o r)) (cons? o (results_of run ts))
    by_handle none h = h r
    by_handle (some a) h = collect_some-Gains a.success a r _ _ refl (h (collect_one (some a) r))

-- The results of the tasks that were started, except those that panicked, are listed in the order of the
-- plan, the successful ones as succeeded and the others as failed; their bytes are summed, and every task
-- that was not started is counted as skipped.
pub execute_accounts :
    (shutdown : ℕ → Bool) (run : RepairTask → Option TaskResult) (plan : RepairPlan)
    → let r = execute shutdown run plan in
      let turns = started shutdown 0 plan.tasks in
      let ended = results_of run turns in
      (r.succeeded ≡ select (λ t. t.success) ended)
      × (r.failed ≡ select (λ t. not t.success) ended)
      × (r.total_bytes ≡ bytes_of ended)
      × (r.skipped + length turns ≡ length plan.tasks)
unfolding execute
execute_accounts shutdown run plan =
    let (same, count) = spawn_all-started shutdown run 0 plan.tasks in
    let start : ExecutionResult = record {
      succeeded = [];
      failed = [];
      total_bytes = 0;
      skipped = (spawn_all shutdown run 0 plan.tasks).1;
    } in
    let (a, b, c, d) = collect-Gains run (started shutdown 0 plan.tasks) start in
    (
      ap (λ hs. (collect hs start).succeeded) same ∙ a,
      ap (λ hs. (collect hs start).failed) same ∙ b,
      ap (λ hs. (collect hs start).total_bytes) same ∙ omega (arith, c),
      ap (λ hs. (collect hs start).skipped + length (started shutdown 0 plan.tasks)) same
          ∙ ap (λ n. n + length (started shutdown 0 plan.tasks)) d
          ∙ count,
    )
