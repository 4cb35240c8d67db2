-- ===== src/Rebalancer/Limits.antt =====
-- The whole plan: its limits and its tasks.
use cyxcloud.Prelude.{
  ℕ, ◌<◌, ◌≤◌, Bool, true, false, not, ◌||◌, is_empty, List, [], ◌∷◌, ◌++◌, ◌≡◌, ◌⊎◌, refl, ap, ◌∙◌,
  subst, length, length-append, All, Bool-cases, inl, inr, arith, ◌==◌, if◌then◌else◌,
}
use cyxcloud.Prelude.Rows.{select}
use cyxcloud.Prelude.Sorting.{sort_by, descending}
use cyxcloud.Prelude.Results.{Result, ok, err, guard, bind_ok}
use cyxcloud.Rebalancer.Detector.{
  ChunkHealth, ChunkIssue, healthy, under_replicated, over_replicated, critical, orphaned, corrupt,
}
use cyxcloud.Prelude.Floats.{Floats}
use cyxcloud.Rebalancer.Planner.{
  Planner, PlannerConfig, PlannerError, RepairTask, RepairPlan, NodeInfo, plan_repair,
  plan_by_health, plan_issues, take_task, is_full_plan, create_plan, add_task, empty_plan,
  no_source_nodes, no_target_nodes, estimate_duration, with_duration, PlanFailure, refuses,
  divides_by_zero,
}
use cyxcloud.Rebalancer.Targets.{IsSound, plan_under_replicated-IsSound}

pub All-append {ℓ κ} :
    {A : Type ℓ} (P : A → Type κ) (xs ys : List A) → All P xs → All P ys → All P (xs ++ ys)
All-append P [] ys h k = k
All-append P (x ∷ xs) ys h k = (h.0, All-append P xs ys h.1 k)

module _ {F : Type 0} (fl : Floats F) (nodes : List (NodeInfo F)) where
  by_health :
      (h : ChunkHealth) (p p' : Planner F) (issue : ChunkIssue) (t : RepairTask)
      → plan_by_health fl h p issue nodes ≡ ok (p', t)
      → IsSound nodes t × (p'.config ≡ p.config)
  by_health (under_replicated current target) p p' issue t e =
      let (s, _, _, _, c) = plan_under_replicated-IsSound fl p p' nodes issue t current target e in
      (s, c)
  by_health critical p p' issue t e =
      let (_, _, e1) =
        bind_ok (guard (not (length issue.current_nodes == 0)) no_source_nodes) _ _ e in
      let (s, _, _, _, c) =
        plan_under_replicated-IsSound fl p p' nodes issue t 0 p.config.replication_factor e1 in
      (s, c)
  by_health (over_replicated current target) p p' issue t e = absurd (ground arith)
  by_health healthy p p' issue t e = absurd (ground arith)
  by_health orphaned p p' issue t e = absurd (ground arith)
  by_health (corrupt node_ids) p p' issue t e = absurd (ground arith)

  module _ (config : PlannerConfig F) where
    -- A plan under way.
    abbrev Inv : Planner F → RepairPlan → Type 0
    Inv p plan =
        (p.config ≡ config)
        × (length plan.tasks ≤ config.max_tasks)
        × All (IsSound nodes) plan.tasks

    take_task-Inv :
        (r : Result PlannerError (Planner F × RepairTask)) (p : Planner F) (plan : RepairPlan)
        → ((p' : Planner F) (t : RepairTask)
            → r ≡ ok (p', t)
            → IsSound nodes t × (p'.config ≡ p.config))
        → length plan.tasks < config.max_tasks
        → Inv p plan
        → Inv (take_task fl r p plan).0 (take_task fl r p plan).1
    unfolding add_task
    take_task-Inv (err e) p plan s l i = i
    take_task-Inv (ok (p', t)) p plan s l i = (
      (s p' t refl).1 ∙ i.0,
      omega (arith, length-append plan.tasks (t ∷ [])),
      All-append (IsSound nodes) plan.tasks (t ∷ []) i.2 ((s p' t refl).0, tt),
    )

    not_full :
        (plan : RepairPlan)
        → is_full_plan config plan ≡ false
        → length plan.tasks < config.max_tasks
    not_full plan h = ground arith

    choose :
        (b : Bool) (x y : Planner F × RepairPlan)
        → Inv x.0 x.1
        → (b ≡ false → Inv y.0 y.1)
        → Inv (if b then x else y).0 (if b then x else y).1
    choose true x y h k = h
    choose false x y h k = k refl

    plan_issues-Inv :
        (is : List ChunkIssue) (p : Planner F) (plan : RepairPlan)
        → Inv p plan
        → Inv (plan_issues fl is nodes p plan).0 (plan_issues fl is nodes p plan).1
    unfolding plan_issues
    plan_issues-Inv [] p plan i = i
    plan_issues-Inv (x ∷ is) p plan i =
        let r = take_task fl (plan_repair fl p x nodes) p plan in
        choose (is_full_plan p.config plan) (p, plan) (plan_issues fl is nodes r.0 r.1) i
          (λ f. plan_issues-Inv is r.0 r.1 (
            take_task-Inv (plan_repair fl p x nodes) p plan
              (unfold plan_repair in λ p' t. by_health x.health p p' x t)
              (not_full plan (subst (λ c. is_full_plan c plan ≡ false) i.0 f)) i))

module _ {A B : Type 0} (b : Bool) (x y : A × B) where
  first_of : b ≡ true → (if b then x else y).1 ≡ x.1
  first_of h = ap (λ c. (if c then x else y).1) h

  second_of : b ≡ false → (if b then x else y).1 ≡ y.1
  second_of h = ap (λ c. (if c then x else y).1) h

is_zero : (n : ℕ) → (n == 0) ≡ true → n ≡ 0
is_zero n h = ground arith

not_zero : (n : ℕ) → (n == 0) ≡ false → 0 < n
not_zero n h = ground arith

estimate_duration_total :
    {F : Type 0} (c : PlannerConfig F) (plan : RepairPlan)
    → 0 < c.node_rate_limit
    → (d : ℕ) × (estimate_duration c plan ≡ ok d)
unfolding estimate_duration
estimate_duration_total c plan h =
    by_test (is_empty plan.tasks || is_empty plan.source_nodes) (c.node_rate_limit == 0) _
      (ground (arith, h))
  where
    by_test :
        (a b : Bool) (n : ℕ)
        → b ≡ false
        → (d : ℕ) × (◌≡◌ {A = Result PlanFailure ℕ}
            (if a then ok 0 else (if b then err divides_by_zero else ok n))
            (ok d))
    by_test true b n h = (0, refl)
    by_test false true n h = absurd (ground arith)
    by_test false false n h = (n, refl)

module _ {F : Type 0} (fl : Floats F) (issues : List ChunkIssue) (nodes : List (NodeInfo F))
    (p : Planner F) where
  -- Under a positive rate limit, there is a plan exactly where some node is healthy, and it has at most
  -- max_tasks tasks. Each reads from a healthy node that holds the chunk and writes only to healthy nodes with
  -- space that do not hold it.
  pub create_plan_ok :
      0 < p.config.node_rate_limit
      → let usable = select (λ n. n.is_healthy) nodes in
        ((length usable ≡ 0) × ((create_plan fl issues nodes p).1 ≡ err (refuses no_target_nodes)))
        ⊎ ((0 < length usable)
            × ((plan : RepairPlan) × ((create_plan fl issues nodes p).1 ≡ ok plan)
                × (length plan.tasks ≤ p.config.max_tasks)
                × All (IsSound usable) plan.tasks))
  unfolding create_plan
  create_plan_ok positive =
      let usable = select (λ n. n.is_healthy) nodes in
      let q = record p { pending_load = [] } in
      let r = plan_issues fl (sort_by (descending (λ i. i.priority)) issues) usable q empty_plan in
      let (_, limit, sound) =
        plan_issues-Inv fl usable p.config (sort_by (descending (λ i. i.priority)) issues) q
          empty_plan (refl, omega arith, tt) in
      let (d, e) = estimate_duration_total p.config r.1 positive in
      let result = record r.1 { estimated_duration = d } in
      elim (Bool-cases (length usable == 0)) [
        | inl h ↦ inl (is_zero (length usable) h, first_of _ _ _ h)
        | inr h ↦ inr (
          not_zero (length usable) h,
          (result, second_of _ _ _ h ∙ ap (with_duration r.1) e, limit, sound),
        )
      ]
