-- ===== src/Rebalancer/Retries.antt =====
-- What the retries of a task add up to.
use cyxcloud.Prelude.{
  is_empty, ℕ, zero, suc, ◌+◌, ◌<◌, ◌≤◌, Bool, true, false, not, ◌&&◌, ◌||◌, String, Option, none,
  some, List, [], ◌∷◌, ◌++◌, length, ◌≡◌, refl, sym, ap, ◌∙◌, Bool-cases, inl, inr, if◌then◌else◌,
  ◌=?◌, string_key, arith, All, All-imp, =?_refl, subst,
}
use cyxcloud.Prelude.Rows.{select}
use cyxcloud.Prelude.Results.{Result, ok, err}
use mathlib.Core.List.{Memᴰ}
use mathlib.Core.List.Memᴰ.{head, tail, not-nil}
use cyxcloud.Rebalancer.Targets.{All-Mem}
use cyxcloud.Rebalancer.Planner.{RepairTask}
use cyxcloud.Rebalancer.Detector.{contains}
use cyxcloud.Rebalancer.Executor.{
  Progress, Transfer, push_new, record_attempt, is_done, attempts, fresh, run_attempts,
  execute_task,
}

refl_or : (a : Bool) → (a || false) ≡ a
refl_or a = ground arith

or_assoc : (a b c : Bool) → (a || (b || c)) ≡ ((a || b) || c)
or_assoc a b c = ground arith

-- Equal names are contained alike.
same_contains : (xs : List String) (s t : String) → (s =? t) ≡ true → contains xs s ≡ contains xs t
same_contains xs s t h = ap (contains xs) ((string_key.same_iff s t).0 h)

-- Membership after each of the list operations.
contains-append :
    (xs : List String) (s t : String) → contains (xs ++ (s ∷ [])) t ≡ (contains xs t || (s =? t))
contains-append [] s t = refl_or (s =? t)
contains-append (x ∷ xs) s t =
    ap (λ b. (x =? t) || b) (contains-append xs s t) ∙ or_assoc (x =? t) (contains xs t) (s =? t)

known_already : (a b c : Bool) → (b ≡ true → a ≡ true) → (a || c) ≡ (a || (b || c))
known_already a b c h = ground (arith, h)

contains-push_new :
    (ss known : List String) (t : String)
    → contains (push_new ss known) t ≡ (contains known t || contains ss t)
unfolding push_new
contains-push_new [] known t = sym (refl_or (contains known t))
contains-push_new (s ∷ ss) known t =
    contains-push_new ss (if contains known s then known else known ++ (s ∷ [])) t
    ∙ pushed (contains known s) known s t (contains ss t) refl
  where
    pushed :
        (b : Bool) (known : List String) (s t : String) (c : Bool)
        → contains known s ≡ b
        → (contains (if b then known else known ++ (s ∷ [])) t || c)
          ≡ (contains known t || ((s =? t) || c))
    pushed true known s t c h =
        known_already (contains known t) (s =? t) c (λ e. sym (same_contains known s t e) ∙ h)
    pushed false known s t c h =
        ap (λ b. b || c) (contains-append known s t) ∙ sym (or_assoc (contains known t) (s =? t) c)

gone : (a b c : Bool) → (a ≡ true → c ≡ true) → (b && not c) ≡ ((a || b) && not c)
gone a b c h = ground (arith, h)

kept : (a b c : Bool) → (a ≡ true → c ≡ false) → (a || (b && not c)) ≡ ((a || b) && not c)
kept a b c h = ground (arith, h)

contains-select :
    (ss xs : List String) (t : String)
    → contains (select (λ x. not (contains ss x)) xs) t ≡ (contains xs t && not (contains ss t))
unfolding select
contains-select ss [] t = refl
contains-select ss (x ∷ xs) t = elim (Bool-cases (contains ss x)) [
  | inl h ↦ rw h (
      contains-select ss xs t
      ∙ gone (x =? t) (contains xs t) (contains ss t) (λ e. sym (same_contains ss x t e) ∙ h))
  | inr h ↦ rw h (
      ap (λ b. (x =? t) || b) (contains-select ss xs t)
      ∙ kept (x =? t) (contains xs t) (contains ss t) (λ e. sym (same_contains ss x t e) ∙ h))
]

-- The targets that are left are those of the task that have not succeeded.
abbrev pub Splits : List String → Progress → Type 0
Splits ts s =
    (t : String)
    → contains s.targets_failed t ≡ (contains ts t && not (contains s.targets_succeeded t))

twice : (a b c : Bool) → ((a && not b) && not c) ≡ (a && not (b || c))
twice a b c = ground arith

record_attempt-Splits :
    (ts : List String) (all : ℕ) (answer : Option (Result String (List String))) (s : Progress)
    → Splits ts s
    → Splits ts (record_attempt all answer s)
unfolding record_attempt
record_attempt-Splits ts all none s h t = h t
record_attempt-Splits ts all (some (err e)) s h t = h t
record_attempt-Splits ts all (some (ok succeeded)) s h t =
    contains-select succeeded s.targets_failed t
    ∙ ap (λ b. b && not (contains succeeded t)) (h t)
    ∙ twice (contains ts t) (contains s.targets_succeeded t) (contains succeeded t)
    ∙ ap (λ b. contains ts t && not b) (sym (contains-push_new succeeded s.targets_succeeded t))

choose :
    (ts : List String) (b : Bool) (x y : Progress)
    → Splits ts x
    → Splits ts y
    → Splits ts (if b then x else y)
choose ts true x y h k = h
choose ts false x y h k = k

attempts-Splits :
    (ts : List String) (transfer : Transfer) (all n k : ℕ) (s : Progress)
    → Splits ts s
    → Splits ts (attempts transfer all n k s)
unfolding attempts
attempts-Splits ts transfer all zero k s h = h
attempts-Splits ts transfer all (suc n) k s h =
    let answer = transfer k s.targets_failed in
    let s' = record_attempt all answer s in
    let h' = record_attempt-Splits ts all answer s h in
    choose ts (is_done answer s') s' (attempts transfer all n (suc k) s') h'
      (attempts-Splits ts transfer all n (suc k) s' h')

true_and : (a : Bool) → a ≡ (a && true)
true_and a = ground arith

-- However the transfers answer, a task that was run reports every one of its targets as succeeded or as
-- failed and none as both, and no other node as failed.
pub execute_task-splits :
    (max_retries : ℕ) (transfer : Transfer) (task : RepairTask) (t : String)
    → let r = execute_task true true max_retries transfer task in
      contains r.targets_failed t
      ≡ (contains task.target_nodes t && not (contains r.targets_succeeded t))
unfolding execute_task run_attempts
execute_task-splits max_retries transfer task t =
    attempts-Splits task.target_nodes transfer (length task.target_nodes) (suc max_retries) 0
      (fresh task) (λ x. true_and (contains task.target_nodes x)) t

contains_of_Mem : (xs : List String) (t : String) → Memᴰ t xs → contains xs t ≡ true
contains_of_Mem [] t m = absurd (not-nil m)
contains_of_Mem (x ∷ xs) t (head p) = ground (arith, ap (λ y. y =? t) (sym p) ∙ =?_refl t)
contains_of_Mem (x ∷ xs) t (tail m) = ground (arith, contains_of_Mem xs t m)

select_covered :
    (ss xs : List String)
    → All (λ x. contains ss x ≡ true) xs
    → select (λ x. not (contains ss x)) xs ≡ []
unfolding select
select_covered ss [] h = refl
select_covered ss (x ∷ xs) h = rw h.0 (select_covered ss xs h.1)

-- An answer that takes all that is left ends the loop.
taken :
    (all : ℕ) (s : Progress)
    → (record_attempt all (some (ok s.targets_failed)) s).targets_failed ≡ []
unfolding record_attempt
taken all s =
    select_covered s.targets_failed s.targets_failed (
      All-imp (λ x. contains_of_Mem s.targets_failed x) s.targets_failed (All-Mem s.targets_failed))

is_done_empty :
    (answer : Option (Result String (List String))) (s : Progress)
    → is_done answer s ≡ true
    → is_empty s.targets_failed ≡ true
is_done_empty (some (ok succeeded)) s h = h
is_done_empty (some (err e)) s h = absurd (ground arith)
is_done_empty none s h = absurd (ground arith)

choose_done :
    (b : Bool) (x y : Progress)
    → (b ≡ true → is_empty x.targets_failed ≡ true)
    → (b ≡ false → is_empty y.targets_failed ≡ true)
    → is_empty (if b then x else y).targets_failed ≡ true
choose_done true x y h k = h refl
choose_done false x y h k = k refl

true_is_false : {b : Bool} → b ≡ true → b ≡ false → ⊥
true_is_false {b = b} h k = ground arith

attempts_done :
    (transfer : Transfer) (all n d k : ℕ) (s : Progress)
    → ((ts : List String) → transfer (d + k) ts ≡ some (ok ts))
    → d < n
    → is_empty (attempts transfer all n k s).targets_failed ≡ true
unfolding attempts
attempts_done transfer all zero d k s h l = absurd (omega arith)
attempts_done transfer all (suc n) zero k s h l =
    let answer = transfer k s.targets_failed in
    let s' = record_attempt all answer s in
    let must =
      subst (λ a. is_done a (record_attempt all a s) ≡ true)
        (sym (
          subst (λ i. transfer i s.targets_failed ≡ some (ok s.targets_failed)) (omega arith)
            (h s.targets_failed)))
        (ap is_empty (taken all s)) in
    choose_done (is_done answer s') s' (attempts transfer all n (suc k) s')
      (is_done_empty answer s') (λ f. absurd (true_is_false must f))
attempts_done transfer all (suc n) (suc d) k s h l =
    let answer = transfer k s.targets_failed in
    let s' = record_attempt all answer s in
    choose_done (is_done answer s') s' (attempts transfer all n (suc k) s')
      (is_done_empty answer s')
      (λ _.
        attempts_done transfer all n d (suc k) s'
          (λ ts. subst (λ i. transfer i ts ≡ some (ok ts)) (omega arith) (h ts)) (omega arith))

if_true : {A : Type 0} (b : Bool) (x y : A) → b ≡ true → (if b then x else y) ≡ x
if_true b x y h = ap (λ c. if c then x else y) h

-- A task succeeds, and counts its bytes, if in one of its max_retries + 1 attempts the transfer takes
-- whatever targets are left.
pub execute_task_succeeds :
    (max_retries : ℕ) (transfer : Transfer) (task : RepairTask) (k : ℕ)
    → k ≤ max_retries
    → ((ts : List String) → transfer k ts ≡ some (ok ts))
    → let r = execute_task true true max_retries transfer task in
      (r.success ≡ true) × (r.error ≡ none) × (r.bytes_transferred ≡ task.chunk_size)
unfolding execute_task run_attempts
execute_task_succeeds max_retries transfer task k l h =
    let done =
      attempts_done transfer (length task.target_nodes) (suc max_retries) k 0 (fresh task)
        (λ ts. subst (λ i. transfer i ts ≡ some (ok ts)) (omega arith) (h ts)) (omega arith) in
    (done, if_true _ _ _ done, if_true _ _ _ done)
