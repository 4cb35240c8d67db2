-- ===== src/Rebalancer/Targets.antt =====
-- Where the source and the targets of a repair task come from.
use mathlib.Core.List.{Memᴰ}
use mathlib.Core.List.Memᴰ.{head, tail}
use cyxcloud.Prelude.{
  ℕ, zero, suc, ◌-◌, ◌<◌, ◌≤◌, min, Bool, true, false, not, ◌&&◌, String, List, [], ◌∷◌, ◌≡◌, ◌≢◌,
  refl, ap, ◌∙◌, sym, subst, map, length, take, Unique, All, All-imp, length-take, length-map,
  Bool-cases, inl, inr, arith, ltb, leb, ◌==◌, ◌=?◌, string_key, ne_of_=?,
}
use cyxcloud.Prelude.Rows.{select, All-of_select}
use cyxcloud.Prelude.Sorting.{sort_by, All-sort_by, length-sort_by}
use cyxcloud.Prelude.Parts.{Part-Unique, sort_by-Unique, select-Part}
use cyxcloud.Prelude.Results.{bind_ok, ok_injective, ok, guard, ◌>>◌}
use cyxcloud.Rebalancer.Detector.{ChunkIssue, contains}
use cyxcloud.Prelude.Floats.{Floats}
use cyxcloud.Rebalancer.Planner.{
  Planner, RepairTask, NodeInfo, megabyte, first_best, min_by_load, get_node_load,
  select_source_node, select_target_nodes, is_candidate, plan_under_replicated, score_target,
  find_datacenter, internal,
}

module _ {ℓ κ} {A : Type ℓ} (P : A → Type κ) where
  pub All-take : (n : ℕ) (xs : List A) → All P xs → All P (take n xs)
  All-take zero xs h = tt
  All-take (suc n) [] h = tt
  All-take (suc n) (x ∷ xs) h = (h.0, All-take n xs h.1)

pub All-Mem {ℓ} : {A : Type ℓ} (xs : List A) → All (λ x. Memᴰ x xs) xs
All-Mem [] = tt
All-Mem (x ∷ xs) = (head refl, All-imp (λ y m. tail m) xs (All-Mem xs))

pub All-map {ℓ κ μ} :
    {A : Type ℓ} {B : Type κ} (P : B → Type μ) (f : A → B) (xs : List A)
    → All (λ x. P (f x)) xs
    → All P (map f xs)
All-map P f [] h = tt
All-map P f (x ∷ xs) h = (h.0, All-map P f xs h.1)

pub guard_ok {ℓ} :
    {E : Type 0} {A : Type ℓ} (b : Bool) (x : E) (a c : A)
    → (guard b x >> ok a) ≡ ok c
    → (b ≡ true) × (a ≡ c)
guard_ok b x a c h = ground arith

needed :
    (current target : ℕ) → guard (not (target - current == 0)) internal ≡ ok tt → current < target
needed current target h = ground arith

conjuncts :
    (a b c d : Bool)
    → (not a && not b && c && not d) ≡ true
    → (a ≡ false) × (b ≡ false) × (c ≡ true)
conjuncts a b c d h = ground arith

module _ {F : Type 0} (nodes : List (NodeInfo F)) (issue : ChunkIssue) where
  -- One of the nodes, which holds the chunk.
  abbrev pub IsSource : String → Type 0
  IsSource s =
      (n : NodeInfo F) × Memᴰ n nodes × (n.id ≡ s) × (contains issue.current_nodes s ≡ true)

  -- One of the nodes, other than the source, which does not hold the chunk and has space for it.
  abbrev pub IsTarget : String → String → Type 0
  IsTarget source s =
      (n : NodeInfo F) × Memᴰ n nodes
      × (n.id ≡ s)
      × (contains issue.current_nodes s ≡ false)
      × (s ≢ source)
      × (megabyte ≤ n.available_storage)

module _ {F : Type 0} (fl : Floats F) (p : Planner F) (nodes : List (NodeInfo F))
    (issue : ChunkIssue) where
  min_by_load-All :
      (P : NodeInfo F → Type 0) (best : NodeInfo F) (ns : List (NodeInfo F))
      → P best
      → All P ns
      → P (min_by_load fl p best ns)
  min_by_load-All P best [] b h = b
  min_by_load-All P best (n ∷ ns) b h =
      elim (Bool-cases
        (fl.at_most (get_node_load fl p best.id best.load) (get_node_load fl p n.id n.load))) [
          | inl t ↦ rw t (min_by_load-All P best ns b h.1)
          | inr t ↦ rw t (min_by_load-All P n ns h.0 h.1)
        ]

  first_best-All :
      (P : NodeInfo F → Type 0) (ns : List (NodeInfo F)) (s : String)
      → All P ns
      → first_best fl p ns ≡ ok s
      → (n : NodeInfo F) × P n × (n.id ≡ s)
  first_best-All P [] s h e = absurd (ground arith)
  first_best-All P (n ∷ ns) s h e =
      (min_by_load fl p n ns, min_by_load-All P n ns h.0 h.1, ground arith)

  pub select_source_node-IsSource :
      (s : String) → select_source_node fl p issue nodes ≡ ok s → IsSource nodes issue s
  unfolding select_source_node
  select_source_node-IsSource s e =
      let (n, (m, c), i) =
        first_best-All _ _ s
          (All-of_select _ (λ n. contains issue.current_nodes n.id) nodes (All-Mem nodes)) e in
      (n, m, i, subst (λ x. contains issue.current_nodes x ≡ true) i c)

  candidate :
      (source : String) (n : NodeInfo F)
      → is_candidate fl p issue source n ≡ true
      → (contains issue.current_nodes n.id ≡ false)
        × (n.id ≢ source)
        × (megabyte ≤ n.available_storage)
  unfolding is_candidate
  candidate source n h =
      let (a, b, c) =
        conjuncts (contains issue.current_nodes n.id) (n.id =? source)
          (leb megabyte n.available_storage) _ h in
      (a, ne_of_=? n.id source b, ground arith)

  min_all : (count n : ℕ) → not (ltb n count) ≡ true → min count n ≡ count
  min_all count n h = ground arith

  pub select_target_nodes_ok :
      (source : String) (count : ℕ) (targets : List String)
      → select_target_nodes fl p issue nodes source count ≡ ok targets
      → All (IsTarget nodes issue source) targets × (length targets ≡ count)
  unfolding select_target_nodes
  select_target_nodes_ok source count targets e =
      let candidates = select (is_candidate fl p issue source) nodes in
      let score = score_target fl p (find_datacenter source nodes) in
      let sorted = sort_by (λ a b. fl.at_most (score b) (score a)) candidates in
      let (enough, same) = guard_ok _ _ (map (λ n. n.id) (take count sorted)) targets e in
      let good = All-take _ count sorted (
        All-sort_by _ _ candidates
          (All-of_select _ (is_candidate fl p issue source) nodes (All-Mem nodes))) in
      (
        subst (All (IsTarget nodes issue source)) same (
            All-map _ (λ n. n.id) (take count sorted)
              (All-imp (λ n (m, h). let (a, b, c) = candidate source n h in (n, m, refl, a, b, c))
                (take count sorted) good)),
        ap length (sym same)
            ∙ length-map (take count sorted) (λ n. n.id)
            ∙ length-take count sorted
            ∙ ap (min count) (length-sort_by _ candidates)
            ∙ min_all count (length candidates) enough,
      )

-- A task reads from a node that holds the chunk and writes to nodes none of which holds it or is the source,
-- and all of which have space.
abbrev pub IsSound : {F : Type 0} → List (NodeInfo F) → RepairTask → Type 0
IsSound nodes t =
    IsSource nodes t.issue t.source_node × All (IsTarget nodes t.issue t.source_node) t.target_nodes

module _ {F : Type 0} (fl : Floats F) (p p' : Planner F) (nodes : List (NodeInfo F))
    (issue : ChunkIssue) (t : RepairTask) where
  pub plan_under_replicated-IsSound :
      (current target : ℕ)
      → plan_under_replicated fl p issue nodes current target ≡ ok (p', t)
      → IsSound nodes t
        × (length t.target_nodes ≡ target - current)
        × (current < target)
        × (t.issue ≡ issue)
        × (p'.config ≡ p.config)
  unfolding plan_under_replicated
  plan_under_replicated-IsSound current target e =
      let (source, es, e1) = bind_ok (select_source_node fl p issue nodes) _ _ e in
      let (targets, e2, e3) =
        bind_ok
          (guard (not (target - current == 0)) internal
            >> select_target_nodes fl p issue nodes source (target - current))
          _ _ e1 in
      let (_, en, et) = bind_ok (guard (not (target - current == 0)) internal) _ _ e2 in
      let (sound, count) =
        select_target_nodes_ok fl p nodes issue source (target - current) targets et in
      subst
        (λ (q, u).
          IsSound nodes u
          × (length u.target_nodes ≡ target - current)
          × (current < target)
          × (u.issue ≡ issue)
          × (q.config ≡ p.config))
        (ok_injective e3)
        (
          (select_source_node-IsSource fl p nodes issue source es, sound),
          count,
          needed current target en,
          refl,
          refl,
        )

module _ {A : Type 0} {K : Type 0} (key : A → K) where
  take-Unique : (n : ℕ) (xs : List A) → Unique key xs → Unique key (take n xs)
  take-Unique zero xs u = tt
  take-Unique (suc n) [] u = tt
  take-Unique (suc n) (x ∷ xs) u = (All-take (λ y. key y ≢ key x) n xs u.0, take-Unique n xs u.1)

  map-Unique : (xs : List A) → Unique key xs → Unique (λ k. k) (map key xs)
  map-Unique [] u = tt
  map-Unique (x ∷ xs) u = (All-map (λ k. k ≢ key x) key xs u.0, map-Unique xs u.1)

module _ {F : Type 0} (fl : Floats F) (p : Planner F) (nodes : List (NodeInfo F))
    (issue : ChunkIssue) where
  select_target_nodes-Unique :
      (source : String) (count : ℕ) (targets : List String)
      → Unique (λ (n : NodeInfo F). n.id) nodes
      → select_target_nodes fl p issue nodes source count ≡ ok targets
      → Unique (λ s. s) targets
  unfolding select_target_nodes
  select_target_nodes-Unique source count targets u e =
      let candidates = select (is_candidate fl p issue source) nodes in
      let score = score_target fl p (find_datacenter source nodes) in
      let sorted = sort_by (λ a b. fl.at_most (score b) (score a)) candidates in
      let (_, same) = guard_ok _ _ (map (λ n. n.id) (take count sorted)) targets e in
      subst (Unique (λ s. s)) same (
        map-Unique (λ (n : NodeInfo F). n.id) (take count sorted)
          (take-Unique (λ (n : NodeInfo F). n.id) count sorted
            (sort_by-Unique (λ (n : NodeInfo F). n.id) _ candidates
              (Part-Unique (λ (n : NodeInfo F). n.id) candidates nodes
                (select-Part (is_candidate fl p issue source) nodes) u))))

  plan_under_replicated-Unique :
      (p' : Planner F) (t : RepairTask) (current target : ℕ)
      → Unique (λ (n : NodeInfo F). n.id) nodes
      → plan_under_replicated fl p issue nodes current target ≡ ok (p', t)
      → Unique (λ s. s) t.target_nodes
  unfolding plan_under_replicated
  plan_under_replicated-Unique p' t current target u e =
      let (source, _, e1) = bind_ok (select_source_node fl p issue nodes) _ _ e in
      let (targets, e2, e3) =
        bind_ok
          (guard (not (target - current == 0)) internal
            >> select_target_nodes fl p issue nodes source (target - current))
          _ _ e1 in
      let (_, _, et) = bind_ok (guard (not (target - current == 0)) internal) _ _ e2 in
      subst (λ (q, v). Unique (λ s. s) v.target_nodes) (ok_injective e3)
        (select_target_nodes-Unique source (target - current) targets u et)

module _ {F : Type 0} (fl : Floats F) (p p' : Planner F) (nodes : List (NodeInfo F))
    (issue : ChunkIssue) (t : RepairTask) where
  -- Among nodes with distinct names, every repair that is planned for missing copies reads from a node that
  -- holds the chunk and writes to exactly the missing number of distinct nodes, none of which holds the
  -- chunk or is the source, and all of which have space.
  pub plan_under_replicated_ok :
      (current target : ℕ)
      → Unique (λ (n : NodeInfo F). n.id) nodes
      → plan_under_replicated fl p issue nodes current target ≡ ok (p', t)
      → IsSound nodes t
        × Unique (λ s. s) t.target_nodes
        × (length t.target_nodes ≡ target - current)
        × (current < target)
        × (t.issue ≡ issue)
        × (p'.config ≡ p.config)
  plan_under_replicated_ok current target u e =
      let (sound, count, low, same, config) =
        plan_under_replicated-IsSound fl p p' nodes issue t current target e in
      (
        sound,
        plan_under_replicated-Unique fl p nodes issue p' t current target u e,
        count,
        low,
        same,
        config,
      )
