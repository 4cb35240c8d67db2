-- ===== src/Placement/Decisions.antt =====
-- What a placement promises for one shard and for all shards.
use mathlib.Core.List.{Memᴰ}
use cyxcloud.Prelude.{
  ℕ, zero, suc, ◌≤◌, ◌<◌, String, Bool, true, false, Option, List, [], ◌∷◌, ◌≡◌, refl, sym, ap, ◌∙◌,
  subst, inl, inr, leb, if◌then◌else◌, length, map, is_empty, All, All-imp, Unique, Bool-cases,
  arith, string_key, integer_key, pair_key,
}
use cyxcloud.Prelude.Floats.{Floats, Angles}
use cyxcloud.Prelude.Rows.{select, All-of_select}
use cyxcloud.Prelude.Sorting.{place, sort_by, All-sort_by}
use cyxcloud.Prelude.Parts.{Part-All, Part-Unique, select-Part, sort_by-Unique}
use cyxcloud.Rebalancer.Targets.{All-Mem}
use cyxcloud.Placement.{
  PlacementConfig, PlacementNode, PlacementDecision, DcUsage, RackUsage, dc_of, rack_of,
  available_storage, pick, count_nodes,
}
use cyxcloud.Placement.Scoring.{select_for_shard, place_shards, select_nodes, is_eligible}
use cyxcloud.Placement.Selection.{
  Within, IsServed, pick-Part, length-pick, pick-Within, pick-IsServed, nil-Tracks,
}

module _ {A : Type 0} (before : A → A → Bool) (P : A → Type 0) where
  All-of_place : (a : A) (xs : List A) → All P (place before a xs) → P a × All P xs
  unfolding place
  All-of_place a [] h = h
  All-of_place a (x ∷ xs) h = elim (Bool-cases (before a x)) [
    | inl t ↦ subst (λ b. All P (if b then a ∷ x ∷ xs else x ∷ place before a xs)) t h
    | inr t ↦
        let g = subst (λ b. All P (if b then a ∷ x ∷ xs else x ∷ place before a xs)) t h in
        let (p, q) = All-of_place a xs g.1 in (p, (g.0, q))
  ]

  All-of_sort_by : (xs : List A) → All P (sort_by before xs) → All P xs
  unfolding sort_by
  All-of_sort_by [] h = tt
  All-of_sort_by (x ∷ xs) h =
      let (p, q) = All-of_place x (sort_by before xs) h in (p, All-of_sort_by xs q)

-- `index`, `index + 1`, and so on.
abbrev pub count_from : ℕ → ℕ → List ℕ
count_from index zero = []
count_from index (suc left) = index ∷ count_from (suc index) left

All-Unit : {A : Type 0} (ns : List A) → All (λ n. Unit {0}) ns
All-Unit [] = tt
All-Unit (n ∷ ns) = (tt, All-Unit ns)

module _ {F : Type 0} where
  abbrev pub node_id : PlacementNode F → String
  node_id n = n.id

  -- Distinct ones of the nodes, no more than asked for; and where there are more nodes than asked for,
  -- within both limits, and short of the number only where every other node is in a datacenter or
  -- a rack that is full.
  abbrev pub IsPlacement :
      PlacementConfig F → List (PlacementNode F) → ℕ → List (PlacementNode F) → Type 0
  IsPlacement c nodes count s =
      Unique node_id s
      × All (λ n. Memᴰ n nodes) s
      × (length s ≤ count)
      × (count < length nodes
          → Within dc_of c.max_shards_per_dc s
            × Within rack_of c.max_shards_per_rack s
            × (length s < count → All (IsServed c count s) nodes))

module _ {F : Type 0} (fl : Floats F) (an : Angles F) (c : PlacementConfig F) where
  pick-IsPlacement :
      (before : PlacementNode F → PlacementNode F → Bool) (nodes : List (PlacementNode F))
      (count : ℕ)
      → Unique node_id nodes
      → IsPlacement c nodes count (pick c count (sort_by before nodes) [] [] [])
  pick-IsPlacement before nodes count u =
      let sorted = sort_by before nodes in
      let part = pick-Part c count sorted [] [] [] in
      let w =
        pick-Within c count sorted [] [] [] (nil-Tracks (dc_of {F = F}))
          (nil-Tracks (rack_of {F = F})) (λ k. omega arith) (λ k. omega arith) in
      (
        Part-Unique node_id _ sorted part (sort_by-Unique node_id before nodes u),
        Part-All (λ n. Memᴰ n nodes) _ sorted part
            (All-sort_by before (λ n. Memᴰ n nodes) nodes (All-Mem nodes)),
        length-pick c count sorted [] [] [] (omega arith),
        λ h. (
          w.0,
          w.1,
          λ k. All-of_sort_by before (IsServed c count _) nodes (
              pick-IsServed c count sorted [] [] [] (nil-Tracks (dc_of {F = F}))
                (nil-Tracks (rack_of {F = F})) k),
        ),
      )

  by_count :
      (P : List (PlacementNode F) → Type 0) (b : Bool) (x y : List (PlacementNode F))
      → (b ≡ true → P x)
      → (b ≡ false → P y)
      → P (if b then x else y)
  by_count P true x y f g = f refl
  by_count P false x y f g = g refl

  -- For nodes with distinct identifiers, the nodes that are selected for a shard are distinct ones of
  -- them and no more than asked for. Where there are more nodes than asked for, no datacenter and no
  -- rack has more of them than its limit, and there are fewer than asked for only if every node that
  -- is not selected is in a datacenter or a rack that is full.
  pub select_for_shard_ok :
      (nodes : List (PlacementNode F)) (count : ℕ) (origin : Option (PlacementNode F))
      (dcs : DcUsage) (racks : RackUsage)
      → Unique node_id nodes
      → IsPlacement c nodes count (select_for_shard fl an c nodes count origin dcs racks)
  unfolding select_for_shard
  select_for_shard_ok nodes count origin dcs racks u =
      by_count (IsPlacement c nodes count) (leb (length nodes) count) _ _
        (λ t. (u, All-Mem nodes, ground arith, λ h. absurd (ground arith)))
        (λ t. pick-IsPlacement _ nodes count u)

  place_shards_ok :
      (eligible : List (PlacementNode F)) (left index replicas : ℕ)
      (origin : Option (PlacementNode F)) (dcs : DcUsage) (racks : RackUsage)
      → Unique node_id eligible
      → let ds = place_shards fl an c eligible left index replicas origin dcs racks in
        All (λ (d : PlacementDecision F). IsPlacement c eligible replicas d.nodes) ds
        × (map (λ (d : PlacementDecision F). d.shard_index) ds ≡ count_from index left)
  unfolding place_shards
  place_shards_ok eligible zero index replicas origin dcs racks u = (tt, refl)
  place_shards_ok eligible (suc left) index replicas origin dcs racks u =
      let selected = select_for_shard fl an c eligible replicas origin dcs racks in
      let usage = count_nodes selected dcs racks in
      let (p, q) = place_shards_ok eligible left (suc index) replicas origin usage.0 usage.1 u in
      ((select_for_shard_ok eligible replicas origin dcs racks u, p), ap (index ∷◌) q)

  none_available :
      (xs ys : List (PlacementDecision F)) (a b : Bool)
      → (a ≡ true → b ≡ true)
      → (P : List (PlacementDecision F) → Type 0) → (b ≡ true → P xs)
      → (b ≡ false → P ys)
      → P (if a then xs else if b then xs else ys)
  none_available xs ys true b h P f g = f (h refl)
  none_available xs ys false true h P f g = f refl
  none_available xs ys false false h P f g = g refl

  empty_select :
      (xs : List (PlacementNode F))
      → is_empty xs ≡ true
      → is_empty (select (is_eligible c) xs) ≡ true
  unfolding select
  empty_select [] h = refl
  empty_select (x ∷ xs) h = absurd (ground arith)

  -- For available nodes with distinct identifiers: where one of them has the storage that is wanted,
  -- there is one decision for each shard, in their order, and none otherwise; and the nodes of each
  -- decision are such a placement among the nodes with that storage.
  pub select_nodes_ok :
      (available : List (PlacementNode F)) (num_shards replicas : ℕ)
      (origin : Option (PlacementNode F))
      → Unique node_id available
      → let eligible = select (λ n. leb c.min_available_storage (available_storage n)) available in
        let ds = select_nodes fl an c available num_shards replicas origin in
        All (λ (d : PlacementDecision F). IsPlacement c eligible replicas d.nodes) ds
        × All (λ n. leb c.min_available_storage (available_storage n) ≡ true) eligible
        × (map (λ (d : PlacementDecision F). d.shard_index) ds
            ≡ (if is_empty eligible then [] else count_from 0 num_shards))
  unfolding select_nodes
  select_nodes_ok available num_shards replicas origin u =
      let eligible = select (is_eligible c) available in
      let ue = Part-Unique node_id eligible available (select-Part _ available) u in
      let (p, q) = place_shards_ok eligible num_shards 0 replicas origin [] [] ue in
      none_available [] (place_shards fl an c eligible num_shards 0 replicas origin [] [])
        (is_empty available) (is_empty eligible) (empty_select available)
        (λ ds.
          All (λ (d : PlacementDecision F). IsPlacement c eligible replicas d.nodes) ds
          × All (λ n. leb c.min_available_storage (available_storage n) ≡ true) eligible
          × (map (λ (d : PlacementDecision F). d.shard_index) ds
              ≡ (if is_empty eligible then [] else count_from 0 num_shards)))
        (λ t.
          (tt, All_eligible available, ap (λ b. if b then [] else count_from 0 num_shards) (sym t)))
        (λ t. (
          p,
          All_eligible available,
          q ∙ ap (λ b. if b then [] else count_from 0 num_shards) (sym t),
        ))
    where
      All_eligible :
          (ns : List (PlacementNode F))
          → All
              (λ n. leb c.min_available_storage (available_storage n) ≡ true)
              (select (is_eligible c) ns)
      All_eligible ns =
          All-imp (λ n h. h.1) _ (All-of_select (λ n. Unit {0}) (is_eligible c) ns (All-Unit ns))
