-- ===== src/Placement/Regions.antt =====
-- The groups of nodes by region, and the suggestions for rebalancing.
use mathlib.Core.List.{Memᴰ}
use cyxcloud.Prelude.{
  Bool, true, false, String, Option, some, List, [], ◌∷◌, ◌++◌, ◌≡◌, refl, ap, ◌∙◌, if◌then◌else◌,
  All, ◌=?◌, string_key,
}
use cyxcloud.Prelude.Floats.{Floats, Angles}
use cyxcloud.Prelude.Rows.{select, All-of_select}
use cyxcloud.Prelude.Assoc.{Map, get, insert, get-insert}
use cyxcloud.Prelude.Sorting.{All-sort_by}
use cyxcloud.Rebalancer.Targets.{All-Mem}
use cyxcloud.Placement.{PlacementNode, RebalanceSuggestion}
use cyxcloud.Placement.Scoring.{
  region_or_unknown, entry_or_empty, group_into, group_by_region, same_dc, is_overutilized,
  is_underutilized, suggestion, suggest_from, suggest_all, suggest_rebalance,
}

append_assoc : {A : Type 0} (xs ys zs : List A) → (xs ++ ys) ++ zs ≡ xs ++ (ys ++ zs)
append_assoc [] ys zs = refl
append_assoc (x ∷ xs) ys zs = ap (x ∷◌) (append_assoc xs ys zs)

append_nil : {A : Type 0} (xs : List A) → xs ≡ xs ++ []
append_nil [] = refl
append_nil (x ∷ xs) = ap (x ∷◌) (append_nil xs)

module _ {F : Type 0} where
  abbrev pub is_in_region : String → PlacementNode F → Bool
  is_in_region region n = region_or_unknown n.region =? region

  -- A group after one more node.
  one_node :
      (b : Bool) (k : Option (List (PlacementNode F))) (here there : List (PlacementNode F))
      (n : PlacementNode F) (rest : List (PlacementNode F))
      → (b ≡ true → here ≡ entry_or_empty k)
      → entry_or_empty (if b then some (here ++ (n ∷ [])) else k) ++ rest
        ≡ entry_or_empty k ++ (if b then n ∷ rest else rest)
  one_node true k here there n rest h =
      append_assoc here (n ∷ []) rest ∙ ap (λ xs. xs ++ (n ∷ rest)) (h refl)
  one_node false k here there n rest h = refl

  group_into-select :
      (nodes : List (PlacementNode F)) (groups : Map String (List (PlacementNode F)))
      (region : String)
      → entry_or_empty (get region (group_into nodes groups))
        ≡ entry_or_empty (get region groups) ++ select (is_in_region region) nodes
  unfolding select
  group_into-select [] groups region = append_nil (entry_or_empty (get region groups))
  group_into-select (n ∷ ns) groups region =
      let own = region_or_unknown n.region in
      let here = entry_or_empty (get own groups) in
      group_into-select ns (insert own (here ++ (n ∷ [])) groups) region
      ∙ ap (λ k. entry_or_empty k ++ select (is_in_region region) ns)
          (get-insert own region (here ++ (n ∷ [])) groups)
      ∙ one_node (own =? region) (get region groups) here here n (select (is_in_region region) ns)
          (λ t. ap (λ k. entry_or_empty (get k groups)) ((string_key.same_iff own region).0 t))

  -- The group of a region, where a node without one counts to "unknown", is the list of the nodes of
  -- that region in their order; a region that has no group has no nodes.
  pub group_by_region-select :
      (nodes : List (PlacementNode F)) (region : String)
      → entry_or_empty (get region (group_by_region nodes)) ≡ select (is_in_region region) nodes
  unfolding group_by_region get
  group_by_region-select nodes region = group_into-select nodes [] region

module _ {A : Type 0} (P : A → Type 0) where
  append-All : (xs ys : List A) → All P xs → All P ys → All P (xs ++ ys)
  append-All [] ys h k = k
  append-All (x ∷ xs) ys h k = (h.0, append-All xs ys h.1 k)

  if_not-All :
      (b : Bool) (x : A) (xs : List A)
      → (b ≡ false → P x)
      → All P xs
      → All P (if b then xs else x ∷ xs)
  if_not-All true x xs h k = k
  if_not-All false x xs h k = (h refl, k)

module _ {F : Type 0} (fl : Floats F) (an : Angles F) (nodes : List (PlacementNode F))
    (target : F) where
  abbrev IsSource : PlacementNode F → Type 0
  IsSource a = Memᴰ a nodes × (is_overutilized fl an target a ≡ true)

  abbrev IsTarget : PlacementNode F → Type 0
  IsTarget b = Memᴰ b nodes × (is_underutilized fl an target b ≡ true)

  -- From a node that is used too much to one that is used too little, in another datacenter.
  abbrev pub IsMove : RebalanceSuggestion F → Type 0
  IsMove s =
      (a : PlacementNode F) × (b : PlacementNode F) × IsSource a
      × IsTarget b
      × (same_dc a.datacenter b.datacenter ≡ false)
      × (s ≡ suggestion fl an a b)

  suggest_from-IsMove :
      (a : PlacementNode F) (ts : List (PlacementNode F))
      → IsSource a
      → All IsTarget ts
      → All IsMove (suggest_from fl an a ts)
  suggest_from-IsMove a [] h k = tt
  suggest_from-IsMove a (t ∷ ts) h k =
      if_not-All IsMove (same_dc a.datacenter t.datacenter) (suggestion fl an a t) _
        (λ d. (a, t, h, k.0, d, refl)) (suggest_from-IsMove a ts h k.1)

  suggest_all-IsMove :
      (ss ts : List (PlacementNode F))
      → All IsSource ss
      → All IsTarget ts
      → All IsMove (suggest_all fl an ss ts)
  suggest_all-IsMove [] ts h k = tt
  suggest_all-IsMove (a ∷ ss) ts h k =
      append-All IsMove _ _ (suggest_from-IsMove a ts h.0 k) (suggest_all-IsMove ss ts h.1 k)

  -- Each suggestion moves data from a node that is used more than the target by a tenth to one that is
  -- used less than it by a tenth, both among the nodes and not in the same datacenter.
  pub suggest_rebalance-IsMove : All IsMove (suggest_rebalance fl an nodes target)
  unfolding suggest_rebalance
  suggest_rebalance-IsMove = All-sort_by _ IsMove _ (
      suggest_all-IsMove _ _
        (All-of_select (λ n. Memᴰ n nodes) (is_overutilized fl an target) nodes (All-Mem nodes))
        (All-of_select (λ n. Memᴰ n nodes) (is_underutilized fl an target) nodes (All-Mem nodes)))
