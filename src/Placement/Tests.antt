-- ===== src/Placement/Tests.antt =====
-- Runs of the placement on four nodes, with natural numbers in place of `f64`.
use cyxcloud.Prelude.{
  ℕ, ◌+◌, ◌-◌, ◌*◌, ◌/◌, min, String, true, Option, none, some, List, [], ◌∷◌, ◌≡◌, refl, leb, map,
  All, Unique, ne_of_=?, is_empty, if◌then◌else◌, pos, string_key, pair_key, integer_key,
}
use cyxcloud.Prelude.Floats.{Floats, Angles}
use cyxcloud.Prelude.Rows.{select}
use cyxcloud.Prelude.Assoc.{get, insert}
use cyxcloud.Prelude.Sorting.{sort_by, place}
use cyxcloud.Placement.{PlacementConfig, PlacementNode, PlacementDecision, available_storage, pick}
use cyxcloud.Placement.Scoring.{
  select_for_shard, select_nodes, is_eligible, group_by_region, entry_or_empty, score_node,
  utilization,
}
use cyxcloud.Placement.Decisions.{node_id, IsPlacement, select_nodes_ok, count_from}
use cyxcloud.Placement.Regions.{group_by_region-select, is_in_region}

-- Hundredths.
abbrev numbers : Floats ℕ
numbers = record {
  of_nat = λ n. n * 100;
  tenths = λ n. n * 10;
  plus = λ a b. a + b;
  minus = λ a b. a - b;
  times = λ a b. a * b / 100;
  over = λ a b. a * 100 / b;
  smaller = min;
  at_most = leb;
}

abbrev flat : Angles ℕ
flat = record { to_radians = λ a. a; sin = λ a. a; cos = λ a. a; asin = λ a. a; sqrt = λ a. a }

abbrev config : PlacementConfig ℕ
config = record {
  max_shards_per_dc = 2;
  max_shards_per_rack = 1;
  prefer_low_utilization = true;
  utilization_weight = 50;
  proximity_weight = 30;
  min_available_storage = 100;
}

abbrev node_at : String → Option String → ℕ → ℕ → PlacementNode ℕ
node_at name dc rack_number used_bytes = record {
  id = name;
  grpc_address = name;
  datacenter = dc;
  rack = some (pos rack_number);
  region = some "eu";
  latitude = none;
  longitude = none;
  storage_total = 1000;
  storage_used = used_bytes;
  bandwidth_mbps = 100;
}

abbrev nodes : List (PlacementNode ℕ)
nodes =
    node_at "a" (some "x") 1 100
    ∷ node_at "b" (some "x") 1 200
    ∷ node_at "c" (some "y") 1 800
    ∷ node_at "d" (some "y") 2 950
    ∷ []

nodes-Unique : Unique node_id nodes
nodes-Unique = (
  (ne_of_=? "b" "a" refl, (ne_of_=? "c" "a" refl, (ne_of_=? "d" "a" refl, tt))),
  ((ne_of_=? "c" "b" refl, (ne_of_=? "d" "b" refl, tt)), ((ne_of_=? "d" "c" refl, tt), (tt, tt))),
)

nodes_by_name : map node_id (select (is_eligible config) nodes) ≡ "a" ∷ "b" ∷ "c" ∷ []
unfolding select
nodes_by_name = refl

-- Two replicas: not both of rack 1 in "x".
spread : map node_id (select_for_shard numbers flat config nodes 2 none [] []) ≡ "a" ∷ "c" ∷ []
unfolding select_for_shard pick sort_by place score_node utilization get insert
spread = refl

-- As many replicas as nodes: the limits are not applied.
unlimited :
    map node_id (select_for_shard numbers flat config nodes 4 none [] [])
    ≡ "a" ∷ "b" ∷ "c" ∷ "d" ∷ []
unfolding select_for_shard
unlimited = refl

select_nodes_ok_example :
    let eligible = select (λ n. leb 100 (available_storage n)) nodes in
    let ds = select_nodes numbers flat config nodes 3 2 none in
    All (λ (d : PlacementDecision ℕ). IsPlacement config eligible 2 d.nodes) ds
    × All (λ n. leb 100 (available_storage n) ≡ true) eligible
    × (map (λ (d : PlacementDecision ℕ). d.shard_index) ds
        ≡ (if is_empty eligible then [] else count_from 0 3))
select_nodes_ok_example = select_nodes_ok numbers flat config nodes 3 2 none nodes-Unique

group_by_region-select_example :
    entry_or_empty (get "eu" (group_by_region nodes)) ≡ select (is_in_region "eu") nodes
group_by_region-select_example = group_by_region-select nodes "eu"
