-- ===== src/Placement/Scoring.antt =====
-- The scores of cyxcloud-metadata/src/topology.rs and what is built on them: the selection of nodes
-- for a shard and for all shards, suggestions for rebalancing, and the nodes near a point.
use cyxcloud.Prelude.{
  ℕ, zero, suc, Bool, true, false, not, String, Option, none, some, List, [], ◌∷◌, ◌++◌, map, leb,
  ◌==◌, if◌then◌else◌, length, take, is_empty, ℤ, ◌=?◌, Key, string_key, integer_key, pair_key,
}
use cyxcloud.Prelude.Floats.{Floats, Angles}
use cyxcloud.Prelude.Rows.{select}
use cyxcloud.Prelude.Assoc.{Map, get, insert}
use cyxcloud.Prelude.Sorting.{sort_by}
use cyxcloud.Rebalancer.Detector.{contains}
use cyxcloud.Placement.{
  PlacementConfig, PlacementNode, PlacementDecision, RebalanceSuggestion, DcUsage, RackUsage,
  available_storage, dc_of, rack_of, used, count_nodes, pick,
}

-- The datacenters in use, as a `HashSet`.
abbrev pub insert_dc : Option String → List String → List String
insert_dc none dcs = dcs
insert_dc (some dc) dcs = if contains dcs dc then dcs else dc ∷ dcs

-- `==` of two `Option<String>`
abbrev pub same_dc : Option String → Option String → Bool
same_dc none none = true
same_dc (some a) (some b) = a =? b
same_dc none (some b) = false
same_dc (some a) none = false

abbrev pub region_or_unknown : Option String → String
region_or_unknown none = "unknown"
region_or_unknown (some r) = r

module _ {F : Type 0} where
  abbrev pub datacenters : List (PlacementNode F) → List String → List String
  datacenters [] dcs = dcs
  datacenters (n ∷ ns) dcs = datacenters ns (insert_dc (dc_of n) dcs)

  abbrev pub cons_some : Option F → List F → List F
  cons_some none ds = ds
  cons_some (some d) ds = d ∷ ds

  abbrev pub entry_or_empty : Option (List (PlacementNode F)) → List (PlacementNode F)
  entry_or_empty none = []
  entry_or_empty (some ns) = ns

  abbrev pub group_into :
      List (PlacementNode F)
      → Map String (List (PlacementNode F))
      → Map String (List (PlacementNode F))
  group_into [] groups = groups
  group_into (n ∷ ns) groups =
      let region = region_or_unknown n.region in
      group_into ns (insert region (entry_or_empty (get region groups) ++ (n ∷ [])) groups)

  unfoldable pub group_by_region : List (PlacementNode F) → Map String (List (PlacementNode F))
  group_by_region nodes = group_into nodes []

  abbrev pub is_eligible : PlacementConfig F → PlacementNode F → Bool
  is_eligible c n = leb c.min_available_storage (available_storage n)

module _ {F : Type 0} (fl : Floats F) (an : Angles F) where
  open fl use {of_nat, tenths, plus, minus, times, over, smaller, at_most}

  unfoldable pub utilization : PlacementNode F → F
  utilization n =
      if n.storage_total == 0
      then of_nat 1
      else over (of_nat n.storage_used) (of_nat n.storage_total)

  -- The haversine formula.
  abbrev pub great_circle : F → F → F → F → F
  great_circle lat1 lon1 lat2 lon2 =
      let lat1_rad = an.to_radians lat1 in
      let lat2_rad = an.to_radians lat2 in
      let delta_lat = an.to_radians (minus lat2 lat1) in
      let delta_lon = an.to_radians (minus lon2 lon1) in
      let half_lat = an.sin (over delta_lat (of_nat 2)) in
      let half_lon = an.sin (over delta_lon (of_nat 2)) in
      let a =
        plus (times half_lat half_lat)
          (times (times (an.cos lat1_rad) (an.cos lat2_rad)) (times half_lon half_lon)) in
      times (of_nat 6371) (times (of_nat 2) (an.asin (an.sqrt a)))

  abbrev pub between : Option F → Option F → Option F → Option F → Option F
  between (some a) (some b) (some c) (some d) = some (great_circle a b c d)
  between none b c d = none
  between (some a) none c d = none
  between (some a) (some b) none d = none
  between (some a) (some b) (some c) none = none

  unfoldable pub distance_km : PlacementNode F → PlacementNode F → Option F
  distance_km n other = between n.latitude n.longitude other.latitude other.longitude

  -- One minus the distance on a scale up to 20,000 km.
  abbrev pub closeness : F → F
  closeness d = minus (of_nat 1) (smaller (over d (of_nat 20000)) (of_nat 1))

  abbrev pub distance_to : Option (PlacementNode F) → PlacementNode F → Option F
  distance_to none n = none
  distance_to (some origin) n = distance_km n origin

  abbrev pub add_proximity : F → Option F → F → F
  add_proximity weight none score = score
  add_proximity weight (some d) score = plus score (times (times (closeness d) (of_nat 100)) weight)

  -- A bonus for a label not used yet, a penalty for each use of it.
  abbrev pub add_diversity :
      (K : Type 0) ⦃e : Key K⦄ → (bonus penalty : ℕ) → Option K → Map K ℕ → F → F
  add_diversity K bonus penalty none usage score = score
  add_diversity K bonus penalty (some k) usage score =
      if used k usage == 0
      then plus score (of_nat bonus)
      else minus score (times (of_nat (used k usage)) (of_nat penalty))

  unfoldable pub score_node :
      PlacementConfig F → Option (PlacementNode F) → DcUsage → RackUsage → PlacementNode F → F
  score_node c origin dc_usage rack_usage n =
      let base =
        if c.prefer_low_utilization
        then plus (of_nat 100)
            (times (times (minus (of_nat 1) (utilization n)) (of_nat 100)) c.utilization_weight)
        else of_nat 100 in
      let near = add_proximity c.proximity_weight (distance_to origin n) base in
      let spread = add_diversity String 50 10 (dc_of n) dc_usage near in
      plus (add_diversity (String × ℤ) 25 5 (rack_of n) rack_usage spread)
        (over (of_nat n.bandwidth_mbps) (of_nat 100))

  unfoldable pub select_for_shard :
      PlacementConfig F
      → List (PlacementNode F)
      → ℕ
      → Option (PlacementNode F)
      → DcUsage
      → RackUsage
      → List (PlacementNode F)
  select_for_shard c nodes count origin dc_usage rack_usage =
      let score = score_node c origin dc_usage rack_usage in
      if leb (length nodes) count
      then nodes
      else pick c count (sort_by (λ a b. at_most (score b) (score a)) nodes) [] [] []

  unfoldable pub sum : List F → F
  sum [] = of_nat 0
  sum (x ∷ xs) = plus x (sum xs)

  -- `filter_map`
  abbrev pub distances : Option (PlacementNode F) → List (PlacementNode F) → List F
  distances origin [] = []
  distances origin (n ∷ ns) = cons_some (distance_to origin n) (distances origin ns)

  unfoldable pub calculate_placement_score : List (PlacementNode F) → Option (PlacementNode F) → F
  calculate_placement_score nodes origin =
      let diversity =
        plus (of_nat 0) (times (of_nat (length (datacenters nodes []))) (of_nat 20)) in
      let avg_util = over (sum (map utilization nodes)) (of_nat (length nodes)) in
      let score = plus diversity (times (minus (of_nat 1) avg_util) (of_nat 50)) in
      let ds = distances origin nodes in
      if is_empty nodes
      then of_nat 0
      else if is_empty ds
      then score
      else plus score (times (closeness (over (sum ds) (of_nat (length ds)))) (of_nat 30))

  -- The decisions for the shards from `index` on; the usage of earlier shards weighs in the scores.
  unfoldable pub place_shards :
      PlacementConfig F
      → List (PlacementNode F)
      → (left index replicas : ℕ) → Option (PlacementNode F)
      → DcUsage
      → RackUsage
      → List (PlacementDecision F)
  place_shards c eligible zero index replicas origin dcs racks = []
  place_shards c eligible (suc left) index replicas origin dcs racks =
      let selected = select_for_shard c eligible replicas origin dcs racks in
      let (dcs', racks') = count_nodes selected dcs racks in
      record {
        shard_index = index;
        nodes = selected;
        score = calculate_placement_score selected origin;
      }
      ∷ place_shards c eligible left (suc index) replicas origin dcs' racks'

  unfoldable pub select_nodes :
      PlacementConfig F
      → List (PlacementNode F)
      → (num_shards replicas_per_shard : ℕ) → Option (PlacementNode F)
      → List (PlacementDecision F)
  select_nodes c available num_shards replicas origin =
      let eligible = select (is_eligible c) available in
      if is_empty available
      then []
      else if is_empty eligible
      then []
      else place_shards c eligible num_shards 0 replicas origin [] []

  -- `a > b` is `not (a <= b)`.
  abbrev pub is_overutilized : F → PlacementNode F → Bool
  is_overutilized target n = not (at_most (utilization n) (plus target (tenths 1)))

  abbrev pub is_underutilized : F → PlacementNode F → Bool
  is_underutilized target n = not (at_most (minus target (tenths 1)) (utilization n))

  abbrev pub suggestion : PlacementNode F → PlacementNode F → RebalanceSuggestion F
  suggestion source target = record {
    source_node = source.id;
    target_node = target.id;
    priority = times (minus (utilization source) (utilization target)) (of_nat 100);
  }

  abbrev pub suggest_from : PlacementNode F → List (PlacementNode F) → List (RebalanceSuggestion F)
  suggest_from source [] = []
  suggest_from source (t ∷ ts) =
      let rest = suggest_from source ts in
      if same_dc source.datacenter t.datacenter then rest else suggestion source t ∷ rest

  abbrev pub suggest_all :
      List (PlacementNode F) → List (PlacementNode F) → List (RebalanceSuggestion F)
  suggest_all [] targets = []
  suggest_all (s ∷ ss) targets = suggest_from s targets ++ suggest_all ss targets

  unfoldable pub suggest_rebalance : List (PlacementNode F) → F → List (RebalanceSuggestion F)
  suggest_rebalance nodes target =
      sort_by (λ a b. at_most b.priority a.priority)
        (suggest_all (select (is_overutilized target) nodes)
          (select (is_underutilized target) nodes))

  abbrev pub cons_distance :
      Option F → PlacementNode F → List (F × PlacementNode F) → List (F × PlacementNode F)
  cons_distance none n ns = ns
  cons_distance (some d) n ns = (d, n) ∷ ns

  abbrev pub with_distance : PlacementNode F → List (PlacementNode F) → List (F × PlacementNode F)
  with_distance reference [] = []
  with_distance reference (n ∷ ns) =
      cons_distance (distance_km n reference) n (with_distance reference ns)

  abbrev pub reference_at : F → F → PlacementNode F
  reference_at lat lon = record {
    id = "";
    grpc_address = "";
    datacenter = none;
    rack = none;
    region = none;
    latitude = some lat;
    longitude = some lon;
    storage_total = 0;
    storage_used = 0;
    bandwidth_mbps = 0;
  }

  unfoldable pub nearest_nodes : List (PlacementNode F) → F → F → ℕ → List (PlacementNode F)
  nearest_nodes nodes lat lon count =
      map (λ p. p.1)
        (take count (sort_by (λ p q. at_most p.0 q.0) (with_distance (reference_at lat lon) nodes)))
