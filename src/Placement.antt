-- ===== src/Placement.antt =====
-- cyxcloud-metadata/src/topology.rs: the placement of shards on nodes. The arithmetic of `f64` is an
-- interface. A node's identifier is a string, its rack a signed integer that is only compared.
pub mod Scoring
pub mod Selection
pub mod Decisions
pub mod Regions
mod Tests
use cyxcloud.Prelude.{
  ℕ, ◌+◌, ◌-◌, ◌*◌, Bool, true, false, not, ◌&&◌, String, Option, none, some, List, [], ◌∷◌, ◌++◌,
  map, ltb, leb, ◌==◌, if◌then◌else◌, length, take, is_empty, ℤ, ◌=?◌, Key, string_key, integer_key,
  pair_key,
}
use cyxcloud.Prelude.Floats.{Floats, Angles}
use cyxcloud.Prelude.Rows.{select}
use cyxcloud.Prelude.Assoc.{Map, get, insert}
use cyxcloud.Prelude.Sorting.{sort_by}

pub record PlacementConfig (F : Type 0) : Type 0 where
  pub max_shards_per_dc : ℕ
  pub max_shards_per_rack : ℕ
  pub prefer_low_utilization : Bool
  pub utilization_weight : F
  pub proximity_weight : F
  pub min_available_storage : ℕ

pub record PlacementNode (F : Type 0) : Type 0 where
  pub id : String
  pub grpc_address : String
  pub datacenter : Option String
  pub rack : Option ℤ
  pub region : Option String
  pub latitude : Option F
  pub longitude : Option F
  pub storage_total : ℕ
  pub storage_used : ℕ
  pub bandwidth_mbps : ℕ

pub record PlacementDecision (F : Type 0) : Type 0 where
  pub shard_index : ℕ
  pub nodes : List (PlacementNode F)
  pub score : F

pub record RebalanceSuggestion (F : Type 0) : Type 0 where
  pub source_node : String
  pub target_node : String
  pub priority : F

abbrev pub DcUsage : Type 0
DcUsage = Map String ℕ

abbrev pub RackUsage : Type 0
RackUsage = Map (String × ℤ) ℕ

abbrev pub both : Option String → Option ℤ → Option (String × ℤ)
both (some dc) (some rack) = some (dc, rack)
both (some dc) none = none
both none rack = none

module _ {F : Type 0} where
  -- `saturating_sub`
  abbrev pub available_storage : PlacementNode F → ℕ
  available_storage n = n.storage_total - n.storage_used

  abbrev pub dc_of : PlacementNode F → Option String
  dc_of n = n.datacenter

  abbrev pub rack_of : PlacementNode F → Option (String × ℤ)
  rack_of n = both n.datacenter n.rack

-- `map.get(&k).copied().unwrap_or(0)`
abbrev pub usage_or_zero : Option ℕ → ℕ
usage_or_zero none = 0
usage_or_zero (some n) = n

module _ {K : Type 0} ⦃e : Key K⦄ where
  abbrev pub used : K → Map K ℕ → ℕ
  used k usage = usage_or_zero (get k usage)

  -- The test before the `continue`: a node without the label is never held back.
  abbrev pub has_room_for : ℕ → Option K → Map K ℕ → Bool
  has_room_for limit none usage = true
  has_room_for limit (some k) usage = not (leb limit (used k usage))

  -- `*usage.entry(k).or_default() += 1`
  abbrev pub count_one : Option K → Map K ℕ → Map K ℕ
  count_one none usage = usage
  count_one (some k) usage = insert k (used k usage + 1) usage

module _ {F : Type 0} where
  -- The loop over the nodes in the order of their scores.
  unfoldable pub pick :
      PlacementConfig F
      → ℕ
      → List (PlacementNode F)
      → DcUsage
      → RackUsage
      → List (PlacementNode F)
      → List (PlacementNode F)
  pick c count [] dcs racks selected = selected
  pick c count (n ∷ ns) dcs racks selected =
      let passed_over = pick c count ns dcs racks selected in
      let chosen =
        pick c count ns (count_one (dc_of n) dcs) (count_one (rack_of n) racks)
          (selected ++ (n ∷ [])) in
      if leb count (length selected)
      then selected
      else if has_room_for c.max_shards_per_dc (dc_of n) dcs
      then if has_room_for c.max_shards_per_rack (rack_of n) racks then chosen else passed_over
      else passed_over

  -- The tracking of usage over all shards.
  abbrev pub count_nodes : List (PlacementNode F) → DcUsage → RackUsage → DcUsage × RackUsage
  count_nodes [] dcs racks = (dcs, racks)
  count_nodes (n ∷ ns) dcs racks =
      count_nodes ns (count_one (dc_of n) dcs) (count_one (rack_of n) racks)
