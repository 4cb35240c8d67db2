-- ===== src/Payments/Weights.antt =====
-- `NodeWeight` and `SlashReason` of cyxcloud-metadata/src/models.rs.
use cyxcloud.Prelude.{
  ℕ, ◌+◌, ◌-◌, ◌*◌, ◌/◌, ◌%◌, ◌^◌, String, Option, List, [], ◌∷◌, ltb, ◌==◌, if◌then◌else◌, ℤ, pos,
  negsuc,
}
use cyxcloud.Prelude.Floats.{Floats, Casts}

pub data SlashReason : Type 0 where
  data_loss extended_downtime corrupted_data failed_proofs : SlashReason

abbrev pub slash_percent_of : SlashReason → ℕ
slash_percent_of data_loss = 10
slash_percent_of extended_downtime = 5
slash_percent_of corrupted_data = 50
slash_percent_of failed_proofs = 15

abbrev pub reason_text : SlashReason → String
reason_text data_loss = "data_loss"
reason_text extended_downtime = "extended_downtime"
reason_text corrupted_data = "corrupted_data"
reason_text failed_proofs = "failed_proofs"

-- `n as i64`
abbrev pub as_i64 : ℕ → ℤ
as_i64 n = if ltb n (2 ^ 63) then pos n else negsuc (2 ^ 64 - 1 - n)

-- The factors of the weight, which only tests read, are left out.
pub record NodeWeight : Type 0 where
  pub node_id : ℕ
  pub peer_id : String
  pub wallet_address : Option String
  pub storage_bytes : ℕ
  pub uptime_seconds : ℕ
  pub reputation : ℕ
  pub weight : ℕ

module _ {F : Type 0} (fl : Floats F) (ca : Casts F) where
  open fl use {of_nat, tenths, plus, times, over, smaller}

  abbrev pub weight_of : (storage_bytes uptime_seconds epoch_duration reputation : ℕ) → ℕ
  weight_of storage_bytes uptime_seconds epoch_duration reputation =
      let uptime_factor =
        smaller (over (of_nat uptime_seconds) (of_nat epoch_duration)) (of_nat 1) in
      let reputation_factor = plus (tenths 5) (over (of_nat reputation) (of_nat 10000)) in
      ca.truncate (times (times (of_nat storage_bytes) uptime_factor) reputation_factor)

  abbrev pub calculate_weight :
      ℕ
      → String
      → Option String
      → (storage_bytes uptime_seconds epoch_duration reputation : ℕ) → NodeWeight
  calculate_weight id peer wallet bytes seconds epoch_duration score = record {
    node_id = id;
    peer_id = peer;
    wallet_address = wallet;
    storage_bytes = bytes;
    uptime_seconds = seconds;
    reputation = score;
    weight = weight_of bytes seconds epoch_duration score;
  }

-- The product is computed in 128 bits, which the operands cannot exceed; the result is cut to 64.
unfoldable pub calculate_share : NodeWeight → ℕ → ℕ → ℕ
calculate_share w total_nodes_share total_weight =
    if total_weight == 0 then 0 else (total_nodes_share * w.weight / total_weight) % 2 ^ 64

abbrev pub sum_weights : List NodeWeight → ℕ
sum_weights [] = 0
sum_weights (w ∷ ws) = w.weight + sum_weights ws

-- `iter().map(|w| w.weight).sum()` in 64 bits.
abbrev pub total_weight_of : List NodeWeight → ℕ
total_weight_of ws = sum_weights ws % 2 ^ 64
