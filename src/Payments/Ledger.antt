-- ===== src/Payments/Ledger.antt =====
-- The tables of cyxcloud-metadata/migrations/005_uptime_tracking.sql and the statements on them. The rows
-- of `node_epoch_uptime` are kept by their unique key, the node and the epoch. The outcome of each
-- statement and its time are given by an environment.
use cyxcloud.Prelude.{
  ℕ, ◌+◌, Bool, true, false, not, ◌&&◌, String, Option, none, some, List, [], ◌∷◌, ◌++◌, map, ltb,
  ◌==◌, if◌then◌else◌, ℤ, Key, number_key, pair_key,
}
use cyxcloud.Prelude.Rows.{select}
use cyxcloud.Prelude.Assoc.{Map, get, insert}
use cyxcloud.Prelude.Sorting.{sort_by, descending}
use cyxcloud.Lifecycle.{NodeStatus, online, offline, recovering, draining, maintenance, unknown}
use cyxcloud.Payments.Steps.{Step}

-- The columns of `nodes` that payments read.
pub record PaidNode : Type 0 where
  pub id : ℕ
  pub peer_id : String
  pub wallet_address : Option String
  pub storage_total : ℕ
  pub status : NodeStatus

pub record NodeEpochUptime : Type 0 where
  pub node_id : ℕ
  pub epoch : ℕ
  pub epoch_start : ℕ
  pub epoch_end : Option ℕ
  pub seconds_online : ℕ
  pub seconds_offline : ℕ
  pub last_status_change : Option ℕ
  pub payment_allocated : Bool
  pub payment_amount : Option ℤ
  pub payment_tx_signature : Option String

pub record SlashingEvent : Type 0 where
  pub node_id : ℕ
  pub epoch : ℕ
  pub reason : String
  pub slash_percent : ℕ
  pub tx_signature : Option String
  pub seconds_offline : ℕ
  pub threshold_seconds : ℕ

pub record PaymentEpoch : Type 0 where
  pub epoch : ℕ
  pub started_at : ℕ
  pub ended_at : Option ℕ
  pub finalized : Bool
  pub total_pool_amount : Option ℤ
  pub nodes_share : Option ℤ
  pub platform_share : Option ℤ
  pub community_share : Option ℤ
  pub nodes_paid : ℕ
  pub finalize_tx_signature : Option String

pub record PaymentLedger : Type 0 where
  pub nodes : List PaidNode
  pub uptimes : Map (ℕ × ℕ) NodeEpochUptime
  pub slashing_events : List SlashingEvent
  pub payment_epochs : Map ℕ PaymentEpoch

pub record PaymentDaemonMetrics : Type 0 where
  pub current_epoch : ℕ
  pub epoch_start : Option ℕ
  pub uptime_updates : ℕ
  pub epochs_finalized : ℕ
  pub nodes_paid : ℕ
  pub total_paid_amount : ℕ
  pub slashings : ℕ
  pub last_accumulate_at : Option ℕ
  pub last_error : Option String

-- The calls of the payment program.
pub data ChainCall : Type 0 where
  slash_node : (owner node reason : String) → ChainCall
  allocate_node_reward : (epoch : ℕ) → (owner node : String) → (reward : ℕ) → ChainCall
  finalize_epoch : (epoch : ℕ) → ChainCall

pub record World : Type 0 where
  pub ledger : PaymentLedger
  pub metrics : PaymentDaemonMetrics
  pub chain_calls : List ChainCall

pub data Statement : Type 0 where
  ask_current_epoch ask_nodes ask_extended_downtime ask_uptimes : Statement
  end_uptime close_epoch create_epoch initialize_nodes : Statement
  record_uptime add_uptime slashed_node record_slash weighed_node mark_payment : ℕ → Statement

-- Whether a statement goes through, and the time at which it runs.
pub record Statements : Type 0 where
  pub up : Statement → Bool
  pub at : Statement → ℕ
  pub error_text : String

abbrev pub new_uptime : ℕ → ℕ → ℕ → NodeEpochUptime
new_uptime node number start = record {
  node_id = node;
  epoch = number;
  epoch_start = start;
  epoch_end = none;
  seconds_online = 0;
  seconds_offline = 0;
  last_status_change = none;
  payment_allocated = false;
  payment_amount = none;
  payment_tx_signature = none;
}

abbrev pub new_epoch : ℕ → ℕ → PaymentEpoch
new_epoch number now = record {
  epoch = number;
  started_at = now;
  ended_at = none;
  finalized = false;
  total_pool_amount = none;
  nodes_share = none;
  platform_share = none;
  community_share = none;
  nodes_paid = 0;
  finalize_tx_signature = none;
}

-- INSERT ... ON CONFLICT (key) DO NOTHING
abbrev pub insert_new : {K V : Type 0} ⦃e : Key K⦄ → K → V → Option V → Map K V → Map K V
insert_new k v none m = insert k v m
insert_new k v (some old) m = m

-- UPDATE ... WHERE key = k
abbrev pub update_row : {K V : Type 0} ⦃e : Key K⦄ → K → (V → V) → Option V → Map K V → Map K V
update_row k f none m = m
update_row k f (some v) m = insert k (f v) m

unfoldable pub create_or_get_epoch_uptime : (node epoch start : ℕ) → PaymentLedger → PaymentLedger
create_or_get_epoch_uptime node number start l = record l {
  uptimes =
      insert_new (node, number) (new_uptime node number start) (get (node, number) l.uptimes)
        l.uptimes;
}

abbrev pub update_uptime :
    ℕ → ℕ → (NodeEpochUptime → NodeEpochUptime) → PaymentLedger → PaymentLedger
update_uptime node number f l = record l {
  uptimes = update_row (node, number) f (get (node, number) l.uptimes) l.uptimes;
}

unfoldable pub update_uptime_online : (node epoch seconds now : ℕ) → PaymentLedger → PaymentLedger
update_uptime_online node number seconds now =
    update_uptime node number
      (λ u. record u { seconds_online = u.seconds_online + seconds; last_status_change = some now })

unfoldable pub update_uptime_offline : (node epoch seconds now : ℕ) → PaymentLedger → PaymentLedger
update_uptime_offline node number seconds now =
    update_uptime node number (λ u. record u {
      seconds_offline = u.seconds_offline + seconds;
      last_status_change = some now;
    })

unfoldable pub mark_payment_allocated :
    (node epoch : ℕ) (amount : ℤ) (signature : Option String) → PaymentLedger → PaymentLedger
mark_payment_allocated node number amount signature = update_uptime node number (λ u. record u {
  payment_allocated = true;
  payment_amount = some amount;
  payment_tx_signature = signature;
})

abbrev pub end_row : ℕ → ℕ → NodeEpochUptime → NodeEpochUptime
end_row number now u = if u.epoch == number then record u { epoch_end = some now } else u

unfoldable pub end_epoch_uptime : (epoch now : ℕ) → PaymentLedger → PaymentLedger
end_epoch_uptime number now l = record l {
  uptimes = map (λ p. (p.0, end_row number now p.1)) l.uptimes;
}

unfoldable pub get_epoch_uptime : ℕ → PaymentLedger → List NodeEpochUptime
get_epoch_uptime number l =
    sort_by (descending (λ u. u.seconds_online))
      (select (λ u. u.epoch == number) (map (λ p. p.1) l.uptimes))

unfoldable pub get_nodes_with_extended_downtime :
    (epoch threshold_seconds : ℕ) → PaymentLedger → List NodeEpochUptime
get_nodes_with_extended_downtime number threshold l =
    select (λ u. u.epoch == number && ltb threshold u.seconds_offline) (map (λ p. p.1) l.uptimes)

abbrev pub find_node : ℕ → List PaidNode → Option PaidNode
find_node k [] = none
find_node k (n ∷ ns) = if n.id == k then some n else find_node k ns

abbrev pub record_slashing_event : SlashingEvent → PaymentLedger → PaymentLedger
record_slashing_event event l = record l { slashing_events = l.slashing_events ++ (event ∷ []) }

-- The primary key refuses an epoch that is there already.
abbrev pub create_row : ℕ → ℕ → Option PaymentEpoch → PaymentLedger → Option PaymentLedger
create_row number now (some row) l = none
create_row number now none l =
    some (record l { payment_epochs = insert number (new_epoch number now) l.payment_epochs })

unfoldable pub create_payment_epoch : (epoch now : ℕ) → PaymentLedger → Option PaymentLedger
create_payment_epoch number now l = create_row number now (get number l.payment_epochs) l

abbrev pub first_epoch : List PaymentEpoch → Option PaymentEpoch
first_epoch [] = none
first_epoch (e ∷ es) = some e

unfoldable pub get_current_payment_epoch : PaymentLedger → Option PaymentEpoch
get_current_payment_epoch l = first_epoch (
    sort_by (descending (λ e. e.epoch))
      (select (λ e. not e.finalized) (map (λ p. p.1) l.payment_epochs)))

pub record EpochResult : Type 0 where
  pub total_pool_amount : ℤ
  pub nodes_share : ℤ
  pub platform_share : ℤ
  pub community_share : ℤ
  pub nodes_paid : ℕ
  pub signature : Option String

unfoldable pub finalize_payment_epoch :
    (epoch : ℕ) → EpochResult → (now : ℕ) → PaymentLedger → PaymentLedger
finalize_payment_epoch number r now l = record l {
  payment_epochs =
      update_row number
        (λ e. record e {
          finalized = true;
          ended_at = some now;
          total_pool_amount = some r.total_pool_amount;
          nodes_share = some r.nodes_share;
          platform_share = some r.platform_share;
          community_share = some r.community_share;
          nodes_paid = r.nodes_paid;
          finalize_tx_signature = r.signature;
        })
        (get number l.payment_epochs) l.payment_epochs;
}

abbrev pub is_payable_status : NodeStatus → Bool
is_payable_status online = true
is_payable_status recovering = true
is_payable_status offline = true
is_payable_status draining = true
is_payable_status maintenance = false
is_payable_status (unknown s) = false

abbrev pub initialize_rows :
    ℕ → ℕ → List PaidNode → Map (ℕ × ℕ) NodeEpochUptime → Map (ℕ × ℕ) NodeEpochUptime
initialize_rows number start [] m = m
initialize_rows number start (n ∷ ns) m = initialize_rows number start ns (
    if is_payable_status n.status
    then insert_new (n.id, number) (new_uptime n.id number start) (get (n.id, number) m) m
    else m)

unfoldable pub initialize_epoch_for_all_nodes : (epoch start : ℕ) → PaymentLedger → PaymentLedger
initialize_epoch_for_all_nodes number start l = record l {
  uptimes = initialize_rows number start l.nodes l.uptimes;
}

-- A query, and a statement that may break a constraint.
module _ (s : Statements) where
  unfoldable pub ask : {A : Type 0} → Statement → (PaymentLedger → A) → Step World A
  ask q f w = if s.up q then (w, some (f w.ledger)) else (w, none)

  abbrev pub keep : Option PaymentLedger → World → World × Option (Unit {0})
  keep none w = (w, none)
  keep (some l) w = (record w { ledger = l }, some tt)

  unfoldable pub try : Statement → (PaymentLedger → Option PaymentLedger) → Step World (Unit {0})
  try q f w = if s.up q then keep (f w.ledger) w else (w, none)

  abbrev pub execute : Statement → (PaymentLedger → PaymentLedger) → Step World (Unit {0})
  execute q f = try q (λ l. some (f l))
