-- ===== src/Payments/Daemon.antt =====
-- `PaymentDaemon` of cyxcloud-gateway/src/payment_daemon.rs: one step for each of its methods. The methods
-- that are compiled with and without the feature "blockchain" are both here, the latter with the ending
-- _dry_run. Counters stay below the limits of their types. Log messages are left out.
use cyxcloud.Prelude.{
  ℕ, ◌+◌, ◌*◌, Bool, true, false, String, Option, none, some, List, [], ◌∷◌, ◌++◌, ◌==◌,
  if◌then◌else◌,
}
use cyxcloud.Lifecycle.{NodeStatus, online, offline, recovering, draining, maintenance, unknown}
use cyxcloud.Payments.Steps.{Step, done, ◌>>=◌, ◌>>◌}
use cyxcloud.Payments.Weights.{
  NodeWeight, calculate_share, as_i64, slash_percent_of, reason_text, extended_downtime,
}
use cyxcloud.Payments.Ledger.{
  PaidNode, NodeEpochUptime, PaymentEpoch, PaymentDaemonMetrics, ChainCall, slash_node,
  allocate_node_reward, finalize_epoch, World, Statements, ask, try, execute, ask_current_epoch,
  ask_nodes, ask_extended_downtime, create_epoch, initialize_nodes, record_uptime, add_uptime,
  slashed_node, record_slash, mark_payment, find_node, record_slashing_event,
  get_current_payment_epoch, create_payment_epoch, initialize_epoch_for_all_nodes,
  create_or_get_epoch_uptime, update_uptime_online, update_uptime_offline,
  get_nodes_with_extended_downtime, mark_payment_allocated,
}

pub record PaymentDaemonConfig : Type 0 where
  pub accumulate_interval : ℕ
  pub extended_downtime_threshold : ℕ
  pub enable_blockchain : Bool

abbrev pub default_payment_config : PaymentDaemonConfig
default_payment_config = record {
  accumulate_interval = 60;
  extended_downtime_threshold = 4 * 60 * 60;
  enable_blockchain = true;
}

abbrev pub epoch_duration_seconds : ℕ
epoch_duration_seconds = 7 * 24 * 60 * 60

abbrev pub empty_metrics : PaymentDaemonMetrics
empty_metrics = record {
  current_epoch = 0;
  epoch_start = none;
  uptime_updates = 0;
  epochs_finalized = 0;
  nodes_paid = 0;
  total_paid_amount = 0;
  slashings = 0;
  last_accumulate_at = none;
  last_error = none;
}

-- The client of the chain: which texts are public keys, the signature of a call that succeeds, and the
-- pool of an epoch (all of it and the share of the nodes), where there is one.
pub record Chain : Type 0 where
  pub is_key : String → Bool
  pub answer : ChainCall → Option String
  pub epoch_rewards : ℕ → Option (ℕ × ℕ)

abbrev pub update_metrics : (PaymentDaemonMetrics → PaymentDaemonMetrics) → Step World (Unit {0})
update_metrics f w = (record w { metrics = f w.metrics }, some tt)

abbrev pub call_chain : Chain → ChainCall → Step World (Option String)
call_chain b call w =
    (record w { chain_calls = w.chain_calls ++ (call ∷ []) }, some (b.answer call))

-- A call on behalf of a wallet, where the chain is enabled and there and the wallet is a key.
abbrev pub call_for_wallet :
    Bool → Option Chain → Option String → (String → ChainCall) → Step World (Option String)
call_for_wallet false b wallet call = done none
call_for_wallet true none wallet call = done none
call_for_wallet true (some b) none call = done none
call_for_wallet true (some b) (some owner) call =
    if b.is_key owner then call_chain b (call owner) else done none

abbrev pub call_finalize : Bool → Option Chain → ℕ → Step World (Option String)
call_finalize false b number = done none
call_finalize true none number = done none
call_finalize true (some b) number = call_chain b (finalize_epoch number)

-- The pool and the share of the nodes; none where the chain has no data.
abbrev pub pool_of : Bool → Option Chain → ℕ → Option (ℕ × ℕ)
pool_of false b number = some (1000000000, 850000000)
pool_of true none number = some (0, 0)
pool_of true (some b) number = b.epoch_rewards number

abbrev pub is_up : NodeStatus → Bool
is_up online = true
is_up recovering = true
is_up offline = false
is_up draining = false
is_up maintenance = false
is_up (unknown s) = false

abbrev pub or_now : Option ℕ → ℕ → ℕ
or_now none now = now
or_now (some start) now = start

abbrev pub cons_weight : Option NodeWeight → List NodeWeight → List NodeWeight
cons_weight none ws = ws
cons_weight (some w) ws = w ∷ ws

module _ (s : Statements) where
  abbrev pub resume_or_create : Option PaymentEpoch → Step World (Unit {0})
  resume_or_create (some e) =
      update_metrics λ m. record m { current_epoch = e.epoch; epoch_start = some e.started_at }
  resume_or_create none =
      try s create_epoch (create_payment_epoch 1 (s.at create_epoch))
      >> execute s initialize_nodes (initialize_epoch_for_all_nodes 1 (s.at initialize_nodes))
      >> update_metrics λ m. record m { current_epoch = 1; epoch_start = some (s.at create_epoch) }

  unfoldable pub ensure_current_epoch : Step World (Unit {0})
  ensure_current_epoch = ask s ask_current_epoch get_current_payment_epoch >>= resume_or_create

  abbrev pub accumulate_node : (number seconds : ℕ) → Option ℕ → PaidNode → Step World (Unit {0})
  accumulate_node number seconds start n =
      execute s (record_uptime n.id)
        (create_or_get_epoch_uptime n.id number (or_now start (s.at (record_uptime n.id))))
      >> execute s (add_uptime n.id) (
          if is_up n.status
          then update_uptime_online n.id number seconds (s.at (add_uptime n.id))
          else update_uptime_offline n.id number seconds (s.at (add_uptime n.id)))

  unfoldable pub accumulate_nodes :
      (number seconds : ℕ) → Option ℕ → List PaidNode → Step World (Unit {0})
  accumulate_nodes number seconds start [] = done tt
  accumulate_nodes number seconds start (n ∷ ns) =
      accumulate_node number seconds start n >> accumulate_nodes number seconds start ns

  unfoldable pub accumulate_uptime : PaymentDaemonConfig → ℕ → Step World (Unit {0})
  accumulate_uptime c now w =
      if w.metrics.current_epoch == 0
      then (w, some tt)
      else (ask s ask_nodes (λ l. l.nodes) >>= λ ns.
            accumulate_nodes w.metrics.current_epoch c.accumulate_interval w.metrics.epoch_start ns
            >> update_metrics λ m. record m {
              uptime_updates = m.uptime_updates + 1;
              last_accumulate_at = some now;
            })
          w

  -- The event and the metrics of one node that is slashed.
  abbrev pub record_slashed :
      (number threshold : ℕ) → NodeEpochUptime → Option String → Step World (Unit {0})
  record_slashed number threshold u signature =
      execute s (record_slash u.node_id) (
        record_slashing_event (record {
          node_id = u.node_id;
          epoch = number;
          reason = reason_text extended_downtime;
          slash_percent = slash_percent_of extended_downtime;
          tx_signature = signature;
          seconds_offline = u.seconds_offline;
          threshold_seconds = threshold;
        }))
      >> update_metrics λ m. record m { slashings = m.slashings + 1 }

  abbrev pub slash_found :
      PaymentDaemonConfig
      → Option Chain
      → ℕ
      → NodeEpochUptime
      → Option PaidNode
      → Step World (Unit {0})
  slash_found c b number u none = done tt
  slash_found c b number u (some n) =
      call_for_wallet c.enable_blockchain b n.wallet_address
        (λ owner. slash_node owner n.peer_id (reason_text extended_downtime))
      >>= record_slashed number c.extended_downtime_threshold u

  unfoldable pub slash_nodes :
      PaymentDaemonConfig → Option Chain → ℕ → List NodeEpochUptime → Step World (Unit {0})
  slash_nodes c b number [] = done tt
  slash_nodes c b number (u ∷ us) =
      ask s (slashed_node u.node_id) (λ l. find_node u.node_id l.nodes)
      >>= slash_found c b number u
      >> slash_nodes c b number us

  unfoldable pub check_and_slash_nodes :
      PaymentDaemonConfig → Option Chain → ℕ → Step World (Unit {0})
  check_and_slash_nodes c b number =
      ask s ask_extended_downtime
        (get_nodes_with_extended_downtime number c.extended_downtime_threshold)
      >>= slash_nodes c b number

  abbrev pub slash_found_dry_run :
      PaymentDaemonConfig → ℕ → NodeEpochUptime → Option PaidNode → Step World (Unit {0})
  slash_found_dry_run c number u none = done tt
  slash_found_dry_run c number u (some n) =
      record_slashed number c.extended_downtime_threshold u none

  unfoldable pub slash_nodes_dry_run :
      PaymentDaemonConfig → ℕ → List NodeEpochUptime → Step World (Unit {0})
  slash_nodes_dry_run c number [] = done tt
  slash_nodes_dry_run c number (u ∷ us) =
      ask s (slashed_node u.node_id) (λ l. find_node u.node_id l.nodes)
      >>= slash_found_dry_run c number u
      >> slash_nodes_dry_run c number us

  unfoldable pub check_and_slash_nodes_dry_run : PaymentDaemonConfig → ℕ → Step World (Unit {0})
  check_and_slash_nodes_dry_run c number =
      ask s ask_extended_downtime
        (get_nodes_with_extended_downtime number c.extended_downtime_threshold)
      >>= slash_nodes_dry_run c number

  -- The loop over the weights, with the nodes paid and the sum so far.
  unfoldable pub distribute :
      PaymentDaemonConfig
      → Option Chain
      → (number share total : ℕ) → List NodeWeight
      → (paid amount : ℕ) → Step World (ℕ × ℕ)
  distribute c b number share total [] paid amount = done (paid, amount)
  distribute c b number share total (n ∷ ns) paid amount =
      let reward = calculate_share n share total in
      let skipped = distribute c b number share total ns paid amount in
      if reward == 0
      then skipped
      else call_for_wallet c.enable_blockchain b n.wallet_address
          (λ owner. allocate_node_reward number owner n.peer_id reward)
        >>= λ signature.
            execute s (mark_payment n.node_id)
              (mark_payment_allocated n.node_id number (as_i64 reward) signature)
            >> distribute c b number share total ns (paid + 1) (amount + reward)

  unfoldable pub distribute_dry_run :
      (number share total : ℕ) → List NodeWeight → (paid amount : ℕ) → Step World (ℕ × ℕ)
  distribute_dry_run number share total [] paid amount = done (paid, amount)
  distribute_dry_run number share total (n ∷ ns) paid amount =
      let reward = calculate_share n share total in
      let skipped = distribute_dry_run number share total ns paid amount in
      if reward == 0
      then skipped
      else execute s (mark_payment n.node_id)
          (mark_payment_allocated n.node_id number (as_i64 reward) none)
        >> distribute_dry_run number share total ns (paid + 1) (amount + reward)
