-- ===== src/Payments/Payout.antt =====
-- The end of an epoch in cyxcloud-gateway/src/payment_daemon.rs: weights, payout, the start of the next
-- epoch, and the turn of the daemon's loop.
use cyxcloud.Prelude.{
  ℕ, ◌+◌, ◌-◌, Bool, true, false, String, Option, none, some, List, [], ◌∷◌, ltb, ◌==◌,
  if◌then◌else◌, is_empty,
}
use cyxcloud.Prelude.Floats.{Floats, Casts}
use cyxcloud.Payments.Steps.{Step, done, ◌>>=◌, ◌>>◌}
use cyxcloud.Payments.Weights.{NodeWeight, calculate_weight, total_weight_of, as_i64}
use cyxcloud.Payments.Ledger.{
  PaidNode, NodeEpochUptime, World, EpochResult, Statements, ask, try, execute, ask_uptimes,
  end_uptime, close_epoch, create_epoch, initialize_nodes, weighed_node, find_node,
  create_payment_epoch, initialize_epoch_for_all_nodes, end_epoch_uptime, get_epoch_uptime,
  finalize_payment_epoch,
}
use cyxcloud.Payments.Daemon.{
  PaymentDaemonConfig, Chain, epoch_duration_seconds, update_metrics, call_finalize, pool_of,
  cons_weight, distribute, distribute_dry_run, check_and_slash_nodes, accumulate_uptime,
}

module _ {F : Type 0} (fl : Floats F) (ca : Casts F) (s : Statements) where
  abbrev pub weight_found : NodeEpochUptime → Option PaidNode → Option NodeWeight
  weight_found u none = none
  weight_found u (some n) = some (
      calculate_weight fl ca u.node_id n.peer_id n.wallet_address n.storage_total u.seconds_online
        epoch_duration_seconds 5000)

  unfoldable pub weigh_nodes : List NodeEpochUptime → Step World (List NodeWeight)
  weigh_nodes [] = done []
  weigh_nodes (u ∷ us) = ask s (weighed_node u.node_id) (λ l. find_node u.node_id l.nodes) >>= λ o.
      weigh_nodes us >>= λ ws. done (cons_weight (weight_found u o) ws)

  -- `(total as f64 * 0.10) as i64`
  abbrev pub part_of : ℕ → ℕ → ℕ
  part_of percent total = ca.truncate (fl.times (fl.of_nat total) (ca.hundredths percent))

  abbrev pub result_of : (total_pool share paid : ℕ) → Option String → EpochResult
  result_of total_pool share paid tx = record {
    total_pool_amount = as_i64 total_pool;
    nodes_share = as_i64 share;
    platform_share = as_i64 (part_of 10 total_pool);
    community_share = as_i64 (part_of 5 total_pool);
    nodes_paid = paid;
    signature = tx;
  }

  abbrev pub close_with : ℕ → EpochResult → (paid amount : ℕ) → Step World (Unit {0})
  close_with number r paid amount =
      execute s close_epoch (finalize_payment_epoch number r (s.at close_epoch))
      >> update_metrics λ m. record m {
        nodes_paid = m.nodes_paid + paid;
        total_paid_amount = m.total_paid_amount + amount;
      }

  abbrev pub pay_pool :
      PaymentDaemonConfig
      → Option Chain
      → ℕ
      → List NodeWeight
      → Option (ℕ × ℕ)
      → Step World (Unit {0})
  pay_pool c b number ws none = done tt
  pay_pool c b number ws (some (total_pool, share)) =
      if share == 0
      then done tt
      else distribute s c b number share (total_weight_of ws) ws 0 0 >>= λ sums.
          call_finalize c.enable_blockchain b number >>= λ tx.
          close_with number (result_of total_pool share sums.0 tx) sums.0 sums.1

  unfoldable pub finalize_and_pay_epoch :
      PaymentDaemonConfig → Option Chain → ℕ → Step World (Unit {0})
  finalize_and_pay_epoch c b number = ask s ask_uptimes (get_epoch_uptime number) >>= λ us.
      if is_empty us
      then done tt
      else weigh_nodes us >>= λ ws.
          if is_empty ws
          then done tt
          else pay_pool c b number ws (pool_of c.enable_blockchain b number)

  abbrev pub pay_dry_run : ℕ → List NodeWeight → Step World (Unit {0})
  pay_dry_run number ws =
      distribute_dry_run s number 850000000 (total_weight_of ws) ws 0 0 >>= λ sums.
      close_with number (result_of 1000000000 850000000 sums.0 none) sums.0 sums.1

  unfoldable pub finalize_and_pay_epoch_dry_run : ℕ → Step World (Unit {0})
  finalize_and_pay_epoch_dry_run number = ask s ask_uptimes (get_epoch_uptime number) >>= λ us.
      if is_empty us
      then done tt
      else weigh_nodes us >>= λ ws. if is_empty ws then done tt else pay_dry_run number ws

  -- The new epoch, and the metrics where both statements go through.
  unfoldable pub start_epoch : (number now : ℕ) → Step World (Unit {0})
  start_epoch number now =
      try s create_epoch (create_payment_epoch number (s.at create_epoch))
      >> execute s initialize_nodes (initialize_epoch_for_all_nodes number now)
      >> update_metrics λ m. record m {
        current_epoch = number;
        epoch_start = some (s.at create_epoch);
        epochs_finalized = m.epochs_finalized + 1;
      }

  unfoldable pub end_epoch :
      PaymentDaemonConfig → Option Chain → (number now : ℕ) → Step World (Unit {0})
  end_epoch c b number now =
      execute s end_uptime (end_epoch_uptime number (s.at end_uptime))
      >> check_and_slash_nodes s c b number
      >> finalize_and_pay_epoch c b number
      >> start_epoch (number + 1) now

  abbrev pub is_over : Option ℕ → ℕ → Bool
  is_over none now = false
  is_over (some start) now = if ltb (now - start) epoch_duration_seconds then false else true

  unfoldable pub check_epoch_end : PaymentDaemonConfig → Option Chain → ℕ → Step World (Unit {0})
  check_epoch_end c b now w =
      if w.metrics.current_epoch == 0
      then (w, some tt)
      else if is_over w.metrics.epoch_start now
      then end_epoch c b w.metrics.current_epoch now w
      else (w, some tt)

  abbrev pub record_error : World × Option (Unit {0}) → World
  record_error (w, some r) = w
  record_error (w, none) = record w {
    metrics = record w.metrics { last_error = some s.error_text };
  }

-- One turn of the loop, with the statements of its two parts.
module _ {F : Type 0} (fl : Floats F) (ca : Casts F) where
  unfoldable pub turn :
      PaymentDaemonConfig
      → Option Chain
      → (first second : Statements) → (now later : ℕ) → World
      → World
  turn c b first second now later w =
      let w1 = record_error fl ca first (accumulate_uptime first c now w) in
      record_error fl ca second (check_epoch_end fl ca second c b later w1)
