-- ===== src/Payments/DryRun.antt =====
-- The methods that are compiled without the chain do what those with it do where the chain is disabled.
use cyxcloud.Prelude.{
  ℕ, ◌+◌, false, none, some, Option, List, [], ◌∷◌, ◌≡◌, refl, ◌==◌, if◌then◌else◌, is_empty,
}
use cyxcloud.Prelude.Floats.{Floats, Casts}
use cyxcloud.Payments.Steps.{done, ◌>>=◌, ◌>>◌}
use cyxcloud.Payments.Weights.{NodeWeight, calculate_share, total_weight_of, as_i64}
use cyxcloud.Payments.Ledger.{
  NodeEpochUptime, PaidNode, Statements, ask, execute, find_node, slashed_node, mark_payment,
  mark_payment_allocated, ask_extended_downtime, ask_uptimes, get_epoch_uptime,
  get_nodes_with_extended_downtime,
}
use cyxcloud.Payments.Daemon.{
  PaymentDaemonConfig, Chain, slash_found, slash_found_dry_run, slash_nodes, slash_nodes_dry_run,
  check_and_slash_nodes, check_and_slash_nodes_dry_run, distribute, distribute_dry_run,
}
use cyxcloud.Payments.Payout.{
  weigh_nodes, pay_pool, pay_dry_run, finalize_and_pay_epoch, finalize_and_pay_epoch_dry_run,
  close_with, result_of,
}

abbrev pub disabled : PaymentDaemonConfig → PaymentDaemonConfig
disabled c = record c { enable_blockchain = false }

module _ (s : Statements) (c : PaymentDaemonConfig) (b : Option Chain) (number : ℕ) where
  slash_found-disabled :
      (u : NodeEpochUptime) (o : Option PaidNode)
      → slash_found s (disabled c) b number u o ≡ slash_found_dry_run s c number u o
  unfolding ◌>>=◌
  slash_found-disabled u none = refl
  slash_found-disabled u (some n) = refl

  slash_nodes-disabled :
      (us : List NodeEpochUptime)
      → slash_nodes s (disabled c) b number us ≡ slash_nodes_dry_run s c number us
  unfolding slash_nodes slash_nodes_dry_run
  slash_nodes-disabled [] = refl
  slash_nodes-disabled (u ∷ us) = λ i.
      ask s (slashed_node u.node_id) (λ l. find_node u.node_id l.nodes)
      >>= (λ o. slash_found-disabled u o i)
      >> slash_nodes-disabled us i

  check_and_slash_nodes-disabled :
      check_and_slash_nodes s (disabled c) b number ≡ check_and_slash_nodes_dry_run s c number
  unfolding check_and_slash_nodes check_and_slash_nodes_dry_run
  check_and_slash_nodes-disabled = λ i.
      ask s ask_extended_downtime
        (get_nodes_with_extended_downtime number c.extended_downtime_threshold)
      >>= λ us. slash_nodes-disabled us i

  distribute-disabled :
      (share total : ℕ) (ns : List NodeWeight) (paid amount : ℕ)
      → distribute s (disabled c) b number share total ns paid amount
        ≡ distribute_dry_run s number share total ns paid amount
  unfolding distribute distribute_dry_run ◌>>=◌
  distribute-disabled share total [] paid amount = refl
  distribute-disabled share total (n ∷ ns) paid amount = λ i.
      let reward = calculate_share n share total in
      if reward == 0
      then distribute-disabled share total ns paid amount i
      else execute s (mark_payment n.node_id)
          (mark_payment_allocated n.node_id number (as_i64 reward) none)
        >> distribute-disabled share total ns (paid + 1) (amount + reward) i

module _ {F : Type 0} (fl : Floats F) (ca : Casts F) (s : Statements) (c : PaymentDaemonConfig)
    (b : Option Chain) (number : ℕ) where
  pay_disabled :
      (ws : List NodeWeight)
      → pay_pool fl ca s (disabled c) b number ws (some (1000000000, 850000000))
        ≡ pay_dry_run fl ca s number ws
  unfolding ◌>>=◌
  pay_disabled ws = λ i.
      distribute-disabled s c b number 850000000 (total_weight_of ws) ws 0 0 i >>= λ sums.
      close_with fl ca s number (result_of fl ca s 1000000000 850000000 sums.0 none) sums.0 sums.1

  -- With the chain disabled, slashing and payout are, step for step, the methods that are compiled
  -- without the chain, whatever statements go through.
  pub dry_run_same :
      (check_and_slash_nodes s (disabled c) b number ≡ check_and_slash_nodes_dry_run s c number)
      × (finalize_and_pay_epoch fl ca s (disabled c) b number
          ≡ finalize_and_pay_epoch_dry_run fl ca s number)
  unfolding finalize_and_pay_epoch finalize_and_pay_epoch_dry_run
  dry_run_same = (
    check_and_slash_nodes-disabled s c b number,
    λ i. ask s ask_uptimes (get_epoch_uptime number) >>= λ us.
        if is_empty us
        then done tt
        else weigh_nodes fl ca s us >>= λ ws. if is_empty ws then done tt else pay_disabled ws i,
  )
