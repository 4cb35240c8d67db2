-- ===== src/Payments/Progress.antt =====
-- Where every statement goes through, no step of the daemon fails, and an epoch that is over is followed by
-- the next one; a start of it that is broken off blocks the daemon for good.
use cyxcloud.Prelude.{
  ℕ, Bool, true, false, String, Option, none, some, List, [], ◌∷◌, ◌≡◌, refl, ◌==◌, if◌then◌else◌,
  is_empty, number_key,
}
use cyxcloud.Prelude.Floats.{Floats, Casts}
use cyxcloud.Payments.Steps.{Step, done, after, ◌>>=◌, ◌>>◌}
use cyxcloud.Payments.Weights.{NodeWeight, calculate_share, total_weight_of}
use cyxcloud.Payments.Ledger.{
  NodeEpochUptime, PaidNode, PaymentLedger, PaymentDaemonMetrics, World, Statements, Statement,
  ChainCall, ask, execute, end_epoch_uptime, end_uptime, ask_uptimes, weighed_node, close_epoch,
  mark_payment, slashed_node, record_slash, ask_extended_downtime,
}
use cyxcloud.Payments.Daemon.{
  PaymentDaemonConfig, Chain, update_metrics, call_chain, call_for_wallet, call_finalize, pool_of,
  distribute, slash_found, slash_nodes, check_and_slash_nodes,
}
use cyxcloud.Payments.Payout.{weigh_nodes, pay_pool, finalize_and_pay_epoch}
use cyxcloud.Payments.Shares.{AllUp, ask_up, try_up}

-- The step does not fail.
unfoldable pub Goes : {A : Type 0} → Step World A → Type 0
Goes {A = A} m = (w : World) → (w' : World) × (a : A) × (m w ≡ (w', some a))

done-Goes : {A : Type 0} (a : A) → Goes (done a)
unfolding Goes
done-Goes a w = (w, a, refl)

then-Goes :
    {A B : Type 0} (m : Step World A) (next : A → Step World B)
    → Goes m
    → ((a : A) → Goes (next a))
    → Goes (m >>= next)
unfolding Goes
then-Goes m next h k w =
    let (w1, a, e) = h w in let (w2, r, f) = k a w1 in (w2, r, after m next e f)

test-Goes :
    {A : Type 0} (t : Bool) (x y : Step World A) → Goes x → Goes y → Goes (if t then x else y)
test-Goes true x y h k = h
test-Goes false x y h k = k

metrics-Goes : (f : PaymentDaemonMetrics → PaymentDaemonMetrics) → Goes (update_metrics f)
unfolding Goes
metrics-Goes f w = (record w { metrics = f w.metrics }, tt, refl)

call_chain-Goes : (b : Chain) (call : ChainCall) → Goes (call_chain b call)
unfolding Goes
call_chain-Goes b call w = (_, b.answer call, refl)

call_for_wallet-Goes :
    (enabled : Bool) (b : Option Chain) (wallet : Option String) (call : String → ChainCall)
    → Goes (call_for_wallet enabled b wallet call)
call_for_wallet-Goes false b wallet call = done-Goes none
call_for_wallet-Goes true none wallet call = done-Goes none
call_for_wallet-Goes true (some b) none call = done-Goes none
call_for_wallet-Goes true (some b) (some owner) call =
    test-Goes (b.is_key owner) _ _ (call_chain-Goes b (call owner)) (done-Goes none)

call_finalize-Goes :
    (enabled : Bool) (b : Option Chain) (number : ℕ) → Goes (call_finalize enabled b number)
call_finalize-Goes false b number = done-Goes none
call_finalize-Goes true none number = done-Goes none
call_finalize-Goes true (some b) number = call_chain-Goes b _

module _ (s : Statements) (up : AllUp s) where
  ask-Goes : {A : Type 0} (q : Statement) (f : PaymentLedger → A) → Goes (ask s q f)
  unfolding Goes
  ask-Goes q f w = (w, f w.ledger, ask_up s up q f w)

  execute-Goes : (q : Statement) (f : PaymentLedger → PaymentLedger) → Goes (execute s q f)
  unfolding Goes
  execute-Goes q f w = (record w { ledger = f w.ledger }, tt, try_up s up q (λ l. some (f l)) w)

  module _ (c : PaymentDaemonConfig) (b : Option Chain) (number : ℕ) where
    slash_found-Goes :
        (u : NodeEpochUptime) (o : Option PaidNode) → Goes (slash_found s c b number u o)
    slash_found-Goes u none = done-Goes tt
    slash_found-Goes u (some n) =
        then-Goes _ _ (call_for_wallet-Goes c.enable_blockchain b n.wallet_address _)
          (λ sig. then-Goes _ _ (execute-Goes (record_slash u.node_id) _) (λ _. metrics-Goes _))

    slash_nodes-Goes : (us : List NodeEpochUptime) → Goes (slash_nodes s c b number us)
    unfolding slash_nodes
    slash_nodes-Goes [] = done-Goes tt
    slash_nodes-Goes (u ∷ us) =
        then-Goes _ _ (then-Goes _ _ (ask-Goes (slashed_node u.node_id) _) (slash_found-Goes u))
          (λ _. slash_nodes-Goes us)

    check_and_slash_nodes-Goes : Goes (check_and_slash_nodes s c b number)
    unfolding check_and_slash_nodes
    check_and_slash_nodes-Goes = then-Goes _ _ (ask-Goes ask_extended_downtime _) slash_nodes-Goes

    distribute-Goes :
        (share total : ℕ) (ns : List NodeWeight) (paid amount : ℕ)
        → Goes (distribute s c b number share total ns paid amount)
    unfolding distribute
    distribute-Goes share total [] paid amount = done-Goes (paid, amount)
    distribute-Goes share total (n ∷ ns) paid amount =
        test-Goes (calculate_share n share total == 0) _ _
          (distribute-Goes share total ns paid amount)
          (then-Goes _ _ (call_for_wallet-Goes c.enable_blockchain b n.wallet_address _) (λ sig.
            then-Goes _ _ (execute-Goes (mark_payment n.node_id) _)
              (λ _. distribute-Goes share total ns _ _)))

    module _ {F : Type 0} (fl : Floats F) (ca : Casts F) where
      weigh_nodes-Goes : (us : List NodeEpochUptime) → Goes (weigh_nodes fl ca s us)
      unfolding weigh_nodes
      weigh_nodes-Goes [] = done-Goes []
      weigh_nodes-Goes (u ∷ us) =
          then-Goes _ _ (ask-Goes (weighed_node u.node_id) _)
            (λ o. then-Goes _ _ (weigh_nodes-Goes us) (λ ws. done-Goes _))

      pay_pool-Goes :
          (ws : List NodeWeight) (o : Option (ℕ × ℕ)) → Goes (pay_pool fl ca s c b number ws o)
      pay_pool-Goes ws none = done-Goes tt
      pay_pool-Goes ws (some (total, share)) = test-Goes (share == 0) _ _ (done-Goes tt) (
          then-Goes _ _ (distribute-Goes share (total_weight_of ws) ws 0 0) (λ sums.
            then-Goes _ _ (call_finalize-Goes c.enable_blockchain b number)
              (λ tx. then-Goes _ _ (execute-Goes close_epoch _) (λ _. metrics-Goes _))))

      finalize_and_pay_epoch-Goes : Goes (finalize_and_pay_epoch fl ca s c b number)
      unfolding finalize_and_pay_epoch
      finalize_and_pay_epoch-Goes = then-Goes _ _ (ask-Goes ask_uptimes _) (λ us.
          test-Goes (is_empty us) _ _ (done-Goes tt) (
            then-Goes _ _ (weigh_nodes-Goes us) (λ ws.
              test-Goes (is_empty ws) _ _ (done-Goes tt)
                (pay_pool-Goes ws (pool_of c.enable_blockchain b number)))))

      pub before_start-Goes : Goes (
          execute s end_uptime (end_epoch_uptime number (s.at end_uptime))
          >> check_and_slash_nodes s c b number
          >> finalize_and_pay_epoch fl ca s c b number)
      before_start-Goes =
          then-Goes _ _
            (then-Goes _ _ (execute-Goes end_uptime _) (λ _. check_and_slash_nodes-Goes))
            (λ _. finalize_and_pay_epoch-Goes)
