-- ===== src/Payments/Advance.antt =====
-- The end of an epoch: where every statement goes through, the next epoch starts; where its start is
-- broken off between its two statements, the daemon never leaves the old one.
use cyxcloud.Prelude.{
  ℕ, ◌+◌, ◌≢◌, true, false, Option, none, some, List, ◌≡◌, refl, ap, ◌∙◌, subst, ◌==◌, ==_iff,
  if◌then◌else◌, =?_refl, number_key, inl, inr, Bool-cases, arith,
}
use cyxcloud.Prelude.Floats.{Floats, Casts}
use cyxcloud.Prelude.Assoc.{Map, get, insert, get-insert}
use cyxcloud.Payments.Steps.{Step, after, after_error, ◌>>◌}
use cyxcloud.Payments.Ledger.{
  PaymentEpoch, PaymentLedger, PaymentDaemonMetrics, World, Statements, Statement, try, keep,
  execute, create_row, create_payment_epoch, new_epoch, end_epoch_uptime, create_epoch,
  initialize_nodes, end_uptime, initialize_epoch_for_all_nodes,
}
use cyxcloud.Payments.Daemon.{PaymentDaemonConfig, Chain, update_metrics, check_and_slash_nodes}
use cyxcloud.Payments.Payout.{
  finalize_and_pay_epoch, start_epoch, end_epoch, is_over, check_epoch_end,
}
use cyxcloud.Payments.Frames.{Same, Frames, is_row, has_epoch}
use cyxcloud.Payments.Epochs.{before_start-Frames, Turn, turns, turns-current_epoch}
use cyxcloud.Payments.Shares.{AllUp}
use cyxcloud.Payments.Progress.{Goes, before_start-Goes}

-- The ledger with the row of a new epoch.
abbrev with_epoch : ℕ → ℕ → PaymentLedger → PaymentLedger
with_epoch number now l = record l {
  payment_epochs = insert number (new_epoch number now) l.payment_epochs;
}

create_row_new :
    (number now : ℕ) (o : Option PaymentEpoch) (l : PaymentLedger)
    → is_row o ≡ false
    → create_row number now o l ≡ some (with_epoch number now l)
create_row_new number now none l h = refl
create_row_new number now (some e) l h = absurd (ground arith)

get_new :
    (number : ℕ) (e : PaymentEpoch) (m : Map ℕ PaymentEpoch)
    → get number (insert number e m) ≡ some e
get_new number e m =
    get-insert number number e m ∙ ap (λ t. if t then some e else get number m) (=?_refl number)

module _ (s : Statements) where
  try-true :
      (q : Statement) (f : PaymentLedger → Option PaymentLedger) (w : World)
      → s.up q ≡ true
      → try s q f w ≡ keep s (f w.ledger) w
  unfolding try
  try-true q f w e = rw e refl

  try-false :
      (q : Statement) (f : PaymentLedger → Option PaymentLedger) (w : World)
      → s.up q ≡ false
      → try s q f w ≡ (w, none)
  unfolding try
  try-false q f w e = rw e refl

  -- The row of a new epoch, where the statement goes through.
  create_new :
      (number : ℕ) (w : World)
      → s.up create_epoch ≡ true
      → has_epoch number w.ledger ≡ false
      → try s create_epoch (create_payment_epoch number (s.at create_epoch)) w
        ≡ (record w { ledger = with_epoch number (s.at create_epoch) w.ledger }, some tt)
  unfolding create_payment_epoch
  create_new number w e h =
      try-true create_epoch (create_payment_epoch number (s.at create_epoch)) w e
      ∙ ap (λ o. keep s o w) (create_row_new number (s.at create_epoch) _ w.ledger h)

  module _ {F : Type 0} (fl : Floats F) (ca : Casts F) (number now : ℕ) (w : World)
      (e : s.up create_epoch ≡ true) (h : has_epoch number w.ledger ≡ false) where
    abbrev create : PaymentLedger → Option PaymentLedger
    create = create_payment_epoch number (s.at create_epoch)

    abbrev started : PaymentDaemonMetrics → PaymentDaemonMetrics
    started m = record m {
      current_epoch = number;
      epoch_start = some (s.at create_epoch);
      epochs_finalized = m.epochs_finalized + 1;
    }

    abbrev created : World
    created = record w { ledger = with_epoch number (s.at create_epoch) w.ledger }

    start_epoch_new :
        s.up initialize_nodes ≡ true
        → start_epoch fl ca s number now w ≡ (
          record w {
            ledger = initialize_epoch_for_all_nodes number now created.ledger;
            metrics = started w.metrics;
          },
          some tt,
        )
    unfolding start_epoch
    start_epoch_new k =
        let initialize : PaymentLedger → PaymentLedger =
          initialize_epoch_for_all_nodes number now in
        let last : Unit {0} → Step World (Unit {0}) = λ _. update_metrics started in
        let middle : Unit {0} → Step World (Unit {0}) =
          λ _. execute s initialize_nodes initialize in
        after (try s create_epoch create >> execute s initialize_nodes initialize) last {w = w}
          {w' = record created { ledger = initialize created.ledger }}
          (after (try s create_epoch create) middle {w = w} {w' = created} (create_new number w e h)
            (try-true initialize_nodes (λ l. some (initialize l)) created k))
          refl

    start_epoch_broken :
        s.up initialize_nodes ≡ false → start_epoch fl ca s number now w ≡ (created, none)
    unfolding start_epoch
    start_epoch_broken k =
        let initialize : PaymentLedger → PaymentLedger =
          initialize_epoch_for_all_nodes number now in
        let last : Unit {0} → Step World (Unit {0}) = λ _. update_metrics started in
        let middle : Unit {0} → Step World (Unit {0}) =
          λ _. execute s initialize_nodes initialize in
        after_error (try s create_epoch create >> execute s initialize_nodes initialize) last
          {w = w} {w' = created}
          (after (try s create_epoch create) middle {w = w} {w' = created} (create_new number w e h)
            (try-false initialize_nodes (λ l. some (initialize l)) created k))

-- Where the start of the next epoch stores its row but the rows of the nodes are not initialised, the
-- daemon stays in the old epoch from then on, whatever statements go through in its later turns.
pub start_epoch_stuck :
    {F : Type 0} (fl : Floats F) (ca : Casts F) (s : Statements) (c : PaymentDaemonConfig)
    (b : Option Chain) (now : ℕ) (w : World)
    → s.up create_epoch ≡ true
    → s.up initialize_nodes ≡ false
    → has_epoch (w.metrics.current_epoch + 1) w.ledger ≡ false
    → (ts : List Turn)
    → let (w', r) = start_epoch fl ca s (w.metrics.current_epoch + 1) now w in
      (r ≡ none) × ((turns fl ca c b ts w').metrics.current_epoch ≡ w.metrics.current_epoch)
start_epoch_stuck fl ca s c b now w e k h ts =
    let number = w.metrics.current_epoch + 1 in
    let broken = start_epoch_broken s fl ca number now w e h k in
    let v : World = record w { ledger = with_epoch number (s.at create_epoch) w.ledger } in
    (
      ap (λ r. r.1) broken,
      ap (λ r. (turns fl ca c b ts r.0).metrics.current_epoch) broken
          ∙ turns-current_epoch fl ca c b ts v (
              ap is_row
                (get_new number (new_epoch number (s.at create_epoch)) w.ledger.payment_epochs)),
    )

-- Where every statement goes through, the epoch is over and the next one has no row yet, the check
-- succeeds: the metrics name the next epoch, which has a row of its own and started when that was stored.
pub check_epoch_end_advances :
    {F : Type 0} (fl : Floats F) (ca : Casts F) (s : Statements)
    → AllUp s
    → (c : PaymentDaemonConfig) (b : Option Chain) (now : ℕ) (w : World)
    → w.metrics.current_epoch ≢ 0
    → is_over fl ca s w.metrics.epoch_start now ≡ true
    → has_epoch (w.metrics.current_epoch + 1) w.ledger ≡ false
    → let (w', r) = check_epoch_end fl ca s c b now w in
      (r ≡ some tt)
      × (w'.metrics.current_epoch ≡ w.metrics.current_epoch + 1)
      × (w'.metrics.epoch_start ≡ some (s.at create_epoch))
      × (get (w.metrics.current_epoch + 1) w'.ledger.payment_epochs
          ≡ some (new_epoch (w.metrics.current_epoch + 1) (s.at create_epoch)))
unfolding Goes Frames end_epoch initialize_epoch_for_all_nodes
check_epoch_end_advances fl ca s up c b now w n o h =
    let number = w.metrics.current_epoch in
    let before =
      execute s end_uptime (end_epoch_uptime number (s.at end_uptime))
      >> check_and_slash_nodes s c b number
      >> finalize_and_pay_epoch fl ca s c b number in
    let next : Unit {0} → Step World (Unit {0}) = λ _. start_epoch fl ca s (number + 1) now in
    let (v, u, e) = before_start-Goes s up c b number fl ca w in
    let same = subst (λ r. Same w r.0) e (before_start-Frames fl ca s c b number w) in
    let new = same.2 (number + 1) ∙ h in
    let start =
      start_epoch_new s fl ca (number + 1) now v (up create_epoch) new (up initialize_nodes) in
    let whole = over_now ∙ after before next {w = w} {w' = v} e start in
    (
      ap (λ r. r.1) whole,
      ap (λ r. r.0.metrics.current_epoch) whole,
      ap (λ r. r.0.metrics.epoch_start) whole,
      ap (λ r. get (number + 1) r.0.ledger.payment_epochs) whole
          ∙ get_new (number + 1) (new_epoch (number + 1) (s.at create_epoch))
              v.ledger.payment_epochs,
    )
  where
    not_zero : (w.metrics.current_epoch == 0) ≡ false
    not_zero = elim (Bool-cases (w.metrics.current_epoch == 0)) [
      | inl t ↦ absurd (n ((==_iff w.metrics.current_epoch 0).0 t))
      | inr t ↦ t
    ]

    over_now :
        check_epoch_end fl ca s c b now w ≡ end_epoch fl ca s c b w.metrics.current_epoch now w
    over_now =
        unfold check_epoch_end in
        λ i.
          if not_zero i
          then (w, some tt)
          else if o i
          then end_epoch fl ca s c b w.metrics.current_epoch now w
          else (w, some tt)
