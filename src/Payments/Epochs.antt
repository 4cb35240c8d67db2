-- ===== src/Payments/Epochs.antt =====
-- What becomes of an epoch at its end: where the row of the next epoch is there already, as after a start
-- that was broken off, the daemon never leaves its epoch.
use cyxcloud.Prelude.{
  ℕ, ◌+◌, Bool, true, false, Option, none, some, List, [], ◌∷◌, ◌≡◌, refl, sym, ap, ◌∙◌, subst,
  ◌==◌, if◌then◌else◌, is_empty, number_key, arith,
}
use cyxcloud.Prelude.Floats.{Floats, Casts}
use cyxcloud.Payments.Steps.{continue, after_error, ◌>>=◌, ◌>>◌}
use cyxcloud.Payments.Weights.{NodeWeight, total_weight_of}
use cyxcloud.Payments.Ledger.{
  NodeEpochUptime, PaymentEpoch, PaymentLedger, World, EpochResult, Statements, Statement, try,
  keep, execute, create_row, create_payment_epoch, end_epoch_uptime, create_epoch, initialize_nodes,
  end_uptime, ask_uptimes, weighed_node, close_epoch, initialize_epoch_for_all_nodes,
}
use cyxcloud.Payments.Daemon.{
  PaymentDaemonConfig, Chain, pool_of, check_and_slash_nodes, accumulate_uptime,
}
use cyxcloud.Payments.Payout.{
  weigh_nodes, close_with, pay_pool, result_of, finalize_and_pay_epoch, start_epoch, end_epoch,
  is_over, check_epoch_end, record_error, turn,
}
use cyxcloud.Payments.Frames.{
  Same, Frames, refl-Same, is_row, has_epoch, done-Frames, then-Frames, by_test, by_outcome,
  metrics-Frames, call_finalize-Frames, finalize-KeepsEpochs, ask-Frames, execute-Frames,
  distribute-Frames, accumulate_uptime-Frames, check_and_slash_nodes-Frames,
}

module _ {F : Type 0} (fl : Floats F) (ca : Casts F) (s : Statements) where
  weigh_nodes-Frames : (us : List NodeEpochUptime) → Frames (weigh_nodes fl ca s us)
  unfolding weigh_nodes
  weigh_nodes-Frames [] = done-Frames []
  weigh_nodes-Frames (u ∷ us) =
      then-Frames _ _ (ask-Frames s (weighed_node u.node_id) _)
        (λ o. then-Frames _ _ (weigh_nodes-Frames us) (λ ws. done-Frames _))

  module _ (c : PaymentDaemonConfig) (b : Option Chain) (number : ℕ) where
    close_with-Frames :
        (r : EpochResult) (paid amount : ℕ) → Frames (close_with fl ca s number r paid amount)
    close_with-Frames r paid amount =
        then-Frames _ _
          (execute-Frames s close_epoch _ (finalize-KeepsEpochs number r (s.at close_epoch)))
          (λ _. metrics-Frames _ (λ m. refl) (λ m. refl))

    pay_pool-Frames :
        (ws : List NodeWeight) (o : Option (ℕ × ℕ)) → Frames (pay_pool fl ca s c b number ws o)
    pay_pool-Frames ws none = done-Frames tt
    pay_pool-Frames ws (some (total, share)) = by_test (share == 0) _ _ (done-Frames tt) (
        then-Frames _ _ (distribute-Frames s c b number share (total_weight_of ws) ws 0 0) (λ sums.
          then-Frames _ _ (call_finalize-Frames c.enable_blockchain b number)
            (λ tx. close_with-Frames (result_of fl ca s total share sums.0 tx) sums.0 sums.1)))

    finalize_and_pay_epoch-Frames : Frames (finalize_and_pay_epoch fl ca s c b number)
    unfolding finalize_and_pay_epoch
    finalize_and_pay_epoch-Frames = then-Frames _ _ (ask-Frames s ask_uptimes _) (λ us.
        by_test (is_empty us) _ _ (done-Frames tt) (
          then-Frames _ _ (weigh_nodes-Frames us) (λ ws.
            by_test (is_empty ws) _ _ (done-Frames tt)
              (pay_pool-Frames ws (pool_of c.enable_blockchain b number)))))

    -- What comes before the start of the next epoch.
    pub before_start-Frames : Frames (
        execute s end_uptime (end_epoch_uptime number (s.at end_uptime))
        >> check_and_slash_nodes s c b number
        >> finalize_and_pay_epoch fl ca s c b number)
    before_start-Frames =
        then-Frames _ _
          (then-Frames _ _ (execute-Frames s end_uptime _ keeps)
            (λ _. check_and_slash_nodes-Frames s c b number))
          (λ _. finalize_and_pay_epoch-Frames)
      where
        keeps :
            (l : PaymentLedger) (k : ℕ)
            → has_epoch k (end_epoch_uptime number (s.at end_uptime) l) ≡ has_epoch k l
        keeps = unfold end_epoch_uptime in λ l k. refl

  refused :
      (q : Statement) (f : PaymentLedger → Option PaymentLedger) (w : World)
      → f w.ledger ≡ none
      → try s q f w ≡ (w, none)
  unfolding try
  refused q f w h = go (s.up q) (f w.ledger) h
    where
      go :
          (b : Bool) (o : Option PaymentLedger)
          → o ≡ none
          → ◌≡◌ {A = World × Option (Unit {0})} (if b then keep s o w else (w, none)) (w, none)
      go false o e = refl
      go true o e = ap (λ x. keep s x w) e

  create_row_has :
      (number now : ℕ) (o : Option PaymentEpoch) (l : PaymentLedger)
      → is_row o ≡ true
      → create_row number now o l ≡ none
  create_row_has number now none l h = absurd (ground arith)
  create_row_has number now (some e) l h = refl

  -- The start of an epoch that has a row already fails and changes nothing.
  start_epoch_again :
      (number now : ℕ) (w : World)
      → has_epoch number w.ledger ≡ true
      → start_epoch fl ca s number now w ≡ (w, none)
  unfolding start_epoch
  start_epoch_again number now w h =
      after_error (try s create_epoch create >> execute s initialize_nodes initialize) _
        (after_error (try s create_epoch create) _ (refused create_epoch create w created))
    where
      create : PaymentLedger → Option PaymentLedger
      create = create_payment_epoch number (s.at create_epoch)

      initialize : PaymentLedger → PaymentLedger
      initialize = initialize_epoch_for_all_nodes number now

      created : create w.ledger ≡ none
      created = unfold create_payment_epoch in create_row_has number _ _ w.ledger h

  module _ (c : PaymentDaemonConfig) (b : Option Chain) where
    end_epoch_again :
        (number now : ℕ) (w : World)
        → has_epoch (number + 1) w.ledger ≡ true
        → Same w (end_epoch fl ca s c b number now w).0
    unfolding end_epoch ◌>>=◌ Frames
    end_epoch_again number now w h =
        let same = before_start-Frames c b number w in go _ same (same.2 (number + 1) ∙ h)
      where
        go :
            (r : World × Option (Unit {0}))
            → Same w r.0
            → has_epoch (number + 1) r.0.ledger ≡ true
            → Same w (continue (λ _. start_epoch fl ca s (number + 1) now) r).0
        go (v, none) same k = same
        go (v, some u) same k =
            subst (λ r. Same w r.0) (sym (start_epoch_again (number + 1) now v k)) same

    check_epoch_end_again :
        (now : ℕ) (w : World)
        → has_epoch (w.metrics.current_epoch + 1) w.ledger ≡ true
        → Same w (check_epoch_end fl ca s c b now w).0
    unfolding check_epoch_end
    check_epoch_end_again now w h =
        by_outcome w (w.metrics.current_epoch == 0) (w, some tt) _ (refl-Same w)
          (by_outcome w (is_over fl ca s w.metrics.epoch_start now) _ (w, some tt)
            (end_epoch_again w.metrics.current_epoch now w h) (refl-Same w))

  record_error-Same :
      (w : World) (r : World × Option (Unit {0})) → Same w r.0 → Same w (record_error fl ca s r)
  record_error-Same w (v, none) h = h
  record_error-Same w (v, some u) h = h

-- A turn with the outcomes of its statements and its readings of the clock.
pub record Turn : Type 0 where
  pub first : Statements
  pub second : Statements
  pub now : ℕ
  pub later : ℕ

module _ {F : Type 0} (fl : Floats F) (ca : Casts F) (c : PaymentDaemonConfig)
    (b : Option Chain) where
  abbrev pub turns : List Turn → World → World
  turns [] w = w
  turns (t ∷ ts) w = turns ts (turn fl ca c b t.first t.second t.now t.later w)

  turn-Same :
      (t : Turn) (w : World)
      → has_epoch (w.metrics.current_epoch + 1) w.ledger ≡ true
      → Same w (turn fl ca c b t.first t.second t.now t.later w)
  unfolding turn Frames
  turn-Same t w h =
      let r1 = accumulate_uptime t.first c t.now w in
      let w1 = record_error fl ca t.first r1 in
      let s1 = record_error-Same fl ca t.first w r1 (accumulate_uptime-Frames t.first c t.now w) in
      let h1 =
        ap (λ k. has_epoch (k + 1) w1.ledger) s1.0 ∙ s1.2 (w.metrics.current_epoch + 1) ∙ h in
      let r2 = check_epoch_end fl ca t.second c b t.later w1 in
      let s2 =
        record_error-Same fl ca t.second w1 r2
          (check_epoch_end_again fl ca t.second c b t.later w1 h1) in
      (s2.0 ∙ s1.0, s2.1 ∙ s1.1, λ k. s2.2 k ∙ s1.2 k)

  -- Once the next epoch has a row, the daemon stays in its epoch, whatever statements go through.
  pub turns-current_epoch :
      (ts : List Turn) (w : World)
      → has_epoch (w.metrics.current_epoch + 1) w.ledger ≡ true
      → (turns ts w).metrics.current_epoch ≡ w.metrics.current_epoch
  turns-current_epoch [] w h = refl
  turns-current_epoch (t ∷ ts) w h =
      let w1 = turn fl ca c b t.first t.second t.now t.later w in
      let same = turn-Same t w h in
      let h1 =
        ap (λ k. has_epoch (k + 1) w1.ledger) same.0 ∙ same.2 (w.metrics.current_epoch + 1) ∙ h in
      turns-current_epoch ts w1 h1 ∙ same.0
