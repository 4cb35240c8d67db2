-- ===== src/Payments/Frames.antt =====
-- The steps that leave the daemon in its epoch: none but the start of an epoch changes the epoch of the
-- metrics or adds a row to `payment_epochs`.
use cyxcloud.Prelude.{
  ℕ, ◌+◌, Bool, true, false, String, Option, none, some, List, [], ◌∷◌, ◌≡◌, refl, sym, ap, ◌∙◌,
  ◌==◌, if◌then◌else◌, ◌=?◌, number_key, pair_key,
}
use cyxcloud.Prelude.Assoc.{Map, get, get-insert}
use cyxcloud.Payments.Steps.{Step, done, continue, ◌>>=◌, ◌>>◌}
use cyxcloud.Payments.Weights.{NodeWeight, calculate_share, as_i64}
use cyxcloud.Payments.Ledger.{
  PaidNode, NodeEpochUptime, PaymentEpoch, PaymentLedger, PaymentDaemonMetrics, ChainCall,
  finalize_epoch, World, EpochResult, Statement, Statements, ask, try, keep, execute, update_row,
  finalize_payment_epoch, mark_payment_allocated, create_or_get_epoch_uptime, update_uptime_online,
  update_uptime_offline, ask_nodes, ask_extended_downtime, record_uptime, add_uptime, slashed_node,
  record_slash, mark_payment,
}
use cyxcloud.Payments.Daemon.{
  PaymentDaemonConfig, Chain, update_metrics, call_chain, call_for_wallet, call_finalize, is_up,
  or_now, accumulate_nodes, accumulate_uptime, slash_nodes, check_and_slash_nodes, slash_found,
  distribute,
}

abbrev pub is_row : Option PaymentEpoch → Bool
is_row none = false
is_row (some e) = true

-- Whether an epoch has a row.
abbrev pub has_epoch : ℕ → PaymentLedger → Bool
has_epoch k l = is_row (get k l.payment_epochs)

-- The same epoch in the metrics, and rows for the same epochs.
abbrev pub Same : World → World → Type 0
Same w w' =
    (w'.metrics.current_epoch ≡ w.metrics.current_epoch)
    × (w'.metrics.epoch_start ≡ w.metrics.epoch_start)
    × ((k : ℕ) → has_epoch k w'.ledger ≡ has_epoch k w.ledger)

pub refl-Same : (w : World) → Same w w
refl-Same w = (refl, refl, λ k. refl)

unfoldable pub Frames : {A : Type 0} → Step World A → Type 0
Frames m = (w : World) → Same w (m w).0

pub done-Frames : {A : Type 0} (a : A) → Frames (done a)
unfolding Frames
done-Frames a w = refl-Same w

go_on :
    {A B : Type 0} (w : World) (r : World × Option A) (next : A → Step World B)
    → Same w r.0
    → ((a : A) → Frames (next a))
    → Same w (continue next r).0
unfolding Frames
go_on w (v, none) next h k = h
go_on w (v, some a) next h k = let (e1, e2, e3) = k a v in (e1 ∙ h.0, e2 ∙ h.1, λ j. e3 j ∙ h.2 j)

pub then-Frames :
    {A B : Type 0} (m : Step World A) (next : A → Step World B)
    → Frames m
    → ((a : A) → Frames (next a))
    → Frames (m >>= next)
unfolding ◌>>=◌ Frames
then-Frames m next h k w = go_on w (m w) next (h w) k

pub by_test :
    {A : Type 0} (b : Bool) (x y : Step World A) → Frames x → Frames y → Frames (if b then x else y)
by_test true x y h k = h
by_test false x y h k = k

pub metrics-Frames :
    (f : PaymentDaemonMetrics → PaymentDaemonMetrics)
    → ((m : PaymentDaemonMetrics) → (f m).current_epoch ≡ m.current_epoch)
    → ((m : PaymentDaemonMetrics) → (f m).epoch_start ≡ m.epoch_start)
    → Frames (update_metrics f)
unfolding Frames
metrics-Frames f h k w = (h w.metrics, k w.metrics, λ j. refl)

call_chain-Frames : (b : Chain) (call : ChainCall) → Frames (call_chain b call)
unfolding Frames
call_chain-Frames b call w = refl-Same w

call_for_wallet-Frames :
    (enabled : Bool) (b : Option Chain) (wallet : Option String) (call : String → ChainCall)
    → Frames (call_for_wallet enabled b wallet call)
call_for_wallet-Frames false b wallet call = done-Frames none
call_for_wallet-Frames true none wallet call = done-Frames none
call_for_wallet-Frames true (some b) none call = done-Frames none
call_for_wallet-Frames true (some b) (some owner) call =
    by_test (b.is_key owner) (call_chain b (call owner)) (done none) (call_chain-Frames b _)
      (done-Frames none)

pub call_finalize-Frames :
    (enabled : Bool) (b : Option Chain) (number : ℕ) → Frames (call_finalize enabled b number)
call_finalize-Frames false b number = done-Frames none
call_finalize-Frames true none number = done-Frames none
call_finalize-Frames true (some b) number = call_chain-Frames b (finalize_epoch number)

-- A statement that leaves the epochs' keys alone.
abbrev pub KeepsEpochs : (PaymentLedger → PaymentLedger) → Type 0
KeepsEpochs f = (l : PaymentLedger) (k : ℕ) → has_epoch k (f l) ≡ has_epoch k l

row_if :
    (b : Bool) (e : PaymentEpoch) (o : Option PaymentEpoch)
    → (b ≡ true → is_row o ≡ true)
    → is_row (if b then some e else o) ≡ is_row o
row_if true e o h = sym (h refl)
row_if false e o h = refl

update_row_keeps :
    (number : ℕ) (f : PaymentEpoch → PaymentEpoch) (o : Option PaymentEpoch)
    (m : Map ℕ PaymentEpoch) (k : ℕ)
    → get number m ≡ o
    → is_row (get k (update_row number f o m)) ≡ is_row (get k m)
update_row_keeps number f none m k h = refl
update_row_keeps number f (some e) m k h =
    ap is_row (get-insert number k (f e) m)
    ∙ row_if (number =? k) (f e) (get k m)
        (λ t. ap is_row (ap (λ j. get j m) (sym ((number_key.same_iff number k).0 t)) ∙ h))

pub finalize-KeepsEpochs :
    (number : ℕ) (r : EpochResult) (now : ℕ) → KeepsEpochs (finalize_payment_epoch number r now)
unfolding finalize_payment_epoch
finalize-KeepsEpochs number r now l k =
    update_row_keeps number _ (get number l.payment_epochs) l.payment_epochs k refl

pub by_outcome :
    {A : Type 0} (w : World) (b : Bool) (x y : World × Option A)
    → Same w x.0
    → Same w y.0
    → Same w (if◌then◌else◌ {A = World × Option A} b x y).0
by_outcome w true x y h k = h
by_outcome w false x y h k = k

module _ (s : Statements) where
  pub ask-Frames : {A : Type 0} (q : Statement) (f : PaymentLedger → A) → Frames (ask s q f)
  unfolding ask Frames
  ask-Frames q f w =
      by_outcome w (s.up q) (w, some (f w.ledger)) (w, none) (refl-Same w) (refl-Same w)

  pub execute-Frames :
      (q : Statement) (f : PaymentLedger → PaymentLedger) → KeepsEpochs f → Frames (execute s q f)
  unfolding try Frames
  execute-Frames q f h w =
      by_outcome w (s.up q) (keep s (some (f w.ledger)) w) (w, none) (refl, refl, h w.ledger)
        (refl-Same w)

  accumulate_nodes-Frames :
      (number seconds : ℕ) (start : Option ℕ) (ns : List PaidNode)
      → Frames (accumulate_nodes s number seconds start ns)
  unfolding accumulate_nodes
  accumulate_nodes-Frames number seconds start [] = done-Frames tt
  accumulate_nodes-Frames number seconds start (n ∷ ns) =
      then-Frames _ _
        (then-Frames _ _ (execute-Frames (record_uptime n.id) _ created)
          (λ _. execute-Frames (add_uptime n.id) _ (added (is_up n.status))))
        (λ _. accumulate_nodes-Frames number seconds start ns)
    where
      created :
          KeepsEpochs
            (create_or_get_epoch_uptime n.id number (or_now start (s.at (record_uptime n.id))))
      created = unfold create_or_get_epoch_uptime in λ l k. refl

      added :
          (b : Bool)
          → KeepsEpochs (
              if b
              then update_uptime_online n.id number seconds (s.at (add_uptime n.id))
              else update_uptime_offline n.id number seconds (s.at (add_uptime n.id)))
      added true = unfold update_uptime_online in λ l k. refl
      added false = unfold update_uptime_offline in λ l k. refl

  pub accumulate_uptime-Frames :
      (c : PaymentDaemonConfig) (now : ℕ) → Frames (accumulate_uptime s c now)
  unfolding accumulate_uptime Frames
  accumulate_uptime-Frames c now w =
      by_outcome w (w.metrics.current_epoch == 0) (w, some tt) _ (refl-Same w) (accumulated w)
    where
      accumulated : Frames (
          ask s ask_nodes (λ l. l.nodes) >>= λ ns.
          accumulate_nodes s w.metrics.current_epoch c.accumulate_interval w.metrics.epoch_start ns
          >> update_metrics λ m. record m {
            uptime_updates = m.uptime_updates + 1;
            last_accumulate_at = some now;
          })
      accumulated = then-Frames _ _ (ask-Frames ask_nodes (λ l. l.nodes)) (λ ns.
          then-Frames _ _
            (accumulate_nodes-Frames w.metrics.current_epoch c.accumulate_interval
              w.metrics.epoch_start ns)
            (λ _.
              metrics-Frames
                (λ m. record m {
                  uptime_updates = m.uptime_updates + 1;
                  last_accumulate_at = some now;
                })
                (λ m. refl) (λ m. refl)))

  module _ (c : PaymentDaemonConfig) (b : Option Chain) (number : ℕ) where
    slash_found-Frames :
        (u : NodeEpochUptime) (o : Option PaidNode) → Frames (slash_found s c b number u o)
    slash_found-Frames u none = done-Frames tt
    slash_found-Frames u (some n) =
        then-Frames _ _ (call_for_wallet-Frames c.enable_blockchain b n.wallet_address _) (λ sig.
          then-Frames _ _ (execute-Frames (record_slash u.node_id) _ (λ l k. refl))
            (λ _. metrics-Frames _ (λ m. refl) (λ m. refl)))

    slash_nodes-Frames : (us : List NodeEpochUptime) → Frames (slash_nodes s c b number us)
    unfolding slash_nodes
    slash_nodes-Frames [] = done-Frames tt
    slash_nodes-Frames (u ∷ us) =
        then-Frames _ _
          (then-Frames _ _ (ask-Frames (slashed_node u.node_id) _) (slash_found-Frames u))
          (λ _. slash_nodes-Frames us)

    pub check_and_slash_nodes-Frames : Frames (check_and_slash_nodes s c b number)
    unfolding check_and_slash_nodes
    check_and_slash_nodes-Frames =
        then-Frames _ _ (ask-Frames ask_extended_downtime _) slash_nodes-Frames

    pub distribute-Frames :
        (share total : ℕ) (ns : List NodeWeight) (paid amount : ℕ)
        → Frames (distribute s c b number share total ns paid amount)
    unfolding distribute
    distribute-Frames share total [] paid amount = done-Frames (paid, amount)
    distribute-Frames share total (n ∷ ns) paid amount =
        by_test (calculate_share n share total == 0) _ _
          (distribute-Frames share total ns paid amount)
          (then-Frames _ _ (call_for_wallet-Frames c.enable_blockchain b n.wallet_address _) (λ sig.
            then-Frames _ _ (execute-Frames (mark_payment n.node_id) _ (marked sig))
              (λ _. distribute-Frames share total ns _ _)))
      where
        marked :
            (sig : Option String)
            → KeepsEpochs (
                mark_payment_allocated n.node_id number
                  (as_i64 (calculate_share n share total))
                  sig)
        marked sig = unfold mark_payment_allocated in λ l k. refl
