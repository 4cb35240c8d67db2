-- ===== src/Payments/Tests.antt =====
-- Runs of the payment daemon on two nodes, with hundredths in place of `f64`.
use cyxcloud.Prelude.{
  ℕ, ◌+◌, ◌-◌, ◌*◌, ◌/◌, ◌≢◌, ◌≤◌, min, Bool, true, false, none, some, List, [], ◌∷◌, ◌≡◌, refl,
  leb, All, Unique, if◌then◌else◌, number_key, pair_key, arith,
}
use cyxcloud.Prelude.Floats.{Floats, Casts}
use cyxcloud.Prelude.Rows.{select}
use cyxcloud.Prelude.Assoc.{get, insert}
use cyxcloud.Prelude.Sorting.{sort_by, place}
use cyxcloud.Lifecycle.{online, offline}
use cyxcloud.Payments.Steps.{◌>>=◌}
use cyxcloud.Payments.Weights.{NodeWeight, calculate_share, total_weight_of}
use cyxcloud.Payments.Ledger.{
  PaidNode, NodeEpochUptime, allocate_node_reward, finalize_epoch, World, Statement,
  initialize_nodes, Statements, new_uptime, new_epoch, ask, try, end_epoch_uptime, get_epoch_uptime,
  get_nodes_with_extended_downtime, mark_payment_allocated, finalize_payment_epoch,
  create_payment_epoch, initialize_epoch_for_all_nodes,
}
use cyxcloud.Payments.Daemon.{
  default_payment_config, Chain, empty_metrics, accumulate_uptime, check_and_slash_nodes,
  check_and_slash_nodes_dry_run, slash_nodes, distribute,
}
use cyxcloud.Payments.Payout.{
  weigh_nodes, finalize_and_pay_epoch, finalize_and_pay_epoch_dry_run, start_epoch, end_epoch,
  check_epoch_end,
}
use cyxcloud.Payments.Shares.{AllUp, distribute_ok, count_paid, sum_shares}
use cyxcloud.Payments.DryRun.{disabled, dry_run_same}
use cyxcloud.Payments.Frames.{has_epoch}
use cyxcloud.Payments.Epochs.{Turn, turns}
use cyxcloud.Payments.Advance.{start_epoch_stuck, check_epoch_end_advances}
use cyxcloud.Payments.Uptime.{IsCounted, accumulate_uptime_counts}

abbrev numbers : Floats ℕ
numbers = record {
  of_nat = λ n. n * 100;
  tenths = λ n. n * 10;
  plus = λ a b. a + b;
  minus = λ a b. a - b;
  times = λ a b. a * b / 100;
  over = λ a b. a * 100 / b;
  smaller = min;
  at_most = leb;
}

abbrev casts : Casts ℕ
casts = record { hundredths = λ n. n; truncate = λ n. n / 100 }

abbrev all_up : Statements
all_up = record { up = λ q. true; at = λ q. 700000; error_text = "error" }

all_up-AllUp : AllUp all_up
all_up-AllUp q = refl

abbrev is_initialize : Statement → Bool
is_initialize initialize_nodes = true
is_initialize q = false

abbrev without_initialize : Statements
without_initialize = record {
  up = λ q. if is_initialize q then false else true;
  at = λ q. 700000;
  error_text = "error";
}

abbrev chain : Chain
chain = record {
  is_key = λ k. true;
  answer = λ call. some "signature";
  epoch_rewards = λ number. some (1000, 850);
}

abbrev node_a : PaidNode
node_a = record {
  id = 1;
  peer_id = "a";
  wallet_address = some "wallet";
  storage_total = 600;
  status = online;
}

abbrev node_b : PaidNode
node_b = record {
  id = 2;
  peer_id = "b";
  wallet_address = none;
  storage_total = 200;
  status = offline;
}

abbrev online_for : ℕ → NodeEpochUptime → NodeEpochUptime
online_for seconds u = record u { seconds_online = seconds }

abbrev world : World
world = record {
  ledger = record {
    nodes = node_a ∷ node_b ∷ [];
    uptimes =
        ((1, 1), online_for 604800 (new_uptime 1 1 0))
        ∷ ((2, 1), online_for 302400 (new_uptime 2 1 0))
        ∷ [];
    slashing_events = [];
    payment_epochs = (1, new_epoch 1 0) ∷ [];
  };
  metrics = record empty_metrics { current_epoch = 1; epoch_start = some 0 };
  chain_calls = [];
}

nodes-Unique : Unique (λ (n : PaidNode). n.id) world.ledger.nodes
nodes-Unique = (((λ e. absurd (omega arith)), tt), (tt, tt))

-- The end of the epoch with a failing statement, and again.
abbrev broken : World
broken =
    (check_epoch_end numbers casts without_initialize default_payment_config (some chain) 700000
      world).0

abbrev again : World
again = (check_epoch_end numbers casts all_up default_payment_config (some chain) 700060 broken).0

-- The reward is allocated on the chain a second time.
paid_twice :
    again.chain_calls
    ≡ allocate_node_reward 1 "wallet" "a" 728
      ∷ finalize_epoch 1
      ∷ allocate_node_reward 1 "wallet" "a" 728
      ∷ finalize_epoch 1
      ∷ []
unfolding check_epoch_end end_epoch start_epoch finalize_and_pay_epoch weigh_nodes distribute
    check_and_slash_nodes slash_nodes ask try ◌>>=◌ calculate_share end_epoch_uptime
    get_epoch_uptime get_nodes_with_extended_downtime mark_payment_allocated finalize_payment_epoch
    create_payment_epoch initialize_epoch_for_all_nodes select sort_by place get insert
paid_twice = refl

abbrev weights : List NodeWeight
weights =
    record {
      node_id = 1;
      peer_id = "a";
      wallet_address = some "wallet";
      storage_bytes = 600;
      uptime_seconds = 604800;
      reputation = 5000;
      weight = 600;
    }
    ∷ []

distribute_ok_example :
    let total = total_weight_of weights in
    (w' : World) × (distribute all_up default_payment_config
        (some chain)
        1
        850
        total
        weights
        0
        0
        world
      ≡ (w', some (count_paid 850 total weights, sum_shares 850 total weights)))
    × (sum_shares 850 total weights ≤ 850)
distribute_ok_example =
    distribute_ok all_up all_up-AllUp default_payment_config (some chain) 1 850 weights
      (omega arith) world

dry_run_same_example :
    (check_and_slash_nodes all_up (disabled default_payment_config) (some chain) 1
      ≡ check_and_slash_nodes_dry_run all_up default_payment_config 1)
    × (finalize_and_pay_epoch numbers casts all_up (disabled default_payment_config) (some chain) 1
        ≡ finalize_and_pay_epoch_dry_run numbers casts all_up 1)
dry_run_same_example = dry_run_same numbers casts all_up default_payment_config (some chain) 1

abbrev later_turns : List Turn
later_turns = record { first = all_up; second = all_up; now = 700060; later = 700061 } ∷ []

no_row : has_epoch (world.metrics.current_epoch + 1) world.ledger ≡ false
unfolding get
no_row = refl

start_epoch_stuck_example :
    let (w', r) = start_epoch numbers casts without_initialize 2 700000 world in
    (r ≡ none)
    × ((turns numbers casts default_payment_config
          (some chain)
          later_turns
          w').metrics.current_epoch
        ≡ 1)
start_epoch_stuck_example =
    start_epoch_stuck numbers casts without_initialize default_payment_config (some chain) 700000
      world refl refl no_row later_turns

check_epoch_end_advances_example :
    let (w', r) =
      check_epoch_end numbers casts all_up default_payment_config (some chain) 700000 world in
    (r ≡ some tt)
    × (w'.metrics.current_epoch ≡ 2)
    × (w'.metrics.epoch_start ≡ some 700000)
    × (get 2 w'.ledger.payment_epochs ≡ some (new_epoch 2 700000))
check_epoch_end_advances_example =
    check_epoch_end_advances numbers casts all_up all_up-AllUp default_payment_config (some chain)
      700000 world (λ e. absurd (omega arith)) refl no_row

accumulate_uptime_counts_example :
    let (w', r) = accumulate_uptime all_up default_payment_config 60 world in
    (r ≡ some tt)
    × All (IsCounted all_up 1 60 (some 0) world.ledger w'.ledger) (node_a ∷ node_b ∷ [])
    × ((k : ℕ × ℕ)
        → All (λ (n : PaidNode). (n.id, 1) ≢ k) (node_a ∷ node_b ∷ [])
        → get k w'.ledger.uptimes ≡ get k world.ledger.uptimes)
accumulate_uptime_counts_example =
    accumulate_uptime_counts all_up all_up-AllUp default_payment_config 60 world
      (λ e. absurd (omega arith)) nodes-Unique
