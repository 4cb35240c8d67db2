-- ===== src/Payments/Shares.antt =====
-- The shares of the nodes add up to no more than the pool gives them.
use native.Mathlib.Nat.{div-mul-le_self}
use cyxcloud.Prelude.{
  ℕ, zero, suc, String, ◌+◌, ◌*◌, ◌/◌, ◌%◌, ◌^◌, ◌≤◌, ◌<◌, Bool, true, false, Option, none, some,
  List, [], ◌∷◌, ◌++◌, ◌≡◌, refl, sym, ◌∙◌, subst, ◌==◌, if◌then◌else◌, Bool-cases, inl, inr, arith,
}
use cyxcloud.Payments.Steps.{Step, done, after, ◌>>=◌, ◌>>◌}
use cyxcloud.Payments.Ledger.{
  PaymentLedger, ChainCall, World, Statement, Statements, ask, try, keep, execute, mark_payment,
  mark_payment_allocated, allocate_node_reward,
}
use cyxcloud.Payments.Daemon.{PaymentDaemonConfig, Chain, call_chain, call_for_wallet, distribute}
use cyxcloud.Payments.Weights.{NodeWeight, calculate_share, sum_weights, total_weight_of, as_i64}

-- The rewards of a list of nodes, and how many of them are positive.
abbrev pub sum_shares : ℕ → ℕ → List NodeWeight → ℕ
sum_shares share total [] = 0
sum_shares share total (w ∷ ws) = calculate_share w share total + sum_shares share total ws

abbrev pub count_paid : ℕ → ℕ → List NodeWeight → ℕ
count_paid share total [] = 0
count_paid share total (w ∷ ws) =
    (if calculate_share w share total == 0 then 0 else 1) + count_paid share total ws

share_times :
    (w : NodeWeight) (share total : ℕ) → calculate_share w share total * total ≤ share * w.weight
unfolding calculate_share
share_times w share total = elim (Bool-cases (total == 0)) [
  | inl t ↦ rw t (omega arith)
  | inr t ↦ rw t (times_total (share * w.weight) total)
]
  where
    mod_le : (a b : ℕ) → a % b ≤ a
    mod_le a b = grind arith

    mono : (a b c : ℕ) → a ≤ b → a * c ≤ b * c
    mono a b c h = grind arith

    times_total : (a t : ℕ) → (a / t) % 2 ^ 64 * t ≤ a
    times_total a t =
        omega
          (arith, mono ((a / t) % 2 ^ 64) (a / t) t (mod_le (a / t) (2 ^ 64)), div-mul-le_self a t)

sum_times :
    (share total : ℕ) (ws : List NodeWeight)
    → sum_shares share total ws * total ≤ share * sum_weights ws
sum_times share total [] = omega arith
sum_times share total (w ∷ ws) = grind (arith, share_times w share total, sum_times share total ws)

no_weight : (share : ℕ) (ws : List NodeWeight) → sum_shares share 0 ws ≡ 0
unfolding calculate_share
no_weight share [] = refl
no_weight share (w ∷ ws) = omega (arith, no_weight share ws)

cancel : (a b t : ℕ) → 0 < t → a * t ≤ b * t → a ≤ b
cancel a b t h k = grind arith

-- Where the weights add up to less than 2^64, the shares add up to at most what is shared out.
pub sum_shares-le :
    (share : ℕ) (ws : List NodeWeight)
    → sum_weights ws < 2 ^ 64
    → sum_shares share (total_weight_of ws) ws ≤ share
sum_shares-le share ws h =
    subst (λ t. sum_shares share t ws ≤ share) (sym (small (sum_weights ws) h))
      (go (sum_weights ws) (sum_times share (sum_weights ws) ws))
  where
    small : (n : ℕ) → n < 2 ^ 64 → n % 2 ^ 64 ≡ n
    small n k = omega arith

    go : (t : ℕ) → sum_shares share t ws * t ≤ share * t → sum_shares share t ws ≤ share
    go zero k = omega (arith, no_weight share ws)
    go (suc t) k = cancel (sum_shares share (suc t) ws) share (suc t) (omega arith) k

-- The statements all go through.
abbrev pub AllUp : Statements → Type 0
AllUp s = (q : Statement) → s.up q ≡ true

module _ (s : Statements) (up : AllUp s) where
  pub ask_up :
      {A : Type 0} (q : Statement) (f : PaymentLedger → A) (w : World)
      → ask s q f w ≡ (w, some (f w.ledger))
  unfolding ask
  ask_up q f w = rw (up q) refl

  pub try_up :
      (q : Statement) (f : PaymentLedger → Option PaymentLedger) (w : World)
      → try s q f w ≡ keep s (f w.ledger) w
  unfolding try
  try_up q f w = rw (up q) refl

-- What a call on behalf of a wallet leaves alone.
pub call_for_wallet-some :
    (enabled : Bool) (b : Option Chain) (wallet : Option String) (call : String → ChainCall)
    (w : World)
    → (w' : World) × (o : Option String) × (call_for_wallet enabled b wallet call w ≡ (w', some o))
      × (w'.ledger ≡ w.ledger)
      × (w'.metrics ≡ w.metrics)
call_for_wallet-some false b wallet call w = (w, none, refl, refl, refl)
call_for_wallet-some true none wallet call w = (w, none, refl, refl, refl)
call_for_wallet-some true (some b) none call w = (w, none, refl, refl, refl)
call_for_wallet-some true (some b) (some owner) call w = go (b.is_key owner)
  where
    go :
        (k : Bool)
        → (w' : World) × (o : Option String) × ((if k then call_chain b (call owner) else done none)
              w
            ≡ (w', some o))
          × (w'.ledger ≡ w.ledger)
          × (w'.metrics ≡ w.metrics)
    go true = (
      record w { chain_calls = w.chain_calls ++ (call owner ∷ []) },
      b.answer (call owner),
      refl,
      refl,
      refl,
    )
    go false = (w, none, refl, refl, refl)

-- The loop of payments ends with the sums, where its statements go through.
module _ (s : Statements) (up : AllUp s) (c : PaymentDaemonConfig) (b : Option Chain)
    (number share total : ℕ) where
  -- The sums so far and those of the rest.
  sums :
      {w : World} (p q a d : ℕ)
      → p ≡ q
      → a ≡ d
      → ◌≡◌ {A = World × Option (ℕ × ℕ)} (w, some (p, a)) (w, some (q, d))
  sums {w = w} p q a d e f = λ i. (w, some (e i, f i))

  one_weight :
      (r p a k m : ℕ) (t : Bool)
      → (r == 0) ≡ t
      → (if t
          then (p + k ≡ p + ((if r == 0 then 0 else 1) + k)) × (a + m ≡ a + (r + m))
          else (p + 1 + k ≡ p + ((if r == 0 then 0 else 1) + k)) × (a + r + m ≡ a + (r + m)))
  one_weight r p a k m true e = (ground arith, ground arith)
  one_weight r p a k m false e = (ground arith, omega arith)

  -- One turn of the loop, from what the rest of it gives.
  pay_one :
      (n : NodeWeight) (ns : List NodeWeight) (paid amount : ℕ) (w : World) (t : Bool)
      → let reward = calculate_share n share total in
        (reward == 0) ≡ t
        → ((p a : ℕ) (v : World)
            → (v' : World) × (distribute s c b number share total ns p a v
                ≡ (v', some (p + count_paid share total ns, a + sum_shares share total ns))))
        → (w' : World) × ((if t
                then distribute s c b number share total ns paid amount
                else call_for_wallet c.enable_blockchain b n.wallet_address
                    (λ owner. allocate_node_reward number owner n.peer_id reward)
                  >>= λ signature.
                      execute s
                        (mark_payment n.node_id)
                        (mark_payment_allocated n.node_id number (as_i64 reward) signature)
                      >> distribute s c b number share total ns (paid + 1) (amount + reward))
              w
            ≡ (
              w',
              some (
                paid + count_paid share total (n ∷ ns),
                amount + sum_shares share total (n ∷ ns),
              ),
            ))
  pay_one n ns paid amount w true e rest =
      let (w', h) = rest paid amount w in
      let (e1, e2) =
        one_weight (calculate_share n share total) paid amount (count_paid share total ns)
          (sum_shares share total ns) true e in
      (w', h ∙ sums _ _ _ _ e1 e2)
  pay_one n ns paid amount w false e rest =
      let reward = calculate_share n share total in
      let call : Step World (Option String) =
        call_for_wallet c.enable_blockchain b n.wallet_address
          (λ owner. allocate_node_reward number owner n.peer_id reward) in
      let rest_of : Unit {0} → Step World (ℕ × ℕ) =
        λ _. distribute s c b number share total ns (paid + 1) (amount + reward) in
      let next : Option String → Step World (ℕ × ℕ) = λ signature.
        execute s (mark_payment n.node_id)
          (mark_payment_allocated n.node_id number (as_i64 reward) signature)
        >>= rest_of in
      let (w1, o, h1, l, m) =
        call_for_wallet-some c.enable_blockchain b n.wallet_address
          (λ owner. allocate_node_reward number owner n.peer_id reward) w in
      let mark = mark_payment_allocated n.node_id number (as_i64 reward) o in
      let w2 : World = record w1 { ledger = mark w1.ledger } in
      let (w', h) = rest (paid + 1) (amount + reward) w2 in
      let (e1, e2) =
        one_weight reward paid amount (count_paid share total ns) (sum_shares share total ns) false
          e in
      let marked =
        after (execute s (mark_payment n.node_id) mark) rest_of {w = w1} {w' = w2}
          (try_up s up (mark_payment n.node_id) (λ x. some (mark x)) w1) h in
      (w', after call next {w = w} {w' = w1} h1 marked ∙ sums _ _ _ _ e1 e2)

  distribute_sums :
      (ws : List NodeWeight) (paid amount : ℕ) (w : World)
      → (w' : World) × (distribute s c b number share total ws paid amount w
          ≡ (w', some (paid + count_paid share total ws, amount + sum_shares share total ws)))
  unfolding distribute
  distribute_sums [] paid amount w = (w, sums _ _ _ _ (omega arith) (omega arith))
  distribute_sums (n ∷ ns) paid amount w =
      pay_one n ns paid amount w (calculate_share n share total == 0) refl (distribute_sums ns)

-- Where the statements go through and the weights add up to less than 2^64, the payout goes through: it
-- counts the nodes with a positive share and sums their shares, which is at most what is shared out.
pub distribute_ok :
    (s : Statements)
    → AllUp s
    → (c : PaymentDaemonConfig) (b : Option Chain) (number share : ℕ) (ws : List NodeWeight)
    → sum_weights ws < 2 ^ 64
    → (w : World)
    → let total = total_weight_of ws in
      (w' : World) × (distribute s c b number share total ws 0 0 w
        ≡ (w', some (count_paid share total ws, sum_shares share total ws)))
      × (sum_shares share total ws ≤ share)
distribute_ok s up c b number share ws h w =
    let total = total_weight_of ws in
    let (w', e) = distribute_sums s up c b number share total ws 0 0 w in
    (
      w',
      e ∙ from_zero (count_paid share total ws) (sum_shares share total ws),
      sum_shares-le share ws h,
    )
  where
    zero_add : (n : ℕ) → 0 + n ≡ n
    zero_add n = omega arith

    from_zero :
        (p a : ℕ) {v : World}
        → ◌≡◌ {A = World × Option (ℕ × ℕ)} (v, some (0 + p, 0 + a)) (v, some (p, a))
    from_zero p a {v = v} = λ i. (v, some (zero_add p i, zero_add a i))
