-- ===== src/Quorum/Overlap.antt =====
-- A quorum of writes and a quorum of reads meet in a node.
use mathlib.Core.List.{Memᴰ}
use mathlib.Core.List.Memᴰ.{head, tail}
use cyxcloud.Prelude.{
  ℕ, suc, ◌+◌, ◌<◌, ◌≤◌, min, String, Bool, true, false, List, [], ◌∷◌, map, length, ◌≡◌, refl, ap,
  arith, Option, if◌then◌else◌, length-map, ◌∙◌, subst, sym,
}
use cyxcloud.Prelude.Rows.{select}
use cyxcloud.Prelude.Results.{Result, ok}
use cyxcloud.Quorum.{
  QuorumConfig, NodeResult, QuorumResult, Request, answer, succeeded, ask_all, tally, strict,
  validate, read_with_quorum, write_with_quorum, join_within,
}

abbrev pub ids : {T : Type 0} → List (NodeResult T) → List String
ids rs = map (λ r. r.node_id) rs

answer-node_id :
    {T : Type 0} (limit : ℕ) (node : String) (o : Option (ℕ × Result String T))
    → (answer limit node o).node_id ≡ node
unfolding answer
answer-node_id limit node o = ground arith

-- The nodes that answer without an error.
abbrev answers : {T : Type 0} → ℕ → Request T → String → Bool
answers limit operation node = succeeded (answer limit node (operation node))

ids_if :
    {T : Type 0} (b : Bool) (r : NodeResult T) (rs : List (NodeResult T))
    → ids (if b then r ∷ rs else rs) ≡ (if b then r.node_id ∷ ids rs else ids rs)
ids_if true r rs = refl
ids_if false r rs = refl

pub ids-select :
    {T : Type 0} (limit : ℕ) (operation : Request T) (nodes : List String)
    → ids (select succeeded (ask_all limit operation nodes))
      ≡ select (answers limit operation) nodes
unfolding select
ids-select limit operation [] = refl
ids-select limit operation (node ∷ nodes) =
    ids_if (answers limit operation node) (answer limit node (operation node))
      (select succeeded (ask_all limit operation nodes))
    ∙ ap (λ (x, xs). if answers limit operation node then x ∷ xs else xs)
        (λ i. (answer-node_id limit node (operation node) i, ids-select limit operation nodes i))

-- Two selections of one list that are longer together than the list share an element.
abbrev Shared {ℓ} : {A : Type ℓ} → List A → List A → Type ℓ
Shared {A = A} xs ys = (a : A) × Memᴰ a xs × Memᴰ a ys

module _ {ℓ} {A : Type ℓ} where
  share_next :
      (x : A) (n : ℕ) (xs ys : List A) (a b : Bool)
      → (n < length xs + length ys → Shared xs ys)
      → suc n < length (if a then x ∷ xs else xs) + length (if b then x ∷ ys else ys)
      → Shared (if a then x ∷ xs else xs) (if b then x ∷ ys else ys)
  share_next x n xs ys true true rest h = (x, head refl, head refl)
  share_next x n xs ys true false rest h = let (z, p, q) = rest (omega arith) in (z, tail p, q)
  share_next x n xs ys false true rest h = let (z, p, q) = rest (omega arith) in (z, p, tail q)
  share_next x n xs ys false false rest h = rest (omega arith)

  share :
      (f g : A → Bool) (xs : List A)
      → length xs < length (select f xs) + length (select g xs)
      → Shared (select f xs) (select g xs)
  unfolding select
  share f g [] h = absurd (omega arith)
  share f g (x ∷ xs) h =
      share_next x (length xs) (select f xs) (select g xs) (f x) (g x) (share f g xs) h

-- What the results of the two operations hold.
pub write_with_quorum_ok :
    (c : QuorumConfig) (nodes : List String) (put : Request (Unit {0}))
    (w : QuorumResult (Unit {0}))
    → write_with_quorum c nodes put ≡ ok w
    → (w.successes ≡ select succeeded (ask_all c.node_timeout put nodes))
      × (min c.write_quorum (length nodes) ≤ length w.successes)
      × (0 < length nodes)
unfolding write_with_quorum join_within tally
write_with_quorum_ok c [] put w h = absurd (ground arith)
write_with_quorum_ok c (node ∷ nodes) put w h = ground arith

pub read_with_quorum_ok :
    {T : Type 0} (c : QuorumConfig) (nodes : List String) (get : Request T) (r : QuorumResult T)
    → read_with_quorum c nodes get ≡ ok r
    → r.quorum_achieved ≡ true
    → (r.successes ≡ select succeeded (ask_all c.node_timeout get nodes))
      × (min c.read_quorum (length nodes) ≤ length r.successes)
unfolding read_with_quorum join_within tally
read_with_quorum_ok c [] get r h q = absurd (ground arith)
read_with_quorum_ok c (node ∷ nodes) get r h q = ground arith

validate_ok : (c : QuorumConfig) → validate c ≡ ok tt → (0 < c.read_quorum) × (0 < c.write_quorum)
unfolding validate
validate_ok c h = ground arith

-- How many nodes a selection names.
length-ids :
    {T : Type 0} (limit : ℕ) (operation : Request T) (nodes : List String)
    (rs : List (NodeResult T))
    → rs ≡ select succeeded (ask_all limit operation nodes)
    → length rs ≡ length (select (answers limit operation) nodes)
length-ids limit operation nodes rs e =
    ap length e
    ∙ sym (length-map (select succeeded (ask_all limit operation nodes)) (λ r. r.node_id))
    ∙ ap length (ids-select limit operation nodes)

enough :
    (l rq wq : ℕ) {a b m k : ℕ}
    → 0 < l
    → l < rq + wq
    → 0 < rq
    → 0 < wq
    → min wq l ≤ a
    → min rq l ≤ b
    → a ≡ m
    → b ≡ k
    → l < m + k
enough l rq wq z n pr pw lw lr e f = omega arith

module _ {S : Type 0} {node : String} (limit : ℕ) (nodes : List String)
    (operation : Request S) where
  at_ids :
      (rs : List (NodeResult S))
      → rs ≡ select succeeded (ask_all limit operation nodes)
      → Memᴰ node (select (answers limit operation) nodes)
      → Memᴰ node (ids rs)
  at_ids rs e p = subst (Memᴰ node) (sym (ap ids e ∙ ids-select limit operation nodes)) p

validate-strict : (n : ℕ) → 0 < n → validate (strict n) ≡ ok tt
unfolding validate
validate-strict n p = ground arith

module _ {T : Type 0} (c : QuorumConfig) (nodes : List String) (put : Request (Unit {0}))
    (get : Request T) (w : QuorumResult (Unit {0})) (r : QuorumResult T) where
  -- Where a valid configuration's quorums add up to more than the nodes asked, the nodes that confirm
  -- a write and the nodes that answer a read whose quorum is achieved have a node in common, whatever
  -- the other nodes do and however long they take.
  pub read-write-overlap :
      validate c ≡ ok tt
      → length nodes < c.read_quorum + c.write_quorum
      → write_with_quorum c nodes put ≡ ok w
      → read_with_quorum c nodes get ≡ ok r
      → r.quorum_achieved ≡ true
      → (node : String) × Memᴰ node (ids w.successes) × Memᴰ node (ids r.successes)
  read-write-overlap v n hw hr q =
      let (ew, lw, z) = write_with_quorum_ok c nodes put w hw in
      let (er, lr) = read_with_quorum_ok c nodes get r hr q in
      let (pr, pw) = validate_ok c v in
      let (node, p, q) = share (answers c.node_timeout put) (answers c.node_timeout get) nodes (
        enough (length nodes) c.read_quorum c.write_quorum z n pr pw lw lr
          (length-ids c.node_timeout put nodes w.successes ew)
          (length-ids c.node_timeout get nodes r.successes er)) in
      (
        node,
        at_ids c.node_timeout nodes put w.successes ew p,
        at_ids c.node_timeout nodes get r.successes er q,
      )

-- With majorities on both sides this holds for every set of at most `replication_factor` nodes.
pub strict-overlap :
    {T : Type 0} (n : ℕ) (nodes : List String) (put : Request (Unit {0})) (get : Request T)
    (w : QuorumResult (Unit {0})) (r : QuorumResult T)
    → 0 < n
    → length nodes ≤ n
    → write_with_quorum (strict n) nodes put ≡ ok w
    → read_with_quorum (strict n) nodes get ≡ ok r
    → r.quorum_achieved ≡ true
    → (node : String) × Memᴰ node (ids w.successes) × Memᴰ node (ids r.successes)
strict-overlap n nodes put get w r p l =
    read-write-overlap (strict n) nodes put get w r (validate-strict n p) (omega arith)
