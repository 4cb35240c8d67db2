-- ===== src/Prelude/Rows.antt =====
-- Tables of rows with a numeric primary key: `SELECT ... WHERE`, and `UPDATE` or `DELETE` by key.
use cyxcloud.Prelude.Tests.{◌==◌, if◌then◌else◌, Bool-cases}
use cyxcloud.Prelude.Lists.{All, Unique}
use Prim.Native.Nat.{ℕ}
use mathlib.Core.Bool.{Bool, true, false, ◌&&◌}
use mathlib.Core.List.{List, [], ◌∷◌}
use mathlib.Core.Logic.{◌≢◌, inl, inr}
use mathlib.Core.Option.{Option, none, some}
use mathlib.Core.Path.{◌≡◌, refl, sym, ap, subst, ◌∙◌}
use native.Mathlib.Omega.{arith}

-- SELECT * FROM rows WHERE test; also `iter().filter(test)`.
unfoldable pub select {ℓ} : {A : Type ℓ} → (A → Bool) → List A → List A
select test [] = []
select test (r ∷ rs) = let rest = select test rs in if test r then r ∷ rest else rest

abbrev pub cons? {ℓ} : {A : Type ℓ} → Option A → List A → List A
cons? none rs = rs
cons? (some r) rs = r ∷ rs

module _ {ℓ} {A : Type ℓ} where
  -- Each row is replaced by what the function gives, or dropped.
  unfoldable pub filter_rows : (A → Option A) → List A → List A
  filter_rows f [] = []
  filter_rows f (r ∷ rs) = cons? (f r) (filter_rows f rs)

module _ {ℓ} {A : Type ℓ} (key : A → ℕ) where
  -- UPDATE or DELETE ... WHERE key = k; `none` deletes the row.
  unfoldable pub modify : ℕ → (A → Option A) → List A → List A
  modify k f [] = []
  modify k f (r ∷ rs) =
      let rest = modify k f rs in if key r == k then cons? (f r) rest else r ∷ rest

  -- The statement once for each row of a selection, where it is allowed for the row's key.
  unfoldable pub modify_each : (ℕ → Bool) → (A → Option A) → List A → List A → List A
  modify_each allowed f [] rows = rows
  modify_each allowed f (s ∷ ss) rows =
      modify_each allowed f ss (if allowed (key s) then modify (key s) f rows else rows)

  modify_absent :
      (k : ℕ) (f : A → Option A) (rs : List A) → All (λ s. key s ≢ k) rs → modify k f rs ≡ rs
  unfolding modify
  modify_absent k f [] h = refl
  modify_absent k f (r ∷ rs) h = ground (arith, modify_absent k f rs, h.0)

  -- A selection that does not name the first row leaves it alone.
  modify_each_skip :
      (allowed : ℕ → Bool) (f : A → Option A) (sel : List A) (r : A) (rs : List A)
      → All (λ s. key s ≢ key r) sel
      → modify_each allowed f sel (r ∷ rs) ≡ r ∷ modify_each allowed f sel rs
  unfolding modify_each
  modify_each_skip allowed f [] r rs h = refl
  modify_each_skip allowed f (s ∷ ss) r rs h = elim (Bool-cases (allowed (key s))) [
    | inl t ↦ rw t (rw (skip s h.0) (modify_each_skip allowed f ss r (modify (key s) f rs) h.1))
    | inr t ↦ rw t (modify_each_skip allowed f ss r rs h.1)
  ]
    where
      skip : (s : A) → key s ≢ key r → modify (key s) f (r ∷ rs) ≡ r ∷ modify (key s) f rs
      skip s n = unfold modify in ground (arith, n)

  All-select :
      (k : ℕ) (test : A → Bool) (rs : List A)
      → All (λ s. key s ≢ k) rs
      → All (λ s. key s ≢ k) (select test rs)
  unfolding select
  All-select k test [] h = tt
  All-select k test (r ∷ rs) h = elim (Bool-cases (test r)) [
    | inl t ↦ rw t (h.0, All-select k test rs h.1)
    | inr t ↦ rw t (All-select k test rs h.1)
  ]

  -- What the loop does to one row.
  abbrev pub one_row : (ℕ → Bool) → (A → Bool) → (A → Option A) → A → Option A
  one_row allowed test f r = if test r && allowed (key r) then f r else some r

  modify_here :
      (r : A) (f : A → Option A) (rs : List A)
      → All (λ s. key s ≢ key r) rs
      → modify (key r) f (r ∷ rs) ≡ cons? (f r) rs
  unfolding modify
  modify_here r f rs h = ground (arith, modify_absent (key r) f rs h)

  after_row :
      (allowed : ℕ → Bool) (f : A → Option A) (r : A) (sel rs done : List A) (o : Option A)
      → ((s : A) → o ≡ some s → key s ≡ key r)
      → All (λ s. key s ≢ key r) sel
      → modify_each allowed f sel rs ≡ done
      → modify_each allowed f sel (cons? o rs) ≡ cons? o done
  after_row allowed f r sel rs done none keeps h e = e
  after_row allowed f r sel rs done (some s) keeps h e =
      modify_each_skip allowed f sel s rs
        (subst (λ k. All (λ x. key x ≢ k) sel) (sym (keeps s refl)) h)
      ∙ ap (s ∷◌) e

  -- One selected or unselected row, by the two tests.
  first_row :
      (allowed : ℕ → Bool) (f : A → Option A) (r : A) (rs sel done : List A) (t a : Bool)
      → allowed (key r) ≡ a
      → ((s : A) → f r ≡ some s → key s ≡ key r)
      → All (λ s. key s ≢ key r) rs
      → All (λ s. key s ≢ key r) sel
      → modify_each allowed f sel rs ≡ done
      → modify_each allowed f (if t then r ∷ sel else sel) (r ∷ rs)
        ≡ cons? (if t && a then f r else some r) done
  unfolding modify_each
  first_row allowed f r rs sel done false a e keeps u h later =
      modify_each_skip allowed f sel r rs h ∙ ap (r ∷◌) later
  first_row allowed f r rs sel done true false e keeps u h later =
      ap (λ x. modify_each allowed f sel (if x then modify (key r) f (r ∷ rs) else r ∷ rs)) e
      ∙ modify_each_skip allowed f sel r rs h
      ∙ ap (r ∷◌) later
  first_row allowed f r rs sel done true true e keeps u h later =
      ap (λ x. modify_each allowed f sel (if x then modify (key r) f (r ∷ rs) else r ∷ rs)) e
      ∙ ap (modify_each allowed f sel) (modify_here r f rs u)
      ∙ after_row allowed f r sel rs done (f r) keeps h later

  -- Running an `UPDATE` for each selected row is one pass over the table, where the key is unique and
  -- the update keeps it.
  pub modify_each-select :
      (allowed : ℕ → Bool) (test : A → Bool) (f : A → Option A) (rs : List A)
      → ((r s : A) → f r ≡ some s → key s ≡ key r)
      → Unique key rs
      → modify_each allowed f (select test rs) rs ≡ filter_rows (one_row allowed test f) rs
  unfolding select filter_rows modify_each
  modify_each-select allowed test f [] keeps u = refl
  modify_each-select allowed test f (r ∷ rs) keeps u =
      first_row allowed f r rs (select test rs) _ (test r) (allowed (key r)) refl (λ s. keeps r s)
        u.0 (All-select (key r) test rs u.0) (modify_each-select allowed test f rs keeps u.1)

-- What a selection knows of its rows.
module _ {ℓ κ} {A : Type ℓ} (P : A → Type κ) where
  pub All-of_select :
      (test : A → Bool) (xs : List A) → All P xs → All (λ x. P x × (test x ≡ true)) (select test xs)
  unfolding select
  All-of_select test [] h = tt
  All-of_select test (x ∷ xs) h = elim (Bool-cases (test x)) [
    | inl t ↦ rw t ((h.0, t), All-of_select test xs h.1)
    | inr t ↦ rw t (All-of_select test xs h.1)
  ]
