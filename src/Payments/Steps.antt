-- ===== src/Payments/Steps.antt =====
-- A database operation as a step: it takes the state and gives the next one, with a value or, for an
-- error that `?` passes on, with none.
use cyxcloud.Prelude.{Option, none, some, ◌≡◌, ap, ◌∙◌}

abbrev pub Step : Type 0 → Type 0 → Type 0
Step W A = W → W × Option A

abbrev pub done : {W A : Type 0} → A → Step W A
done a w = (w, some a)

abbrev pub continue : {W A B : Type 0} → (A → Step W B) → W × Option A → W × Option B
continue next (w, none) = (w, none)
continue next (w, some a) = next a w

infixl 5 ◌>>=◌ ◌>>◌
unfoldable pub ◌>>=◌ : {W A B : Type 0} → Step W A → (A → Step W B) → Step W B
(first >>= next) w = continue next (first w)

abbrev pub ◌>>◌ : {W A B : Type 0} → Step W A → Step W B → Step W B
first >> second = first >>= λ _. second

-- A sequence goes on from where its first step ends.
pub after :
    {W A B : Type 0} (m : Step W A) (next : A → Step W B) {w w' : W} {a : A} {r : W × Option B}
    → m w ≡ (w', some a)
    → next a w' ≡ r
    → (m >>= next) w ≡ r
unfolding ◌>>=◌
after m next e k = ap (continue next) e ∙ k

-- And it ends where its first step fails.
pub after_error :
    {W A B : Type 0} (m : Step W A) (next : A → Step W B) {w w' : W}
    → m w ≡ (w', none)
    → (m >>= next) w ≡ (w', none)
unfolding ◌>>=◌
after_error m next e = ap (continue next) e
