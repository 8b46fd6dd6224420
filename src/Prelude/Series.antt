-- ===== src/Prelude/Series.antt =====
-- The values of a function on consecutive days, in the two orders that the program uses.
use Prim.Native.Nat.{ℕ, zero, suc, ◌+◌}
use mathlib.Core.Path.{◌≡◌, refl, ap, ◌∙◌}
use mathlib.Core.List.{List, [], ◌∷◌, ◌++◌, reverse, reverse-cons}
use native.Mathlib.Omega.{arith}

module _ {ℓ} {A : Type ℓ} (f : ℕ → A) where
  -- Oldest first: days n, n + 1, …, n + k - 1.
  abbrev pub history : ℕ → ℕ → List A
  history zero n = []
  history (suc k) n = f n ∷ history k (n + 1)

  -- Newest first: days n + k - 1, …, n.
  abbrev pub recent : ℕ → ℕ → List A
  recent zero n = []
  recent (suc k) n = f (n + k) ∷ recent k n

  history-append : (k n : ℕ) → history k n ++ f (n + k) ∷ [] ≡ history (suc k) n
  history-append zero n = ap (λ m. f m ∷ []) (omega arith)
  history-append (suc k) n =
      let day : n + suc k ≡ n + 1 + k = omega arith in
      rw day (ap (λ l. f n ∷ l) (history-append k (n + 1)))

  pub reverse-recent : (k n : ℕ) → reverse (recent k n) ≡ history k n
  reverse-recent zero n = refl
  reverse-recent (suc k) n =
      reverse-cons (f (n + k)) (recent k n) ∙ rw (reverse-recent k n) (history-append k n)
