-- ===== src/Prelude/Cycles.antt =====
-- Sums over a stretch of a periodic series, and counting in lists.
use Prim.Native.Nat.{ℕ, zero, suc, ◌+◌, ◌%◌, ◌<◌}
use mathlib.Core.Path.{◌≡◌, refl, ap, ◌∙◌}
use mathlib.Core.Bool.{Bool}
use mathlib.Core.List.{List, [], ◌∷◌, ◌++◌, append_assoc}
use native.Mathlib.Omega.{arith}
use native.Mathlib.Nat.{add-mod_right, mod-eq_of_lt}
use frp.Prelude.Tests.{if◌then◌else◌}
use frp.Prelude.Lists.{length, length-append, get_or, get_or-append_right}

-- f a + … + f (a + k - 1)
abbrev pub window : (ℕ → ℕ) → ℕ → ℕ → ℕ
window f a zero = 0
window f a (suc k) = f a + window f (suc a) k

window_end : (f : ℕ → ℕ) (a k : ℕ) → window f a (suc k) ≡ window f a k + f (a + k)
window_end f a zero = omega (arith, ap f (add-zero a))
  where
    add-zero : (a : ℕ) → a ≡ a + 0
    add-zero a = omega arith
window_end f a (suc k) = omega (arith, window_end f (suc a) k, ap f (shifted a k))
  where
    shifted : (a k : ℕ) → suc a + k ≡ a + suc k
    shifted a k = omega arith

pub window-ext :
    (f g : ℕ → ℕ) (a k : ℕ) → ((i : ℕ) → i < a + k → f i ≡ g i) → window f a k ≡ window g a k
window-ext f g a zero same = refl
window-ext f g a (suc k) same =
    omega (arith, same a (omega arith), window-ext f g (suc a) k (λ i h. same i (omega arith)))

-- A stretch of one period has the same sum wherever it begins.
pub window_period :
    (f : ℕ → ℕ) (n : ℕ) → ((a : ℕ) → f (a + n) ≡ f a) → (a : ℕ) → window f a n ≡ window f 0 n
window_period f n periodic zero = refl
window_period f n periodic (suc a) =
    let first = window_end f a n in omega (arith, first, periodic a, window_period f n periodic a)

module _ {ℓ} {A : Type ℓ} where
  -- How many entries meet the test.
  abbrev pub count_if : (A → Bool) → List A → ℕ
  count_if p [] = 0
  count_if p (x ∷ xs) = (if p x then 1 else 0) + count_if p xs

  count_from :
      (p : A → Bool) (ys xs : List A) (d : A)
      → window (λ j. if p (get_or (ys ++ xs) j d) then 1 else 0) (length ys) (length xs)
        ≡ count_if p xs
  count_from p ys [] d = refl
  count_from p ys (x ∷ xs) d =
      let place : length ys + 0 ≡ length ys = omega arith in
      let here : get_or (ys ++ x ∷ xs) (length ys) d ≡ x =
        rw place at (get_or-append_right ys (x ∷ xs) 0 d) in
      let longer : length (ys ++ x ∷ []) ≡ suc (length ys) =
        omega (arith, length-append ys (x ∷ [])) in
      let rest = rw (append_assoc ys (x ∷ []) xs, longer) at (count_from p (ys ++ x ∷ []) xs d) in
      rw (here, rest) refl

  -- One turn through a list, from any place on, meets each entry once.
  pub count_turn :
      (p : A → Bool) (xs : List A) (d : A) (a : ℕ)
      → window (λ j. if p (get_or xs (j % length xs) d) then 1 else 0) a (length xs) ≡ count_if p xs
  count_turn p xs d a =
      let f : ℕ → ℕ = λ j. if p (get_or xs (j % length xs) d) then 1 else 0 in
      let g : ℕ → ℕ = λ j. if p (get_or xs j d) then 1 else 0 in
      window_period f (length xs) (λ b. rw (add-mod_right b (length xs)) refl) a
      ∙ window-ext f g 0 (length xs)
          (λ i below. rw (mod-eq_of_lt {n = i} {m = length xs} (omega arith)) refl)
      ∙ count_from p [] xs d
