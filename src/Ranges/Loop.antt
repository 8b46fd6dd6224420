-- ===== src/Ranges/Loop.antt =====
-- When the loop over a range ends.
use frp.Prelude.{
  ℕ, zero, suc, ◌+◌, ◌%◌, ◌^◌, ◌≤◌, ◌<◌, ◌≡◌, refl, ap, true, false, leb, none, some, List, [], ◌∷◌,
  arith,
}
use frp.Ranges.{max_int64, cons_some, range_loop}

-- n numbers from `i` on.
abbrev pub count_up : ℕ → ℕ → List ℕ
count_up zero i = []
count_up (suc n) i = i ∷ count_up n (i + 1)

range_loop_past : (fuel i max : ℕ) → max < i → range_loop (suc fuel) i max ≡ some []
unfolding range_loop
range_loop_past fuel i max h = let test : leb i max ≡ false = ground arith in rw test refl

-- Below the greatest int64 the loop ends with the numbers of the range, for any fuel above their count.
pub range_loop-count_up :
    (n fuel i max : ℕ)
    → i + n ≡ max + 1
    → max < max_int64
    → n < fuel
    → range_loop fuel i max ≡ some (count_up n i)
unfolding range_loop
range_loop-count_up n zero i max size below h = absurd (omega arith)
range_loop-count_up zero (suc fuel) i max size below h = range_loop_past fuel i max (omega arith)
range_loop-count_up (suc n) (suc fuel) i max size below h =
    let test : leb i max ≡ true = ground arith in
    let next : (i + 1) % 2 ^ 64 ≡ i + 1 = omega arith in
    rw (test, next)
      (ap (cons_some i) (range_loop-count_up n fuel (i + 1) max (omega arith) below (omega arith)))

-- A range that ends at the greatest int64 never ends, whatever the fuel: the counter wraps around.
pub range_loop-max_int64 : (fuel i : ℕ) → i ≤ max_int64 → range_loop fuel i max_int64 ≡ none
unfolding range_loop
range_loop-max_int64 zero i h = refl
range_loop-max_int64 (suc fuel) i h =
    let test : leb i max_int64 ≡ true = ground arith in
    rw test (ap (cons_some i) (range_loop-max_int64 fuel ((i + 1) % 2 ^ 64) (omega arith)))
