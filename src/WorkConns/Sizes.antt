-- ===== src/WorkConns/Sizes.antt =====
-- How long the channel of a control's work connections is.
use frp.Prelude.{
  refl, sym, ◌∙◌, ◌*◌, ◌%◌, ◌-◌, ℕ, ◌+◌, ◌<◌, ◌^◌, ◌≡◌, ◌↔◌, ◌&&◌, ◌||◌, ltb, true, false, none, ℤ,
  pos, negsuc, ◌+ℤ◌, arith, Bool-cases, inl, inr,
}
use frp.Metric.Word.{mod64, signed, add_word}
use frp.WorkConns.{gt_ℤ, new_pool, pool_of, pool_count_of}

make_fails :
    (limit : ℕ) (size : ℤ)
    → (pool_of limit size ≡ none) ↔ ((gt_ℤ (pos 0) size || gt_ℤ size (pos limit)) ≡ true)
make_fails limit (negsuc n) = (λ e. refl, λ e. refl)
make_fails limit (pos n) = ground arith

-- Ten more than a word that is not negative.
sum_fails :
    (limit w : ℕ)
    → limit < 2 ^ 63
    → w < 2 ^ 63
    → (gt_ℤ (pos 0) (signed mod64 (add_word mod64 w 10))
        || gt_ℤ (signed mod64 (add_word mod64 w 10)) (pos limit))
      ≡ ltb limit (w + 10)
unfolding signed
sum_fails limit w small natural = elim (Bool-cases (ltb (2 * ((w + 10) % mod64)) mod64)) [
  | inl fits ↦ rw fits (ground arith)
  | inr wrapped ↦ rw wrapped (ground arith)
]

negative_fails :
    (limit m n : ℕ)
    → limit < 2 ^ 63
    → n < 2 ^ 64
    → ltb (2 * n) mod64 ≡ false
    → (gt_ℤ (pos 0) (signed mod64 (add_word mod64 n 10))
        || gt_ℤ (signed mod64 (add_word mod64 n 10)) (pos limit))
      ≡ (gt_ℤ (negsuc 9) (negsuc (mod64 - n - 1))
          || (ltb limit (m + 10) && gt_ℤ (negsuc (mod64 - n - 1) +ℤ pos 10) (pos limit)))
unfolding signed ◌+ℤ◌
negative_fails limit m n small word negative =
    elim (Bool-cases (ltb (2 * ((n + 10) % mod64)) mod64)) [
      | inl wrapped ↦
          let value : (n + 10) % mod64 ≡ n + 10 - mod64 = ground arith in
          let near : ltb 9 (mod64 - n - 1) ≡ false = ground arith in
          let size : negsuc (mod64 - n - 1) +ℤ pos 10 ≡ pos (n + 10 - mod64) = ground arith in
          rw (wrapped, near, size, value) (ground arith)
      | inr still ↦ let far : ltb 9 (mod64 - n - 1) ≡ true = ground arith in rw (still, far) refl
    ]

count_fails :
    (limit m n : ℕ)
    → limit < 2 ^ 63
    → m < 2 ^ 63
    → n < 2 ^ 64
    → (gt_ℤ (pos 0) (signed mod64 (add_word mod64 (pool_count_of m n) 10))
        || gt_ℤ (signed mod64 (add_word mod64 (pool_count_of m n) 10)) (pos limit))
      ≡ (gt_ℤ (negsuc 9) (signed mod64 n)
          || (ltb limit (m + 10) && gt_ℤ (signed mod64 n +ℤ pos 10) (pos limit)))
unfolding signed ◌+ℤ◌
count_fails limit m n small allowed word =
    let positive : ltb (2 * m) mod64 ≡ true = ground arith in
    elim (Bool-cases (ltb (2 * n) mod64)) [
      | inr negative ↦
          let kept : pool_count_of m n ≡ n = rw (positive, negative) refl in
          rw (kept) (negative_fails limit m n small word negative ∙ rw negative refl)
      | inl natural ↦
          let size : pos n +ℤ pos 10 ≡ pos (n + 10) = ground arith in
          elim (Bool-cases (ltb m n)) [
            | inl over ↦
                let kept : pool_count_of m n ≡ m = rw (positive, natural, over) refl in
                rw kept (sum_fails limit m small allowed ∙ rw (natural, size) (ground arith))
            | inr fits ↦
                let kept : pool_count_of m n ≡ n = rw (positive, natural, fits) refl in
                rw kept (sum_fails limit n small (ground arith) ∙ rw (natural, size) (ground arith))
          ]
    ]

-- Let the configuration allow a number of connections that is not negative, and let the runtime make channels up
-- to some size below 2^63. Then NewControl panics exactly if the login asks for fewer than -10
-- connections, or if both what it asks for and what is allowed are more than that size less 10. The sum
-- of ten and the count never wraps around to a size that passes.
pub new_pool-panics :
    (limit max_pool_count pool_count : ℕ)
    → limit < 2 ^ 63
    → max_pool_count < 2 ^ 63
    → pool_count < 2 ^ 64
    → (new_pool limit max_pool_count pool_count ≡ none) ↔ (
        (gt_ℤ (negsuc 9) (signed mod64 pool_count)
          || (ltb limit (max_pool_count + 10)
              && gt_ℤ (signed mod64 pool_count +ℤ pos 10) (pos limit)))
        ≡ true)
unfolding new_pool
new_pool-panics limit m n small allowed word =
    let same = count_fails limit m n small allowed word in
    let fails = make_fails limit (signed mod64 (add_word mod64 (pool_count_of m n) 10)) in
    (λ e. sym same ∙ fails.0 e, λ e. fails.1 (same ∙ e))
