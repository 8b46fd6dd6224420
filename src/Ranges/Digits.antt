-- ===== src/Ranges/Digits.antt =====
-- Decimal numbers as ParseInt reads them.
use frp.Prelude.{
  ℕ, zero, suc, ◌+◌, ◌-◌, ◌*◌, ◌/◌, ◌%◌, ◌^◌, ◌<◌, ◌≡◌, refl, ap, ◌∙◌, Bool, true, false, ltb, ◌==◌,
  if◌then◌else◌, some, List, [], ◌∷◌, ◌++◌, arith, All, All-concat, Bool-cases, inl, inr,
}
use frp.Ranges.{zero_int64, is_digit, digits_value, positive_int, parse_int}

-- The digits of a number; the fuel is above it.
unfoldable pub digits : ℕ → ℕ → List ℕ
digits zero n = []
digits (suc fuel) n =
    let more = digits fuel (n / 10) ++ (b'0' + n % 10) ∷ [] in
    if ltb n 10 then (b'0' + n) ∷ [] else more

unfoldable pub print_nat : ℕ → List ℕ
unfolding digits
print_nat n = digits (suc n) n

digits_value-append :
    (s : List ℕ) (m n c : ℕ)
    → digits_value m s ≡ some n
    → is_digit c ≡ true
    → digits_value m (s ++ c ∷ []) ≡ some (n * 10 + (c - b'0'))
unfolding digits_value
digits_value-append [] m n c h d = ground arith
digits_value-append (x ∷ s) m n c h d =
    ground (arith, digits_value-append s (m * 10 + (x - b'0')) n c)

digits_value-digits : (fuel n : ℕ) → n < fuel → digits_value 0 (digits fuel n) ≡ some n
unfolding digits
digits_value-digits zero n h = absurd (omega arith)
digits_value-digits (suc fuel) n h = elim (Bool-cases (ltb n 10)) [
  | inl small ↦ rw small (one_digit n small)
  | inr large ↦
      let shorter : n / 10 < fuel = ground arith in
      rw large (
        digits_value-append (digits fuel (n / 10)) 0 (n / 10) (b'0' + n % 10)
          (digits_value-digits fuel (n / 10) shorter) (ground arith)
        ∙ ap some (omega arith))
]
  where
    one_digit : (n : ℕ) → ltb n 10 ≡ true → digits_value 0 ((b'0' + n) ∷ []) ≡ some n
    one_digit n small = unfold digits_value in ground arith

abbrev pub AllDigits : List ℕ → Type 0
AllDigits = All (λ c. is_digit c ≡ true)

pub digits-AllDigits : (fuel n : ℕ) → AllDigits (digits fuel n)
unfolding digits
digits-AllDigits zero n = tt
digits-AllDigits (suc fuel) n = elim (Bool-cases (ltb n 10)) [
  | inl small ↦ rw small (ground arith, tt)
  | inr large ↦ rw large (
      All-concat (λ c. is_digit c ≡ true) (digits fuel (n / 10)) (digits-AllDigits fuel (n / 10))
        (ground arith))
]

abbrev pub is_cons : List ℕ → Bool
is_cons [] = false
is_cons (c ∷ s) = true

is_cons-append : (s : List ℕ) (c : ℕ) → is_cons (s ++ c ∷ []) ≡ true
is_cons-append [] c = refl
is_cons-append (x ∷ s) c = refl

digits-is_cons : (fuel n : ℕ) → is_cons (digits (suc fuel) n) ≡ true
unfolding digits
digits-is_cons fuel n = elim (Bool-cases (ltb n 10)) [
  | inl small ↦ rw small refl
  | inr large ↦ rw large (is_cons-append (digits fuel (n / 10)) (b'0' + n % 10))
]

parse_int-digits :
    (s : List ℕ) (n : ℕ)
    → AllDigits s
    → is_cons s ≡ true
    → digits_value 0 s ≡ some n
    → parse_int s ≡ positive_int (some n)
unfolding parse_int
parse_int-digits [] n all more h = cc
parse_int-digits (c ∷ s) n (first, all) more h =
    let plus : (c == b'+') ≡ false = ground arith in
    let minus : (c == b'-') ≡ false = ground arith in rw (plus, minus, h) refl

-- ParseInt reads what is printed, below 2^63.
pub parse_int-print_nat : (n : ℕ) → n < 2 ^ 63 → parse_int (print_nat n) ≡ some (n + zero_int64)
unfolding print_nat
parse_int-print_nat n h =
    let test : ltb n (2 ^ 63) ≡ true = ground arith in
    parse_int-digits (digits (suc n) n) n (digits-AllDigits (suc n) n) (digits-is_cons n n)
      (digits_value-digits (suc n) n (omega arith))
    ∙ rw test refl

pub print_nat-AllDigits : (n : ℕ) → AllDigits (print_nat n)
unfolding print_nat
print_nat-AllDigits n = digits-AllDigits (suc n) n
