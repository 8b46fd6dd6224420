-- ===== src/Version/Order.antt =====
-- Printed versions are compared by their numbers.
use frp.Prelude.{
  ℕ, ◌^◌, ◌<◌, ◌≡◌, refl, ap, ◌∙◌, Bool, false, not, ◌&&◌, ◌||◌, ltb, ◌==◌, List, [], ◌∷◌, ◌++◌,
  arith, ◌+◌,
}
use frp.Ranges.{zero_int64, split}
use frp.Ranges.Digits.{digits, print_nat, parse_int-print_nat, print_nat-AllDigits}
use frp.Ranges.Pieces.{Lacks, split-Lacks, split-append}
use frp.Ranges.Print.{digits-Lacks}
use frp.Version.{
  oldest, part_at, compare_then, int_value, get_sub_version, proto, major, minor, less_than, compat,
}

pub record Numbers : Type 0 where
  pub first : ℕ
  pub second : ℕ
  pub third : ℕ

abbrev pub print_version : Numbers → List ℕ
print_version v = print_nat v.first ++ b'.' ∷ (print_nat v.second ++ b'.' ∷ print_nat v.third)

abbrev pub IsInt64 : Numbers → Type 0
IsInt64 v = (v.first < 2 ^ 63) × (v.second < 2 ^ 63) × (v.third < 2 ^ 63)

-- The order of versions, by the first number that differs.
abbrev pub is_older : Numbers → Numbers → Bool
is_older v w =
    ltb v.first w.first
    || (v.first == w.first
        && (ltb v.second w.second || (v.second == w.second && ltb v.third w.third)))

nat-Lacks_dot : (n : ℕ) → Lacks b'.' (print_nat n)
nat-Lacks_dot n = digits-Lacks b'.' (print_nat n) refl (print_nat-AllDigits n)

split-print_version :
    (v : Numbers)
    → split b'.' (print_version v) ≡ print_nat v.first ∷ print_nat v.second ∷ print_nat v.third ∷ []
split-print_version v =
    split-append b'.' (print_nat v.first) (print_nat v.second ++ b'.' ∷ print_nat v.third)
      (nat-Lacks_dot v.first)
    ∙ ap (λ rest. print_nat v.first ∷ rest)
        (split-append b'.' (print_nat v.second) (print_nat v.third) (nat-Lacks_dot v.second)
          ∙ ap (λ rest. print_nat v.second ∷ rest)
              (split-Lacks b'.' (print_nat v.third) (nat-Lacks_dot v.third)))

int_value-print_nat : (n : ℕ) → n < 2 ^ 63 → int_value (print_nat n) ≡ n + zero_int64
unfolding int_value
int_value-print_nat n h = rw (parse_int-print_nat n h, int_value) refl

get_sub_version-split :
    (v a b c : List ℕ) (position : ℕ)
    → split b'.' v ≡ a ∷ b ∷ c ∷ []
    → get_sub_version v position ≡ int_value (part_at position (a ∷ b ∷ c ∷ []))
unfolding get_sub_version
get_sub_version-split v a b c position h = rw (h, get_sub_version) refl

-- The three numbers of a printed version are read back.
parts-print_version :
    (v : Numbers)
    → IsInt64 v
    → (proto (print_version v) ≡ v.first + zero_int64)
      × (major (print_version v) ≡ v.second + zero_int64)
      × (minor (print_version v) ≡ v.third + zero_int64)
unfolding proto major minor
parts-print_version v (a, b, c) =
    let at = λ (position : ℕ).
      get_sub_version-split (print_version v) (print_nat v.first) (print_nat v.second)
        (print_nat v.third) position (split-print_version v) in
    (
      at 0 ∙ int_value-print_nat v.first a,
      at 1 ∙ int_value-print_nat v.second b,
      at 2 ∙ int_value-print_nat v.third c,
    )

compare_then-shift :
    (vc vs : ℕ) (rest : Bool)
    → compare_then (vc + zero_int64) (vs + zero_int64) rest ≡ (ltb vc vs || (vc == vs && rest))
compare_then-shift vc vs rest = ground arith

last_then : (vc vs : ℕ) → (ltb vc vs || (vc == vs && false)) ≡ ltb vc vs
last_then vc vs = ground arith

-- LessThan compares two printed versions by the first number that differs, if their numbers are below 2^63.
pub less_than-print_version :
    (v w : Numbers)
    → IsInt64 v
    → IsInt64 w
    → less_than (print_version v) (print_version w) ≡ is_older v w
unfolding less_than
less_than-print_version v w hv hw =
    let (v1, v2, v3) = parts-print_version v hv in
    let (w1, w2, w3) = parts-print_version w hw in
    rw
      (
        v1,
        v2,
        v3,
        w1,
        w2,
        w3,
        compare_then-shift v.first w.first,
        compare_then-shift v.second w.second,
        compare_then-shift v.third w.third,
        last_then v.third w.third,
      )
      refl

oldest_printed : oldest ≡ print_version (record { first = 0; second = 18; third = 0 })
unfolding print_nat digits
oldest_printed = refl

-- The test on the version of a client that logs in accepts a printed version exactly if it is not older
-- than 0.18.0, if its numbers are below 2^63.
pub compat-print_version :
    (v : Numbers)
    → IsInt64 v
    → compat (print_version v) ≡ not (is_older v (record { first = 0; second = 18; third = 0 }))
unfolding compat
compat-print_version v h = rw oldest_printed (
    ap not (
      less_than-print_version v (record { first = 0; second = 18; third = 0 }) h
        (omega arith, omega arith, omega arith)))
