-- ===== src/Tests/Versions.antt =====
-- Versions that frps accepts, and some that it does not.
use frp.Prelude.{◌++◌, replicate, ◌≡◌, refl, true, false, [], ◌∷◌, arith}
use frp.Ranges.{split, parse_int, max_int64, zero_int64}
use frp.Version.{int_value, compat}
use frp.Version.Order.{print_version, compat-print_version}

-- 0.9.0 is refused, as version_test.go says.
compat-print_version_example :
    compat (print_version (record { first = 0; second = 9; third = 0 })) ≡ false
compat-print_version_example =
    compat-print_version (record { first = 0; second = 9; third = 0 })
      (omega arith, omega arith, omega arith)

-- 10.0.0 is accepted.
ten : compat (b'1' ∷ b'0' ∷ b'.' ∷ b'0' ∷ b'.' ∷ b'0' ∷ []) ≡ true
unfolding compat split parse_int
ten = refl

-- A text of two parts counts as 0.0.0.
two_parts : compat (b'1' ∷ b'.' ∷ b'2' ∷ []) ≡ false
unfolding compat split parse_int
two_parts = refl

-- A part that is no number counts as 0.
letter : int_value (b'a' ∷ []) ≡ zero_int64
unfolding int_value parse_int
letter = refl

-- 99999999999999999999 counts as the greatest int64, also with a letter after it.
too_great : int_value (replicate 20 b'9' ++ b'a' ∷ []) ≡ max_int64
unfolding int_value parse_int
too_great = refl

-- The letter comes before the overflow.
letter_first : int_value (b'9' ∷ b'a' ∷ replicate 20 b'9') ≡ zero_int64
unfolding int_value parse_int
letter_first = refl
