-- ===== src/Prelude/Text.antt =====
-- Texts: concatenation under another sign than that of lists, and the decimal print of a number.
use Prim.Native.Nat.{ℕ, zero, suc, ◌+◌, ◌/◌, ◌%◌}
use Prim.Native.String
use Prim.Native.String.{String}
use frp.Prelude.Tests.{ltb, if◌then◌else◌}
use frp.Prelude.Int.{ℤ, pos, negsuc}
pub use text.Mathlib.Text.{◌==◌ as str_eq}
pub use text.Mathlib.TextEquality.{eq_iff as str_eq_iff}
pub use text.Mathlib.TextPositions.{eq_refl as str_eq_refl}

infixr 65 ◌⋅◌
abbrev pub ◌⋅◌ : String → String → String
◌⋅◌ = String.◌++◌

digit : ℕ → String
digit zero = "0"
digit (suc zero) = "1"
digit (suc (suc zero)) = "2"
digit (suc (suc (suc zero))) = "3"
digit (suc (suc (suc (suc zero)))) = "4"
digit (suc (suc (suc (suc (suc zero))))) = "5"
digit (suc (suc (suc (suc (suc (suc zero)))))) = "6"
digit (suc (suc (suc (suc (suc (suc (suc zero))))))) = "7"
digit (suc (suc (suc (suc (suc (suc (suc (suc zero)))))))) = "8"
digit n = "9"

-- The fuel is above the number, so it does not run out.
show_digits : ℕ → ℕ → String
unfolding digit
show_digits zero n = ""
show_digits (suc fuel) n =
    let more = show_digits fuel (n / 10) ⋅ digit (n % 10) in if ltb n 10 then digit n else more

unfoldable pub show_ℕ : ℕ → String
unfolding show_digits
show_ℕ n = show_digits (suc n) n

-- The decimal print that JavaScript makes of an integer below 10^21.
unfoldable pub show_ℤ : ℤ → String
unfolding show_ℕ
show_ℤ (pos n) = show_ℕ n
show_ℤ (negsuc n) = "-" ⋅ show_ℕ (n + 1)
