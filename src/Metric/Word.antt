-- ===== src/Metric/Word.antt =====
-- Go's int32 and int64 as bit patterns below the modulus, with the integer that a pattern stands for.
use frp.Prelude.{ℕ, ◌+◌, ◌-◌, ◌*◌, ◌%◌, ◌^◌, ltb, if◌then◌else◌, ℤ, pos, negsuc}

abbrev pub mod32 : ℕ
mod32 = 2 ^ 32

abbrev pub mod64 : ℕ
mod64 = 2 ^ 64

-- a + b and a - b, wrapped around at the modulus `m`, for patterns below it.
abbrev pub add_word : ℕ → ℕ → ℕ → ℕ
add_word m a b = (a + b) % m

abbrev pub sub_word : ℕ → ℕ → ℕ → ℕ
sub_word m a b = (a + m - b) % m

-- The integer of a pattern of the signed type with the modulus `m`.
unfoldable pub signed : ℕ → ℕ → ℤ
signed m a = if ltb (2 * a) m then pos a else negsuc (m - a - 1)
