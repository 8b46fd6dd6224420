-- ===== src/Version.antt =====
-- pkg/util/version/version.go: the test of a client's version by frps. Texts and int64 numbers are as in
-- Ranges.
pub mod Order
use frp.Prelude.{
  ℕ, ◌+◌, ◌-◌, ◌*◌, ◌^◌, Bool, true, false, not, ◌||◌, leb, ltb, ◌==◌, if◌then◌else◌, is_some, none,
  some, List, [], ◌∷◌,
}
use frp.Ranges.{zero_int64, max_int64, is_digit, split, unsigned_value, parse_int}

-- Version "0.18.0", the oldest that is accepted.
abbrev pub oldest : List ℕ
oldest = b'0' ∷ b'.' ∷ b'1' ∷ b'8' ∷ b'.' ∷ b'0' ∷ []

-- ParseUint passes the greatest uint64 before it meets a byte that is no digit.
unfoldable pub overflows : ℕ → List ℕ → Bool
overflows n [] = false
overflows n (c ∷ s) =
    let m = n * 10 + (c - b'0') in
    let rest = overflows m s in if is_digit c then leb (2 ^ 64) m || rest else false

-- What ParseInt returns beside an error: the limit that the number passes, or 0.
abbrev pub limit_or_zero : ℕ → List ℕ → ℕ
limit_or_zero limit s = if overflows 0 s || is_some (unsigned_value s) then limit else zero_int64

abbrev pub error_value : List ℕ → ℕ
error_value [] = zero_int64
error_value (c ∷ s) =
    if c == b'+'
    then limit_or_zero max_int64 s
    else if c == b'-'
    then limit_or_zero 0 s
    else limit_or_zero max_int64 (c ∷ s)

-- `res, _ := strconv.ParseInt(s, 10, 64)`
unfoldable pub int_value : List ℕ → ℕ
unfolding overflows
int_value s = elim (parse_int s) [ none ↦ error_value s | some n ↦ n ]

-- arr[position], where the array is long enough.
abbrev pub part_at : ℕ → List (List ℕ) → List ℕ
part_at position [] = []
part_at position (part ∷ parts) = if position == 0 then part else part_at (position - 1) parts

-- getSubVersion
unfoldable pub get_sub_version : List ℕ → ℕ → ℕ
unfolding int_value
get_sub_version v position = elim (split b'.' v) [
  | [] ↦ zero_int64
  | ◌∷◌ first parts ↦ elim parts [
    | [] ↦ zero_int64
    | ◌∷◌ second others ↦ elim others [
      | [] ↦ zero_int64
      | ◌∷◌ third rest ↦ int_value (part_at position (first ∷ second ∷ third ∷ rest))
    ]
  ]
]

-- Proto, Major and Minor
unfoldable pub proto : List ℕ → ℕ
unfolding get_sub_version
proto v = get_sub_version v 0

unfoldable pub major : List ℕ → ℕ
unfolding get_sub_version
major v = get_sub_version v 1

unfoldable pub minor : List ℕ → ℕ
unfolding get_sub_version
minor v = get_sub_version v 2

-- One comparison of LessThan, with what follows if the numbers are equal.
abbrev pub compare_then : ℕ → ℕ → Bool → Bool
compare_then vc vs rest = if ltb vs vc then false else if ltb vc vs then true else rest

-- LessThan
unfoldable pub less_than : List ℕ → List ℕ → Bool
unfolding proto major minor
less_than client server =
    compare_then (proto client) (proto server) (
      compare_then (major client) (major server) (compare_then (minor client) (minor server) false))

-- Compat, without its message.
unfoldable pub compat : List ℕ → Bool
unfolding less_than
compat client = not (less_than client oldest)
