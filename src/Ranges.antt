-- ===== src/Ranges.antt =====
-- ParseRangeNumbers of pkg/util/util/util.go, which reads the ports that frps allows and the port lists of
-- frpc. A text is its bytes, of ASCII. An int64 is given by its distance from the least one, so that its
-- order is that of ℕ: n stands at n + 2^63. The loop over a range has fuel; Ranges/Loop says when it ends.
pub mod Loop
pub mod Digits
pub mod Pieces
pub mod Print
use frp.Prelude.{
  ℕ, zero, suc, ◌+◌, ◌-◌, ◌*◌, ◌%◌, ◌^◌, Bool, true, false, ◌&&◌, ◌||◌, leb, ltb, ◌==◌,
  if◌then◌else◌, Option, none, some, List, [], ◌∷◌, ◌++◌, reverse,
}

abbrev pub zero_int64 : ℕ
zero_int64 = 2 ^ 63

abbrev pub max_int64 : ℕ
max_int64 = 2 ^ 64 - 1

-- The white space of ASCII.
abbrev pub is_space : ℕ → Bool
is_space c = (leb 9 c && leb c 13) || c == 32

abbrev pub trim_left : List ℕ → List ℕ
trim_left [] = []
trim_left (c ∷ s) = if is_space c then trim_left s else c ∷ s

-- strings.TrimSpace
unfoldable pub trim_space : List ℕ → List ℕ
trim_space s = reverse (trim_left (reverse (trim_left s)))

abbrev pub cons_first : ℕ → List (List ℕ) → List (List ℕ)
cons_first c [] = (c ∷ []) ∷ []
cons_first c (part ∷ parts) = (c ∷ part) ∷ parts

-- strings.Split, by one byte
unfoldable pub split : ℕ → List ℕ → List (List ℕ)
split sep [] = [] ∷ []
split sep (c ∷ s) = let parts = split sep s in if c == sep then [] ∷ parts else cons_first c parts

abbrev pub is_digit : ℕ → Bool
is_digit c = leb b'0' c && leb c b'9'

-- The number of some digits after others that give `n`.
unfoldable pub digits_value : ℕ → List ℕ → Option ℕ
digits_value n [] = some n
digits_value n (c ∷ s) =
    let rest = digits_value (n * 10 + (c - b'0')) s in if is_digit c then rest else none

abbrev pub unsigned_value : List ℕ → Option ℕ
unsigned_value [] = none
unsigned_value (c ∷ s) = digits_value 0 (c ∷ s)

abbrev pub positive_int : Option ℕ → Option ℕ
positive_int none = none
positive_int (some n) = if ltb n (2 ^ 63) then some (n + zero_int64) else none

abbrev pub negative_int : Option ℕ → Option ℕ
negative_int none = none
negative_int (some n) = if leb n (2 ^ 63) then some (zero_int64 - n) else none

-- strconv.ParseInt(s, 10, 64); `none` is an error.
unfoldable pub parse_int : List ℕ → Option ℕ
unfolding digits_value
parse_int [] = none
parse_int (c ∷ s) =
    if c == b'+'
    then positive_int (unsigned_value s)
    else if c == b'-'
    then negative_int (unsigned_value s)
    else positive_int (unsigned_value (c ∷ s))

-- The numbers, or those up to an error, or a loop whose fuel runs out.
pub data RangeResult : Type 0 where
  numbers invalid : List ℕ → RangeResult
  endless : RangeResult

abbrev pub cons_some : ℕ → Option (List ℕ) → Option (List ℕ)
cons_some i none = none
cons_some i (some l) = some (i ∷ l)

-- `for i := min; i <= max; i++ { numbers = append(numbers, i) }`
unfoldable pub range_loop : ℕ → ℕ → ℕ → Option (List ℕ)
range_loop zero i max = none
range_loop (suc fuel) i max =
    let rest = range_loop fuel ((i + 1) % 2 ^ 64) max in
    if leb i max then cons_some i rest else some []

abbrev pub loop_result : List ℕ → Option (List ℕ) → RangeResult
loop_result so_far none = endless
loop_result so_far (some l) = numbers (so_far ++ l)

abbrev pub range_numbers : ℕ → List ℕ → Option ℕ → Option ℕ → RangeResult
range_numbers fuel so_far none max = invalid so_far
range_numbers fuel so_far (some min) none = invalid so_far
range_numbers fuel so_far (some min) (some max) =
    if ltb max min then invalid so_far else loop_result so_far (range_loop fuel min max)

abbrev pub single_number : List ℕ → Option ℕ → RangeResult
single_number so_far none = invalid so_far
single_number so_far (some n) = numbers (so_far ++ n ∷ [])

-- One part between the commas, by the parts between its dashes.
abbrev pub parse_part : ℕ → List ℕ → List (List ℕ) → RangeResult
parse_part fuel so_far [] = invalid so_far
parse_part fuel so_far (a ∷ []) = single_number so_far (parse_int (trim_space a))
parse_part fuel so_far (a ∷ b ∷ []) =
    range_numbers fuel so_far (parse_int (trim_space a)) (parse_int (trim_space b))
parse_part fuel so_far (a ∷ b ∷ c ∷ rest) = invalid so_far

unfoldable pub parse_parts : ℕ → List ℕ → List (List ℕ) → RangeResult
unfolding split trim_space parse_int range_loop
parse_parts fuel so_far [] = numbers so_far
parse_parts fuel so_far (part ∷ parts) = elim (parse_part fuel so_far (split b'-' part)) [
  | numbers l ↦ parse_parts fuel l parts
  | invalid l ↦ invalid l
  | endless ↦ endless
]

-- ParseRangeNumbers
unfoldable pub parse_range_numbers : ℕ → List ℕ → RangeResult
unfolding parse_parts split trim_space
parse_range_numbers fuel range_str = parse_parts fuel [] (split b',' (trim_space range_str))
