-- ===== src/Ranges/Print.antt =====
-- What is printed as a list of ports is read back.
use frp.Prelude.{
  ℕ, ◌+◌, ◌-◌, ◌^◌, ◌≤◌, ◌<◌, ◌≡◌, refl, ap, ◌∙◌, true, false, ltb, ◌==◌, none, some, List, [], ◌∷◌,
  ◌++◌, arith, All-append, All-mono,
}
use frp.Ranges.{
  zero_int64, max_int64, is_space, is_digit, trim_space, split, parse_int, endless, range_loop,
  parse_part, parse_parts, parse_range_numbers,
}
use frp.Ranges.Loop.{count_up, range_loop-max_int64}
use frp.Ranges.Digits.{AllDigits, print_nat, print_nat-AllDigits, parse_int-print_nat}
use frp.Ranges.Pieces.{Lacks, NoSpace, split-Lacks, split-append, trim_space-NoSpace}

-- A port, or the ports from one to another.
pub data Item : Type 0 where
  single : ℕ → Item
  range : ℕ → ℕ → Item

abbrev pub print_item : Item → List ℕ
print_item (single n) = print_nat n
print_item (range lo hi) = print_nat lo ++ b'-' ∷ print_nat hi

-- Items with commas between them.
abbrev pub print_items : Item → List Item → List ℕ
print_items i [] = print_item i
print_items i (j ∷ js) = print_item i ++ b',' ∷ print_items j js

abbrev pub item_numbers : Item → List ℕ
item_numbers (single n) = (n + zero_int64) ∷ []
item_numbers (range lo hi) = count_up (hi + 1 - lo) (lo + zero_int64)

abbrev pub all_numbers : Item → List Item → List ℕ
all_numbers i [] = item_numbers i
all_numbers i (j ∷ js) = item_numbers i ++ all_numbers j js

-- The fuel is above the length of the item.
abbrev pub Fits : ℕ → Item → Type 0
Fits fuel (single n) = n < 2 ^ 63
Fits fuel (range lo hi) = (lo ≤ hi) × (hi + 1 < 2 ^ 63) × (hi + 1 - lo < fuel)

pub digits-Lacks : (sep : ℕ) (s : List ℕ) → is_digit sep ≡ false → AllDigits s → Lacks sep s
digits-Lacks sep s other =
    All-mono (λ c. is_digit c ≡ true) (λ c. (c == sep) ≡ false) s (λ c h. ground arith)

digits-NoSpace : (s : List ℕ) → AllDigits s → NoSpace s
digits-NoSpace s =
    All-mono (λ c. is_digit c ≡ true) (λ c. is_space c ≡ false) s (λ c h. ground arith)

nat-Lacks_dash : (n : ℕ) → Lacks b'-' (print_nat n)
nat-Lacks_dash n = digits-Lacks b'-' (print_nat n) refl (print_nat-AllDigits n)

nat-Lacks_comma : (n : ℕ) → Lacks b',' (print_nat n)
nat-Lacks_comma n = digits-Lacks b',' (print_nat n) refl (print_nat-AllDigits n)

nat-NoSpace : (n : ℕ) → NoSpace (print_nat n)
nat-NoSpace n = digits-NoSpace (print_nat n) (print_nat-AllDigits n)

item-Lacks_comma : (i : Item) → Lacks b',' (print_item i)
item-Lacks_comma (single n) = nat-Lacks_comma n
item-Lacks_comma (range lo hi) =
    All-append (λ c. (c == b',') ≡ false) (print_nat lo) (b'-' ∷ print_nat hi) (nat-Lacks_comma lo)
      (refl, nat-Lacks_comma hi)

item-NoSpace : (i : Item) → NoSpace (print_item i)
item-NoSpace (single n) = nat-NoSpace n
item-NoSpace (range lo hi) =
    All-append (λ c. is_space c ≡ false) (print_nat lo) (b'-' ∷ print_nat hi) (nat-NoSpace lo)
      (refl, nat-NoSpace hi)

-- A printed number with the spaces trimmed is read.
trimmed_nat : (n : ℕ) → n < 2 ^ 63 → parse_int (trim_space (print_nat n)) ≡ some (n + zero_int64)
trimmed_nat n h = rw (trim_space-NoSpace (print_nat n) (nat-NoSpace n)) (parse_int-print_nat n h)

endless_part :
    (fuel lo hi : ℕ)
    → lo < 2 ^ 63
    → hi + 1 ≡ 2 ^ 63
    → parse_part fuel [] (split b'-' (print_item (range lo hi))) ≡ endless
endless_part fuel lo hi h last =
    let parts =
      split-append b'-' (print_nat lo) (print_nat hi) (nat-Lacks_dash lo)
      ∙ ap (λ ps. print_nat lo ∷ ps) (split-Lacks b'-' (print_nat hi) (nat-Lacks_dash hi)) in
    let test : ltb (hi + zero_int64) (lo + zero_int64) ≡ false = ground arith in
    let greatest : hi + zero_int64 ≡ max_int64 = omega arith in
    let loops : range_loop fuel (lo + zero_int64) (hi + zero_int64) ≡ none =
      rw greatest (range_loop-max_int64 fuel (lo + zero_int64) (omega arith)) in
    rw (parts, trimmed_nat lo h, trimmed_nat hi (omega arith), test, loops) refl

-- A range that ends at the greatest int64 is never read: whatever the fuel, the loop does not end.
pub parse_range_numbers-endless :
    (fuel lo hi : ℕ)
    → lo < 2 ^ 63
    → hi + 1 ≡ 2 ^ 63
    → parse_range_numbers fuel (print_item (range lo hi)) ≡ endless
unfolding parse_range_numbers
parse_range_numbers-endless fuel lo hi h last =
    let whole = trim_space-NoSpace (print_item (range lo hi)) (item-NoSpace (range lo hi)) in
    let one = split-Lacks b',' (print_item (range lo hi)) (item-Lacks_comma (range lo hi)) in
    rw (whole, one) (rw (endless_part fuel lo hi h last, parse_parts) refl)
