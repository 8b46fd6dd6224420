-- ===== src/Web/Chart/Pies.antt =====
-- The slices of the proxy chart.
use frp.Prelude.{
  is_zero, ℤ, pos, ◌+ℤ◌, ◌∙◌, sym, ap, +ℤ-zero, zero-+ℤ, +ℤ_assoc, eq_of_is_zero, Bool-cases, List,
  [], ◌∷◌, ◌++◌, Option, none, some, Option-cases, inl, inr, ◌≡◌, String,
}
use frp.Web.Chart.{Slice, TypeCounts, count_of, push_slice}

unfoldable pub total : List Slice → ℤ
total [] = pos 0
total (s ∷ slices) = s.value +ℤ total slices

pub total-append :
    (slices : List Slice) (s : Slice) → total (slices ++ s ∷ []) ≡ total slices +ℤ s.value
unfolding total
total-append [] s = +ℤ-zero s.value ∙ sym (zero-+ℤ s.value)
total-append (t ∷ slices) s =
    ap (λ z. t.value +ℤ z) (total-append slices s) ∙ sym (+ℤ_assoc t.value (total slices) s.value)

-- The value that a slice stands for, a missing count being nothing.
abbrev pub value_of : Option ℤ → ℤ
value_of none = pos 0
value_of (some n) = n

pub total-push_slice :
    (counts : TypeCounts) (key label : String) (slices : List Slice)
    → total (push_slice counts key label slices) ≡ total slices +ℤ value_of (count_of key counts)
unfolding push_slice
total-push_slice counts key label slices = elim (Option-cases (count_of key counts)) [
  | inl missing ↦ rw (missing, push_slice) (sym (+ℤ-zero (total slices)))
  | inr (n, found) ↦ elim (Bool-cases (is_zero n)) [
    | inl nothing ↦
        rw (found, push_slice, nothing, eq_of_is_zero n nothing) (sym (+ℤ-zero (total slices)))
    | inr some_left ↦
        rw (found, push_slice, some_left) (total-append slices (record { value = n; name = label }))
  ]
]
