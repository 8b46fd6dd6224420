-- ===== src/Web/Overview/Laws.antt =====
-- The overview page shows the reply.
use frp.Prelude.{ℤ, ◌+ℤ◌, +ℤ-zero, some, Option-cases, inl, inr, ◌≡◌, refl, sym, String}
use frp.Web.Chart.{TypeCounts, count_of, proxy_slices}
use frp.Web.Chart.Pies.{total, value_of, total-push_slice}
use frp.Web.Overview.{add_count, proxy_count}

add_count-value_of :
    (counts : TypeCounts) (key : String) (sum : ℤ)
    → add_count counts key sum ≡ sum +ℤ value_of (count_of key counts)
unfolding add_count
add_count-value_of counts key sum = elim (Option-cases (count_of key counts)) [
  | inl missing ↦ rw (missing, add_count) (sym (+ℤ-zero sum))
  | inr (n, found) ↦ rw (found, add_count) refl
]

-- The number under "Proxy Counts" is the sum of the slices of the chart beside it: the slices that
-- are left out are worth nothing.
pub total-proxy_slices :
    (counts : TypeCounts) → total (proxy_slices counts) ≡ proxy_count (some counts)
unfolding proxy_slices proxy_count total add_count
total-proxy_slices counts = simp (total-push_slice, add_count-value_of) refl
