-- ===== src/Health/Changes.antt =====
-- When a monitor calls its callbacks.
use frp.Prelude.{Bool, true, false, List, [], ◌∷◌, ◌++◌, Bool-cases, inl, inr, ◌&&◌}
use frp.Metric.Word.{mod64, add_word}
use frp.Health.{
  Monitor, Callback, status_normal, status_failed, Network, do_check, reached, on_check,
  check_worker,
}

-- The calls turn a status that is `ok` by turns, each call a change.
abbrev pub Alternates : Bool → List Callback → Type 0
Alternates ok [] = Unit
Alternates false (status_normal ∷ calls) = Alternates true calls
Alternates true (status_failed ∷ calls) = Alternates false calls
Alternates _ _ = ⊥

on_check-Alternates :
    (ok : Bool) (m : Monitor) (calls : List Callback)
    → Alternates (on_check ok m).0.status_ok calls
    → Alternates m.status_ok ((on_check ok m).1 ++ calls)
unfolding on_check
on_check-Alternates true m calls a = elim (Bool-cases m.status_ok) [
  | inl on ↦ rw (on, on_check) (rw (on, on_check) at a)
  | inr off ↦ elim (Bool-cases m.status_normal_fn) [
    | inl there ↦ rw (off, there, on_check) (rw (off, there, on_check) at a)
    | inr missing ↦ rw (off, missing, on_check) (rw (off, missing, on_check) at a)
  ]
]
on_check-Alternates false m calls a =
    let due = reached (add_word mod64 m.failed_times 1) m.max_failed_times && m.status_failed_fn in
    elim (Bool-cases m.status_ok) [
      | inl on ↦ elim (Bool-cases due) [
        | inl failed ↦ rw (on, failed, on_check) (rw (on, failed, on_check) at a)
        | inr kept ↦ rw (on, kept, on_check) (rw (on, kept, on_check) at a)
      ]
      | inr off ↦ rw (off, on_check) (rw (off, on_check) at a)
    ]

-- The callbacks of a monitor alternate: it calls statusNormalFn only while the service counts as failed,
-- and statusFailedFn only while it counts as normal, whatever the checks find.
pub check_worker-Alternates :
    (ns : List Network) (m : Monitor) → Alternates m.status_ok (check_worker ns m).1
unfolding check_worker
check_worker-Alternates [] m = tt
check_worker-Alternates (n ∷ ns) m =
    on_check-Alternates (do_check n m) m (check_worker ns (on_check (do_check n m) m).0).1
      (check_worker-Alternates ns (on_check (do_check n m) m).0)
