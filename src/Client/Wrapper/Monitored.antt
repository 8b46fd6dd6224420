-- ===== src/Client/Wrapper/Monitored.antt =====
-- A proxy of frpc and the monitor that reports to it.
use frp.Prelude.{ℕ, ◌≡◌, refl, Bool, true, false, List, [], ◌∷◌, ◌++◌, arith, if◌then◌else◌}
use frp.Health.{Monitor, Callback, Network, do_check, on_check, check_worker}
use frp.Client.Wrapper.{Wrapper, on_status}

-- The wrapper after the callbacks, in order.
unfoldable pub on_statuses : List Callback → Wrapper → Wrapper
unfolding on_status
on_statuses [] w = w
on_statuses (c ∷ cs) w = on_statuses cs (on_status c w)

-- `health` is 0 for a service that is normal.
abbrev pub health_of : Bool → ℕ
health_of ok = if ok then 0 else 1

on_statuses-append :
    (cs ds : List Callback) (w : Wrapper)
    → on_statuses (cs ++ ds) w ≡ on_statuses ds (on_statuses cs w)
unfolding on_statuses
on_statuses-append [] ds w = refl
on_statuses-append (c ∷ cs) ds w = on_statuses-append cs ds (on_status c w)

on_check-health :
    (ok : Bool) (m : Monitor) (w : Wrapper)
    → w.health ≡ health_of m.status_ok
    → (on_statuses (on_check ok m).1 w).health ≡ health_of (on_check ok m).0.status_ok
unfolding on_check on_statuses on_status
on_check-health true m w h = ground arith
on_check-health false m w h = ground arith

-- After any checks of a monitor whose callbacks reach the proxy in order, the proxy counts as healthy
-- exactly if the monitor's status is normal, if that was so before.
pub check_worker-health :
    (ns : List Network) (m : Monitor) (w : Wrapper)
    → w.health ≡ health_of m.status_ok
    → (on_statuses (check_worker ns m).1 w).health ≡ health_of (check_worker ns m).0.status_ok
unfolding check_worker
check_worker-health [] m w h = unfold on_statuses in h
check_worker-health (n ∷ ns) m w h =
    let first = on_check (do_check n m) m in
    rw (on_statuses-append first.1 (check_worker ns first.0).1 w) (
      check_worker-health ns first.0 (on_statuses first.1 w) (on_check-health (do_check n m) m w h))
