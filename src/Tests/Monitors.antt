-- ===== src/Tests/Monitors.antt =====
-- A monitor of a local service, with a maximum of two failed checks.
use frp.Prelude.{◌≡◌, refl, true, false, [], ◌∷◌, ◌++◌, some, none, pos, arith}
use frp.Health.{Monitor, Network, status_normal, status_failed, new_monitor, do_check, check_worker}
use frp.Health.Changes.{Alternates, check_worker-Alternates}
use frp.Health.Failures.{status_ok-check_worker}

abbrev up : Network
up = record { dial = λ addr. true; get = λ url. some 200 }

abbrev down : Network
down = record { dial = λ addr. false; get = λ url. none }

abbrev monitor : Monitor
monitor = new_monitor "tcp" (pos 10) (pos 3) (pos 2) "127.0.0.1:80" "" true true

-- The two failures are not consecutive.
failed_after_success :
    (check_worker (up ∷ down ∷ up ∷ down ∷ up ∷ []) monitor).1
    ≡ status_normal ∷ status_failed ∷ status_normal ∷ []
unfolding check_worker new_monitor
failed_after_success = refl

check_worker-Alternates_example :
    Alternates false (check_worker (up ∷ down ∷ up ∷ down ∷ []) monitor).1
unfolding new_monitor
check_worker-Alternates_example = check_worker-Alternates (up ∷ down ∷ up ∷ down ∷ []) monitor

status_ok-check_worker_example :
    (check_worker ((up ∷ down ∷ up ∷ []) ++ down ∷ []) monitor).0.status_ok ≡ do_check down monitor
unfolding new_monitor do_check
status_ok-check_worker_example =
    status_ok-check_worker (up ∷ down ∷ up ∷ []) down monitor refl refl (omega arith) (omega arith)
