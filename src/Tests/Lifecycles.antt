-- ===== src/Tests/Lifecycles.antt =====
-- A proxy of frpc from its start to its end.
use frp.Prelude.{◌≡◌, refl, true, false, none, some, List, [], ◌∷◌, pos, arith}
use frp.Health.{Monitor, Network, new_monitor, check_worker}
use frp.Client.Wrapper.{
  wait_start, start_err, running, closed, close_proxy, Wrapper, new_wrapper, set_running_status,
  stop, check_round, on_status,
}
use frp.Client.Wrapper.Messages.{
  Agrees, Event, answered, checked, notified, run, run-Agrees, run-closed,
}
use frp.Client.Wrapper.Starts.{rounds, rounds-running}
use frp.Client.Wrapper.Monitored.{health_of, on_statuses, check_worker-health}
use frp.Health.{status_normal, status_failed}

abbrev ssh : Wrapper
ssh = new_wrapper "ssh" ""

-- Started, failed by its health check, started again and refused.
abbrev events : List Event
events =
    checked 100
    ∷ answered 101 ":6000" "" none
    ∷ notified status_failed
    ∷ checked 103
    ∷ notified status_normal
    ∷ checked 106
    ∷ answered 107 "" "port already used" none
    ∷ checked 109
    ∷ checked 140
    ∷ []

waits_again : (run events ssh none).0.phase ≡ wait_start
unfolding run new_wrapper set_running_status check_round on_status
waits_again = refl

run-Agrees_example : Agrees (run events ssh none).0.phase (run events ssh none).1
unfolding new_wrapper
run-Agrees_example =
    run-Agrees events ssh none
      (record { announced = λ e. cc; withdrawn = λ e. cc; unnamed = λ e. refl })

abbrev late : List Event
late = answered 120 ":6000" "" none ∷ checked 121 ∷ notified status_normal ∷ checked 200 ∷ []

run-closed_example :
    ((run late (stop ssh).0 (some close_proxy)).0.phase ≡ closed)
    × ((run late (stop ssh).0 (some close_proxy)).1 ≡ some close_proxy)
unfolding stop
run-closed_example = run-closed late (stop ssh).0 (some close_proxy) refl (tt, (tt, (tt, (tt, tt))))

rounds-running_example :
    (rounds 12 200 ":6000" (record ssh { phase = start_err; last_start_err = 199 })).phase ≡ running
unfolding new_wrapper
rounds-running_example =
    rounds-running 200 ":6000" (record ssh { phase = start_err; last_start_err = 199 }) refl
      (λ e. cc) (omega arith) (omega arith)

abbrev monitor : Monitor
monitor = new_monitor "tcp" (pos 10) (pos 3) (pos 1) "127.0.0.1:22" "" true true

abbrev up : Network
up = record { dial = λ addr. true; get = λ url. none }

abbrev down : Network
down = record { dial = λ addr. false; get = λ url. none }

check_worker-health_example :
    (on_statuses (check_worker (up ∷ down ∷ []) monitor).1 (new_wrapper "ssh" "tcp")).health
    ≡ health_of (check_worker (up ∷ down ∷ []) monitor).0.status_ok
unfolding new_monitor new_wrapper
check_worker-health_example =
    check_worker-health (up ∷ down ∷ []) monitor (new_wrapper "ssh" "tcp") refl
