-- ===== src/Client/Wrapper.antt =====
-- Wrapper of client/proxy/proxy_wrapper.go: the lifecycle of one proxy of frpc, which is told to frps by
-- NewProxy and CloseProxy messages. A method returns the messages that it sends. Whether the underlying
-- proxy runs is an argument. Times are in seconds. The mutex makes each method, and each round of
-- checkWorker, one step; the waiting between rounds is left out.
pub mod Messages
pub mod Starts
pub mod Monitored
use frp.Prelude.{
  ℕ, ◌+◌, ◌≡◌, String, str_eq, Bool, true, false, not, ◌&&◌, ◌||◌, ltb, ◌==◌, if◌then◌else◌, Option,
  none, some, List, [], ◌∷◌, ◌++◌,
}
use frp.Health.{Callback, status_normal, status_failed}

pub data Phase : Type 0 where
  new wait_start start_err running check_failed closed : Phase

abbrev pub is_phase : Phase → Phase → Bool
is_phase new new = true
is_phase wait_start wait_start = true
is_phase start_err start_err = true
is_phase running running = true
is_phase check_failed check_failed = true
is_phase closed closed = true
is_phase _ _ = false

-- A message to the handler of events, for the name of the proxy.
pub data Message : Type 0 where
  new_proxy close_proxy : Message

pub record Wrapper : Type 0 where
  pub name : String
  pub phase : Phase
  pub err : String
  pub remote_addr : String
  pub monitored : Bool
  pub health : ℕ
  pub last_send_start_msg : ℕ
  pub last_start_err : ℕ

abbrev pub wait_response_timeout : ℕ
wait_response_timeout = 20

abbrev pub start_err_timeout : ℕ
start_err_timeout = 30

abbrev pub status_check_interval : ℕ
status_check_interval = 3

-- NewWrapper: with a health check the proxy counts as failed at first.
unfoldable pub new_wrapper : String → String → Wrapper
new_wrapper name health_check_type =
    let monitored = not (str_eq health_check_type "") in
    record {
      name = name;
      phase = new;
      err = "";
      remote_addr = "";
      monitored = monitored;
      health = if monitored then 1 else 0;
      last_send_start_msg = 0;
      last_start_err = 0;
    }

-- What SetRunningStatus returns.
pub data StatusError : Type 0 where
  not_wait_start : StatusError
  start_failed : String → StatusError

-- SetRunningStatus at the time `now`; `run` is the error of the underlying proxy's Run, if any.
unfoldable pub set_running_status :
    ℕ → String → String → Option String → Wrapper → Wrapper × List Message × Option StatusError
set_running_status now remote_addr resp_err run w =
    if not (is_phase w.phase wait_start)
    then (w, [], some not_wait_start)
    else if not (str_eq resp_err "")
    then (
      record w {
        remote_addr = remote_addr;
        phase = start_err;
        err = resp_err;
        last_start_err = now;
      },
      [],
      some (start_failed resp_err),
    )
    else elim run [
      | some e ↦ (
        record w { remote_addr = remote_addr; phase = start_err; err = e; last_start_err = now },
        close_proxy ∷ [],
        some (start_failed e),
      )
      | none ↦ (record w { remote_addr = remote_addr; phase = running; err = "" }, [], none)
    ]

-- Stop, which runs once.
unfoldable pub stop : Wrapper → Wrapper × List Message
stop w = (record w { phase = closed }, close_proxy ∷ [])

-- The phases in which a healthy proxy asks for its start.
unfoldable pub is_due : ℕ → Wrapper → Bool
is_due now w =
    is_phase w.phase new
    || is_phase w.phase check_failed
    || (is_phase w.phase wait_start && ltb (w.last_send_start_msg + wait_response_timeout) now)
    || (is_phase w.phase start_err && ltb (w.last_start_err + start_err_timeout) now)

-- One round of checkWorker.
unfoldable pub check_round : ℕ → Wrapper → Wrapper × List Message
unfolding is_due
check_round now w =
    if w.health == 0
    then (if is_due now w
        then (record w { phase = wait_start; last_send_start_msg = now }, new_proxy ∷ [])
        else (w, []))
    else if is_phase w.phase running || is_phase w.phase wait_start
    then (record w { phase = check_failed }, close_proxy ∷ [])
    else (w, [])

-- statusNormalCallback and statusFailedCallback
unfoldable pub on_status : Callback → Wrapper → Wrapper
on_status status_normal w = record w { health = 0 }
on_status status_failed w = record w { health = 1 }

-- InWorkConn: the connection is passed to the proxy, or closed.
unfoldable pub takes_work_conn : Wrapper → Bool
takes_work_conn w = is_phase w.phase running
