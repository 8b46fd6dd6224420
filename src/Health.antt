-- ===== src/Health.antt =====
-- client/health/health.go: the monitor that checks a local service of frpc, and reports its changes. What
-- the network answers at a check is an argument; the waiting between checks and its deadlines are left
-- out. A list of checks ends where the monitor is stopped.
pub mod Changes
pub mod Failures
use frp.Prelude.{
  ℕ, suc, ◌+◌, ◌%◌, ◌/◌, ◌^◌, String, str_eq, Bool, true, false, not, ◌&&◌, ltb, leb, ◌==◌,
  if◌then◌else◌, Option, none, some, List, [], ◌∷◌, ◌++◌, ℤ, pos,
}
use frp.Metric.Word.{mod64, add_word}

-- The fields that a check reads or changes; a callback is there or nil.
pub record Monitor : Type 0 where
  pub check_type : String
  pub interval : ℕ
  pub timeout : ℕ
  pub max_failed_times : ℕ
  pub addr : String
  pub url : String
  pub failed_times : ℕ
  pub status_ok : Bool
  pub status_normal_fn : Bool
  pub status_failed_fn : Bool

-- A call of statusNormalFn or statusFailedFn.
pub data Callback : Type 0 where
  status_normal status_failed : Callback

-- `if n <= 0 { n = instead }`
abbrev pub positive_or : ℕ → ℤ → ℕ
positive_or instead (pos (suc n)) = suc n
positive_or instead _ = instead

-- NewMonitor; durations are in seconds.
unfoldable pub new_monitor : String → ℤ → ℤ → ℤ → String → String → Bool → Bool → Monitor
new_monitor check_type interval_s timeout_s max_failed_times addr url normal_fn failed_fn = record {
  check_type = check_type;
  interval = positive_or 10 interval_s;
  timeout = positive_or 3 timeout_s;
  max_failed_times = positive_or 1 max_failed_times;
  addr = addr;
  url = url;
  failed_times = 0;
  status_ok = false;
  status_normal_fn = normal_fn;
  status_failed_fn = failed_fn;
}

-- The network at one check: whether an address accepts a connection, and the status code that a
-- request gets, if it gets any.
pub record Network : Type 0 where
  pub dial : String → Bool
  pub get : String → Option ℕ

unfoldable pub do_tcp_check : Network → Monitor → Bool
do_tcp_check n m = if str_eq m.addr "" then true else n.dial m.addr

unfoldable pub do_http_check : Network → Monitor → Bool
do_http_check n m = elim (n.get m.url) [ none ↦ false | some code ↦ code / 100 == 2 ]

-- doCheck returns no error.
unfoldable pub do_check : Network → Monitor → Bool
unfolding do_tcp_check do_http_check
do_check n m =
    if str_eq m.check_type "tcp"
    then do_tcp_check n m
    else if str_eq m.check_type "http"
    then do_http_check n m
    else false

-- `int(failedTimes) >= maxFailedTimes`, where the maximum is positive.
abbrev pub reached : ℕ → ℕ → Bool
reached failed_times max_failed_times =
    ltb failed_times (2 ^ 63) && leb max_failed_times failed_times

-- What checkWorker does with the result of a check.
unfoldable pub on_check : Bool → Monitor → Monitor × List Callback
on_check true m =
    if not m.status_ok && m.status_normal_fn
    then (record m { status_ok = true }, status_normal ∷ [])
    else (m, [])
on_check false m =
    let failed = add_word mod64 m.failed_times 1 in
    if m.status_ok && reached failed m.max_failed_times && m.status_failed_fn
    then (record m { failed_times = failed; status_ok = false }, status_failed ∷ [])
    else (record m { failed_times = failed }, [])

-- checkWorker, over the network at each check.
unfoldable pub check_worker : List Network → Monitor → Monitor × List Callback
unfolding do_check on_check
check_worker [] m = (m, [])
check_worker (n ∷ ns) m =
    let (m', called) = on_check (do_check n m) m in
    let (m'', rest) = check_worker ns m' in (m'', called ++ rest)
