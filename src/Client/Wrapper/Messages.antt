-- ===== src/Client/Wrapper/Messages.antt =====
-- The last message that a proxy of frpc sent, against its phase.
use frp.Prelude.{
  All, ℕ, ◌≡◌, refl, String, Bool, true, false, Option, none, some, List, [], ◌∷◌, arith,
}
use frp.Health.{Callback, status_normal, status_failed}
use frp.Client.Wrapper.{
  Phase, new, wait_start, running, check_failed, closed, Message, new_proxy, close_proxy, Wrapper,
  set_running_status, stop, not_wait_start, check_round, on_status,
}

-- The last message after some more were sent.
abbrev pub last_after : Option Message → List Message → Option Message
last_after last [] = last
last_after last (m ∷ ms) = last_after (some m) ms

abbrev pub is_announced : Phase → Bool
is_announced wait_start = true
is_announced running = true
is_announced _ = false

abbrev pub is_withdrawn : Phase → Bool
is_withdrawn check_failed = true
is_withdrawn closed = true
is_withdrawn _ = false

-- A proxy that waits or runs was last announced, one that failed its checks or is closed was last
-- withdrawn, and a new one was not named.
pub record Agrees (phase : Phase) (last : Option Message) : Type 0 where
  pub announced : is_announced phase ≡ true → last ≡ some new_proxy
  pub withdrawn : is_withdrawn phase ≡ true → last ≡ some close_proxy
  pub unnamed : phase ≡ new → last ≡ none

pub data Event : Type 0 where
  answered : ℕ → String → String → Option String → Event
  checked : ℕ → Event
  notified : Callback → Event
  stopped : Event

abbrev pub handle : Event → Wrapper → Wrapper × List Message
handle (answered now remote_addr resp_err run) w =
    let (w', sent, e) = set_running_status now remote_addr resp_err run w in (w', sent)
handle (checked now) w = check_round now w
handle (notified callback) w = (on_status callback w, [])
handle stopped w = stop w

-- The wrapper and its last message after the events, oldest first.
unfoldable pub run : List Event → Wrapper → Option Message → Wrapper × Option Message
run [] w last = (w, last)
run (e ∷ es) w last = let (w', sent) = handle e w in run es w' (last_after last sent)

set_running_status-Agrees :
    (now : ℕ) (remote_addr resp_err : String) (result : Option String) (w : Wrapper)
    (last : Option Message)
    → Agrees w.phase last
    → Agrees
        (set_running_status now remote_addr resp_err result w).0.phase
        (last_after last (set_running_status now remote_addr resp_err result w).1)
unfolding set_running_status
set_running_status-Agrees now remote_addr resp_err result w last h = ground arith

check_round-Agrees :
    (now : ℕ) (w : Wrapper) (last : Option Message)
    → Agrees w.phase last
    → Agrees (check_round now w).0.phase (last_after last (check_round now w).1)
unfolding check_round
check_round-Agrees now w last h = ground arith

-- After any answers of the server, rounds of checks, changes of health and a stop, in any order: a proxy
-- that waits for its start or runs sent a NewProxy last, one whose checks failed or that is closed sent a
-- CloseProxy last, and a new one sent nothing.
pub run-Agrees :
    (es : List Event) (w : Wrapper) (last : Option Message)
    → Agrees w.phase last
    → Agrees (run es w last).0.phase (run es w last).1
unfolding run stop
run-Agrees [] w last h = h
run-Agrees (answered now remote_addr resp_err result ∷ es) w last h =
    run-Agrees es (set_running_status now remote_addr resp_err result w).0
      (last_after last (set_running_status now remote_addr resp_err result w).1)
      (set_running_status-Agrees now remote_addr resp_err result w last h)
run-Agrees (checked now ∷ es) w last h =
    run-Agrees es (check_round now w).0 (last_after last (check_round now w).1)
      (check_round-Agrees now w last h)
run-Agrees (notified status_normal ∷ es) w last h =
    run-Agrees es (on_status status_normal w) last (unfold on_status in h)
run-Agrees (notified status_failed ∷ es) w last h =
    run-Agrees es (on_status status_failed w) last (unfold on_status in h)
run-Agrees (stopped ∷ es) w last h =
    run-Agrees es (stop w).0 (some close_proxy)
      (record { announced = λ e. cc; withdrawn = λ e. refl; unnamed = λ e. cc })

-- Stop runs once: the manager forgets the proxy.
abbrev pub IsLate : Event → Type 0
IsLate stopped = ⊥
IsLate _ = Unit

-- What is left of the goroutines after Stop changes nothing: the proxy stays closed and sends no further
-- message, whatever answers, rounds and changes of health still come.
pub run-closed :
    (es : List Event) (w : Wrapper) (last : Option Message)
    → w.phase ≡ closed
    → All IsLate es
    → ((run es w last).0.phase ≡ closed) × ((run es w last).1 ≡ last)
unfolding run
run-closed [] w last h late = (h, refl)
run-closed (answered now remote_addr resp_err result ∷ es) w last h (l, late) =
    let e : set_running_status now remote_addr resp_err result w ≡ (w, [], some not_wait_start) =
      unfold set_running_status in rw h refl in
    rw (e, run) (run-closed es w last h late)
run-closed (checked now ∷ es) w last h (l, late) =
    let e : check_round now w ≡ (w, []) = unfold check_round in ground arith in
    rw (e, run) (run-closed es w last h late)
run-closed (notified status_normal ∷ es) w last h (l, late) =
    run-closed es (on_status status_normal w) last (unfold on_status in h) late
run-closed (notified status_failed ∷ es) w last h (l, late) =
    run-closed es (on_status status_failed w) last (unfold on_status in h) late
run-closed (stopped ∷ es) w last h (l, late) = absurd l
