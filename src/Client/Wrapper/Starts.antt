-- ===== src/Client/Wrapper/Starts.antt =====
-- A healthy proxy is started as long as frps answers.
use frp.Prelude.{
  ℕ, zero, suc, ◌+◌, ◌*◌, ◌≤◌, ◌≡◌, ◌≢◌, refl, ap, ◌∙◌, String, true, false, none, [], ◌∷◌, arith,
  Bool-cases, inl, inr,
}
use frp.Client.Wrapper.{
  Phase, new, wait_start, start_err, running, check_failed, closed, is_phase, Wrapper,
  set_running_status, is_due, check_round, status_check_interval,
}

-- A round, and the answer of frps to the message it sent, if it sent one.
unfoldable pub answered_round : ℕ → String → Wrapper → Wrapper
answered_round now remote_addr w =
    let (w', sent) = check_round now w in
    elim sent [ [] ↦ w' | ◌∷◌ m ms ↦ (set_running_status now remote_addr "" none w').0 ]

-- Rounds from the time `now` on.
unfoldable pub rounds : ℕ → ℕ → String → Wrapper → Wrapper
rounds zero now remote_addr w = w
rounds (suc n) now remote_addr w =
    rounds n (now + status_check_interval) remote_addr (answered_round now remote_addr w)

answered_round_due :
    (now : ℕ) (remote_addr : String) (w : Wrapper)
    → w.health ≡ 0
    → is_due now w ≡ true
    → ((answered_round now remote_addr w).phase ≡ running)
      × ((answered_round now remote_addr w).health ≡ 0)
unfolding answered_round check_round set_running_status
answered_round_due now remote_addr w healthy due = ground arith

answered_round_quiet :
    (now : ℕ) (remote_addr : String) (w : Wrapper)
    → w.health ≡ 0
    → is_due now w ≡ false
    → answered_round now remote_addr w ≡ w
unfolding answered_round check_round
answered_round_quiet now remote_addr w healthy quiet = ground arith

is_due_running : (now : ℕ) (w : Wrapper) → w.phase ≡ running → is_due now w ≡ false
unfolding is_due
is_due_running now w up = rw up refl

rounds_running :
    (n now : ℕ) (remote_addr : String) (w : Wrapper)
    → w.health ≡ 0
    → w.phase ≡ running
    → (rounds n now remote_addr w).phase ≡ running
unfolding rounds
rounds_running zero now remote_addr w healthy up = up
rounds_running (suc n) now remote_addr w healthy up =
    let e = answered_round_quiet now remote_addr w healthy (is_due_running now w up) in
    rw (e, rounds) (rounds_running n (now + 3) remote_addr w healthy up)

-- A proxy that is due by the last of n + 1 rounds runs after them.
rounds_due :
    (n now : ℕ) (remote_addr : String) (w : Wrapper)
    → w.health ≡ 0
    → is_due (now + 3 * n) w ≡ true
    → (rounds (suc n) now remote_addr w).phase ≡ running
unfolding rounds
rounds_due zero now remote_addr w healthy due =
    let now_due : is_due now w ≡ true = ap (λ t. is_due t w) (omega arith) ∙ due in
    (answered_round_due now remote_addr w healthy now_due).0
rounds_due (suc n) now remote_addr w healthy due = elim (Bool-cases (is_due now w)) [
  | inl first ↦
      let (up, still) = answered_round_due now remote_addr w healthy first in
      rounds_running (suc n) (now + 3) remote_addr (answered_round now remote_addr w) still up
  | inr quiet ↦
      let e = answered_round_quiet now remote_addr w healthy quiet in
      let time : now + 3 + 3 * n ≡ now + 3 * suc n = omega arith in
      rw (e, rounds) (rounds_due n (now + 3) remote_addr w healthy (rw time due))
]

phase_of_test : (phase : Phase) → is_phase phase running ≡ true → phase ≡ running
phase_of_test running h = refl
phase_of_test new h = cc
phase_of_test wait_start h = cc
phase_of_test start_err h = cc
phase_of_test check_failed h = cc
phase_of_test closed h = cc

due_in_time :
    (now : ℕ) (w : Wrapper)
    → is_phase w.phase running ≡ false
    → w.phase ≢ closed
    → w.last_send_start_msg ≤ now
    → w.last_start_err ≤ now
    → is_due (now + 3 * 11) w ≡ true
unfolding is_due
due_in_time now w other opened sent failed = ground arith

-- A proxy that is healthy and not closed runs after twelve rounds of checks, which take 36 seconds, if
-- frps accepts each NewProxy before the next round and the underlying proxy runs; whatever its phase
-- was, and whenever before the first round it last sent a NewProxy or failed to start.
pub rounds-running :
    (now : ℕ) (remote_addr : String) (w : Wrapper)
    → w.health ≡ 0
    → w.phase ≢ closed
    → w.last_send_start_msg ≤ now
    → w.last_start_err ≤ now
    → (rounds 12 now remote_addr w).phase ≡ running
rounds-running now remote_addr w healthy opened sent failed =
    elim (Bool-cases (is_phase w.phase running)) [
      | inl up ↦ rounds_running 12 now remote_addr w healthy (phase_of_test w.phase up)
      | inr other ↦
          rounds_due 11 now remote_addr w healthy (due_in_time now w other opened sent failed)
    ]
