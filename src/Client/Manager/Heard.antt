-- ===== src/Client/Manager/Heard.antt =====
-- What frps last heard of the proxies that frpc holds.
use frp.Prelude.{
  ℕ, ◌≡◌, refl, String, str_eq, str_eq_iff, Bool, true, false, not, if◌then◌else◌, Option, none,
  some, List, [], ◌∷◌, ◌++◌, map, update_name, arith,
}
use frp.Client.Wrapper.{
  Phase, new, wait_start, start_err, running, check_failed, closed, Message, new_proxy, close_proxy,
  Wrapper, set_running_status, check_round,
}
use frp.Client.Wrapper.Messages.{last_after}
use frp.Client.Manager.{Held, named}
use frp.Client.Manager.Told.{IsNamed}

-- The last message of each name, after some more.
abbrev pub heard : List (String × Message) → (String → Option Message) → String → Option Message
heard [] view = view
heard ((name, m) ∷ sent) view = heard sent (update_name view name (some m))

abbrev pub is_open : Option Message → Bool
is_open none = false
is_open (some new_proxy) = true
is_open (some close_proxy) = false

-- A proxy that waits or runs is open, one that failed to start may be, any other is not.
abbrev pub suits : Phase → Option Message → Bool
suits wait_start last = is_open last
suits running last = is_open last
suits start_err last = true
suits new last = not (is_open last)
suits check_failed last = not (is_open last)
suits closed last = not (is_open last)

heard-map :
    (name n : String) (ms : List Message) (view : String → Option Message)
    → heard (map (λ m. (name, m)) ms) view n
      ≡ (if str_eq name n then last_after (view n) ms else view n)
heard-map name n [] view = ground arith
heard-map name n (m ∷ ms) view =
    let rest = heard-map name n ms (update_name view name (some m)) in ground (arith, rest)

pub heard-append :
    (n : String) (sent more : List (String × Message)) (view : String → Option Message)
    → heard (sent ++ more) view ≡ heard more (heard sent view)
heard-append n [] more view = refl
heard-append n ((name, m) ∷ sent) more view =
    heard-append n sent more (update_name view name (some m))

pub check_round-suits :
    (now : ℕ) (w : Wrapper) (last : Option Message)
    → suits w.phase last ≡ true
    → suits (check_round now w).0.phase (last_after last (check_round now w).1) ≡ true
unfolding check_round
check_round-suits now w last h = ground arith

pub set_running_status-suits :
    (now : ℕ) (remote_addr resp_err : String) (run : Option String) (w : Wrapper)
    (last : Option Message)
    → suits w.phase last ≡ true
    → suits
        (set_running_status now remote_addr resp_err run w).0.phase
        (last_after last (set_running_status now remote_addr resp_err run w).1)
      ≡ true
unfolding set_running_status
set_running_status-suits now remote_addr resp_err run w last h = ground arith

pub check_round-name : (now : ℕ) (w : Wrapper) → (check_round now w).0.name ≡ w.name
unfolding check_round
check_round-name now w = ground arith

pub set_running_status-name :
    (now : ℕ) (remote_addr resp_err : String) (run : Option String) (w : Wrapper)
    → (set_running_status now remote_addr resp_err run w).0.name ≡ w.name
unfolding set_running_status
set_running_status-name now remote_addr resp_err run w = ground arith

module _ {ℓ} {C : Type ℓ} where
  abbrev pub suits_held : Option (Held C) → Option Message → Bool
  suits_held none last = not (is_open last)
  suits_held (some p) last = suits p.wrapper.phase last

  -- Every wrapper is under its name, and every name is open at frps exactly as its proxy has it.
  pub record IsHeard (proxies : String → Option (Held C)) (view : String → Option Message)
      : Type ℓ where
    pub is_named : IsNamed proxies
    pub suited : (n : String) → suits_held (proxies n) (view n) ≡ true

  -- A wrapper takes a step and sends messages.
  pub step-IsHeard :
      (name : String) (p : Held C) (w : Wrapper) (ms : List Message)
      (proxies : String → Option (Held C)) (view : String → Option Message)
      → proxies name ≡ some p
      → w.name ≡ p.wrapper.name
      → suits w.phase (last_after (view name) ms) ≡ true
      → IsHeard proxies view
      → IsHeard
          (update_name proxies name (some (record p { wrapper = w })))
          (heard (named (w, ms)) view)
  step-IsHeard name p w ms proxies view found same suited h =
      let own = h.is_named name p found in
      record {
        is_named = λ n q at. ground (arith, str_eq_iff name n, h.is_named n q);
        suited = λ n.
            let all = heard-map w.name n ms view in
            ground (arith, all, str_eq_iff name n, str_eq_iff w.name n, h.suited n);
      }
