-- ===== src/Ports/Acquire.antt =====
-- What Acquire returns and what it changes.
use mathlib.Core.Path.{subst}
use frp.Prelude.{
  is_some, str_eq_iff, ◌⊎◌, ℕ, ◌≡◌, ◌≢◌, refl, String, Bool, true, false, ◌==◌, if◌then◌else◌, some,
  List, All, Outcome, ok, err, arith, Bool-cases, Option-cases, inl, inr,
}
use frp.Ports.{
  PortError, port_already_used, port_not_allowed, port_unavailable, Manager, take_port, try_ports,
  acquire, acquire_any, acquire_random, acquire_specified, random_result,
}
use frp.Ports.Consistent.{IsConsistent, try_ports_sound, allowed_of_free}

-- The port `p` was given to `name`, and nothing else changed.
pub record Granted (name : String) (p : ℕ) (before after : Manager) : Type 0 where
  pub holder : after.used_ports p ≡ some before.next
  pub not_free : after.free_ports p ≡ false
  pub named : (after.contexts before.next).proxy_name ≡ name
  pub at_port : (after.contexts before.next).port ≡ p
  pub in_use : (after.contexts before.next).closed ≡ false
  pub kept : after.reserved_ports name ≡ some before.next
  pub others :
      (q : ℕ)
      → q ≢ p
      → (after.used_ports q ≡ before.used_ports q) × (after.free_ports q ≡ before.free_ports q)

take_port-Granted :
    (now : ℕ) (name : String) (p : ℕ) (pm : Manager) → Granted name p pm (take_port now name p pm)
unfolding take_port
take_port-Granted now name p pm = record {
  holder = ground arith;
  not_free = ground arith;
  named = ground arith;
  at_port = ground arith;
  in_use = ground arith;
  kept = ground (arith, str_eq_iff name name);
  others = λ q h. ground arith;
}

-- For a given port, the answer depends only on whether the port is used, allowed and available, and a
-- refusal changes nothing.
pub acquire_given :
    (allowed available : ℕ → Bool) (order : List ℕ) (now : ℕ) (name : String) (port : ℕ)
    (pm : Manager)
    → port ≢ 0
    → IsConsistent allowed pm
    → acquire available order now name port pm ≡ (
        if is_some (pm.used_ports port)
        then (err port_already_used, pm)
        else if allowed port
        then (if available port
            then (ok port, take_port now name port pm)
            else (err port_unavailable, pm))
        else (err port_not_allowed, pm))
unfolding acquire
acquire_given allowed available order now name port pm h c =
    let given : (port == 0) ≡ false = ground arith in
    elim (Option-cases (pm.used_ports port)) [
      | inl unused ↦ elim (Bool-cases (allowed port)) [
        | inl allows ↦
            let free : pm.free_ports port ≡ true = ground (arith, c.free port) in
            rw (given, acquire_specified, free, unused, allows) refl
        | inr forbids ↦
            let free : pm.free_ports port ≡ false = ground (arith, c.free port) in
            rw (given, acquire_specified, free, unused, forbids) refl
      ]
      | inr (id, held) ↦
          let free : pm.free_ports port ≡ false = ground (arith, c.free port) in
          rw (given, acquire_specified, free, held) refl
    ]

same_port : (port p : ℕ) → random_result port ≡ ok p → port ≡ p
unfolding random_result
same_port port p e = ground arith

module _ (allowed available : ℕ → Bool) (order : List ℕ) (now : ℕ) (name : String)
    (pm : Manager) where
  -- The grants of a call with its result.
  abbrev pub Grants : ℕ → Outcome PortError ℕ × Manager → Type 0
  Grants p r = r.0 ≡ ok p → (allowed p ≡ true) × (available p ≡ true) × Granted name p pm r.1

  take_port-Grants :
      (p port : ℕ)
      → allowed port ≡ true
      → available port ≡ true
      → port ≡ p
      → (allowed p ≡ true) × (available p ≡ true) × Granted name p pm (take_port now name port pm)
  take_port-Grants p port allows can_listen same =
      subst
        (λ q.
          (allowed q ≡ true)
          × (available q ≡ true)
          × Granted name q pm (take_port now name port pm))
        same (allows, can_listen, take_port-Granted now name port pm)

  acquire_random-Grants :
      (p : ℕ)
      → All (λ k. pm.free_ports k ≡ true) order
      → IsConsistent allowed pm
      → Grants p (acquire_random available order now name pm)
  unfolding acquire_random
  acquire_random-Grants p h c = elim (Option-cases (try_ports 5 available order)) [
    | inl nothing ↦ rw (nothing, acquire_random) (λ e. cc)
    | inr (port, found) ↦
        let (free, can_listen) =
          try_ports_sound allowed 5 available order (λ k. pm.free_ports k ≡ true) port h found in
        rw (found, acquire_random)
          (λ e.
            take_port-Grants p port (allowed_of_free allowed pm port c free) can_listen
              (same_port port p e))
  ]

  acquire_any-Grants :
      (p : ℕ)
      → All (λ k. pm.free_ports k ≡ true) order
      → IsConsistent allowed pm
      → Grants p (acquire_any available order now name pm)
  unfolding acquire_any
  acquire_any-Grants p h c = elim (Option-cases (pm.reserved_ports name)) [
    | inl unknown ↦ rw (unknown, acquire_any) (acquire_random-Grants p h c)
    | inr (id, known) ↦ elim (Bool-cases (available (pm.contexts id).port)) [
      | inl open_port ↦
          rw (known, acquire_any, open_port)
            (λ e.
              take_port-Grants p (pm.contexts id).port (c.reserved name id known).0 open_port
                (cc e))
      | inr closed_port ↦ rw (known, acquire_any, closed_port) (acquire_random-Grants p h c)
    ]
  ]

  -- A port that Acquire returns is allowed by the configuration and available, is the port that was
  -- asked for if one was, and is used from then on by a new context of that name, which the name is
  -- reserved to; all other ports stay as they were.
  pub acquire-Grants :
      (asked p : ℕ)
      → All (λ k. pm.free_ports k ≡ true) order
      → IsConsistent allowed pm
      → (acquire available order now name asked pm).0 ≡ ok p
      → ((asked ≡ 0) ⊎ (asked ≡ p))
        × (allowed p ≡ true)
        × (available p ≡ true)
        × Granted name p pm (acquire available order now name asked pm).1
  acquire-Grants asked p h c = elim (Bool-cases (asked == 0)) [
    | inl any ↦
        unfold acquire in
        rw any (λ e. let (a, b, g) = acquire_any-Grants p h c e in (inl (ground arith), a, b, g))
    | inr given ↦
        let nonzero : asked ≢ 0 = ground arith in
        rw (acquire_given allowed available order now name asked pm nonzero c)
          elim (Bool-cases (is_some (pm.used_ports asked))) [
            | inl held ↦ rw held (λ e. cc)
            | inr unused ↦ elim (Bool-cases (allowed asked)) [
              | inr forbids ↦ rw (unused, forbids) (λ e. cc)
              | inl allows ↦ elim (Bool-cases (available asked)) [
                | inr busy ↦ rw (unused, allows, busy) (λ e. cc)
                | inl can_listen ↦
                    rw (unused, allows, can_listen)
                      (λ e.
                        let same : asked ≡ p = cc e in
                        let (a, b, g) = take_port-Grants p asked allows can_listen same in
                        (inr same, a, b, g))
              ]
            ]
          ]
  ]
