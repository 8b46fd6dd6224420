-- ===== src/Ports/Consistent.antt =====
-- Every port that the configuration allows is free or used, never both, and no other port is either.
use frp.Prelude.{
  is_some, zero, suc, ℕ, ◌<◌, ◌≡◌, String, Bool, true, ◌&&◌, not, ◌==◌, some, List, [], ◌∷◌, All,
  arith, Bool-cases, Option-cases, inl, inr,
}
use mathlib.Core.Path.{subst}
use frp.Ports.{
  suc, Manager, allowed_ports, new_manager, take_port, try_ports, acquire_random, acquire_any,
  acquire_specified, acquire, release, clean_reserved_ports,
}

pub record IsConsistent (allowed : ℕ → Bool) (pm : Manager) : Type 0 where
  pub free : (p : ℕ) → pm.free_ports p ≡ (allowed p && not (is_some (pm.used_ports p)))
  pub used :
      (p : ℕ) (id : ℕ)
      → pm.used_ports p ≡ some id
      → (allowed p ≡ true) × (id < pm.next) × ((pm.contexts id).port ≡ p)
  pub reserved :
      (name : String) (id : ℕ)
      → pm.reserved_ports name ≡ some id
      → (allowed (pm.contexts id).port ≡ true) × (id < pm.next)

module _ (allowed : ℕ → Bool) where
  pub take_port-IsConsistent :
      (now : ℕ) (name : String) (port : ℕ) (pm : Manager)
      → allowed port ≡ true
      → IsConsistent allowed pm
      → IsConsistent allowed (take_port now name port pm)
  unfolding take_port
  take_port-IsConsistent now name port pm h c = record {
    free = λ p. ground (arith, c.free p);
    used = λ p id e. ground (arith, c.used p id);
    reserved = λ n id e. ground (arith, c.reserved n id);
  }

  pub release-IsConsistent :
      (now port : ℕ) (pm : Manager)
      → IsConsistent allowed pm
      → IsConsistent allowed (release now port pm)
  unfolding release
  release-IsConsistent now port pm c = elim (Option-cases (pm.used_ports port)) [
    | inl unused ↦ rw (unused, release) c
    | inr (id, held) ↦
        rw (held, release)
          (record {
            free = λ p. ground (arith, c.free p, c.used port id held);
            used = λ p j e. ground (arith, c.used p j, c.used port id held);
            reserved = λ n j e. ground (arith, c.reserved n j);
          })
  ]

  clean_reserved_ports-IsConsistent :
      (now : ℕ) (pm : Manager)
      → IsConsistent allowed pm
      → IsConsistent allowed (clean_reserved_ports now pm)
  unfolding clean_reserved_ports
  clean_reserved_ports-IsConsistent now pm c = record {
    free = c.free;
    used = c.used;
    reserved = λ n id e. ground (arith, c.reserved n id);
  }

  -- What the loop over the free ports finds is one of them, and is available.
  pub try_ports_sound :
      (tries : ℕ) (available : ℕ → Bool) (order : List ℕ) (P : ℕ → Type 0) (port : ℕ)
      → All P order
      → try_ports tries available order ≡ some port
      → P port × (available port ≡ true)
  unfolding try_ports
  try_ports_sound zero available order P port h e = cc
  try_ports_sound (suc tries) available [] P port h e = cc
  try_ports_sound (suc tries) available (k ∷ order) P port (hk, hs) e =
      elim (Bool-cases (available k)) [
        | inl yes_k ↦
            let found : some k ≡ some port = rw yes_k at e in
            let same : k ≡ port = cc found in
            subst (λ q. P q × (available q ≡ true)) same (hk, yes_k)
        | inr no_k ↦ try_ports_sound tries available order P port hs (rw no_k at e)
      ]

  pub allowed_of_free :
      (pm : Manager) (p : ℕ) → IsConsistent allowed pm → pm.free_ports p ≡ true → allowed p ≡ true
  allowed_of_free pm p c h = ground (arith, c.free p)

  -- Acquire, whatever it returns, keeps the maps consistent, if the loop over the free ports meets
  -- free ports only.
  acquire_random-IsConsistent :
      (available : ℕ → Bool) (order : List ℕ) (now : ℕ) (name : String) (pm : Manager)
      → All (λ k. pm.free_ports k ≡ true) order
      → IsConsistent allowed pm
      → IsConsistent allowed (acquire_random available order now name pm).1
  unfolding acquire_random
  acquire_random-IsConsistent available order now name pm h c =
      elim (Option-cases (try_ports 5 available order)) [
        | inl nothing ↦ rw (nothing, acquire_random) c
        | inr (port, found) ↦
            let (free, _) =
              try_ports_sound 5 available order (λ k. pm.free_ports k ≡ true) port h found in
            rw (found, acquire_random)
              (take_port-IsConsistent now name port pm (allowed_of_free pm port c free) c)
      ]

  acquire_any-IsConsistent :
      (available : ℕ → Bool) (order : List ℕ) (now : ℕ) (name : String) (pm : Manager)
      → All (λ k. pm.free_ports k ≡ true) order
      → IsConsistent allowed pm
      → IsConsistent allowed (acquire_any available order now name pm).1
  unfolding acquire_any
  acquire_any-IsConsistent available order now name pm h c =
      elim (Option-cases (pm.reserved_ports name)) [
        | inl unknown ↦
            rw (unknown, acquire_any) (acquire_random-IsConsistent available order now name pm h c)
        | inr (id, known) ↦ elim (Bool-cases (available (pm.contexts id).port)) [
          | inl open_port ↦
              rw (known, acquire_any, open_port)
                (take_port-IsConsistent now name (pm.contexts id).port pm
                  (c.reserved name id known).0 c)
          | inr closed_port ↦
              rw (known, acquire_any, closed_port)
                (acquire_random-IsConsistent available order now name pm h c)
        ]
      ]

  pub acquire-IsConsistent :
      (available : ℕ → Bool) (order : List ℕ) (now : ℕ) (name : String) (port : ℕ) (pm : Manager)
      → All (λ k. pm.free_ports k ≡ true) order
      → IsConsistent allowed pm
      → IsConsistent allowed (acquire available order now name port pm).1
  unfolding acquire
  acquire-IsConsistent available order now name port pm h c = elim (Bool-cases (port == 0)) [
    | inl any ↦ rw any (acquire_any-IsConsistent available order now name pm h c)
    | inr specified ↦ elim (Bool-cases (pm.free_ports port)) [
      | inl free ↦ elim (Bool-cases (available port)) [
        | inl open_port ↦
            rw (specified, acquire_specified, free, open_port)
              (take_port-IsConsistent now name port pm (allowed_of_free pm port c free) c)
        | inr closed_port ↦ rw (specified, acquire_specified, free, closed_port) c
      ]
      | inr not_free ↦ elim (Option-cases (pm.used_ports port)) [
        | inl unused ↦ rw (specified, acquire_specified, not_free, unused) c
        | inr (id, held) ↦ rw (specified, acquire_specified, not_free, held) c
      ]
    ]
  ]

pub new_manager-IsConsistent :
    (allow : List ℕ) → IsConsistent (allowed_ports allow) (new_manager allow)
unfolding new_manager
new_manager-IsConsistent allow = record {
  free = λ p. ground arith;
  used = λ p id e. cc;
  reserved = λ name id e. cc;
}

-- What happens to a manager.
pub data Call : Type 0 where
  acquiring : (ℕ → Bool) → List ℕ → ℕ → String → ℕ → Call
  releasing : ℕ → ℕ → Call
  cleaning : ℕ → Call

abbrev pub perform : Call → Manager → Manager
perform (acquiring available order now name port) pm = (acquire available order now name port pm).1
perform (releasing now port) pm = release now port pm
perform (cleaning now) pm = clean_reserved_ports now pm

-- The loop over the free ports meets free ports only.
abbrev pub MeetsFree : Call → Manager → Type 0
MeetsFree (acquiring available order now name port) pm = All (λ k. pm.free_ports k ≡ true) order
MeetsFree (releasing now port) pm = Unit
MeetsFree (cleaning now) pm = Unit

-- The states of a manager that was made for the ports `allow`.
pub data Reach (allow : List ℕ) : Manager → Type 0 where
  fresh : Reach allow (new_manager allow)
  call : {pm : Manager} (c : Call) → MeetsFree c pm → Reach allow pm → Reach allow (perform c pm)

-- In every state of a manager, after any calls, whatever the system says about ports: an allowed port
-- is free or used and not both, no other port is free or used, and a used port's context has that
-- port; a reserved context's port is allowed.
pub Reach-IsConsistent :
    {allow : List ℕ} {pm : Manager} → Reach allow pm → IsConsistent (allowed_ports allow) pm
Reach-IsConsistent {allow} fresh = new_manager-IsConsistent allow
Reach-IsConsistent {allow} (call {pm = pm} (acquiring available order now name port) h r) =
    acquire-IsConsistent (allowed_ports allow) available order now name port pm h
      (Reach-IsConsistent r)
Reach-IsConsistent {allow} (call {pm = pm} (releasing now port) h r) =
    release-IsConsistent (allowed_ports allow) now port pm (Reach-IsConsistent r)
Reach-IsConsistent {allow} (call {pm = pm} (cleaning now) h r) =
    clean_reserved_ports-IsConsistent (allowed_ports allow) now pm (Reach-IsConsistent r)
