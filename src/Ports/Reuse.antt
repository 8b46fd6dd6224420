-- ===== src/Ports/Reuse.antt =====
-- The port that a name had before.
use frp.Prelude.{
  ℕ, ◌+◌, ◌<◌, ◌≤◌, ◌≡◌, ◌≢◌, refl, String, str_eq_iff, Bool, true, false, ◌==◌, some, List, ok,
  arith, ap, ◌∙◌,
}
use frp.Ports.{
  Manager, take_port, release, clean_reserved_ports, acquire, acquire_any, acquire_specified,
  max_port_reserved_duration,
}
use frp.Ports.Acquire.{Granted}

-- The name is reserved to a context with the port.
pub record IsReserved (name : String) (p : ℕ) (pm : Manager) : Type 0 where
  pub id : ℕ
  pub known : pm.reserved_ports name ≡ some id
  pub at_port : (pm.contexts id).port ≡ p

pub acquire_reserved :
    (available : ℕ → Bool) (order : List ℕ) (now : ℕ) (name : String) (p : ℕ) (pm : Manager)
    → available p ≡ true
    → IsReserved name p pm
    → acquire available order now name 0 pm ≡ (ok p, take_port now name p pm)
unfolding acquire acquire_any
acquire_reserved available order now name p pm can_listen r =
    let open_port : available (pm.contexts r.id).port ≡ true =
      ap available r.at_port ∙ can_listen in
    rw (acquire_any, r.known, open_port) (ap (λ q. (ok q, take_port now name q pm)) r.at_port)

-- A name that gives its port back and asks for any port within 24 hours of that, whatever the cleaning
-- of reserved ports in between, gets the same port again if it is available.
pub acquire-release :
    (available : ℕ → Bool) (order : List ℕ) (released cleaned now : ℕ) (name : String) (p : ℕ)
    (before pm : Manager)
    → Granted name p before pm
    → cleaned ≤ released + max_port_reserved_duration
    → available p ≡ true
    → (acquire available order now name 0 (clean_reserved_ports cleaned (release released p pm))).0
      ≡ ok p
unfolding release clean_reserved_ports
acquire-release available order released cleaned now name p before pm g soon can_listen =
    ap (λ r. r.0)
      (acquire_reserved available order now name p
        (clean_reserved_ports cleaned (release released p pm)) can_listen
        (record {
          id = before.next;
          known = rw (g.holder, release) (ground (arith, g.kept));
          at_port = rw (g.holder, release) (ground (arith, g.at_port));
        }))

-- A free port that is reserved to `name` can be given to `other` and then, while `other` still holds
-- it, to `name`, if it is available at both times: the reservation is not checked against the used
-- ports. The context of `other` is not closed, and the port is no longer found under it.
pub reserved_given_twice :
    (available later : ℕ → Bool) (order order' : List ℕ) (now now' : ℕ) (name other : String)
    (p id : ℕ) (pm : Manager)
    → p ≢ 0
    → other ≢ name
    → pm.free_ports p ≡ true
    → pm.reserved_ports name ≡ some id
    → id < pm.next
    → (pm.contexts id).port ≡ p
    → available p ≡ true
    → later p ≡ true
    → (acquire available order now other p pm ≡ (ok p, take_port now other p pm))
      × (acquire later order' now' name 0 (take_port now other p pm)
          ≡ (ok p, take_port now' name p (take_port now other p pm)))
      × (((take_port now' name p (take_port now other p pm)).contexts pm.next).closed ≡ false)
      × ((take_port now' name p (take_port now other p pm)).used_ports p ≡ some (pm.next + 1))
unfolding take_port
reserved_given_twice available later order order' now now' name other p id pm nonzero distinct free
      known old at_port first second =
    let given : (p == 0) ≡ false = ground arith in
    (
      unfold acquire in rw (given, acquire_specified, free, first) refl,
      acquire_reserved later order' now' name p (take_port now other p pm) second (record {
        id = id;
        known = ground (arith, str_eq_iff other name);
        at_port = ground arith;
      }),
      ground arith,
      ground arith,
    )
