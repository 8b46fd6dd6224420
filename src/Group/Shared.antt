-- ===== src/Group/Shared.antt =====
-- Which ports the groups hold, whatever the order of their steps.
use frp.Prelude.{
  List-cases, is_some, ℕ, ◌≡◌, ◌≢◌, ◌⊎◌, refl, ap, ◌∙◌, String, Bool, true, false, ◌==◌, ==_iff,
  if◌then◌else◌, none, List, [], ◌∷◌, ok, err, arith, Bool-cases, Option-cases, inl, inr,
}
use frp.Ports
use frp.Ports.{PortError, port_already_used, port_unavailable, port_not_allowed}
use frp.Ports.Consistent.{IsConsistent, take_port-IsConsistent, release-IsConsistent}
use frp.Ports.Acquire.{acquire_given}
use frp.Group.{
  TcpGroup, GroupCtl, find_group, Request, System, check_request, first_listen, join_listen, listen,
  remove_ln, close_listener,
}

abbrev pub is_busy : TcpGroup → Bool
is_busy tg = elim tg.lns [ [] ↦ false | ◌∷◌ ln lns ↦ true ]

-- The port of a group with listeners is used, and is that of no other group with listeners.
pub record IsShared (allowed : ℕ → Bool) (ctl : GroupCtl) : Type 0 where
  pub consistent : IsConsistent allowed ctl.port_manager
  pub used :
      (id : ℕ)
      → is_busy (ctl.objects id) ≡ true
      → is_some (ctl.port_manager.used_ports (ctl.objects id).real_port) ≡ true
  pub apart :
      (id other : ℕ)
      → is_busy (ctl.objects id) ≡ true
      → is_busy (ctl.objects other) ≡ true
      → (ctl.objects id).real_port ≡ (ctl.objects other).real_port
      → id ≡ other

pub release-used_ports :
    (now port p : ℕ) (pm : Ports.Manager)
    → (Ports.release now port pm).used_ports p ≡ (if port == p then none else pm.used_ports p)
unfolding Ports.release
release-used_ports now port p pm = elim (Option-cases (pm.used_ports port)) [
  | inl unused ↦ rw (unused, Ports.release) (ground (arith, ==_iff port p))
  | inr (id, held) ↦ rw (held, Ports.release) refl
]

module _ (allowed : ℕ → Bool) where
  -- A given port is refused, with nothing changed, or was unused and is taken.
  acquire_outcome :
      (available : ℕ → Bool) (order : List ℕ) (now : ℕ) (name : String) (port : ℕ)
      (pm : Ports.Manager)
      → port ≢ 0
      → IsConsistent allowed pm
      → ((e : PortError) × (Ports.acquire available order now name port pm ≡ (err e, pm)))
        ⊎ ((pm.used_ports port ≡ none)
            × (Ports.acquire available order now name port pm
                ≡ (ok port, Ports.take_port now name port pm))
            × IsConsistent allowed (Ports.take_port now name port pm))
  acquire_outcome available order now name port pm given c =
      let answer = acquire_given allowed available order now name port pm given c in
      elim (Option-cases (pm.used_ports port)) [
        | inr (id, held) ↦ inl (port_already_used, answer ∙ rw held refl)
        | inl unused ↦ elim (Bool-cases (allowed port)) [
          | inr forbidden ↦ inl (port_not_allowed, answer ∙ rw (unused, forbidden) refl)
          | inl allows ↦ elim (Bool-cases (available port)) [
            | inl there ↦ inr (
              unused,
              answer ∙ rw (unused, allows, there) refl,
              take_port-IsConsistent allowed now name port pm allows c,
            )
            | inr missing ↦ inl (port_unavailable, answer ∙ rw (unused, allows, missing) refl)
          ]
        ]
      ]

  pub find_group-IsShared :
      (group : String) (ctl : GroupCtl)
      → IsShared allowed ctl
      → IsShared allowed (find_group group ctl).1
  unfolding find_group
  find_group-IsShared group ctl h = elim (Option-cases (ctl.groups group)) [
    | inr (id, found) ↦ rw (found, find_group) h
    | inl missing ↦
        rw (missing, find_group)
          (record {
            consistent = h.consistent;
            used = λ id. ground (arith, h.used id);
            apart = λ id other. ground (arith, h.apart id other);
          })
  ]

  join_listen-IsShared :
      (r : Request) (id : ℕ) (ctl : GroupCtl)
      → is_busy (ctl.objects id) ≡ true
      → IsShared allowed ctl
      → IsShared allowed (join_listen r id ctl).1
  unfolding join_listen
  join_listen-IsShared r id ctl busy h = elim (Option-cases (check_request (ctl.objects id) r)) [
    | inr (e, refused) ↦ rw (refused, join_listen) h
    | inl fits ↦
        rw (fits, join_listen)
          (record {
            consistent = h.consistent;
            used = λ j. ground (arith, h.used j, ==_iff id j);
            apart = λ j other. ground (arith, h.apart j other, ==_iff id j, ==_iff id other);
          })
  ]

  -- The port manager after the port of a group was acquired.
  taken-IsShared :
      (now : ℕ) (name : String) (port : ℕ) (ctl : GroupCtl)
      → IsConsistent allowed (Ports.take_port now name port ctl.port_manager)
      → IsShared allowed ctl
      → IsShared allowed
          (record ctl { port_manager = Ports.take_port now name port ctl.port_manager })
  unfolding Ports.take_port
  taken-IsShared now name port ctl c h = record {
    consistent = c;
    used = λ id. ground (arith, h.used id, ==_iff port (ctl.objects id).real_port);
    apart = λ id other. ground (arith, h.apart id other);
  }

  first_listen-IsShared :
      (listens : Bool) (now : ℕ) (r : Request) (id : ℕ) (ctl : GroupCtl)
      → is_busy (ctl.objects id) ≡ false
      → ctl.port_manager.used_ports r.port ≡ none
      → IsConsistent allowed (Ports.take_port now r.proxy_name r.port ctl.port_manager)
      → IsShared allowed ctl
      → IsShared allowed
          (first_listen listens r id (ok r.port) (record ctl {
            port_manager = Ports.take_port now r.proxy_name r.port ctl.port_manager;
          })).1
  unfolding first_listen Ports.take_port
  first_listen-IsShared false now r id ctl idle unused c h =
      taken-IsShared now r.proxy_name r.port ctl c h
  first_listen-IsShared true now r id ctl idle unused c h = record {
    consistent = c;
    used = λ j. ground (
      arith,
      h.used j,
      ==_iff id j,
      ==_iff r.port (ctl.objects j).real_port,
      ==_iff r.port r.port,
    );
    apart = λ j other. ground (
      arith,
      h.apart j other,
      h.used j,
      h.used other,
      ==_iff id j,
      ==_iff id other,
      ap ctl.port_manager.used_ports {x = r.port} {y = (ctl.objects j).real_port},
    );
  }

  pub listen-IsShared :
      (sys : System) (r : Request) (id : ℕ) (ctl : GroupCtl)
      → r.port ≢ 0
      → IsShared allowed ctl
      → IsShared allowed (listen sys r id ctl).1
  unfolding listen
  listen-IsShared sys r id ctl given h = elim (List-cases (ctl.objects id).lns) [
    | inr (ln, lns, busy) ↦ rw (busy, listen) (join_listen-IsShared r id ctl (rw busy refl) h)
    | inl idle ↦
        elim (acquire_outcome sys.available sys.order sys.now r.proxy_name r.port ctl.port_manager
          given h.consistent) [
            | inl (e, refused) ↦ rw (idle, listen) (rw (refused, first_listen) h)
            | inr (unused, granted, c) ↦
                rw (idle, listen)
                  (rw granted
                    (first_listen-IsShared sys.listens sys.now r id ctl (rw idle refl) unused c h))
          ]
  ]

  pub close_listener-IsShared :
      (now id ln : ℕ) (ctl : GroupCtl)
      → is_busy (ctl.objects id) ≡ true
      → IsShared allowed ctl
      → IsShared allowed (close_listener now id ln ctl)
  unfolding close_listener
  close_listener-IsShared now id ln ctl busy h =
      elim (List-cases (remove_ln ln (ctl.objects id).lns)) [
        | inl last ↦
            rw (last, close_listener)
              (record {
                consistent =
                    release-IsConsistent allowed now (ctl.objects id).real_port ctl.port_manager
                      h.consistent;
                used = λ j. ground (
                  arith,
                  h.used j,
                  h.apart id j,
                  ==_iff id j,
                  release-used_ports now (ctl.objects id).real_port (ctl.objects j).real_port
                      ctl.port_manager,
                );
                apart = λ j other. ground (arith, h.apart j other, ==_iff id j, ==_iff id other);
              })
        | inr (l, lns, more) ↦
            rw (more, close_listener)
              (record {
                consistent = h.consistent;
                used = λ j. ground (arith, h.used j, ==_iff id j);
                apart = λ j other. ground (arith, h.apart j other, ==_iff id j, ==_iff id other);
              })
      ]

  -- Other proxies use the port manager, for ports that they give.
  pub acquire-IsShared :
      (available : ℕ → Bool) (order : List ℕ) (now : ℕ) (name : String) (port : ℕ) (ctl : GroupCtl)
      → port ≢ 0
      → IsShared allowed ctl
      → IsShared allowed (record ctl {
        port_manager = (Ports.acquire available order now name port ctl.port_manager).1;
      })
  acquire-IsShared available order now name port ctl given h =
      elim (acquire_outcome available order now name port ctl.port_manager given h.consistent) [
        | inl (e, refused) ↦ rw refused h
        | inr (unused, granted, c) ↦ rw granted (taken-IsShared now name port ctl c h)
      ]

  pub release-IsShared :
      (now port : ℕ) (ctl : GroupCtl)
      → ((id : ℕ) → is_busy (ctl.objects id) ≡ true → (ctl.objects id).real_port ≢ port)
      → IsShared allowed ctl
      → IsShared allowed (record ctl { port_manager = Ports.release now port ctl.port_manager })
  release-IsShared now port ctl foreign h = record {
    consistent = release-IsConsistent allowed now port ctl.port_manager h.consistent;
    used = λ j. ground (
      arith,
      h.used j,
      foreign j,
      ==_iff port (ctl.objects j).real_port,
      release-used_ports now port (ctl.objects j).real_port ctl.port_manager,
    );
    apart = λ j other. ground (arith, h.apart j other);
  }
