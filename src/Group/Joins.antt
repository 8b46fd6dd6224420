-- ===== src/Group/Joins.antt =====
-- What a proxy gets of a group, and when the port is given back.
use frp.Prelude.{
  List-cases, is_some, ℕ, ◌≡◌, ◌≢◌, refl, String, Bool, true, false, ==_iff, none, List, ◌∷◌, err,
  arith, inl, inr,
}
use frp.Ports
use frp.Ports.{PortError, port_already_used}
use frp.Ports.Consistent.{IsConsistent, take_port-IsConsistent}
use frp.Ports.Acquire.{acquire_given}
use frp.Group.{
  listen_failed, TcpGroup, GroupCtl, new_tcp_group_ctl, find_group, Request, System, first_listen,
  listen, close_listener,
}
use frp.Group.Shared.{is_busy}

-- The states after any steps of the groups and of the other proxies, which give their ports.
pub data Reach (allow : List ℕ) : GroupCtl → Type 0 where
  start : Reach allow (new_tcp_group_ctl (Ports.new_manager allow))
  find : (group : String) (ctl : GroupCtl) → Reach allow ctl → Reach allow (find_group group ctl).1
  listening :
      (sys : System) (r : Request) (id : ℕ) (ctl : GroupCtl)
      → r.port ≢ 0
      → Reach allow ctl
      → Reach allow (listen sys r id ctl).1
  closing :
      (now id ln : ℕ) (ctl : GroupCtl)
      → is_busy (ctl.objects id) ≡ true
      → Reach allow ctl
      → Reach allow (close_listener now id ln ctl)
  acquiring :
      (available : ℕ → Bool) (order : List ℕ) (now : ℕ) (name : String) (port : ℕ) (ctl : GroupCtl)
      → port ≢ 0
      → Reach allow ctl
      → Reach allow (record ctl {
        port_manager = (Ports.acquire available order now name port ctl.port_manager).1;
      })
  releasing :
      (now port : ℕ) (ctl : GroupCtl)
      → ((id : ℕ) → is_busy (ctl.objects id) ≡ true → (ctl.objects id).real_port ≢ port)
      → Reach allow ctl
      → Reach allow (record ctl { port_manager = Ports.release now port ctl.port_manager })

busy_or_idle : (tg : TcpGroup) (ln : ℕ) (lns : List ℕ) → tg.lns ≡ ln ∷ lns → is_busy tg ≡ false → ⊥
busy_or_idle tg ln lns e idle = cc (rw e at idle)

taken :
    (now : ℕ) (name : String) (port : ℕ) (pm : Ports.Manager)
    → is_some ((Ports.take_port now name port pm).used_ports port) ≡ true
unfolding Ports.take_port
taken now name port pm = ground (arith, ==_iff port port)

listen_refused :
    (allowed : ℕ → Bool) (sys : System) (r : Request) (id : ℕ) (ctl : GroupCtl)
    → r.port ≢ 0
    → IsConsistent allowed ctl.port_manager
    → is_busy (ctl.objects id) ≡ false
    → ctl.port_manager.used_ports r.port ≡ none
    → allowed r.port ≡ true
    → sys.available r.port ≡ true
    → sys.listens ≡ false
    → listen sys r id ctl ≡ (
      err listen_failed,
      record ctl { port_manager = Ports.take_port sys.now r.proxy_name r.port ctl.port_manager },
    )
unfolding listen
listen_refused allowed sys r id ctl given c idle unused allows there fails =
    let answer =
      acquire_given allowed sys.available sys.order sys.now r.proxy_name r.port ctl.port_manager
        given c in
    elim (List-cases (ctl.objects id).lns) [
      | inl none_left ↦
          rw (none_left, listen) (rw (answer, unused, allows, there, fails, first_listen) refl)
      | inr (ln, lns, some_left) ↦ absurd (busy_or_idle (ctl.objects id) ln lns some_left idle)
    ]

-- If the port of a group without listeners could be acquired and the system then refuses to listen on
-- it, Listen reports that and the group has no listener, yet the port is not released: the next Acquire
-- of it finds it used, whoever asks and whatever the system says by then.
pub listen-port_leaked :
    (allowed : ℕ → Bool) (sys : System) (r : Request) (id : ℕ) (ctl : GroupCtl)
    (available : ℕ → Bool) (order : List ℕ) (later : ℕ) (name : String)
    → r.port ≢ 0
    → IsConsistent allowed ctl.port_manager
    → is_busy (ctl.objects id) ≡ false
    → ctl.port_manager.used_ports r.port ≡ none
    → allowed r.port ≡ true
    → sys.available r.port ≡ true
    → sys.listens ≡ false
    → ((listen sys r id ctl).0 ≡ err listen_failed)
      × (is_busy ((listen sys r id ctl).1.objects id) ≡ false)
      × ((Ports.acquire available order later name r.port (listen sys r id ctl).1.port_manager).0
          ≡ err port_already_used)
listen-port_leaked allowed sys r id ctl available order later name given c idle unused allows there
      fails =
    let e = listen_refused allowed sys r id ctl given c idle unused allows there fails in
    let pm = Ports.take_port sys.now r.proxy_name r.port ctl.port_manager in
    let c' = take_port-IsConsistent allowed sys.now r.proxy_name r.port ctl.port_manager allows c in
    let answer = acquire_given allowed available order later name r.port pm given c' in
    rw e (refl, idle, rw answer (rw (taken sys.now r.proxy_name r.port ctl.port_manager) refl))
