-- ===== src/Tests/Groups.antt =====
-- Two proxies that share the port 6000.
use frp.Prelude.{◌≡◌, refl, true, false, none, [], ok, err, arith}
use frp.Ports
use frp.Ports.{port_already_used}
use frp.Ports.Consistent.{new_manager-IsConsistent}
use frp.Group.{
  GroupCtl, Request, System, group_auth_failed, listen_failed, new_tcp_group_ctl, find_group,
  listen, close_listener,
}
use frp.Group.Shared.{is_busy}
use frp.Group.Joins.{listen-port_leaked}

abbrev sys : System
sys = record { available = λ p. true; order = []; now = 10; listens = true }

abbrev first : Request
first = record { proxy_name = "a"; group = "web"; group_key = "k"; addr = "0.0.0.0"; port = 6000 }

abbrev second : Request
second = record first { proxy_name = "b" }

abbrev stranger : Request
stranger = record first { proxy_name = "c"; group_key = "x" }

abbrev ctl : GroupCtl
ctl = (find_group "web" (new_tcp_group_ctl (Ports.new_manager []))).1

abbrev shared : GroupCtl
shared = (listen sys second 0 (listen sys first 0 ctl).1).1

joined : (listen sys second 0 (listen sys first 0 ctl).1).0 ≡ ok (1, 6000)
unfolding listen find_group Ports.acquire Ports.new_manager
joined = refl

refused : (listen sys stranger 0 shared).0 ≡ err group_auth_failed
unfolding listen find_group Ports.acquire Ports.new_manager
refused = refl

given_back :
    (close_listener 30 0 1 (close_listener 20 0 0 shared)).port_manager.free_ports 6000 ≡ true
unfolding close_listener listen find_group Ports.acquire Ports.release Ports.new_manager
given_back = refl

-- A look-up that was made before the last listener closed works on a group that left the map.
orphan_listens :
    (listen sys second 0 (close_listener 20 0 0 (listen sys first 0 ctl).1)).1.groups "web" ≡ none
unfolding close_listener listen find_group Ports.acquire Ports.release Ports.new_manager
orphan_listens = refl

orphan_is_closed :
    ((listen sys second 0 (close_listener 20 0 0 (listen sys first 0 ctl).1)).1.objects
      0).accept_closed
    ≡ true
unfolding close_listener listen find_group Ports.acquire Ports.release Ports.new_manager
orphan_is_closed = refl

abbrev deaf : System
deaf = record sys { listens = false }

listen-port_leaked_example :
    ((listen deaf first 0 ctl).0 ≡ err listen_failed)
    × (is_busy ((listen deaf first 0 ctl).1.objects 0) ≡ false)
    × ((Ports.acquire (λ p. true) [] 99 "b" 6000 (listen deaf first 0 ctl).1.port_manager).0
        ≡ err port_already_used)
unfolding find_group Ports.new_manager
listen-port_leaked_example =
    listen-port_leaked (Ports.allowed_ports []) deaf first 0 ctl (λ p. true) [] 99 "b" (omega arith)
      (new_manager-IsConsistent []) refl refl refl refl refl
