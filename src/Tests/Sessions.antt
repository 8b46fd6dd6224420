-- ===== src/Tests/Sessions.antt =====
-- Two clients that register proxies, with at most two ports each.
use frp.Prelude.{◌≡◌, refl, none, ok, err}
use frp.Control.{
  Proxy, Server, exceed_max_ports, name_in_use, new_server, reserve_ports, add_proxy,
  register_proxy, stop_control,
}
use frp.Control.Sound.{IsSound, Reach, start, reserve, add, stop, Reach-IsSound}
use frp.Control.Limits.{SameServer, answer, register_proxy-answer, register_proxy_refused}

abbrev ssh : Proxy
ssh = record { name = "ssh"; used_ports_num = 1 }

abbrev web : Proxy
web = record { name = "web"; used_ports_num = 0 }

abbrev wide : Proxy
wide = record { name = "wide"; used_ports_num = 2 }

-- Client 0 has registered ssh, and client 1 works on a proxy of the same name.
abbrev working : Server
working =
    (reserve_ports 2 1 (ok ssh)
      (add_proxy 2 0 ssh (ok ":6000") (reserve_ports 2 0 (ok ssh) new_server).1).1).1

working-Reach : Reach 2 working
unfolding reserve_ports add_proxy
working-Reach =
    reserve 1 (ok ssh) _ refl refl
      (add 0 ssh (ok ":6000") _ refl refl (reserve 0 (ok ssh) _ refl refl start))

stopped : Server
stopped = stop_control 0 (add_proxy 2 1 ssh (ok ":6001") working).1

Reach-IsSound_example : IsSound 2 (stop_control 0 (add_proxy 2 1 ssh (ok ":6001") working).1)
unfolding reserve_ports add_proxy
Reach-IsSound_example = Reach-IsSound 2 (
    stop 0 (add_proxy 2 1 ssh (ok ":6001") working).1 refl refl
      (add 1 ssh (ok ":6001") working refl refl working-Reach))

-- The name is free again once its client is stopped.
freed : stopped.pxys "ssh" ≡ none
unfolding stopped stop_control reserve_ports add_proxy
freed = refl

abbrev registered : Server
registered = (register_proxy 2 0 (ok ssh) (ok ":6000") new_server).1

register_proxy-answer_example :
    (register_proxy 2 0 (ok wide) (ok ":7000") registered).0
    ≡ answer 2 wide (ok ":7000") 0 registered
register_proxy-answer_example = register_proxy-answer 2 0 wide (ok ":7000") registered

refused : (register_proxy 2 0 (ok wide) (ok ":7000") registered).0 ≡ err exceed_max_ports
unfolding register_proxy
refused = refl

register_proxy_refused_example :
    SameServer registered (register_proxy 2 1 (ok ssh) (ok ":6001") registered).1
unfolding register_proxy
register_proxy_refused_example =
    register_proxy_refused 2 1 (ok ssh) (ok ":6001") registered name_in_use refl refl
