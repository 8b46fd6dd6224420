-- ===== src/Tests/Managers.antt =====
-- A reload of frpc, with a proxy that changes, one that goes and one that comes.
use frp.Prelude.{
  str_eq_iff, ==_iff, str_eq_refl, update_name, ◌≡◌, refl, String, str_eq, ◌&&◌, ◌==◌, Option, none,
  some, if◌then◌else◌, List, [], ◌∷◌, true, ℕ, arith,
}
use frp.Client.Wrapper.{
  Message, takes_work_conn, new_proxy, close_proxy, new_wrapper, set_running_status, stop,
  check_round,
}
use frp.Client.Manager.{
  ProxyConf, Held, named, new_held, reload, start_proxy, handle_work_conn, close,
}
use frp.Client.Manager.Reloaded.{Covers}
use frp.Client.Manager.Told.{IsNamed, is_told, reload_lem}
use frp.Client.Manager.Again.{reload_again}
use frp.Client.Manager.Heard.{heard, IsHeard}
use frp.Client.Manager.Open.{Reach, Reach-IsHeard, start, reloading, checking}

record Conf : Type 0 where
  proxy_name : String
  remote_port : ℕ

abbrev conf : ProxyConf Conf
conf = record {
  compare = λ a b. str_eq a.proxy_name b.proxy_name && (a.remote_port == b.remote_port);
  proxy_name = λ c. c.proxy_name;
  health_check_type = λ c. "";
}

abbrev ssh : ℕ → Conf
ssh port = record { proxy_name = "ssh"; remote_port = port }

abbrev web : Conf
web = record { proxy_name = "web"; remote_port = 8080 }

abbrev old_cfgs : String → Option Conf
old_cfgs name = if str_eq "ssh" name then some (ssh 6000) else none

abbrev new_cfgs : String → Option Conf
new_cfgs name =
    if str_eq "ssh" name then some (ssh 6001) else if str_eq "web" name then some web else none

abbrev nothing : String → Option (Held Conf)
nothing name = none

abbrev loaded : String → Option (Held Conf)
loaded name = if str_eq "ssh" name then some (new_held conf (ssh 6000)) else none

abbrev names : List String
names = "web" ∷ "ssh" ∷ []

told : (reload conf new_cfgs names names loaded).1 ≡ ("ssh", close_proxy) ∷ []
unfolding reload new_held new_wrapper stop
told = refl

old_cfgs-Covers : Covers ("ssh" ∷ []) old_cfgs
old_cfgs-Covers n h = ground arith

new_cfgs-Covers : Covers names new_cfgs
new_cfgs-Covers n h = ground arith

loaded-Covers : Covers names loaded
loaded-Covers n h = ground arith

loaded-IsNamed : IsNamed loaded
unfolding new_held new_wrapper
loaded-IsNamed n p h = ground (arith, str_eq_iff "ssh" n)

-- ssh is replaced, and closed at frps.
reload_lem_example :
    ((reload conf new_cfgs names names loaded).0 "ssh" ≡ some (new_held conf (ssh 6001)))
    × (is_told "ssh" (reload conf new_cfgs names names loaded).1 ≡ true)
unfolding new_held
reload_lem_example =
    reload_lem conf new_cfgs names names "ssh" loaded loaded-Covers new_cfgs-Covers loaded-IsNamed

conf-reflexive : (c : Conf) → conf.compare c c ≡ true
conf-reflexive c = ground (arith, str_eq_refl c.proxy_name, ==_iff c.remote_port c.remote_port)

reload_again_example :
    reload conf new_cfgs ("ssh" ∷ []) [] (reload conf new_cfgs names names loaded).0
    ≡ ((reload conf new_cfgs names names loaded).0, [])
reload_again_example =
    reload_again conf new_cfgs names names ("ssh" ∷ []) [] loaded loaded-Covers new_cfgs-Covers
      conf-reflexive

old_cfgs-named :
    (name : String) (cfg : Conf) → old_cfgs name ≡ some cfg → conf.proxy_name cfg ≡ name
old_cfgs-named name cfg h = ground (arith, str_eq_iff "ssh" name)

-- ssh is loaded, asks for its start and gets it.
abbrev first : (String → Option (Held Conf)) × List (String × Message)
first = reload conf old_cfgs [] ("ssh" ∷ []) nothing

first-Reach : Reach conf first.0 (heard first.1 (λ name. none))
first-Reach = reloading old_cfgs [] ("ssh" ∷ []) nothing (λ name. none) old_cfgs-named start

abbrev waiting : String → Option (Held Conf)
waiting =
    update_name first.0 "ssh"
      (some (record { cfg = ssh 6000; wrapper = (check_round 100 (new_wrapper "ssh" "")).0 }))

abbrev asked : String → Option Message
asked = heard (named (check_round 100 (new_wrapper "ssh" ""))) (heard first.1 (λ name. none))

first_ssh : first.0 "ssh" ≡ some (record { cfg = ssh 6000; wrapper = new_wrapper "ssh" "" })
unfolding reload new_held
first_ssh = refl

waiting-Reach : Reach conf waiting asked
waiting-Reach =
    checking 100 "ssh" (record { cfg = ssh 6000; wrapper = new_wrapper "ssh" "" }) first.0
      (heard first.1 (λ name. none)) first_ssh first-Reach

asked_ssh : asked "ssh" ≡ some new_proxy
unfolding reload new_wrapper check_round
asked_ssh = refl

Reach-IsHeard_example : IsHeard waiting asked
Reach-IsHeard_example = Reach-IsHeard conf waiting-Reach

running_ssh :
    handle_work_conn "ssh" (start_proxy 101 "ssh" "127.0.0.1:6000" "" none waiting).0 ≡ true
unfolding handle_work_conn start_proxy set_running_status takes_work_conn new_wrapper check_round
running_ssh = refl

closing_all :
    (close names (start_proxy 101 "ssh" "127.0.0.1:6000" "" none waiting).0).1
    ≡ ("ssh", close_proxy) ∷ []
unfolding close start_proxy set_running_status stop new_wrapper check_round reload
closing_all = refl
