-- ===== src/Group.antt =====
-- TCPGroupCtl and TCPGroup of server/group/tcp.go: proxies of one group share a public port, which the
-- first of them acquires from the port manager. A group is an address of `objects`, because Listen looks
-- it up first and works on it later, when it may have left the map; so the two are two steps. A listener
-- is a number. What the port manager sees (`available`, `order`), the time, and whether the system lets
-- the port be listened on (`listens`) are arguments. Connections are left out.
pub mod Joins
pub mod Shared
use frp.Prelude.{
  ℕ, ◌+◌, String, str_eq, Bool, true, false, not, ◌||◌, ◌==◌, if◌then◌else◌, Option, none, some,
  List, [], ◌∷◌, ◌++◌, Outcome, ok, err, update, update_name,
}
use frp.Ports
use frp.Ports.{PortError}

pub data GroupError : Type 0 where
  group_auth_failed group_params_invalid group_different_port listen_failed : GroupError
  port_error : PortError → GroupError

pub record TcpGroup : Type 0 where
  pub group : String
  pub group_key : String
  pub addr : String
  pub port : ℕ
  pub real_port : ℕ
  pub accept_closed : Bool
  pub lns : List ℕ

pub record GroupCtl : Type 0 where
  pub groups : String → Option ℕ
  pub objects : ℕ → TcpGroup
  pub next : ℕ
  pub next_ln : ℕ
  pub port_manager : Ports.Manager

abbrev pub new_tcp_group : TcpGroup
new_tcp_group = record {
  group = "";
  group_key = "";
  addr = "";
  port = 0;
  real_port = 0;
  accept_closed = false;
  lns = [];
}

abbrev pub new_tcp_group_ctl : Ports.Manager → GroupCtl
new_tcp_group_ctl pm = record {
  groups = λ group. none;
  objects = λ id. new_tcp_group;
  next = 0;
  next_ln = 0;
  port_manager = pm;
}

-- TCPGroupCtl.Listen up to its unlock: the group of this name, made if there is none.
unfoldable pub find_group : String → GroupCtl → ℕ × GroupCtl
find_group group ctl = elim (ctl.groups group) [
  | some id ↦ (id, ctl)
  | none ↦ (
    ctl.next,
    record ctl {
      groups = update_name ctl.groups group (some ctl.next);
      objects = update ctl.objects ctl.next new_tcp_group;
      next = ctl.next + 1;
    },
  )
]

-- What a proxy asks of a group.
pub record Request : Type 0 where
  pub proxy_name : String
  pub group : String
  pub group_key : String
  pub addr : String
  pub port : ℕ

-- The system at the time of a Listen.
pub record System : Type 0 where
  pub available : ℕ → Bool
  pub order : List ℕ
  pub now : ℕ
  pub listens : Bool

-- The errors of a Listen on a group that has listeners.
abbrev pub check_request : TcpGroup → Request → Option GroupError
check_request tg r =
    if not (str_eq tg.group r.group) || not (str_eq tg.addr r.addr)
    then some group_params_invalid
    else if not (tg.port == r.port)
    then some group_different_port
    else if not (str_eq tg.group_key r.group_key)
    then some group_auth_failed
    else none

-- The first Listen, once its port is acquired.
unfoldable pub first_listen :
    Bool → Request → ℕ → Outcome PortError ℕ → GroupCtl → Outcome GroupError (ℕ × ℕ) × GroupCtl
first_listen listens r id (err e) ctl = (err (port_error e), ctl)
first_listen listens r id (ok real_port) ctl = if not listens then (err listen_failed, ctl) else (
  ok (ctl.next_ln, real_port),
  record ctl {
    objects = update ctl.objects id (record (ctl.objects id) {
      group = r.group;
      group_key = r.group_key;
      addr = r.addr;
      port = r.port;
      real_port = real_port;
      lns = ctl.next_ln ∷ [];
    });
    next_ln = ctl.next_ln + 1;
  },
)

-- A further Listen.
unfoldable pub join_listen : Request → ℕ → GroupCtl → Outcome GroupError (ℕ × ℕ) × GroupCtl
join_listen r id ctl =
    let tg = ctl.objects id in
    elim (check_request tg r) [
      | some e ↦ (err e, ctl)
      | none ↦ (
        ok (ctl.next_ln, tg.real_port),
        record ctl {
          objects = update ctl.objects id (record tg { lns = tg.lns ++ ctl.next_ln ∷ [] });
          next_ln = ctl.next_ln + 1;
        },
      )
    ]

-- TCPGroup.Listen: a listener and the port that it shares.
unfoldable pub listen : System → Request → ℕ → GroupCtl → Outcome GroupError (ℕ × ℕ) × GroupCtl
unfolding first_listen join_listen
listen sys r id ctl = elim (ctl.objects id).lns [
  | [] ↦
      let (acquired, pm) =
        Ports.acquire sys.available sys.order sys.now r.proxy_name r.port ctl.port_manager in
      first_listen sys.listens r id acquired (record ctl { port_manager = pm })
  | ◌∷◌ ln lns ↦ join_listen r id ctl
]

abbrev pub remove_ln : ℕ → List ℕ → List ℕ
remove_ln ln [] = []
remove_ln ln (l ∷ lns) = let rest = remove_ln ln lns in if l == ln then lns else l ∷ rest

-- TCPGroup.CloseListener
unfoldable pub close_listener : ℕ → ℕ → ℕ → GroupCtl → GroupCtl
close_listener now id ln ctl =
    let tg = ctl.objects id in
    elim (remove_ln ln tg.lns) [
      | [] ↦ record ctl {
        objects = update ctl.objects id (record tg { lns = []; accept_closed = true });
        port_manager = Ports.release now tg.real_port ctl.port_manager;
        groups = update_name ctl.groups tg.group none;
      }
      | ◌∷◌ l lns ↦ record ctl { objects = update ctl.objects id (record tg { lns = l ∷ lns }) }
    ]
