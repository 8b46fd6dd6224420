-- ===== src/HttpGroup.antt =====
-- HTTPGroupController and HTTPGroup of server/group/http.go: http proxies of one group share a route of
-- the virtual host router, and requests go to them in turn. A group is an address of `objects`: Register
-- looks it up first and works on it later, when it may have left the map; so the two are two steps. `F`
-- is the type of the functions that connect to a proxy. A proxy outside of groups has a route of its own
-- in the same routers.
pub mod Turns
pub mod Routes
pub mod Members
pub mod Holds
pub mod Steps
pub mod Orphans
use frp.Prelude.{
  ℕ, ◌+◌, ◌-◌, ◌%◌, ◌^◌, ltb, ◌==◌, String, str_eq, Bool, true, false, not, ◌&&◌, ◌||◌,
  if◌then◌else◌, Option, none, some, List, [], ◌∷◌, ◌++◌, map, length, get_or, Outcome, ok, err,
  update, update_name,
}
use frp.Routing.{Bytes, same_bytes, Routers, RouterError, add_router, del_router}

pub data HttpGroupError : Type 0 where
  group_params_invalid group_auth_failed proxy_repeated : HttpGroupError
  router_error : RouterError → HttpGroupError

-- The payload of a route: the createConn of a group, or the function of a proxy without a group.
pub data Target (F : Type 0) : Type 0 where
  of_group : ℕ → Target F
  of_proxy : F → Target F

-- RouteConfig, as far as a group reads it.
pub record RouteConfig (F : Type 0) : Type 0 where
  pub domain : String
  pub location : Bytes
  pub route_by_http_user : String
  pub create_conn_fn : F

-- HTTPGroup; `create_funcs` is the map, in which a name stands once.
pub record HttpGroup (F : Type 0) : Type 0 where
  pub group : String
  pub group_key : String
  pub domain : String
  pub location : Bytes
  pub route_by_http_user : String
  pub create_funcs : List (String × F)
  pub pxy_names : List String
  pub index : ℕ

pub record HttpGroups (F : Type 0) : Type 0 where
  pub groups : String → Option ℕ
  pub objects : ℕ → HttpGroup F
  pub next : ℕ
  pub vhost_router : Routers (Target F)

abbrev pub remove_name : String → List String → List String
remove_name name [] = []
remove_name name (n ∷ names) =
    let rest = remove_name name names in if str_eq n name then names else n ∷ rest

-- What createConn answers with: a proxy's function, or an error. A conversion of the count of 2^63 or
-- more to an int is negative, and its remainder is no index: Go panics.
pub data Served (F : Type 0) : Type 0 where
  served_by : F → Served F
  no_function index_panic : Served F

module _ {F : Type 0} where
  abbrev pub new_http_group : HttpGroup F
  new_http_group = record {
    group = "";
    group_key = "";
    domain = "";
    location = [];
    route_by_http_user = "";
    create_funcs = [];
    pxy_names = [];
    index = 0;
  }

  abbrev pub new_http_groups : Routers (Target F) → HttpGroups F
  new_http_groups routers = record {
    groups = λ group. none;
    objects = λ id. new_http_group;
    next = 0;
    vhost_router = routers;
  }

  abbrev pub set_group : ℕ → HttpGroup F → HttpGroups F → HttpGroups F
  set_group id g ctl = record ctl { objects = update ctl.objects id g }

  -- HTTPGroupController.Register up to its unlock: the group of this name, made if there is none.
  unfoldable pub find_http_group : String → HttpGroups F → ℕ × HttpGroups F
  find_http_group group ctl = elim (ctl.groups group) [
    | some id ↦ (id, ctl)
    | none ↦ (
      ctl.next,
      record ctl {
        groups = update_name ctl.groups group (some ctl.next);
        objects = update ctl.objects ctl.next new_http_group;
        next = ctl.next + 1;
      },
    )
  ]

  abbrev pub find_func : String → List (String × F) → Option F
  find_func name [] = none
  find_func name ((n, f) ∷ funcs) = if str_eq n name then some f else find_func name funcs

  abbrev pub remove_func : String → List (String × F) → List (String × F)
  remove_func name [] = []
  remove_func name ((n, f) ∷ funcs) =
      let rest = remove_func name funcs in if str_eq n name then funcs else (n, f) ∷ rest

  -- The errors of a Register on a group that has proxies.
  abbrev pub check_params : HttpGroup F → String → String → RouteConfig F → Option HttpGroupError
  check_params g group group_key c =
      if not (str_eq g.group group)
        || not (str_eq g.domain c.domain)
        || not (same_bytes g.location c.location)
        || not (str_eq g.route_by_http_user c.route_by_http_user)
      then some group_params_invalid
      else if not (str_eq g.group_key group_key)
      then some group_auth_failed
      else none

  -- The end of Register, on the group as it is by then: the proxy becomes its last, once.
  unfoldable pub enrol :
      String → F → ℕ → HttpGroup F → HttpGroups F → Outcome HttpGroupError (Unit {0}) × HttpGroups F
  enrol name f id g ctl = elim (find_func name g.create_funcs) [
    | some old ↦ (err proxy_repeated, set_group id g ctl)
    | none ↦ (
      ok tt,
      set_group id
          (record g {
            create_funcs = g.create_funcs ++ (name, f) ∷ [];
            pxy_names = g.pxy_names ++ name ∷ [];
          })
          ctl,
    )
  ]

  -- A group for its first proxy.
  abbrev pub set_params : String → String → RouteConfig F → HttpGroup F → HttpGroup F
  set_params group group_key c g = record g {
    group = group;
    group_key = group_key;
    domain = c.domain;
    location = c.location;
    route_by_http_user = c.route_by_http_user;
  }

  -- The first proxy of a group, with the answer of the router.
  unfoldable pub first_register :
      String
      → String
      → String
      → RouteConfig F
      → ℕ
      → Outcome RouterError (Unit {0}) × Routers (Target F)
      → HttpGroups F
      → Outcome HttpGroupError (Unit {0}) × HttpGroups F
  unfolding enrol
  first_register name group group_key c id (err e, routers) ctl =
      (err (router_error e), record ctl { vhost_router = routers })
  first_register name group group_key c id (ok done, routers) ctl =
      enrol name c.create_conn_fn id (set_params group group_key c (ctl.objects id))
        (record ctl { vhost_router = routers })

  -- HTTPGroup.Register
  unfoldable pub register :
      String
      → String
      → String
      → RouteConfig F
      → ℕ
      → HttpGroups F
      → Outcome HttpGroupError (Unit {0}) × HttpGroups F
  unfolding first_register enrol
  register name group group_key c id ctl = elim (ctl.objects id).create_funcs [
    | [] ↦
        first_register name group group_key c id
          (add_router c.domain c.location c.route_by_http_user (of_group id) ctl.vhost_router) ctl
    | ◌∷◌ f fs ↦ elim (check_params (ctl.objects id) group group_key c) [
      | some e ↦ (err e, ctl)
      | none ↦ enrol name c.create_conn_fn id (ctl.objects id) ctl
    ]
  ]

  -- HTTPGroup.UnRegister: whether the group is empty now, and then its route is deleted.
  unfoldable pub leave : String → ℕ → HttpGroups F → Bool × HttpGroups F
  leave name id ctl =
      let g = ctl.objects id in
      let left = record g {
        create_funcs = remove_func name g.create_funcs;
        pxy_names = remove_name name g.pxy_names;
      } in
      elim left.create_funcs [
        | [] ↦ (
          true,
          record ctl {
            objects = update ctl.objects id left;
            vhost_router = del_router g.domain g.location g.route_by_http_user ctl.vhost_router;
          },
        )
        | ◌∷◌ f fs ↦ (false, set_group id left ctl)
      ]

  -- HTTPGroupController.UnRegister
  unfoldable pub unregister : String → String → HttpGroups F → HttpGroups F
  unfolding leave
  unregister name group ctl = elim (ctl.groups group) [
    | none ↦ ctl
    | some id ↦
        let (is_empty, left) = leave name id ctl in
        if is_empty then record left { groups = update_name left.groups group none } else left
  ]

  abbrev pub served : Option F → Served F
  served none = no_function
  served (some f) = served_by f

  -- The function of the name whose turn it is.
  unfoldable pub pick : ℕ → List String → List (String × F) → Served F
  pick new_index [] funcs = no_function
  pick new_index (n ∷ ns) funcs =
      if ltb new_index (2 ^ 63)
      then served (find_func (get_or (n ∷ ns) (new_index % length (n ∷ ns)) "") funcs)
      else if (2 ^ 64 - new_index) % length (n ∷ ns) == 0
      then served (find_func n funcs)
      else index_panic

  -- HTTPGroup.createConn, up to the call of the function.
  unfoldable pub create_conn : HttpGroup F → Served F × HttpGroup F
  unfolding pick
  create_conn g =
      let new_index = (g.index + 1) % 2 ^ 64 in
      (pick new_index g.pxy_names g.create_funcs, record g { index = new_index })
