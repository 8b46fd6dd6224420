-- ===== src/HttpGroup/Orphans.antt =====
-- A proxy that registers on a group that has left the table meanwhile.
use frp.Prelude.{
  ℕ, ◌≡◌, refl, ap, ◌∙◌, String, str_eq_iff, Option, none, some, [], arith, ==_iff, Outcome, ok,
}
use frp.Routing.{Routers, RouterError, add_router}
use frp.Routing.Routes.{route_at, add_router-free}
use frp.HttpGroup.{
  HttpGroups, RouteConfig, Target, of_group, remove_func, enrol, first_register, register, leave,
  unregister,
}
use frp.HttpGroup.Routes.{IsRouted}
use frp.HttpGroup.Holds.{own_route, unregister-IsRouted}

module _ {F : Type 0} where
  -- What is left when the last proxy leaves.
  unregister_last :
      (name group : String) (id : ℕ) (ctl : HttpGroups F)
      → ctl.groups group ≡ some id
      → remove_func name (ctl.objects id).create_funcs ≡ []
      → ((unregister name group ctl).groups group ≡ none)
        × (((unregister name group ctl).objects id).create_funcs ≡ [])
  unfolding unregister leave
  unregister_last name group id ctl found last =
      rw (found, last, unregister, leave)
        (ground (arith, str_eq_iff group group), ground (arith, ==_iff id id))

  unregister_missing :
      (name group : String) (ctl : HttpGroups F)
      → ctl.groups group ≡ none
      → unregister name group ctl ≡ ctl
  unfolding unregister
  unregister_missing name group ctl missing = rw (missing, unregister) refl

  first_parts :
      (name group group_key : String) (c : RouteConfig F) (id : ℕ) (ctl : HttpGroups F)
      (o : Outcome RouterError (Unit {0})) (routers : Routers (Target F))
      → (ctl.objects id).create_funcs ≡ []
      → o ≡ ok tt
      → ((first_register name group group_key c id (o, routers) ctl).0 ≡ ok tt)
        × ((first_register name group group_key c id (o, routers) ctl).1.groups ≡ ctl.groups)
        × ((first_register name group group_key c id (o, routers) ctl).1.vhost_router ≡ routers)
  unfolding first_register enrol
  first_parts name group group_key c id ctl o routers empty done =
      rw (done, empty, first_register, enrol) (refl, refl, refl)

  -- The first registration on a group without proxies, if its route is free.
  register_first :
      (name group group_key : String) (c : RouteConfig F) (id : ℕ) (ctl : HttpGroups F)
      → (ctl.objects id).create_funcs ≡ []
      → (add_router c.domain c.location c.route_by_http_user (of_group id) ctl.vhost_router).0
        ≡ ok tt
      → ((register name group group_key c id ctl).0 ≡ ok tt)
        × ((register name group group_key c id ctl).1.groups ≡ ctl.groups)
        × ((register name group group_key c id ctl).1.vhost_router
            ≡ (add_router c.domain c.location c.route_by_http_user
                (of_group id)
                ctl.vhost_router).1)
  unfolding register
  register_first name group group_key c id ctl empty free =
      let (o, routers) =
        add_router c.domain c.location c.route_by_http_user (of_group id) ctl.vhost_router in
      rw (empty, register) (first_parts name group group_key c id ctl o routers empty free)

  -- If the last proxy of a group leaves between the look-up of the group and the registration of another
  -- proxy, and the route is free, then that proxy is registered and its route is served; but its own
  -- departure does nothing, and the route stays.
  pub register-route_leaked :
      (last name group group_key : String) (c : RouteConfig F) (id : ℕ) (ctl : HttpGroups F)
      → IsRouted ctl
      → ctl.groups group ≡ some id
      → remove_func last (ctl.objects id).create_funcs ≡ []
      → route_at (unregister last group ctl).vhost_router c.domain c.location c.route_by_http_user
        ≡ none
      → ((register name group group_key c id (unregister last group ctl)).0 ≡ ok tt)
        × (unregister name group (register name group group_key c id (unregister last group ctl)).1
            ≡ (register name group group_key c id (unregister last group ctl)).1)
        × (route_at
              (register name group group_key c id (unregister last group ctl)).1.vhost_router
              c.domain
              c.location
              c.route_by_http_user
            ≡ some (of_group id))
  register-route_leaked last name group group_key c id ctl h found only free =
      let now = unregister last group ctl in
      let (gone, empty) = unregister_last last group id ctl found only in
      let exact = (unregister-IsRouted last group ctl h).exact in
      let added =
        add_router-free now.vhost_router c.domain c.location c.route_by_http_user (of_group id) free
          exact in
      let (done, groups, routes) = register_first name group group_key c id now empty added.0 in
      (
        done,
        unregister_missing name group (register name group group_key c id now).1
            (ap (λ (m : String → Option ℕ). m group) groups ∙ gone),
        rw routes (
            own_route c.domain c.location c.route_by_http_user (of_group id) now.vhost_router free
              exact),
      )
