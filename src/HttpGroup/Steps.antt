-- ===== src/HttpGroup/Steps.antt =====
-- The states of the http groups and of the routes beside them.
use frp.Prelude.{
  ℕ, ◌<◌, ◌≡◌, ◌≢◌, refl, ap, String, str_eq_iff, true, some, Option-cases, inl, inr, is_some,
  arith, ==_iff, update,
}
use frp.Routing.{Bytes, Routers, new_routers, add_router, del_router}
use frp.Routing.Exact.{same_bytes_iff}
use frp.Routing.Routes.{
  route_at, IsExact, del_router-route_at, del_router-IsExact, add_router-taken, add_router-free,
}
use frp.HttpGroup.{
  HttpGroups, RouteConfig, Target, of_group, of_proxy, new_http_groups, find_http_group, register,
  unregister, create_conn,
}
use frp.HttpGroup.Routes.{is_busy, IsRouted, update-IsMatched, find_http_group-IsRouted}
use frp.HttpGroup.Holds.{kept_routes, register-IsRouted, unregister-IsRouted}

-- The states after any steps. A group is registered to after it was found, and may have left the table
-- since; other proxies add routes, and delete their own.
pub data Reach {F : Type 0} : HttpGroups F → Type 0 where
  start : Reach (new_http_groups new_routers)
  finding : (group : String) (ctl : HttpGroups F) → Reach ctl → Reach (find_http_group group ctl).1
  registering :
      (name group group_key : String) (c : RouteConfig F) (id : ℕ) (ctl : HttpGroups F)
      → c.domain ≢ ""
      → id < ctl.next
      → Reach ctl
      → Reach (register name group group_key c id ctl).1
  unregistering :
      (name group : String) (ctl : HttpGroups F) → Reach ctl → Reach (unregister name group ctl)
  serving :
      (id : ℕ) (ctl : HttpGroups F)
      → Reach ctl
      → Reach (record ctl { objects = update ctl.objects id (create_conn (ctl.objects id)).1 })
  routing :
      (domain : String) (location : Bytes) (user : String) (f : F) (ctl : HttpGroups F)
      → Reach ctl
      → Reach (record ctl {
        vhost_router = (add_router domain location user (of_proxy f) ctl.vhost_router).1;
      })
  unrouting :
      (domain : String) (location : Bytes) (user : String) (f : F) (ctl : HttpGroups F)
      → route_at ctl.vhost_router domain location user ≡ some (of_proxy f)
      → Reach ctl
      → Reach (record ctl { vhost_router = del_router domain location user ctl.vhost_router })

module _ {F : Type 0} where
  -- Other routes take the place of the routes, and those of the groups stay.
  reroute-IsRouted :
      (routers : Routers (Target F)) (ctl : HttpGroups F)
      → IsExact routers
      → ((j : ℕ)
          → is_busy (ctl.objects j) ≡ true
          → route_at routers
              (ctl.objects j).domain
              (ctl.objects j).location
              (ctl.objects j).route_by_http_user
            ≡ some (of_group j))
      → IsRouted ctl
      → IsRouted (record ctl { vhost_router = routers })
  reroute-IsRouted routers ctl exact routed h = record {
    exact = exact;
    matched = h.matched;
    routed = routed;
    named = h.named;
    idle = h.idle;
    made = h.made;
    apart = h.apart;
    busy_made = h.busy_made;
  }

  routing-IsRouted :
      (domain : String) (location : Bytes) (user : String) (f : F) (ctl : HttpGroups F)
      → IsRouted ctl
      → IsRouted (record ctl {
        vhost_router = (add_router domain location user (of_proxy f) ctl.vhost_router).1;
      })
  routing-IsRouted domain location user f ctl h =
      elim (Option-cases (route_at ctl.vhost_router domain location user)) [
        | inr (t, taken) ↦
            rw
              (add_router-taken ctl.vhost_router domain location user (of_proxy f)
                (ap is_some taken))
              h
        | inl free ↦
            reroute-IsRouted (add_router domain location user (of_proxy f) ctl.vhost_router).1 ctl
              (add_router-free ctl.vhost_router domain location user (of_proxy f) free h.exact).1
              (kept_routes domain location user (of_proxy f) ctl free h) h
      ]

  unrouting-IsRouted :
      (domain : String) (location : Bytes) (user : String) (f : F) (ctl : HttpGroups F)
      → route_at ctl.vhost_router domain location user ≡ some (of_proxy f)
      → IsRouted ctl
      → IsRouted (record ctl { vhost_router = del_router domain location user ctl.vhost_router })
  unrouting-IsRouted domain location user f ctl own h =
      reroute-IsRouted (del_router domain location user ctl.vhost_router) ctl
        (del_router-IsExact ctl.vhost_router domain location user h.exact)
        (λ j busy.
          let g = ctl.objects j in
          let gone =
            del_router-route_at ctl.vhost_router domain location user g.domain g.location
              g.route_by_http_user in
          let its = h.routed j busy in
          ground (
            arith,
            gone,
            own,
            its,
            str_eq_iff domain g.domain,
            str_eq_iff user g.route_by_http_user,
            same_bytes_iff location g.location,
          ))
        h

  serving-IsRouted :
      (id : ℕ) (ctl : HttpGroups F)
      → IsRouted ctl
      → IsRouted (record ctl { objects = update ctl.objects id (create_conn (ctl.objects id)).1 })
  unfolding create_conn
  serving-IsRouted id ctl h =
      let m = h.matched id in
      record {
        exact = h.exact;
        matched =
            update-IsMatched ctl.objects id (create_conn (ctl.objects id)).1 h.matched
              (record { names = m.names; distinct = m.distinct });
        routed = λ j. ground (arith, h.routed j, ==_iff id j);
        named = λ j. ground (arith, h.named j, ==_iff id j);
        idle = λ a j. ground (arith, h.idle a j, ==_iff id j);
        made = h.made;
        apart = h.apart;
        busy_made = λ j. ground (arith, h.busy_made j, ==_iff id j);
      }

-- However look-ups of groups, registrations on groups that may be gone since, departures, requests and
-- the routes of other proxies follow one another, as long as no domain is empty and a proxy outside of
-- groups deletes only its own route: every group with proxies has its route, which leads to it, so two
-- of them have different routes; it holds one function for each of its names; and a group in the table
-- is there under one name.
pub Reach-IsRouted : {F : Type 0} {ctl : HttpGroups F} → Reach ctl → IsRouted ctl
Reach-IsRouted start = record {
  exact = λ domain user. tt;
  matched = λ id. record { names = refl; distinct = tt };
  routed = λ id busy. cc;
  named = λ id busy. cc;
  idle = λ group id found. cc;
  made = λ group id found. cc;
  apart = λ group other id found also. cc;
  busy_made = λ id busy. cc;
}
Reach-IsRouted (finding group ctl r) = find_http_group-IsRouted group ctl (Reach-IsRouted r)
Reach-IsRouted (registering name group group_key c id ctl named made r) =
    register-IsRouted name group group_key c id ctl named made (Reach-IsRouted r)
Reach-IsRouted (unregistering name group ctl r) =
    unregister-IsRouted name group ctl (Reach-IsRouted r)
Reach-IsRouted (serving id ctl r) = serving-IsRouted id ctl (Reach-IsRouted r)
Reach-IsRouted (routing domain location user f ctl r) =
    routing-IsRouted domain location user f ctl (Reach-IsRouted r)
Reach-IsRouted (unrouting domain location user f ctl own r) =
    unrouting-IsRouted domain location user f ctl own (Reach-IsRouted r)
