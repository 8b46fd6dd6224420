-- ===== src/HttpGroup/Holds.antt =====
-- Every step keeps the routes of the http groups.
use frp.Prelude.{
  ℕ, ◌<◌, ◌≡◌, ◌≢◌, refl, ap, String, str_eq_iff, true, false, none, some, Option-cases, inl, inr,
  is_some, List, ◌∷◌, arith, ◌==◌, ==_iff, Outcome, ok, update, update_name, List-cases,
}
use frp.Routing.{Bytes, Routers, RouterError, add_router, del_router}
use frp.Routing.Exact.{same_bytes_iff}
use frp.Routing.Routes.{
  route_at, IsExact, del_router-route_at, del_router-IsExact, add_router-taken, add_router-free,
}
use frp.HttpGroup.{
  HttpGroup, HttpGroups, RouteConfig, Target, of_group, remove_func, remove_name, set_params,
  check_params, enrol, first_register, register, leave, unregister,
}
use frp.HttpGroup.Members.{IsMatched}
use frp.HttpGroup.Routes.{
  is_busy, IsRouted, place-IsRouted, enrol-IsRouted, leave-IsMatched, update-IsMatched,
}

module _ {F : Type 0} where
  -- A new route does not touch those of the groups.
  pub kept_routes :
      (d : String) (l : Bytes) (u : String) (payload : Target F) (ctl : HttpGroups F)
      → route_at ctl.vhost_router d l u ≡ none
      → IsRouted ctl
      → (j : ℕ) → is_busy (ctl.objects j) ≡ true
      → route_at
          (add_router d l u payload ctl.vhost_router).1
          (ctl.objects j).domain
          (ctl.objects j).location
          (ctl.objects j).route_by_http_user
        ≡ some (of_group j)
  kept_routes d l u payload ctl free h j busy =
      let g = ctl.objects j in
      let (done, exact, routes) = add_router-free ctl.vhost_router d l u payload free h.exact in
      let here = routes g.domain g.location g.route_by_http_user in
      let own = h.routed j busy in
      ground (
        arith,
        here,
        str_eq_iff d g.domain,
        str_eq_iff u g.route_by_http_user,
        same_bytes_iff l g.location,
      )

  pub own_route :
      (d : String) (l : Bytes) (u : String) (payload : Target F) (r : Routers (Target F))
      → route_at r d l u ≡ none
      → IsExact r
      → route_at (add_router d l u payload r).1 d l u ≡ some payload
  own_route d l u payload r free exact =
      let (done, kept, routes) = add_router-free r d l u payload free exact in
      let here = routes d l u in
      ground (arith, here, str_eq_iff d d, str_eq_iff u u, same_bytes_iff l l)

  first_ok :
      (name group group_key : String) (c : RouteConfig F) (id : ℕ) (ctl : HttpGroups F)
      (o : Outcome RouterError (Unit {0})) (routers : Routers (Target F))
      → o ≡ ok tt
      → IsRouted
          (enrol name c.create_conn_fn id
            (set_params group group_key c (ctl.objects id))
            (record ctl { vhost_router = routers })).1
      → IsRouted (first_register name group group_key c id (o, routers) ctl).1
  unfolding first_register
  first_ok name group group_key c id ctl o routers done h = rw done h

  first-IsRouted :
      (name group group_key : String) (c : RouteConfig F) (id : ℕ) (ctl : HttpGroups F)
      → c.domain ≢ ""
      → id < ctl.next
      → IsRouted ctl
      → IsRouted
          (first_register name group group_key c id
            (add_router c.domain c.location c.route_by_http_user (of_group id) ctl.vhost_router)
            ctl).1
  unfolding first_register
  first-IsRouted name group group_key c id ctl named made h =
      elim (Option-cases (route_at ctl.vhost_router c.domain c.location c.route_by_http_user)) [
        | inr (t, taken) ↦
            rw
              (add_router-taken ctl.vhost_router c.domain c.location c.route_by_http_user
                (of_group id) (ap is_some taken))
              h
        | inl free ↦
            let (done, exact, routes) =
              add_router-free ctl.vhost_router c.domain c.location c.route_by_http_user
                (of_group id) free h.exact in
            first_ok name group group_key c id ctl
              (add_router c.domain c.location c.route_by_http_user (of_group id) ctl.vhost_router).0
              (add_router c.domain c.location c.route_by_http_user (of_group id) ctl.vhost_router).1
              done
              (enrol-IsRouted name c.create_conn_fn id
                (set_params group group_key c (ctl.objects id))
                (add_router c.domain c.location c.route_by_http_user (of_group id)
                  ctl.vhost_router).1
                ctl (record { names = (h.matched id).names; distinct = (h.matched id).distinct })
                named made exact
                (own_route c.domain c.location c.route_by_http_user (of_group id) ctl.vhost_router
                  free h.exact)
                (λ j b other.
                  kept_routes c.domain c.location c.route_by_http_user (of_group id) ctl free h j b)
                h)
      ]

  pub register-IsRouted :
      (name group group_key : String) (c : RouteConfig F) (id : ℕ) (ctl : HttpGroups F)
      → c.domain ≢ ""
      → id < ctl.next
      → IsRouted ctl
      → IsRouted (register name group group_key c id ctl).1
  unfolding register
  register-IsRouted name group group_key c id ctl named made h =
      let g = ctl.objects id in
      elim (List-cases g.create_funcs) [
        | inl empty ↦
            rw (empty, register) (first-IsRouted name group group_key c id ctl named made h)
        | inr (f, fs, full) ↦
            let busy : is_busy g ≡ true = rw full refl in
            elim (Option-cases (check_params g group group_key c)) [
              | inr (e, refused) ↦ rw (full, refused, register) h
              | inl fits ↦
                  rw (full, fits, register)
                    (enrol-IsRouted name c.create_conn_fn id g ctl.vhost_router ctl (h.matched id)
                      (h.named id busy) made h.exact (h.routed id busy) (λ j b other. h.routed j b)
                      h)
            ]
      ]

  -- The route that an emptied group deletes is its own, or of no domain.
  others_stay :
      (id : ℕ) (ctl : HttpGroups F) (j : ℕ)
      → (is_busy (ctl.objects id) ≡ false → (ctl.objects id).domain ≡ "")
      → IsRouted ctl
      → (j == id) ≡ false
      → is_busy (ctl.objects j) ≡ true
      → route_at
          (del_router
            (ctl.objects id).domain
            (ctl.objects id).location
            (ctl.objects id).route_by_http_user
            ctl.vhost_router)
          (ctl.objects j).domain
          (ctl.objects j).location
          (ctl.objects j).route_by_http_user
        ≡ some (of_group j)
  others_stay id ctl j no_domain h other busy =
      let g = ctl.objects id in
      let o = ctl.objects j in
      let gone =
        del_router-route_at ctl.vhost_router g.domain g.location g.route_by_http_user o.domain
          o.location o.route_by_http_user in
      let own = h.routed id in
      let its = h.routed j busy in
      let name = h.named j busy in
      ground (
        arith,
        gone,
        own,
        no_domain,
        name,
        ==_iff j id,
        str_eq_iff g.domain o.domain,
        str_eq_iff g.route_by_http_user o.route_by_http_user,
        same_bytes_iff g.location o.location,
      )

  -- The last proxy leaves, and the group leaves the table.
  empty-IsRouted :
      (group : String) (id : ℕ) (left : HttpGroup F) (ctl : HttpGroups F)
      → ctl.groups group ≡ some id
      → is_busy left ≡ false
      → IsMatched left
      → IsRouted ctl
      → IsRouted (record ctl {
        groups = update_name ctl.groups group none;
        objects = update ctl.objects id left;
        vhost_router =
            del_router
              (ctl.objects id).domain
              (ctl.objects id).location
              (ctl.objects id).route_by_http_user
              ctl.vhost_router;
      })
  empty-IsRouted group id left ctl found empty m h =
      let g = ctl.objects id in
      record {
        exact =
            del_router-IsExact ctl.vhost_router g.domain g.location g.route_by_http_user h.exact;
        matched = update-IsMatched ctl.objects id left h.matched m;
        routed = λ j.
            let stays = others_stay id ctl j (h.idle group id found) h in
            ground (arith, stays, ==_iff j id, ==_iff id j);
        named = λ j. ground (arith, h.named j);
        idle = λ a j.
            ground (arith, h.idle a j, h.apart group a id found, str_eq_iff group a, ==_iff id j);
        made = λ a j. ground (arith, h.made a j);
        apart = λ a b j. ground (arith, h.apart a b j);
        busy_made = λ j. ground (arith, h.busy_made j);
      }

  busy_before :
      (name : String) (g : HttpGroup F) (f : String × F) (fs : List (String × F))
      → remove_func name g.create_funcs ≡ f ∷ fs
      → is_busy g ≡ true
  busy_before name g f fs h = elim (List-cases g.create_funcs) [
    | inl empty ↦ cc (ap (remove_func name) empty)
    | inr (e, es, full) ↦ rw full refl
  ]

  pub unregister-IsRouted :
      (name group : String) (ctl : HttpGroups F)
      → IsRouted ctl
      → IsRouted (unregister name group ctl)
  unfolding unregister leave
  unregister-IsRouted name group ctl h = elim (Option-cases (ctl.groups group)) [
    | inl missing ↦ rw (missing, unregister) h
    | inr (id, found) ↦
        let g = ctl.objects id in
        let m = leave-IsMatched name g (h.matched id) in
        elim (List-cases (remove_func name g.create_funcs)) [
          | inl none_left ↦
              rw (found, none_left, unregister, leave)
                (empty-IsRouted group id
                  (record g {
                    create_funcs = remove_func name g.create_funcs;
                    pxy_names = remove_name name g.pxy_names;
                  })
                  ctl found (rw none_left refl) m h)
          | inr (f, fs, some_left) ↦
              let busy = busy_before name g f fs some_left in
              rw (found, some_left, unregister, leave)
                (place-IsRouted id
                  (record g {
                    create_funcs = remove_func name g.create_funcs;
                    pxy_names = remove_name name g.pxy_names;
                  })
                  ctl.vhost_router ctl (rw some_left refl) m (h.named id busy) (h.busy_made id busy)
                  h.exact (h.routed id busy) (λ j b other. h.routed j b) h)
        ]
  ]
