-- ===== src/Tests/HttpGroups.antt =====
-- A group of two http proxies.
use frp.Prelude.{
  ℕ, ◌+◌, ◌^◌, ◌≡◌, ◌≢◌, refl, str_eq_iff, Bool, false, ◌==◌, some, [], ◌∷◌, arith, ok, err,
  count_if,
}
use frp.Routing.{del_router, add_router, new_routers}
use frp.Routing.Routes.{route_at}
use frp.HttpGroup.{
  HttpGroup, HttpGroups, RouteConfig, of_group, Served, served_by, no_function, index_panic,
  new_http_groups, find_http_group, register, unregister, create_conn, group_auth_failed, pick,
}
use frp.HttpGroup.Routes.{IsRouted}
use frp.HttpGroup.Steps.{Reach, start, finding, registering, Reach-IsRouted}
use frp.HttpGroup.Turns.{turns, turns_fair}
use frp.HttpGroup.Orphans.{register-route_leaked}

abbrev route : ℕ → RouteConfig ℕ
route f = record {
  domain = "a.org";
  location = b'/' ∷ [];
  route_by_http_user = "";
  create_conn_fn = f;
}

abbrev found : HttpGroups ℕ
found = (find_http_group "web" (new_http_groups new_routers)).1

abbrev one : HttpGroups ℕ
one = (register "a" "web" "key" (route 7) 0 found).1

abbrev two : HttpGroups ℕ
two = (register "b" "web" "key" (route 8) 0 one).1

domain_set : (route 7).domain ≢ ""
domain_set = ground (arith, str_eq_iff "a.org" "")

one-Reach : Reach one
unfolding find_http_group
one-Reach =
    registering "a" "web" "key" (route 7) 0 found domain_set (omega arith)
      (finding "web" (new_http_groups new_routers) start)

Reach-IsRouted_example : IsRouted one
Reach-IsRouted_example = Reach-IsRouted one-Reach

wrong_key : (register "b" "web" "other" (route 8) 0 one).0 ≡ err group_auth_failed
unfolding register find_http_group add_router
wrong_key = refl

in_turn : turns 4 (two.objects 0) ≡ served_by 8 ∷ served_by 7 ∷ served_by 8 ∷ served_by 7 ∷ []
unfolding turns create_conn register find_http_group add_router
in_turn = refl

-- After 2^63 requests the next one panics.
overflow : pick {F = ℕ} (2 ^ 63 + 1) ("a" ∷ "b" ∷ []) (("a", 7) ∷ ("b", 8) ∷ []) ≡ index_panic
unfolding pick
overflow = refl

abbrev pair : HttpGroup ℕ
pair = record {
  group = "web";
  group_key = "key";
  domain = "a.org";
  location = b'/' ∷ [];
  route_by_http_user = "";
  create_funcs = ("a", 7) ∷ ("b", 8) ∷ [];
  pxy_names = "a" ∷ "b" ∷ [];
  index = 5;
}

abbrev is_eight : Served ℕ → Bool
is_eight (served_by f) = f == 8
is_eight no_function = false
is_eight index_panic = false

turns_fair_example : count_if is_eight (turns 2 pair) ≡ 1
turns_fair_example =
    turns_fair is_eight pair (record { names = refl; distinct = (refl, (refl, tt)) }) (omega arith)
      (omega arith)

register-route_leaked_example :
    ((register "b" "web" "key" (route 8) 0 (unregister "a" "web" one)).0 ≡ ok tt)
    × (unregister "b" "web" (register "b" "web" "key" (route 8) 0 (unregister "a" "web" one)).1
        ≡ (register "b" "web" "key" (route 8) 0 (unregister "a" "web" one)).1)
    × (route_at
          (register "b" "web" "key" (route 8) 0 (unregister "a" "web" one)).1.vhost_router
          "a.org"
          (b'/' ∷ [])
          ""
        ≡ some (of_group 0))
unfolding find_http_group register add_router unregister del_router
register-route_leaked_example =
    register-route_leaked "a" "b" "web" "key" (route 8) 0 one (Reach-IsRouted one-Reach) refl refl
      refl
