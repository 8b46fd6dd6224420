-- ===== src/Routing/Routes.antt =====
-- The routers seen as a map from a domain, a location and a user.
use frp.Prelude.{
  ◌≡◌, refl, ap, ◌∙◌, String, str_eq, str_eq_iff, Bool, true, false, ◌&&◌, if◌then◌else◌, Option,
  none, some, List, [], ◌∷◌, ◌++◌, arith, Bool-cases, Option-cases, inl, inr, is_some, ok, err,
}
use frp.Routing.{
  same_bytes, Bytes, Router, router_config_conflict, Routers, put_routers, sort_routers,
  has_location, or_nil, add_router, without_location, del_router,
}
use frp.Routing.Exact.{
  same_bytes_iff, find_exact, IsDistinct, sort-IsDistinct, find_exact-sort, append-IsDistinct,
  find_exact-append,
}

abbrev pub same_route : String → Bytes → String → String → Bytes → String → Bool
same_route d l u domain location user = str_eq d domain && str_eq u user && same_bytes l location

module _ {A : Type 0} where
  has_location-find_exact :
      (l : Bytes) (vrs : List (Router A)) → has_location l vrs ≡ is_some (find_exact l vrs)
  unfolding has_location
  has_location-find_exact l [] = refl
  has_location-find_exact l (v ∷ vrs) = ground (
    arith,
    has_location-find_exact l vrs,
    same_bytes_iff l v.location,
    same_bytes_iff v.location l,
  )

  find_exact-without :
      (l m : Bytes) (vrs : List (Router A))
      → find_exact l (without_location m vrs) ≡ (if same_bytes m l then none else find_exact l vrs)
  unfolding without_location
  find_exact-without l m [] = ground arith
  find_exact-without l m (v ∷ vrs) = ground (
    arith,
    find_exact-without l m vrs,
    same_bytes_iff m l,
    same_bytes_iff v.location l,
    same_bytes_iff v.location m,
  )

  without_absent :
      (l m : Bytes) (vrs : List (Router A))
      → has_location l vrs ≡ false
      → has_location l (without_location m vrs) ≡ false
  unfolding has_location without_location
  without_absent l m [] h = refl
  without_absent l m (v ∷ vrs) h = ground (arith, without_absent l m vrs)

  without-IsDistinct :
      (m : Bytes) (vrs : List (Router A)) → IsDistinct vrs → IsDistinct (without_location m vrs)
  unfolding without_location
  without-IsDistinct m [] h = tt
  without-IsDistinct m (v ∷ vrs) (first, h) = elim (Bool-cases (same_bytes v.location m)) [
    | inl gone ↦ rw gone (without-IsDistinct m vrs h)
    | inr stays ↦ rw stays (without_absent v.location m vrs first, without-IsDistinct m vrs h)
  ]

  -- The payload of a route.
  abbrev pub route_at : Routers A → String → Bytes → String → Option A
  route_at r domain location user = find_exact location (or_nil (r.index_by_domain domain user))

  -- Under one domain and user, no location stands twice.
  abbrev pub IsExact : Routers A → Type 0
  IsExact r = (domain user : String) → IsDistinct (or_nil (r.index_by_domain domain user))

  put_routers-route_at :
      (r : Routers A) (d u : String) (vrs : List (Router A)) (domain : String) (location : Bytes)
      (user : String)
      → route_at (put_routers r d u vrs) domain location user ≡ (
          if str_eq d domain && str_eq u user
          then find_exact location vrs
          else route_at r domain location user)
  put_routers-route_at r d u vrs domain location user = ground arith

  put_routers-IsExact :
      (r : Routers A) (d u : String) (vrs : List (Router A))
      → IsDistinct vrs
      → IsExact r
      → IsExact (put_routers r d u vrs)
  put_routers-IsExact r d u vrs h exact domain user =
      elim (Bool-cases (str_eq d domain && str_eq u user)) [
        | inl same ↦ rw same h
        | inr other ↦ rw other (exact domain user)
      ]

  pub del_router-route_at :
      (r : Routers A) (d : String) (l : Bytes) (u : String) (domain : String) (location : Bytes)
      (user : String)
      → route_at (del_router d l u r) domain location user
        ≡ (if same_route d l u domain location user then none else route_at r domain location user)
  unfolding del_router
  del_router-route_at r d l u domain location user = elim (Option-cases (r.index_by_domain d u)) [
    | inl missing ↦ ground (arith, str_eq_iff d domain, str_eq_iff u user)
    | inr (vrs, found) ↦
        let cut = find_exact-without location l vrs in
        ground (arith, cut, str_eq_iff d domain, str_eq_iff u user)
  ]

  pub del_router-IsExact :
      (r : Routers A) (d : String) (l : Bytes) (u : String)
      → IsExact r
      → IsExact (del_router d l u r)
  unfolding del_router
  del_router-IsExact r d l u exact = elim (Option-cases (r.index_by_domain d u)) [
    | inl missing ↦ rw (missing, del_router) exact
    | inr (vrs, found) ↦
        rw (found, del_router)
          (put_routers-IsExact r d u (without_location l vrs)
            (without-IsDistinct l vrs (rw found at (exact d u))) exact)
  ]

  -- A route that is there is not replaced.
  pub add_router-taken :
      (r : Routers A) (d : String) (l : Bytes) (u : String) (payload : A)
      → is_some (route_at r d l u) ≡ true
      → add_router d l u payload r ≡ (err router_config_conflict, r)
  unfolding add_router
  add_router-taken r d l u payload h =
      rw (has_location-find_exact l (or_nil (r.index_by_domain d u)), h) refl

  -- A route that is not there is added, and the others stay.
  pub add_router-free :
      (r : Routers A) (d : String) (l : Bytes) (u : String) (payload : A)
      → route_at r d l u ≡ none
      → IsExact r
      → ((add_router d l u payload r).0 ≡ ok tt)
        × IsExact (add_router d l u payload r).1
        × ((domain : String) (location : Bytes) (user : String)
            → route_at (add_router d l u payload r).1 domain location user ≡ (
                if same_route d l u domain location user
                then some payload
                else route_at r domain location user))
  unfolding add_router
  add_router-free r d l u payload free exact =
      let vrs = or_nil (r.index_by_domain d u) in
      let v : Router A = record { domain = d; location = l; http_user = u; payload = payload } in
      let new : has_location l vrs ≡ false = has_location-find_exact l vrs ∙ ap is_some free in
      let distinct = append-IsDistinct vrs v new (exact d u) in
      rw new (
        refl,
        put_routers-IsExact r d u (sort_routers (vrs ++ v ∷ []))
            (sort-IsDistinct (vrs ++ v ∷ []) distinct) exact,
        λ domain location user.
            let sorted = find_exact-sort location (vrs ++ v ∷ []) distinct in
            let added = find_exact-append location vrs v new in
            ground (arith, sorted, added, str_eq_iff d domain, str_eq_iff u user),
      )
