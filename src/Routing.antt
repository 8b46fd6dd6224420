-- ===== src/Routing.antt =====
-- Routers of pkg/util/vhost/router.go, and the search of getListener (pkg/util/vhost/vhost.go) and
-- getVhost (pkg/util/vhost/http.go). The map of maps is a function from a domain and an HTTP user to
-- the routers of both, `none` where either key is missing. Locations and paths are lists of bytes. A
-- host name is given by its labels, as strings.Split makes them. `sort.Sort` is insertion sort: the
-- locations of a list differ, so every sort gives the same list.
pub mod Order
pub mod Sorted
pub mod Search
pub mod Exact
pub mod Routes
use frp.Prelude.{
  ℕ, String, ◌⋅◌, str_eq, Bool, true, false, ◌&&◌, ltb, ◌==◌, if◌then◌else◌, Option, none, some,
  List, [], ◌∷◌, ◌++◌, Outcome, ok, err,
}

abbrev pub Bytes : Type 0
Bytes = List ℕ

-- strings.Compare(a, b) < 0
unfoldable pub less : Bytes → Bytes → Bool
less [] [] = false
less [] (y ∷ b) = true
less (x ∷ a) [] = false
less (x ∷ a) (y ∷ b) = if ltb x y then true else if ltb y x then false else less a b

unfoldable pub same_bytes : Bytes → Bytes → Bool
same_bytes [] [] = true
same_bytes [] (y ∷ b) = false
same_bytes (x ∷ a) [] = false
same_bytes (x ∷ a) (y ∷ b) = x == y && same_bytes a b

-- strings.HasPrefix
unfoldable pub has_prefix : Bytes → Bytes → Bool
has_prefix path [] = true
has_prefix [] (y ∷ b) = false
has_prefix (x ∷ path) (y ∷ b) = x == y && has_prefix path b

pub data RouterError : Type 0 where
  router_config_conflict : RouterError

pub record Router (A : Type 0) : Type 0 where
  pub domain : String
  pub location : Bytes
  pub http_user : String
  pub payload : A

pub record Routers (A : Type 0) : Type 0 where
  pub index_by_domain : String → String → Option (List (Router A))

module _ {A : Type 0} where
  abbrev pub new_routers : Routers A
  new_routers = record { index_by_domain = λ domain user. none }

  abbrev pub put_routers : Routers A → String → String → List (Router A) → Routers A
  put_routers r domain user vrs = record {
    index_by_domain =
        λ d u. if str_eq domain d && str_eq user u then some vrs else r.index_by_domain d u;
  }

  -- `sort.Sort(sort.Reverse(ByLocation(vrs)))`: greatest location first.
  unfoldable pub insert_router : Router A → List (Router A) → List (Router A)
  unfolding less
  insert_router v [] = v ∷ []
  insert_router v (w ∷ vrs) =
      let later = w ∷ insert_router v vrs in
      if less v.location w.location then later else v ∷ w ∷ vrs

  unfoldable pub sort_routers : List (Router A) → List (Router A)
  unfolding insert_router
  sort_routers [] = []
  sort_routers (v ∷ vrs) = insert_router v (sort_routers vrs)

  unfoldable pub has_location : Bytes → List (Router A) → Bool
  unfolding same_bytes
  has_location location [] = false
  has_location location (v ∷ vrs) =
      if same_bytes location v.location then true else has_location location vrs

  abbrev pub or_nil : Option (List (Router A)) → List (Router A)
  or_nil none = []
  or_nil (some vrs) = vrs

  -- Add
  unfoldable pub add_router :
      String → Bytes → String → A → Routers A → Outcome RouterError (Unit {0}) × Routers A
  unfolding has_location sort_routers
  add_router domain location user payload r =
      let vrs = or_nil (r.index_by_domain domain user) in
      let v : Router A = record {
        domain = domain;
        location = location;
        http_user = user;
        payload = payload;
      } in
      if has_location location vrs
      then (err router_config_conflict, r)
      else (ok tt, put_routers r domain user (sort_routers (vrs ++ v ∷ [])))

  unfoldable pub without_location : Bytes → List (Router A) → List (Router A)
  unfolding same_bytes
  without_location location [] = []
  without_location location (v ∷ vrs) =
      let rest = without_location location vrs in
      if same_bytes v.location location then rest else v ∷ rest

  -- Del
  unfoldable pub del_router : String → Bytes → String → Routers A → Routers A
  unfolding without_location
  del_router domain location user r = elim (r.index_by_domain domain user) [
    | none ↦ r
    | some vrs ↦ put_routers r domain user (without_location location vrs)
  ]

  unfoldable pub first_match : Bytes → List (Router A) → Option (Router A)
  unfolding has_prefix
  first_match path [] = none
  first_match path (v ∷ vrs) = if has_prefix path v.location then some v else first_match path vrs

  -- Get
  unfoldable pub get_router : String → Bytes → String → Routers A → Option (Router A)
  unfolding first_match
  get_router host path user r = first_match path (or_nil (r.index_by_domain host user))

  -- The second lookup where the first finds nothing.
  abbrev pub or_else : Option (Router A) → Option (Router A) → Option (Router A)
  or_else (some v) second = some v
  or_else none second = second

  -- findRouter: the routers of the user, else those of no user.
  unfoldable pub find_router : String → Bytes → String → Routers A → Option (Router A)
  unfolding get_router
  find_router name path user r = or_else (get_router name path user r) (get_router name path "" r)

-- strings.Join(labels, ".")
abbrev pub join_labels : List String → String
join_labels [] = ""
join_labels (l ∷ []) = l
join_labels (l ∷ m ∷ labels) = l ⋅ "." ⋅ join_labels (m ∷ labels)

module _ {A : Type 0} where
  -- The loop: while there are three labels or more, the first gives way to "*", and then is cut off.
  unfoldable pub find_wildcard : List String → Bytes → String → Routers A → Option (Router A)
  unfolding find_router
  find_wildcard (l ∷ m ∷ n ∷ labels) path user r =
      or_else (find_router (join_labels ("*" ∷ m ∷ n ∷ labels)) path user r)
        (find_wildcard (m ∷ n ∷ labels) path user r)
  find_wildcard _ path user r = none

  -- getListener and getVhost
  unfoldable pub get_vhost : List String → Bytes → String → Routers A → Option (Router A)
  unfolding find_wildcard
  get_vhost labels path user r =
      or_else (find_router (join_labels labels) path user r)
        (or_else (find_wildcard labels path user r) (find_router "*" path user r))
