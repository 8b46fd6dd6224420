-- ===== src/HttpGroup/Routes.antt =====
-- Which routes the http groups hold.
use frp.Prelude.{
  ℕ, ◌<◌, ◌≡◌, ◌≢◌, refl, sym, ap, ◌∙◌, String, str_eq_iff, Bool, true, false, Option, none, some,
  Option-cases, Bool-cases, inl, inr, List, [], ◌∷◌, ◌++◌, arith, ◌==◌, ==_iff, update,
}
use frp.Routing.{Routers}
use frp.Routing.Routes.{route_at, IsExact}
use frp.HttpGroup.{
  HttpGroup, HttpGroups, Target, of_group, find_func, remove_func, find_http_group, new_http_group,
  remove_name, enrol,
}
use frp.HttpGroup.Members.{
  IsMatched, IsDistinct-append, names_of-append, remove_func-IsDistinct, names_of-remove_func,
}

module _ {F : Type 0} where
  abbrev pub is_busy : HttpGroup F → Bool
  is_busy g = elim g.create_funcs [ [] ↦ false | ◌∷◌ f fs ↦ true ]

  abbrev pub group_route : HttpGroups F → HttpGroup F → Option (Target F)
  group_route ctl g = route_at ctl.vhost_router g.domain g.location g.route_by_http_user

  -- Routes are exact; each group has a function for each name; a group with proxies has its route; a group
  -- in the table is there under one name, and has no domain while it has no proxy.
  pub record IsRouted (ctl : HttpGroups F) : Type 0 where
    pub exact : IsExact ctl.vhost_router
    pub matched : (id : ℕ) → IsMatched (ctl.objects id)
    pub routed :
        (id : ℕ)
        → is_busy (ctl.objects id) ≡ true
        → group_route ctl (ctl.objects id) ≡ some (of_group id)
    pub named : (id : ℕ) → is_busy (ctl.objects id) ≡ true → (ctl.objects id).domain ≢ ""
    pub idle :
        (group : String) (id : ℕ)
        → ctl.groups group ≡ some id
        → is_busy (ctl.objects id) ≡ false
        → (ctl.objects id).domain ≡ ""
    pub made : (group : String) (id : ℕ) → ctl.groups group ≡ some id → id < ctl.next
    pub apart :
        (group other : String) (id : ℕ)
        → ctl.groups group ≡ some id
        → ctl.groups other ≡ some id
        → group ≡ other
    pub busy_made : (id : ℕ) → is_busy (ctl.objects id) ≡ true → id < ctl.next

  pub update-IsMatched :
      (objects : ℕ → HttpGroup F) (id : ℕ) (g : HttpGroup F)
      → ((j : ℕ) → IsMatched (objects j))
      → IsMatched g
      → (j : ℕ) → IsMatched (update objects id g j)
  update-IsMatched objects id g all m j = elim (Bool-cases (id == j)) [
    | inl same ↦ rw same m
    | inr other ↦ rw other (all j)
  ]

  pub find_http_group-IsRouted :
      (group : String) (ctl : HttpGroups F) → IsRouted ctl → IsRouted (find_http_group group ctl).1
  unfolding find_http_group
  find_http_group-IsRouted group ctl h = elim (Option-cases (ctl.groups group)) [
    | inr (id, found) ↦ rw (found, find_http_group) h
    | inl missing ↦
        rw (missing, find_http_group)
          (record {
            exact = h.exact;
            matched =
                update-IsMatched ctl.objects ctl.next new_http_group h.matched
                  (record { names = refl; distinct = tt });
            routed = λ id. ground (arith, h.routed id);
            named = λ id. ground (arith, h.named id);
            idle = λ g id. ground (arith, h.idle g id, h.made g id);
            made = λ g id. ground (arith, h.made g id);
            apart = λ g other id. ground (
              arith,
              h.apart g other id,
              h.made g id,
              h.made other id,
              str_eq_iff group g,
              str_eq_iff group other,
            );
            busy_made = λ id. ground (arith, h.busy_made id);
          })
  ]

  -- A group with proxies and a route takes the place of one.
  pub place-IsRouted :
      (id : ℕ) (g : HttpGroup F) (routers : Routers (Target F)) (ctl : HttpGroups F)
      → is_busy g ≡ true
      → IsMatched g
      → g.domain ≢ ""
      → id < ctl.next
      → IsExact routers
      → route_at routers g.domain g.location g.route_by_http_user ≡ some (of_group id)
      → ((j : ℕ)
          → is_busy (ctl.objects j) ≡ true
          → (j == id) ≡ false
          → route_at routers
              (ctl.objects j).domain
              (ctl.objects j).location
              (ctl.objects j).route_by_http_user
            ≡ some (of_group j))
      → IsRouted ctl
      → IsRouted (record ctl { objects = update ctl.objects id g; vhost_router = routers })
  place-IsRouted id g routers ctl busy m named made exact own others h = record {
    exact = exact;
    matched = update-IsMatched ctl.objects id g h.matched m;
    routed = λ j. ground (arith, others j, ==_iff id j, ==_iff j id);
    named = λ j. ground (arith, h.named j);
    idle = λ a j. ground (arith, h.idle a j);
    made = h.made;
    apart = h.apart;
    busy_made = λ j. ground (arith, h.busy_made j, ==_iff id j);
  }

  busy-append :
      (funcs : List (String × F)) (e : String × F) (g : HttpGroup F)
      → is_busy (record g { create_funcs = funcs ++ e ∷ [] }) ≡ true
  busy-append [] e g = refl
  busy-append (f ∷ fs) e g = refl

  enrol-IsMatched :
      (name : String) (f : F) (g : HttpGroup F)
      → find_func name g.create_funcs ≡ none
      → IsMatched g
      → IsMatched (record g {
        create_funcs = g.create_funcs ++ (name, f) ∷ [];
        pxy_names = g.pxy_names ++ name ∷ [];
      })
  enrol-IsMatched name f g new m = record {
    names = ap (λ l. l ++ name ∷ []) m.names ∙ sym (names_of-append name f g.create_funcs);
    distinct = IsDistinct-append name f g.create_funcs new m.distinct;
  }

  pub leave-IsMatched :
      (name : String) (g : HttpGroup F)
      → IsMatched g
      → IsMatched (record g {
        create_funcs = remove_func name g.create_funcs;
        pxy_names = remove_name name g.pxy_names;
      })
  leave-IsMatched name g m = record {
    names = ap (remove_name name) m.names ∙ sym (names_of-remove_func name g.create_funcs);
    distinct = remove_func-IsDistinct name g.create_funcs m.distinct;
  }

  -- One more proxy of a group that has its route.
  pub enrol-IsRouted :
      (name : String) (f : F) (id : ℕ) (g : HttpGroup F) (routers : Routers (Target F))
      (ctl : HttpGroups F)
      → IsMatched g
      → g.domain ≢ ""
      → id < ctl.next
      → IsExact routers
      → route_at routers g.domain g.location g.route_by_http_user ≡ some (of_group id)
      → ((j : ℕ)
          → is_busy (ctl.objects j) ≡ true
          → (j == id) ≡ false
          → route_at routers
              (ctl.objects j).domain
              (ctl.objects j).location
              (ctl.objects j).route_by_http_user
            ≡ some (of_group j))
      → IsRouted ctl
      → IsRouted (enrol name f id g (record ctl { vhost_router = routers })).1
  unfolding enrol
  enrol-IsRouted name f id g routers ctl m named made exact own others h =
      elim (Option-cases (find_func name g.create_funcs)) [
        | inl new ↦
            rw (new, enrol)
              (place-IsRouted id
                (record g {
                  create_funcs = g.create_funcs ++ (name, f) ∷ [];
                  pxy_names = g.pxy_names ++ name ∷ [];
                })
                routers ctl (busy-append g.create_funcs (name, f) g)
                (enrol-IsMatched name f g new m) named made exact own others h)
        | inr (old, found) ↦
            rw (found, enrol)
              (place-IsRouted id g routers ctl (repeated-busy name g old found) m named made exact
                own others h)
      ]
    where
      repeated-busy :
          (name : String) (g : HttpGroup F) (old : F)
          → find_func name g.create_funcs ≡ some old
          → is_busy g ≡ true
      repeated-busy name g old found = ground arith
