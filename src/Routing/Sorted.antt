-- ===== src/Routing/Sorted.antt =====
-- The routers of a domain and a user stand with the greatest location first, so that the first match
-- of a path is the longest.
use frp.Prelude.{
  ◌≤◌, ◌≡◌, refl, String, str_eq, true, false, ◌&&◌, Option, none, some, List, [], ◌∷◌, ◌++◌, All,
  length, arith, Bool-cases, Option-cases, inl, inr, ◌⊎◌,
}
use mathlib.Core.Path.{subst}
use native.Mathlib.Nat.{le_refl}
use frp.Routing.{
  same_bytes, Bytes, less, has_prefix, Router, Routers, new_routers, put_routers, insert_router,
  sort_routers, has_location, or_nil, add_router, without_location, del_router, first_match,
  get_router,
}
use frp.Routing.Order.{prefix_le, less_trans_false, less_asymm}

-- The calls that change the routers.
pub data Call (A : Type 0) : Type 0 where
  adding : String → Bytes → String → A → Call A
  deleting : String → Bytes → String → Call A

module _ {A : Type 0} where
  abbrev NotLess : Router A → Router A → Type 0
  NotLess v w = less v.location w.location ≡ false

  abbrev pub IsSorted : List (Router A) → Type 0
  IsSorted [] = Unit
  IsSorted (v ∷ vrs) = All (NotLess v) vrs × IsSorted vrs

  All-mono :
      (P Q : Router A → Type 0)
      → ((w : Router A) → P w → Q w)
      → (vrs : List (Router A)) → All P vrs
      → All Q vrs
  All-mono P Q f [] h = tt
  All-mono P Q f (w ∷ vrs) (p, h) = (f w p, All-mono P Q f vrs h)

  All-insert_router :
      (P : Router A → Type 0) (v : Router A) (vrs : List (Router A))
      → P v
      → All P vrs
      → All P (insert_router v vrs)
  unfolding insert_router
  All-insert_router P v [] p h = (p, tt)
  All-insert_router P v (w ∷ vrs) p (q, h) = elim (Bool-cases (less v.location w.location)) [
    | inl before ↦ rw before (q, All-insert_router P v vrs p h)
    | inr after ↦ rw after (p, (q, h))
  ]

  insert_router-IsSorted :
      (v : Router A) (vrs : List (Router A)) → IsSorted vrs → IsSorted (insert_router v vrs)
  unfolding insert_router
  insert_router-IsSorted v [] h = (tt, tt)
  insert_router-IsSorted v (w ∷ vrs) (first, h) = elim (Bool-cases (less v.location w.location)) [
    | inl before ↦ rw before (
      All-insert_router (NotLess w) v vrs (less_asymm v.location w.location before) first,
      insert_router-IsSorted v vrs h,
    )
    | inr after ↦ rw after (
      (
        after,
        All-mono (NotLess w) (NotLess v)
            (λ z. less_trans_false v.location w.location z.location after) vrs first,
      ),
      (first, h),
    )
  ]

  sort_routers-IsSorted : (vrs : List (Router A)) → IsSorted (sort_routers vrs)
  unfolding sort_routers
  sort_routers-IsSorted [] = tt
  sort_routers-IsSorted (v ∷ vrs) =
      insert_router-IsSorted v (sort_routers vrs) (sort_routers-IsSorted vrs)

  All-without_location :
      (P : Router A → Type 0) (location : Bytes) (vrs : List (Router A))
      → All P vrs
      → All P (without_location location vrs)
  unfolding without_location
  All-without_location P location [] h = tt
  All-without_location P location (v ∷ vrs) (p, h) =
      ground (arith, All-without_location P location vrs h)

  without_location-IsSorted :
      (location : Bytes) (vrs : List (Router A))
      → IsSorted vrs
      → IsSorted (without_location location vrs)
  unfolding without_location
  without_location-IsSorted location [] h = tt
  without_location-IsSorted location (v ∷ vrs) (first, h) =
      elim (Bool-cases (same_bytes v.location location)) [
        | inl gone ↦ rw gone (without_location-IsSorted location vrs h)
        | inr stays ↦ rw stays (
          All-without_location (NotLess v) location vrs first,
          without_location-IsSorted location vrs h,
        )
      ]

  abbrev pub perform : Call A → Routers A → Routers A
  perform (adding domain location user payload) r = (add_router domain location user payload r).1
  perform (deleting domain location user) r = del_router domain location user r

  pub data Reach : Routers A → Type 0 where
    fresh : Reach new_routers
    call : {r : Routers A} (c : Call A) → Reach r → Reach (perform c r)

  abbrev AllSorted : Routers A → Type 0
  AllSorted r = (domain user : String) → IsSorted (or_nil (r.index_by_domain domain user))

  put_routers-AllSorted :
      (r : Routers A) (domain user : String) (vrs : List (Router A))
      → IsSorted vrs
      → AllSorted r
      → AllSorted (put_routers r domain user vrs)
  put_routers-AllSorted r domain user vrs h all d u =
      elim (Bool-cases (str_eq domain d && str_eq user u)) [
        | inl same ↦ rw same h
        | inr other ↦ rw other (all d u)
      ]

  add_router-AllSorted :
      (domain : String) (location : Bytes) (user : String) (payload : A) (r : Routers A)
      → AllSorted r
      → AllSorted (add_router domain location user payload r).1
  unfolding add_router
  add_router-AllSorted domain location user payload r all d u =
      let v : Router A = record {
        domain = domain;
        location = location;
        http_user = user;
        payload = payload;
      } in
      let vrs = or_nil (r.index_by_domain domain user) ++ v ∷ [] in
      elim (Bool-cases (has_location location (or_nil (r.index_by_domain domain user)))) [
        | inl conflict ↦ rw conflict (all d u)
        | inr room ↦ rw room (
            put_routers-AllSorted r domain user (sort_routers vrs) (sort_routers-IsSorted vrs) all d
              u)
      ]

  del_router-AllSorted :
      (domain : String) (location : Bytes) (user : String) (r : Routers A)
      → AllSorted r
      → AllSorted (del_router domain location user r)
  unfolding del_router
  del_router-AllSorted domain location user r all d u =
      elim (Option-cases (r.index_by_domain domain user)) [
        | inl unknown ↦ rw (unknown, del_router) (all d u)
        | inr (vrs, known) ↦
            let sorted : IsSorted vrs = rw known at (all domain user) in
            rw (known, del_router)
              (put_routers-AllSorted r domain user (without_location location vrs)
                (without_location-IsSorted location vrs sorted) all d u)
      ]

  perform-AllSorted : (c : Call A) (r : Routers A) → AllSorted r → AllSorted (perform c r)
  perform-AllSorted (adding domain location user payload) r all =
      add_router-AllSorted domain location user payload r all
  perform-AllSorted (deleting domain location user) r all =
      del_router-AllSorted domain location user r all

  Reach-AllSorted : {r : Routers A} → Reach r → AllSorted r
  Reach-AllSorted fresh = λ domain user. tt
  Reach-AllSorted (call {r = r} c reached) = perform-AllSorted c r (Reach-AllSorted reached)

  -- `v` is one of the routers, and its location is a longest one among those that begin the path.
  abbrev pub IsIn : Router A → List (Router A) → Type 0
  IsIn v [] = ⊥
  IsIn v (w ∷ vrs) = (v ≡ w) ⊎ IsIn v vrs

  abbrev pub Shorter : Bytes → Router A → Router A → Type 0
  Shorter path v w = has_prefix path w.location ≡ true → length w.location ≤ length v.location

  first_match-longest :
      (path : Bytes) (vrs : List (Router A)) (v : Router A)
      → IsSorted vrs
      → first_match path vrs ≡ some v
      → IsIn v vrs × (has_prefix path v.location ≡ true) × All (Shorter path v) vrs
  unfolding first_match
  first_match-longest path [] v h e = cc
  first_match-longest path (w ∷ vrs) v (first, h) e =
      elim (Bool-cases (has_prefix path w.location)) [
        | inl matches ↦
            let found : some w ≡ some v = rw matches at e in
            let same : w ≡ v = cc found in
            subst
              (λ u.
                IsIn u (w ∷ vrs)
                × (has_prefix path u.location ≡ true)
                × All (Shorter path u) (w ∷ vrs))
              same
              (
                inl refl,
                matches,
                (
                  (λ p. le_refl (length w.location)),
                  All-mono (NotLess w) (Shorter path w)
                      (λ u after p. prefix_le path w.location u.location matches p after) vrs first,
                ),
              )
        | inr fails ↦
            let (inside, begins, longest) = first_match-longest path vrs v h (rw fails at e) in
            (inr inside, begins, ((λ p. cc (p, fails)), longest))
      ]

  first_match-none :
      (path : Bytes) (vrs : List (Router A))
      → first_match path vrs ≡ none
      → All (λ w. has_prefix path w.location ≡ false) vrs
  unfolding first_match
  first_match-none path [] e = tt
  first_match-none path (w ∷ vrs) e = elim (Bool-cases (has_prefix path w.location)) [
    | inl matches ↦ let found : some w ≡ none = rw matches at e in cc found
    | inr fails ↦ (fails, first_match-none path vrs (rw fails at e))
  ]

  -- The right answers for a path, over the routers of a host and a user.
  abbrev pub Answers : Bytes → List (Router A) → Option (Router A) → Type 0
  Answers path vrs none = All (λ w. has_prefix path w.location ≡ false) vrs
  Answers path vrs (some v) =
      IsIn v vrs × (has_prefix path v.location ≡ true) × All (Shorter path v) vrs

  -- After any calls of Add and Del, Get answers with a router of the host and the user whose location
  -- begins the path and is at least as long as every other one there that begins it, and with none
  -- only if no location there begins the path.
  pub get_router-Answers :
      {r : Routers A} (host : String) (path : Bytes) (user : String)
      → Reach r
      → Answers path (or_nil (r.index_by_domain host user)) (get_router host path user r)
  unfolding get_router
  get_router-Answers {r} host path user reached =
      let vrs = or_nil (r.index_by_domain host user) in
      elim (Option-cases (first_match path vrs)) [
        | inl nothing ↦ rw nothing (first_match-none path vrs nothing)
        | inr (v, found) ↦
            rw found (first_match-longest path vrs v (Reach-AllSorted reached host user) found)
      ]
