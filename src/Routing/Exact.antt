-- ===== src/Routing/Exact.antt =====
-- The route under a domain, a location and a user: what Add and Del do to it.
use frp.Prelude.{
  ◌≡◌, refl, ◌∙◌, true, false, ◌||◌, if◌then◌else◌, Option, none, some, List, [], ◌∷◌, ◌++◌, ◌↔◌,
  arith, Bool-cases, inl, inr, ==_iff,
}
use frp.Routing.{same_bytes, Bytes, less, Router, insert_router, sort_routers, has_location}

same_bytes_sound : (a b : Bytes) → same_bytes a b ≡ true → a ≡ b
unfolding same_bytes
same_bytes_sound [] [] h = refl
same_bytes_sound [] (y ∷ b) h = cc
same_bytes_sound (x ∷ a) [] h = cc
same_bytes_sound (x ∷ a) (y ∷ b) h = ground (arith, same_bytes_sound a b, ==_iff x y)

same_bytes_refl : (a : Bytes) → same_bytes a a ≡ true
unfolding same_bytes
same_bytes_refl [] = refl
same_bytes_refl (x ∷ a) = ground (arith, same_bytes_refl a)

pub same_bytes_iff : (a b : Bytes) → (same_bytes a b ≡ true) ↔ (a ≡ b)
same_bytes_iff a b = (same_bytes_sound a b, λ e. rw e (same_bytes_refl b))

module _ {A : Type 0} where
  abbrev pub find_exact : Bytes → List (Router A) → Option A
  find_exact l [] = none
  find_exact l (v ∷ vrs) = if same_bytes v.location l then some v.payload else find_exact l vrs

  abbrev pub IsDistinct : List (Router A) → Type 0
  IsDistinct [] = Unit
  IsDistinct (v ∷ vrs) = (has_location v.location vrs ≡ false) × IsDistinct vrs

  has_location-insert :
      (l : Bytes) (v : Router A) (vrs : List (Router A))
      → has_location l (insert_router v vrs) ≡ (same_bytes l v.location || has_location l vrs)
  unfolding has_location insert_router
  has_location-insert l v [] = ground arith
  has_location-insert l v (w ∷ vrs) = ground (arith, has_location-insert l v vrs)

  has_location-sort :
      (l : Bytes) (vrs : List (Router A)) → has_location l (sort_routers vrs) ≡ has_location l vrs
  unfolding has_location sort_routers
  has_location-sort l [] = refl
  has_location-sort l (v ∷ vrs) =
      let e = has_location-insert l v (sort_routers vrs) in
      ground (arith, e, has_location-sort l vrs)

  insert-IsDistinct :
      (v : Router A) (vrs : List (Router A))
      → has_location v.location vrs ≡ false
      → IsDistinct vrs
      → IsDistinct (insert_router v vrs)
  unfolding insert_router has_location
  insert-IsDistinct v [] new h = (refl, tt)
  insert-IsDistinct v (w ∷ vrs) new (first, h) = elim (Bool-cases (less v.location w.location)) [
    | inl before ↦
        let apart : has_location v.location vrs ≡ false = ground arith in
        let e = has_location-insert w.location v vrs in
        rw before (
          ground (
            arith,
            e,
            same_bytes_iff w.location v.location,
            same_bytes_iff v.location w.location,
          ),
          insert-IsDistinct v vrs apart h,
        )
    | inr after ↦ rw after (new, (first, h))
  ]

  pub sort-IsDistinct : (vrs : List (Router A)) → IsDistinct vrs → IsDistinct (sort_routers vrs)
  unfolding sort_routers
  sort-IsDistinct [] h = tt
  sort-IsDistinct (v ∷ vrs) (first, h) =
      insert-IsDistinct v (sort_routers vrs) (has_location-sort v.location vrs ∙ first)
        (sort-IsDistinct vrs h)

  find_exact-insert :
      (l : Bytes) (v : Router A) (vrs : List (Router A))
      → has_location v.location vrs ≡ false
      → find_exact l (insert_router v vrs)
        ≡ (if same_bytes v.location l then some v.payload else find_exact l vrs)
  unfolding insert_router has_location
  find_exact-insert l v [] new = refl
  find_exact-insert l v (w ∷ vrs) new = ground (
    arith,
    find_exact-insert l v vrs,
    same_bytes_iff v.location w.location,
    same_bytes_iff v.location l,
    same_bytes_iff w.location l,
  )

  pub find_exact-sort :
      (l : Bytes) (vrs : List (Router A))
      → IsDistinct vrs
      → find_exact l (sort_routers vrs) ≡ find_exact l vrs
  unfolding sort_routers
  find_exact-sort l [] h = refl
  find_exact-sort l (v ∷ vrs) (first, h) =
      find_exact-insert l v (sort_routers vrs) (has_location-sort v.location vrs ∙ first)
      ∙ rw (find_exact-sort l vrs h) refl

  has_location-append :
      (l : Bytes) (vrs : List (Router A)) (v : Router A)
      → has_location l (vrs ++ v ∷ []) ≡ (has_location l vrs || same_bytes l v.location)
  unfolding has_location
  has_location-append l [] v = ground arith
  has_location-append l (w ∷ vrs) v = ground (arith, has_location-append l vrs v)

  pub append-IsDistinct :
      (vrs : List (Router A)) (v : Router A)
      → has_location v.location vrs ≡ false
      → IsDistinct vrs
      → IsDistinct (vrs ++ v ∷ [])
  unfolding has_location
  append-IsDistinct [] v new h = (refl, tt)
  append-IsDistinct (w ∷ vrs) v new (first, h) =
      let e = has_location-append w.location vrs v in
      let apart : has_location v.location vrs ≡ false = ground arith in
      (
        ground
            (arith, e, same_bytes_iff w.location v.location, same_bytes_iff v.location w.location),
        append-IsDistinct vrs v apart h,
      )

  pub find_exact-append :
      (l : Bytes) (vrs : List (Router A)) (v : Router A)
      → has_location v.location vrs ≡ false
      → find_exact l (vrs ++ v ∷ [])
        ≡ (if same_bytes v.location l then some v.payload else find_exact l vrs)
  unfolding has_location
  find_exact-append l [] v new = refl
  find_exact-append l (w ∷ vrs) v new = ground (
    arith,
    find_exact-append l vrs v,
    same_bytes_iff v.location w.location,
    same_bytes_iff v.location l,
    same_bytes_iff w.location l,
  )
