-- ===== src/Routing/Search.antt =====
-- The host names under which a request is looked up.
use frp.Prelude.{
  ap, sym, ◌∙◌, ◌≤◌, ◌≡◌, refl, String, Option, none, some, List, [], ◌∷◌, ◌++◌, All, length, arith,
}
use frp.Routing.{
  or_else, Bytes, Router, Routers, find_router, find_wildcard, get_vhost, join_labels,
}

-- The wildcard names of a host name, most special first: "*" in place of one label or more, with at
-- least two labels behind it.
abbrev pub wildcards : List String → List (List String)
wildcards (l ∷ m ∷ n ∷ labels) = ("*" ∷ m ∷ n ∷ labels) ∷ wildcards (m ∷ n ∷ labels)
wildcards _ = []

abbrev pub candidates : List String → List (List String)
candidates labels = labels ∷ (wildcards labels ++ ("*" ∷ []) ∷ [])

abbrev pub HasTwoLabels : List String → Type 0
HasTwoLabels [] = ⊥
HasTwoLabels (star ∷ labels) = (star ≡ "*") × (2 ≤ length labels)

wildcards-All : (labels : List String) → All HasTwoLabels (wildcards labels)
wildcards-All [] = tt
wildcards-All (l ∷ []) = tt
wildcards-All (l ∷ m ∷ []) = tt
wildcards-All (l ∷ m ∷ n ∷ labels) = ((refl, omega arith), wildcards-All (m ∷ n ∷ labels))

module _ {A : Type 0} (path : Bytes) (user : String) (r : Routers A) where
  abbrev pub under : List String → Option (Router A)
  under labels = find_router (join_labels labels) path user r

  -- The first router found under one of the names.
  abbrev pub first_under : List (List String) → Option (Router A)
  first_under [] = none
  first_under (labels ∷ names) = or_else (under labels) (first_under names)

  find_wildcard-first_under :
      (labels : List String) → find_wildcard labels path user r ≡ first_under (wildcards labels)
  unfolding find_wildcard
  find_wildcard-first_under [] = refl
  find_wildcard-first_under (l ∷ []) = refl
  find_wildcard-first_under (l ∷ m ∷ []) = refl
  find_wildcard-first_under (l ∷ m ∷ n ∷ labels) =
      ap (or_else (under ("*" ∷ m ∷ n ∷ labels))) (find_wildcard-first_under (m ∷ n ∷ labels))

  or_else-none : (o : Option (Router A)) → or_else o none ≡ o
  or_else-none none = refl
  or_else-none (some v) = refl

  or_else_assoc : (a b c : Option (Router A)) → or_else (or_else a b) c ≡ or_else a (or_else b c)
  or_else_assoc none b c = refl
  or_else_assoc (some v) b c = refl

  first_under-append :
      (names : List (List String)) (last : List String)
      → first_under (names ++ last ∷ []) ≡ or_else (first_under names) (under last)
  first_under-append [] last = or_else-none (under last)
  first_under-append (labels ∷ names) last =
      ap (or_else (under labels)) (first_under-append names last)
      ∙ sym (or_else_assoc (under labels) (first_under names) (under last))

  -- A request is looked up under its host name, then under the wildcard names of it, then under "*",
  -- and the first router found serves it. Every wildcard name has at least two labels behind the "*":
  -- a name such as "*.com" is never tried for a host below it.
  pub get_vhost-first_under :
      (labels : List String)
      → (get_vhost labels path user r ≡ first_under (candidates labels))
        × All HasTwoLabels (wildcards labels)
  unfolding get_vhost
  get_vhost-first_under labels = (
    ap (or_else (under labels)) (
        ap (λ o. or_else o (under ("*" ∷ []))) (find_wildcard-first_under labels)
        ∙ sym (first_under-append (wildcards labels) ("*" ∷ []))),
    wildcards-All labels,
  )
