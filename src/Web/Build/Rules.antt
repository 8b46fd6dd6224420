-- ===== src/Web/Build/Rules.antt =====
-- Which rules of a build apply to a file.
use frp.Prelude.{
  String, ◌≡◌, refl, str_eq, str_eq_iff, Bool, true, false, ◌&&◌, ◌||◌, not, Bool-cases, inl, inr,
  Option, none, some, List, [], ◌∷◌, count_if, ◌≤◌, arith,
}
use frp.Web.Build.{Rest, at_end, maybe_query, anything, Pattern, matches, Rule, excluded, applies}
use frp.Web.Build.Text.{after, is_query, somewhere}
use frp.Web.Build.Frps.{frps_rules}
use frp.Web.Build.Frpc.{frpc_rules}
use frp.Web.Build.Matched.{AnyEnds, is_open, matches-AnyEnds}
use frp.Web.Build.Endings.{Ends, Ends-nested, is_ending, Ends-is_ending}

-- No text of the list is an ending of the first, nor the other way round.
abbrev clear_of : String → List String → Bool
clear_of a [] = true
clear_of a (b ∷ others) = not (is_ending a b) && not (is_ending b a) && clear_of a others

clear_of-Ends :
    (a path : String) (others : List String)
    → clear_of a others ≡ true
    → Ends a path
    → AnyEnds others path
    → ⊥
clear_of-Ends a path [] clear e ends = ends
clear_of-Ends a path (b ∷ others) clear e (inl f) = elim (Ends-nested a b path e f) [
  | inl nested ↦ let whole = Ends-is_ending a b nested in ground arith
  | inr nested ↦ let whole = Ends-is_ending b a nested in ground arith
]
clear_of-Ends a path (b ∷ others) clear e (inr f) = clear_of-Ends a path others (ground arith) e f

abbrev clear_lists : List String → List String → Bool
clear_lists [] others = true
clear_lists (a ∷ texts) others = clear_of a others && clear_lists texts others

clear_lists-AnyEnds :
    (texts others : List String) (path : String)
    → clear_lists texts others ≡ true
    → AnyEnds texts path
    → AnyEnds others path
    → ⊥
clear_lists-AnyEnds [] others path clear ends also = ends
clear_lists-AnyEnds (a ∷ texts) others path clear (inl e) also =
    clear_of-Ends a path others (ground arith) e also
clear_lists-AnyEnds (a ∷ texts) others path clear (inr ends) also =
    clear_lists-AnyEnds texts others path (ground arith) ends also

abbrev same_texts : List String → List String → Bool
same_texts [] [] = true
same_texts [] (b ∷ others) = false
same_texts (a ∷ texts) [] = false
same_texts (a ∷ texts) (b ∷ others) = str_eq a b && same_texts texts others

abbrev same_rest : Rest → Rest → Bool
same_rest at_end at_end = true
same_rest at_end maybe_query = false
same_rest at_end anything = false
same_rest maybe_query r = false
same_rest anything r = false

same_texts_eq : (texts others : List String) → same_texts texts others ≡ true → texts ≡ others
same_texts_eq [] [] same = refl
same_texts_eq [] (b ∷ others) same = cc
same_texts_eq (a ∷ texts) [] same = cc
same_texts_eq (a ∷ texts) (b ∷ others) same =
    let first : str_eq a b ≡ true = ground arith in
    let heads : a ≡ b = (str_eq_iff a b).0 first in
    let tails : texts ≡ others = same_texts_eq texts others (ground arith) in cc

same_rest_eq : (r s : Rest) → same_rest r s ≡ true → r ≡ s
same_rest_eq at_end at_end same = refl
same_rest_eq at_end maybe_query same = cc
same_rest_eq at_end anything same = cc
same_rest_eq maybe_query s same = cc
same_rest_eq anything s same = cc

-- The second rule excludes what the first tests for.
abbrev excludes : Option Pattern → Pattern → Bool
excludes none p = false
excludes (some q) p = same_texts p.alternatives q.alternatives && same_rest p.rest q.rest

excluded_lem :
    (o : Option Pattern) (p : Pattern) (path : String)
    → excludes o p ≡ true
    → matches p path ≡ true
    → excluded o path ≡ true
unfolding matches
excluded_lem none p path ex m = cc
excluded_lem (some q) p path ex m =
    let same : p.alternatives ≡ q.alternatives =
      same_texts_eq p.alternatives q.alternatives (ground arith) in
    let ends : p.rest ≡ q.rest = same_rest_eq p.rest q.rest (ground arith) in rw (same, ends) at m

abbrev apart : Rule → Rule → Bool
apart r s =
    excludes s.exclude r.test
    || (not (is_open r.test.rest)
        && not (is_open s.test.rest)
        && clear_lists r.test.alternatives s.test.alternatives)

apart-applies :
    (r s : Rule) (path : String)
    → somewhere is_query path ≡ false
    → apart r s ≡ true
    → applies r path ≡ true
    → applies s path ≡ false
unfolding applies
apart-applies r s path plain split first = elim (Bool-cases (applies s path)) [
  | inr other ↦ other
  | inl also ↦
      let m : matches r.test path ≡ true = ground arith in
      let n : matches s.test path ≡ true = ground arith in
      elim (Bool-cases (excludes s.exclude r.test)) [
        | inl ex ↦ let gone = excluded_lem s.exclude r.test path ex m in ground arith
        | inr kept ↦ absurd (
            clear_lists-AnyEnds r.test.alternatives s.test.alternatives path (ground arith)
              (matches-AnyEnds r.test path (ground arith) plain m)
              (matches-AnyEnds s.test path (ground arith) plain n))
      ]
]

abbrev apart_from : Rule → List Rule → Bool
apart_from r [] = true
apart_from r (s ∷ rules) = apart r s && apart_from r rules

abbrev all_apart : List Rule → Bool
all_apart [] = true
all_apart (r ∷ rules) = apart_from r rules && all_apart rules

none_after :
    (r : Rule) (rules : List Rule) (path : String)
    → somewhere is_query path ≡ false
    → apart_from r rules ≡ true
    → applies r path ≡ true
    → count_if (λ s. applies s path) rules ≡ 0
none_after r [] path plain split first = refl
none_after r (s ∷ rules) path plain split first =
    rw (apart-applies r s path plain (ground arith) first)
      (omega (arith, none_after r rules path plain (ground arith) first))

one_at_most :
    (rules : List Rule) (path : String)
    → somewhere is_query path ≡ false
    → all_apart rules ≡ true
    → count_if (λ r. applies r path) rules ≤ 1
one_at_most [] path plain split = omega arith
one_at_most (r ∷ rules) path plain split = elim (Bool-cases (applies r path)) [
  | inl first ↦ rw (first, none_after r rules path plain (ground arith) first) (omega arith)
  | inr other ↦ rw other (omega (arith, one_at_most rules path plain (ground arith)))
]

-- To a file whose path has no query, a ? and something after it up to the end, at most one rule of the
-- build applies, in either dashboard.
pub one_rule :
    (resolve : String → String) (path : String)
    → somewhere is_query path ≡ false
    → (count_if (λ r. applies r path) (frps_rules resolve) ≤ 1)
      × (count_if (λ r. applies r path) (frpc_rules resolve) ≤ 1)
unfolding somewhere after
one_rule resolve path plain = (
  one_at_most (frps_rules resolve) path plain refl,
  one_at_most (frpc_rules resolve) path plain refl,
)
