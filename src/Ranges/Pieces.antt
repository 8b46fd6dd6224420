-- ===== src/Ranges/Pieces.antt =====
-- Splitting what was joined, and trimming what has no space.
use frp.Prelude.{
  ℕ, ◌≡◌, refl, true, false, ◌==◌, List, [], ◌∷◌, ◌++◌, reverse, arith, All, All-concat,
}
use mathlib.Core.List.{reverse-cons, reverse-reverse}
use frp.Ranges.{is_space, trim_left, trim_space, split}

abbrev pub Lacks : ℕ → List ℕ → Type 0
Lacks sep = All (λ c. (c == sep) ≡ false)

pub split-Lacks : (sep : ℕ) (s : List ℕ) → Lacks sep s → split sep s ≡ s ∷ []
unfolding split
split-Lacks sep [] lacks = refl
split-Lacks sep (c ∷ s) (first, lacks) = rw (first, split-Lacks sep s lacks) refl

pub split-append :
    (sep : ℕ) (s t : List ℕ) → Lacks sep s → split sep (s ++ sep ∷ t) ≡ s ∷ split sep t
unfolding split
split-append sep [] t lacks = let test : (sep == sep) ≡ true = ground arith in rw test refl
split-append sep (c ∷ s) t (first, lacks) = rw (first, split-append sep s t lacks) refl

abbrev pub NoSpace : List ℕ → Type 0
NoSpace = All (λ c. is_space c ≡ false)

trim_left-NoSpace : (s : List ℕ) → NoSpace s → trim_left s ≡ s
trim_left-NoSpace [] no_space = refl
trim_left-NoSpace (c ∷ s) (first, no_space) = rw first refl

reverse-NoSpace : (s : List ℕ) → NoSpace s → NoSpace (reverse s)
reverse-NoSpace [] no_space = tt
reverse-NoSpace (c ∷ s) (first, no_space) =
    rw (reverse-cons c s)
      (All-concat (λ c. is_space c ≡ false) (reverse s) (reverse-NoSpace s no_space) first)

pub trim_space-NoSpace : (s : List ℕ) → NoSpace s → trim_space s ≡ s
unfolding trim_space
trim_space-NoSpace s no_space =
    rw (trim_left-NoSpace s no_space)
      (rw (trim_left-NoSpace (reverse s) (reverse-NoSpace s no_space)) (reverse-reverse s))
