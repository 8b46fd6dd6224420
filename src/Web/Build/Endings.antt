-- ===== src/Web/Build/Endings.antt =====
-- The texts that a text ends in.
use Prim.Native.Char.{Char, code}
use Prim.Native.String.{String, [], ◌∷◌}
use text.Mathlib.TextEquality.{Char-path}
use frp.Prelude.{
  ◌==◌, ==_iff, Bool, true, false, none, some, ◌≡◌, refl, ◌⊎◌, inl, inr, Bool-cases, arith,
}
use frp.Web.Build.Text.{after, is_end, is_query, somewhere}

pub data Ends (a : String) : String → Type 0 where
  here : Ends a a
  there : (c : Char) (t : String) → Ends a t → Ends a (c ∷ t)

-- Of two endings of a text the one is an ending of the other.
pub Ends-nested : (a b t : String) → Ends a t → Ends b t → Ends a b ⊎ Ends b a
Ends-nested a b _ here e = inr e
Ends-nested a b _ (there c t d) here = inl (there c t d)
Ends-nested a b _ (there c t d) (there _ _ e) = Ends-nested a b t d e

-- The test for an ending.
abbrev pub ends_now : String → String → Bool
ends_now a u = elim (after a u) [ none ↦ false | some r ↦ is_end r ]

abbrev pub is_ending : String → String → Bool
is_ending a t = somewhere (ends_now a) t

not_now :
    (p : String → Bool) (c : Char) (t : String) → somewhere p (c ∷ t) ≡ false → p (c ∷ t) ≡ false
unfolding somewhere
not_now p c t none_there = ground arith

pub not_later :
    (p : String → Bool) (c : Char) (t : String)
    → somewhere p (c ∷ t) ≡ false
    → somewhere p t ≡ false
unfolding somewhere
not_later p c t none_there = ground arith

code_same : (c : Char) → (code c == code c) ≡ true
code_same c = ground arith

after_same : (t : String) → after t t ≡ some []
unfolding after
after_same [] = refl
after_same (c ∷ t) = rw (code_same c) (after_same t)

somewhere_here : (p : String → Bool) (t : String) → p t ≡ true → somewhere p t ≡ true
unfolding somewhere
somewhere_here p [] now = now
somewhere_here p (c ∷ t) now = rw now refl

somewhere_later :
    (p : String → Bool) (c : Char) (t : String) → somewhere p t ≡ true → somewhere p (c ∷ t) ≡ true
unfolding somewhere
somewhere_later p c t later = elim (Bool-cases (p (c ∷ t))) [
  | inl now ↦ rw now refl
  | inr not_now ↦ rw not_now later
]

pub Ends-is_ending : (a t : String) → Ends a t → is_ending a t ≡ true
Ends-is_ending a _ here = somewhere_here (ends_now a) a (rw (ends_now, after_same a) refl)
Ends-is_ending a _ (there c t e) = somewhere_later (ends_now a) c t (Ends-is_ending a t e)

-- A text that begins with another, which nothing follows, is that one.
pub after-nothing : (a t r : String) → after a t ≡ some r → is_end r ≡ true → a ≡ t
unfolding after
after-nothing [] [] r e last = refl
after-nothing [] (c ∷ t) [] e last = cc
after-nothing [] (c ∷ t) (d ∷ r) e last = cc
after-nothing (c ∷ a) [] r e last = cc
after-nothing (c ∷ a) (d ∷ t) r e last = elim (Bool-cases (code c == code d)) [
  | inl same ↦
      let first : c ≡ d = Char-path c d ((==_iff (code c) (code d)).0 same) in
      let rest : a ≡ t = after-nothing a t r (rw same at e) last in cc
  | inr other ↦ let none_left : none ≡ some r = rw other at e in cc
]

-- What follows some text in one without a query is none.
pub after-no_query :
    (a t r : String) → somewhere is_query t ≡ false → after a t ≡ some r → is_query r ≡ false
unfolding after somewhere
after-no_query [] [] r none_there e = let same : [] ≡ r = cc in rw⁻¹ same refl
after-no_query [] (c ∷ t) r none_there e =
    let same : c ∷ t ≡ r = cc in rw⁻¹ same (not_now is_query c t none_there)
after-no_query (c ∷ a) [] r none_there e = cc
after-no_query (c ∷ a) (d ∷ t) r none_there e = elim (Bool-cases (code c == code d)) [
  | inl same ↦ after-no_query a t r (not_later is_query d t none_there) (rw same at e)
  | inr other ↦ let none_left : none ≡ some r = rw other at e in cc
]

-- Where a test holds somewhere in a text, it holds of an ending.
pub somewhere-Ends :
    (p : String → Bool) (t : String) → somewhere p t ≡ true → (u : String) × Ends u t × (p u ≡ true)
unfolding somewhere
somewhere-Ends p [] found = ([], here, found)
somewhere-Ends p (c ∷ t) found = elim (Bool-cases (p (c ∷ t))) [
  | inl now ↦ (c ∷ t, here, now)
  | inr later ↦
      let (u, e, holds) = somewhere-Ends p t (rw later at found) in (u, there c t e, holds)
]

pub Ends-nowhere :
    (p : String → Bool) (u t : String) → Ends u t → somewhere p t ≡ false → somewhere p u ≡ false
Ends-nowhere p u _ here nowhere = nowhere
Ends-nowhere p u _ (there c t e) nowhere = Ends-nowhere p u t e (not_later p c t nowhere)
