-- ===== src/Web/Build/Matched.antt =====
-- What a pattern of a rule says of a path that it matches.
use frp.Prelude.{
  String, ◌≡◌, Bool, true, false, Bool-cases, Option-cases, inl, inr, some, List, [], ◌∷◌, ◌⊎◌,
  arith,
}
use frp.Web.Build.{Rest, at_end, maybe_query, anything, Pattern, fits, fits_any, matches}
use frp.Web.Build.Text.{after, is_query, somewhere}
use frp.Web.Build.Endings.{Ends, after-nothing, after-no_query, somewhere-Ends, Ends-nowhere}

-- One of the texts is an ending.
abbrev pub AnyEnds : List String → String → Type 0
AnyEnds [] t = ⊥
AnyEnds (a ∷ others) t = Ends a t ⊎ AnyEnds others t

abbrev pub is_open : Rest → Bool
is_open at_end = false
is_open maybe_query = false
is_open anything = true

fits-same :
    (rest : Rest) (a t r : String)
    → is_open rest ≡ false
    → somewhere is_query t ≡ false
    → after a t ≡ some r
    → fits rest (some r) ≡ true
    → a ≡ t
fits-same at_end a t r closed plain found fit = after-nothing a t r found fit
fits-same maybe_query a t r closed plain found fit =
    let no_query : is_query r ≡ false = after-no_query a t r plain found in
    after-nothing a t r found (ground arith)
fits-same anything a t r closed plain found fit = cc

fits_any-AnyEnds :
    (alternatives : List String) (rest : Rest) (u path : String)
    → is_open rest ≡ false
    → somewhere is_query u ≡ false
    → Ends u path
    → fits_any alternatives rest u ≡ true
    → AnyEnds alternatives path
unfolding fits_any
fits_any-AnyEnds [] rest u path closed plain e fit = cc
fits_any-AnyEnds (a ∷ others) rest u path closed plain e fit =
    elim (Bool-cases (fits rest (after a u))) [
      | inl now ↦ elim (Option-cases (after a u)) [
        | inl missing ↦ let absent : false ≡ true = rw missing at now in cc
        | inr (r, found) ↦ inl (rw (fits-same rest a u r closed plain found (rw found at now)) e)
      ]
      | inr later ↦ inr (fits_any-AnyEnds others rest u path closed plain e (rw later at fit))
    ]

-- A path without a query ends in a text of a pattern that matches it, unless that may go on.
pub matches-AnyEnds :
    (p : Pattern) (path : String)
    → is_open p.rest ≡ false
    → somewhere is_query path ≡ false
    → matches p path ≡ true
    → AnyEnds p.alternatives path
unfolding matches
matches-AnyEnds p path closed plain m =
    let (u, e, fit) = somewhere-Ends (fits_any p.alternatives p.rest) path m in
    fits_any-AnyEnds p.alternatives p.rest u path closed (Ends-nowhere is_query u path e plain) e
      fit
