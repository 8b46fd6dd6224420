-- ===== src/HttpGroup/Members.antt =====
-- The proxies of a group: each has one name and one function.
use frp.Prelude.{
  ◌≡◌, refl, String, str_eq, str_eq_iff, str_eq_refl, Bool, false, none, some, Bool-cases, inl, inr,
  List, [], ◌∷◌, ◌++◌, arith, All, All-mono, ap, ◌∙◌, count_if,
}
use frp.HttpGroup.{HttpGroup, find_func, remove_func, remove_name, Served, served_by, served}

module _ {F : Type 0} where
  -- A name stands once in a map.
  abbrev pub IsDistinct : List (String × F) → Type 0
  IsDistinct [] = Unit
  IsDistinct ((n, f) ∷ funcs) = (find_func n funcs ≡ none) × IsDistinct funcs

  abbrev pub names_of : List (String × F) → List String
  names_of [] = []
  names_of ((n, f) ∷ funcs) = n ∷ names_of funcs

  -- The names are those of the functions, in the same order.
  pub record IsMatched (g : HttpGroup F) : Type 0 where
    pub names : g.pxy_names ≡ names_of g.create_funcs
    pub distinct : IsDistinct g.create_funcs

  find_func-append :
      (name n : String) (f : F) (funcs : List (String × F))
      → str_eq n name ≡ false
      → find_func name (funcs ++ (n, f) ∷ []) ≡ find_func name funcs
  find_func-append name n f [] other = rw other refl
  find_func-append name n f ((m, h) ∷ funcs) other = ground (arith, find_func-append name n f funcs)

  pub IsDistinct-append :
      (n : String) (f : F) (funcs : List (String × F))
      → find_func n funcs ≡ none
      → IsDistinct funcs
      → IsDistinct (funcs ++ (n, f) ∷ [])
  IsDistinct-append n f [] new h = (refl, tt)
  IsDistinct-append n f ((m, g) ∷ funcs) new (first, h) =
      let apart : str_eq n m ≡ false = ground (arith, str_eq_iff m n, str_eq_iff n m) in
      let absent : find_func n funcs ≡ none = ground arith in
      (find_func-append m n f funcs apart ∙ first, IsDistinct-append n f funcs absent h)

  pub names_of-append :
      (n : String) (f : F) (funcs : List (String × F))
      → names_of (funcs ++ (n, f) ∷ []) ≡ names_of funcs ++ n ∷ []
  names_of-append n f [] = refl
  names_of-append n f ((m, g) ∷ funcs) = ap (λ l. m ∷ l) (names_of-append n f funcs)

  find_func-remove :
      (name n : String) (funcs : List (String × F))
      → find_func name funcs ≡ none
      → find_func name (remove_func n funcs) ≡ none
  find_func-remove name n [] h = refl
  find_func-remove name n ((m, g) ∷ funcs) h = ground (arith, find_func-remove name n funcs)

  pub remove_func-IsDistinct :
      (n : String) (funcs : List (String × F)) → IsDistinct funcs → IsDistinct (remove_func n funcs)
  remove_func-IsDistinct n [] h = tt
  remove_func-IsDistinct n ((m, g) ∷ funcs) (first, h) = elim (Bool-cases (str_eq m n)) [
    | inl same ↦ rw same h
    | inr other ↦ rw other (find_func-remove m n funcs first, remove_func-IsDistinct n funcs h)
  ]

  pub names_of-remove_func :
      (n : String) (funcs : List (String × F))
      → names_of (remove_func n funcs) ≡ remove_name n (names_of funcs)
  names_of-remove_func n [] = refl
  names_of-remove_func n ((m, g) ∷ funcs) = ground (arith, names_of-remove_func n funcs)

  -- Each function is found under its name.
  every_name_found :
      (funcs : List (String × F))
      → IsDistinct funcs
      → All (λ e. find_func e.0 funcs ≡ some e.1) funcs
  every_name_found [] h = tt
  every_name_found ((n, f) ∷ funcs) (first, h) = (
    rw (str_eq_refl n) refl,
    All-mono (λ e. find_func e.0 funcs ≡ some e.1) (λ e. find_func e.0 ((n, f) ∷ funcs) ≡ some e.1)
        funcs (λ e found. ground (arith, str_eq_iff n e.0)) (every_name_found funcs h),
  )

  count_found :
      (p : Served F → Bool) (all funcs : List (String × F))
      → All (λ e. find_func e.0 all ≡ some e.1) funcs
      → count_if (λ name. p (served (find_func name all))) (names_of funcs)
        ≡ count_if (λ e. p (served_by e.1)) funcs
  count_found p all [] h = refl
  count_found p all ((n, f) ∷ funcs) (first, h) = rw (first, count_found p all funcs h) refl

  pub count_served :
      (p : Served F → Bool) (funcs : List (String × F))
      → IsDistinct funcs
      → count_if (λ name. p (served (find_func name funcs))) (names_of funcs)
        ≡ count_if (λ e. p (served_by e.1)) funcs
  count_served p funcs h = count_found p funcs funcs (every_name_found funcs h)
