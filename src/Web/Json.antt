-- ===== src/Web/Json.antt =====
-- What the pages read from an API reply, and JavaScript's coercions of it. The replies are typed as
-- server/dashboard_api.go and client/admin_api.go declare them: a key that may be absent or null is
-- an `Option`, a value that a page passes on unread or concatenates is a `Field`.
use frp.Prelude.{
  Bool, true, false, List, [], ◌∷◌, String, ◌⋅◌, str_eq, not, ℤ, is_zero, show_ℤ, Option, none,
  some,
}

-- A JavaScript value: one of those that JSON has, less objects, and arrays of texts only.
pub data Field : Type 0 where
  undefined null : Field
  bool : Bool → Field
  num : ℤ → Field
  text : String → Field
  texts : List String → Field

abbrev pub join : List String → String
join [] = ""
join (t ∷ []) = t
join (t ∷ u ∷ ts) = t ⋅ "," ⋅ join (u ∷ ts)

-- What `+` makes of an operand when the other one is a text.
abbrev pub to_text : Field → String
to_text undefined = "undefined"
to_text null = "null"
to_text (bool true) = "true"
to_text (bool false) = "false"
to_text (num n) = show_ℤ n
to_text (text s) = s
to_text (texts ts) = join ts

-- `v == ""`
abbrev pub eq_empty : Field → Bool
eq_empty undefined = false
eq_empty null = false
eq_empty (bool b) = not b
eq_empty (num n) = is_zero n
eq_empty (text s) = str_eq s ""
eq_empty (texts ts) = str_eq (join ts) ""

abbrev pub number : Option ℤ → Field
number none = undefined
number (some n) = num n

-- `n == 0` on a number that may be missing: `undefined == 0` and `null == 0` are false.
abbrev pub eq_zero : Option ℤ → Bool
eq_zero none = false
eq_zero (some n) = is_zero n

-- What a request comes back with: a decoded body, or a rejected promise (no connection, or a body that
-- is not JSON).
pub data Reply {ℓ} (A : Type ℓ) : Type ℓ where
  body : A → Reply A
  rejected : Reply A
