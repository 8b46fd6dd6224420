-- ===== src/Control/Entries.antt =====
-- The proxies of one control: each name stands once, and the ports add up.
use frp.Prelude.{
  ℕ, ◌+◌, ◌≡◌, refl, ◌∙◌, String, str_eq, str_eq_iff, Bool, true, false, if◌then◌else◌, Option,
  none, some, List, [], ◌∷◌, arith, Bool-cases, inl, inr,
}
use frp.Control.{del_all, del_pxy, Proxy, find_proxy, delete_proxy}

abbrev pub has_proxy : String → List Proxy → Bool
has_proxy name [] = false
has_proxy name (p ∷ ps) = if str_eq p.name name then true else has_proxy name ps

abbrev pub total_ports : List Proxy → ℕ
total_ports [] = 0
total_ports (p ∷ ps) = p.used_ports_num + total_ports ps

abbrev pub IsUnique : List Proxy → Type 0
IsUnique [] = Unit
IsUnique (p ∷ ps) = (has_proxy p.name ps ≡ false) × IsUnique ps

pub delete_proxy-absent :
    (name : String) (ps : List Proxy) → has_proxy name ps ≡ false → delete_proxy name ps ≡ ps
delete_proxy-absent name [] h = refl
delete_proxy-absent name (p ∷ ps) h = ground (arith, delete_proxy-absent name ps)

pub total_ports-delete_proxy :
    (name : String) (ps : List Proxy) (p : Proxy)
    → find_proxy name ps ≡ some p
    → total_ports (delete_proxy name ps) + p.used_ports_num ≡ total_ports ps
total_ports-delete_proxy name [] p h = cc
total_ports-delete_proxy name (q ∷ ps) p h = ground (arith, total_ports-delete_proxy name ps p)

pub find_proxy-name :
    (name : String) (ps : List Proxy) (p : Proxy) → find_proxy name ps ≡ some p → p.name ≡ name
find_proxy-name name [] p h = cc
find_proxy-name name (q ∷ ps) p h =
    ground (arith, find_proxy-name name ps p, str_eq_iff q.name name)

pub find_proxy-has :
    (name : String) (ps : List Proxy) (p : Proxy)
    → find_proxy name ps ≡ some p
    → has_proxy name ps ≡ true
find_proxy-has name [] p h = cc
find_proxy-has name (q ∷ ps) p h = ground (arith, find_proxy-has name ps p)

pub find_proxy-missing :
    (name : String) (ps : List Proxy) → find_proxy name ps ≡ none → has_proxy name ps ≡ false
find_proxy-missing name [] h = refl
find_proxy-missing name (q ∷ ps) h = ground (arith, find_proxy-missing name ps)

-- Under another name nothing changes, and under the name itself nothing is left.
pub has_proxy-delete_proxy :
    (name other : String) (ps : List Proxy)
    → IsUnique ps
    → has_proxy other (delete_proxy name ps)
      ≡ (if str_eq name other then false else has_proxy other ps)
has_proxy-delete_proxy name other [] h = ground arith
has_proxy-delete_proxy name other (p ∷ ps) (once, rest) = ground (
  arith,
  has_proxy-delete_proxy name other ps rest,
  str_eq_iff p.name name,
  str_eq_iff p.name other,
  str_eq_iff name other,
  once,
)

pub delete_proxy-IsUnique :
    (name : String) (ps : List Proxy) → IsUnique ps → IsUnique (delete_proxy name ps)
delete_proxy-IsUnique name [] h = tt
delete_proxy-IsUnique name (p ∷ ps) (once, rest) = elim (Bool-cases (str_eq p.name name)) [
  | inl same ↦ rw same rest
  | inr differs ↦ rw differs (
    has_proxy-delete_proxy name p.name ps rest ∙ ground (arith, once),
    delete_proxy-IsUnique name ps rest,
  )
]

pub del_all-has_proxy :
    (ps : List Proxy) (pxys : String → Option ℕ) (name : String)
    → del_all ps pxys name ≡ (if has_proxy name ps then none else pxys name)
del_all-has_proxy [] pxys name = refl
del_all-has_proxy (p ∷ ps) pxys name =
    ground (arith, del_all-has_proxy ps (del_pxy p.name pxys) name)
