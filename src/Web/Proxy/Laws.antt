-- ===== src/Web/Proxy/Laws.antt =====
-- What the rows of virtual host proxies show.
use package.text.Mathlib.TextLemmas.{append_cancel_right, append-eq-nil_iff}
use frp.Prelude.{
  String, ◌⋅◌, str_eq, str_eq_iff, ◌≡◌, refl, sym, ap, ◌∙◌, Bool-cases, not, inl, inr, some,
  if◌then◌else◌,
}
use frp.Web.Json.{Field, text}
use frp.Web.Proxy.{ProxyStats, ProxyConf, http_proxy, full_subdomain}

abbrev text_of : Field → String
text_of (text s) = s
text_of v = ""

-- The full name of a subdomain.
abbrev full_name : String → String → String
full_name host s = if not (str_eq s "") then s ⋅ "." ⋅ host else ""

full_name-nil : (s host : String) → full_name host s ≡ "" → s ≡ ""
full_name-nil s host h = elim (Bool-cases (str_eq s "")) [
  | inl empty ↦ (str_eq_iff s "").0 empty
  | inr more ↦
      let e : s ⋅ "." ⋅ host ≡ "" = rw more at h in
      ((append-eq-nil_iff {p = s} {q = "." ⋅ host}).0 e).0
]

full_name_injective : (s t host : String) → full_name host s ≡ full_name host t → s ≡ t
full_name_injective s t host h = elim (Bool-cases (str_eq s "")) [
  | inl empty ↦
      let s_nil = (str_eq_iff s "").0 empty in
      s_nil ∙ sym (full_name-nil t host (sym h ∙ rw empty refl))
  | inr more ↦ elim (Bool-cases (str_eq t "")) [
    | inl empty ↦ full_name-nil s host (h ∙ rw empty refl) ∙ sym ((str_eq_iff t "").0 empty)
    | inr also ↦ append_cancel_right s t ("." ⋅ host) (rw also at (rw more at h))
  ]
]

full_subdomain-full_name :
    (c : ProxyConf) (s host : String)
    → c.subdomain ≡ text s
    → full_subdomain (text host) c ≡ text (full_name host s)
full_subdomain-full_name c s host e = elim (Bool-cases (str_eq s "")) [
  | inl empty ↦ rw (e, empty)
  | inr more ↦ rw (e, more)
]

-- Two http rows that show the same full name are of the same subdomain, the empty one included.
pub http_proxy_injective :
    (a b : ProxyStats) (c d : ProxyConf) (s t host : String) (port : Field)
    → a.conf ≡ some c
    → b.conf ≡ some d
    → c.subdomain ≡ text s
    → d.subdomain ≡ text t
    → (http_proxy a port (text host)).subdomain ≡ (http_proxy b port (text host)).subdomain
    → s ≡ t
unfolding http_proxy
http_proxy_injective a b c d s t host port ca db cs dt h = full_name_injective s t host (
    ap text_of (
      sym (full_subdomain-full_name c s host cs)
      ∙ (rw db at (rw ca at h))
      ∙ full_subdomain-full_name d t host dt))
