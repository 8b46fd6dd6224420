-- ===== src/Tests/Builds.antt =====
-- The builds at some files.
use frp.Prelude.{Bool, String, ◌≡◌, ◌≤◌, refl, true, false, some, [], ◌∷◌, map, count_if, ◌⋅◌}
use frp.Web.Build.{applies}
use frp.Web.Build.Text.{after, somewhere}
use frp.Web.Build.Frps.{frps_rules, frps_build}
use frp.Web.Build.Frpc.{frpc_rules, frpc_build}
use frp.Web.Build.Rules.{one_rule}

abbrev in_src : String → String
in_src name = "/frp/web/" ⋅ name

one_rule_example :
    (count_if (λ r. applies r "src/assets/favicon.png") (frps_rules in_src) ≤ 1)
    × (count_if (λ r. applies r "src/assets/favicon.png") (frpc_rules in_src) ≤ 1)
unfolding somewhere after
one_rule_example = one_rule in_src "src/assets/favicon.png" refl

-- The icon is copied, other images are loaded by their size, and a script of a package is left as it is.
loaders_found :
    map
      (λ path. map (λ r. applies r path) (frps_rules in_src))
      ("src/assets/favicon.png" ∷ "src/assets/logo.png" ∷ "node_modules/vue/index.js" ∷ [])
    ≡ (false ∷ false ∷ false ∷ false ∷ false ∷ true ∷ false ∷ [])
      ∷ (false ∷ false ∷ false ∷ false ∷ false ∷ false ∷ true ∷ [])
      ∷ (false ∷ false ∷ false ∷ false ∷ false ∷ false ∷ false ∷ [])
      ∷ []
unfolding applies
loaders_found = refl

-- Both dashboards are built in the same way.
same_build : (dev : Bool) → frps_build in_src some dev ≡ frpc_build in_src some dev
same_build dev = refl
