-- ===== src/Client/Manager/Again.antt =====
-- A Reload of the configurations that are there.
use frp.Prelude.{◌≡◌, refl, String, true, false, Option, none, some, List, [], ◌∷◌, arith}
use frp.Client.Manager.{
  ProxyConf, Held, new_held, is_dropped, drop_proxy, drop_proxies, add_proxy, add_proxies, reload,
}
use frp.Client.Manager.Reloaded.{after_add, wanted, Covers, reload-wanted}

module _ {ℓ} {C : Type ℓ} (conf : ProxyConf C) (pxy_cfgs : String → Option C) where
  -- Nothing is to be dropped or added.
  abbrev IsSettled : (String → Option (Held C)) → Type ℓ
  IsSettled proxies =
      (n : String)
      → (is_dropped conf (pxy_cfgs n) (proxies n) ≡ false)
        × (after_add conf (pxy_cfgs n) (proxies n) ≡ proxies n)

  drop_proxies-settled :
      (names : List String) (proxies : String → Option (Held C))
      → IsSettled proxies
      → drop_proxies conf pxy_cfgs names proxies ≡ (proxies, [])
  unfolding drop_proxies drop_proxy
  drop_proxies-settled [] proxies settled = refl
  drop_proxies-settled (name ∷ names) proxies settled =
      let (kept, same) = settled name in
      let here : drop_proxy conf pxy_cfgs name proxies ≡ (proxies, []) = ground arith in
      rw (here, drop_proxies-settled names proxies settled) refl

  add_proxies-settled :
      (names : List String) (proxies : String → Option (Held C))
      → IsSettled proxies
      → add_proxies conf pxy_cfgs names proxies ≡ proxies
  unfolding add_proxies add_proxy
  add_proxies-settled [] proxies settled = refl
  add_proxies-settled (name ∷ names) proxies settled =
      let (kept, same) = settled name in
      let here : add_proxy conf pxy_cfgs name proxies ≡ proxies = ground arith in
      rw here (add_proxies-settled names proxies settled)

  wanted-settled :
      (cfg : Option C) (p : Option (Held C))
      → ((c : C) → conf.compare c c ≡ true)
      → (is_dropped conf cfg (wanted conf cfg p) ≡ false)
        × (after_add conf cfg (wanted conf cfg p) ≡ wanted conf cfg p)
  unfolding new_held
  wanted-settled none p same = (refl, refl)
  wanted-settled (some cfg) none same = (rw (same cfg) refl, refl)
  wanted-settled (some cfg) (some p) same = (ground (arith, same cfg), ground arith)

  -- A second Reload of the same configurations, in any order of iteration, changes nothing and sends nothing,
  -- as long as every name was in the orders of the first and each configuration compares equal to itself.
  pub reload_again :
      (held given held' given' : List String) (proxies : String → Option (Held C))
      → Covers held proxies
      → Covers given pxy_cfgs
      → ((c : C) → conf.compare c c ≡ true)
      → reload conf pxy_cfgs held' given' (reload conf pxy_cfgs held given proxies).0
        ≡ ((reload conf pxy_cfgs held given proxies).0, [])
  unfolding reload
  reload_again held given held' given' proxies all_held all_given same =
      let now = (reload conf pxy_cfgs held given proxies).0 in
      let settled : IsSettled now = λ n.
        let e = reload-wanted conf pxy_cfgs held given n proxies all_held all_given in
        rw e (wanted-settled (pxy_cfgs n) (proxies n) same) in
      rw (drop_proxies-settled held' now settled, add_proxies-settled given' now settled) refl
