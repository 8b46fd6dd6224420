-- ===== src/Client/Manager/Told.antt =====
-- Whom Reload tells frps to close.
use frp.Prelude.{
  ◌≡◌, refl, String, str_eq, str_eq_iff, Bool, true, false, ◌&&◌, ◌||◌, Option, none, some,
  Option-cases, inl, inr, List, [], ◌∷◌, ◌++◌, arith,
}
use frp.Client.Wrapper.{Message, new_proxy, close_proxy, new_wrapper, stop}
use frp.Client.Manager.{
  ProxyConf, Held, is_dropped, drop_proxy, drop_proxies, new_held, add_proxy, reload,
}
use frp.Client.Manager.Reloaded.{
  is_listed, after_drop, Covers, drop_proxy-at, wanted, reload-wanted,
}

abbrev pub is_close : Message → Bool
is_close new_proxy = false
is_close close_proxy = true

-- A CloseProxy for the name is among the messages.
abbrev pub is_told : String → List (String × Message) → Bool
is_told n [] = false
is_told n ((name, m) ∷ sent) = (str_eq name n && is_close m) || is_told n sent

-- Every wrapper has the name that it is kept under.
abbrev pub IsNamed {ℓ} : {C : Type ℓ} → (String → Option (Held C)) → Type ℓ
IsNamed {C = C} proxies =
    (name : String) (p : Held C) → proxies name ≡ some p → p.wrapper.name ≡ name

module _ {ℓ} {C : Type ℓ} (conf : ProxyConf C) (pxy_cfgs : String → Option C) where
  drop_proxy-told :
      (name n : String) (proxies : String → Option (Held C))
      → IsNamed proxies
      → is_told n (drop_proxy conf pxy_cfgs name proxies).1
        ≡ (str_eq name n && is_dropped conf (pxy_cfgs n) (proxies n))
  unfolding drop_proxy stop
  drop_proxy-told name n proxies is_named = elim (Option-cases (proxies name)) [
    | inl missing ↦ ground (arith, str_eq_iff name n)
    | inr (p, found) ↦ let its_name = is_named name p found in ground (arith, str_eq_iff name n)
  ]

  pub drop_proxy-IsNamed :
      (name : String) (proxies : String → Option (Held C))
      → IsNamed proxies
      → IsNamed (drop_proxy conf pxy_cfgs name proxies).0
  unfolding drop_proxy
  drop_proxy-IsNamed name proxies is_named n p h = ground (arith, str_eq_iff name n, is_named n p)

  is_told-append :
      (n : String) (sent more : List (String × Message))
      → is_told n (sent ++ more) ≡ (is_told n sent || is_told n more)
  is_told-append n [] more = refl
  is_told-append n ((name, m) ∷ sent) more =
      let rest = is_told-append n sent more in ground (arith, rest)

  after_drop-kept :
      (cfg : Option C) (p : Option (Held C)) → is_dropped conf cfg (after_drop conf cfg p) ≡ false
  after_drop-kept cfg none = refl
  after_drop-kept none (some p) = refl
  after_drop-kept (some cfg) (some p) = ground arith

  drop_proxies-told :
      (names : List String) (n : String) (proxies : String → Option (Held C))
      → IsNamed proxies
      → is_told n (drop_proxies conf pxy_cfgs names proxies).1
        ≡ (is_listed n names && is_dropped conf (pxy_cfgs n) (proxies n))
  unfolding drop_proxies
  drop_proxies-told [] n proxies is_named = refl
  drop_proxies-told (name ∷ names) n proxies is_named =
      let (left, sent) = drop_proxy conf pxy_cfgs name proxies in
      let here = drop_proxy-told name n proxies is_named in
      let at_n = drop_proxy-at conf pxy_cfgs name n proxies in
      let there = drop_proxies-told names n left (drop_proxy-IsNamed name proxies is_named) in
      let both = is_told-append n sent (drop_proxies conf pxy_cfgs names left).1 in
      ground (arith, here, at_n, there, both, after_drop-kept (pxy_cfgs n) (proxies n))

  pub add_proxy-IsNamed :
      (name : String) (proxies : String → Option (Held C))
      → ((cfg : C) → pxy_cfgs name ≡ some cfg → conf.proxy_name cfg ≡ name)
      → IsNamed proxies
      → IsNamed (add_proxy conf pxy_cfgs name proxies)
  unfolding add_proxy new_held new_wrapper
  add_proxy-IsNamed name proxies given is_named n p h = elim (Option-cases (pxy_cfgs name)) [
    | inl missing ↦ ground (arith, is_named n p)
    | inr (cfg, found) ↦
        let its_name = given cfg found in ground (arith, str_eq_iff name n, is_named n p)
  ]

  reload-told :
      (held given : List String) (n : String) (proxies : String → Option (Held C))
      → Covers held proxies
      → IsNamed proxies
      → is_told n (reload conf pxy_cfgs held given proxies).1
        ≡ is_dropped conf (pxy_cfgs n) (proxies n)
  unfolding reload
  reload-told held given n proxies all_held is_named =
      let told = drop_proxies-told held n proxies is_named in ground (arith, told, all_held n)

  -- Whatever the orders of iteration, as long as every name is in them and every wrapper has the name that it
  -- is kept under, Reload leaves under a name no proxy if the name has no configuration, the proxy that was
  -- there if its configuration compares equal, and a new proxy for the configuration otherwise; and it
  -- sends a CloseProxy for the name exactly if it had a proxy whose configuration is gone or does not
  -- compare equal.
  pub reload_lem :
      (held given : List String) (n : String) (proxies : String → Option (Held C))
      → Covers held proxies
      → Covers given pxy_cfgs
      → IsNamed proxies
      → ((reload conf pxy_cfgs held given proxies).0 n ≡ wanted conf (pxy_cfgs n) (proxies n))
        × (is_told n (reload conf pxy_cfgs held given proxies).1
            ≡ is_dropped conf (pxy_cfgs n) (proxies n))
  reload_lem held given n proxies all_held all_given is_named = (
    reload-wanted conf pxy_cfgs held given n proxies all_held all_given,
    reload-told held given n proxies all_held is_named,
  )
