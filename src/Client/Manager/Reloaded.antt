-- ===== src/Client/Manager/Reloaded.antt =====
-- What Reload leaves.
use frp.Prelude.{
  ◌≡◌, refl, ap, ◌∙◌, String, str_eq, str_eq_iff, Bool, false, ◌||◌, if◌then◌else◌, Option, none,
  some, List, [], ◌∷◌, arith,
}
use frp.Client.Manager.{
  ProxyConf, Held, new_held, is_dropped, drop_proxy, drop_proxies, add_proxy, add_proxies, reload,
}

abbrev pub is_listed : String → List String → Bool
is_listed n [] = false
is_listed n (name ∷ names) = str_eq name n || is_listed n names

-- Every name that the map has is in the order of iteration.
abbrev pub Covers {ℓ} : {A : Type ℓ} → List String → (String → Option A) → Type ℓ
Covers names m = (n : String) → is_listed n names ≡ false → m n ≡ none

module _ {ℓ} {C : Type ℓ} (conf : ProxyConf C) where
  -- What the loops leave of one name, given its configuration.
  abbrev pub after_drop : Option C → Option (Held C) → Option (Held C)
  after_drop cfg p = if is_dropped conf cfg p then none else p

  abbrev pub after_add : Option C → Option (Held C) → Option (Held C)
  after_add none p = p
  after_add (some cfg) none = some (new_held conf cfg)
  after_add (some cfg) (some p) = some p

  after_drop_again :
      (cfg : Option C) (p : Option (Held C)) → after_drop cfg (after_drop cfg p) ≡ after_drop cfg p
  after_drop_again cfg none = refl
  after_drop_again none (some p) = refl
  after_drop_again (some cfg) (some p) = ground arith

  -- What Reload should leave of a name, given its configuration and its proxy.
  abbrev pub wanted : Option C → Option (Held C) → Option (Held C)
  wanted none p = none
  wanted (some cfg) none = some (new_held conf cfg)
  wanted (some cfg) (some p) = if conf.compare p.cfg cfg then some p else some (new_held conf cfg)

  after_add-after_drop :
      (cfg : Option C) (p : Option (Held C)) → after_add cfg (after_drop cfg p) ≡ wanted cfg p
  after_add-after_drop none none = refl
  after_add-after_drop none (some p) = refl
  after_add-after_drop (some cfg) none = refl
  after_add-after_drop (some cfg) (some p) = ground arith

  module _ (pxy_cfgs : String → Option C) where
    pub drop_proxy-at :
        (name n : String) (proxies : String → Option (Held C))
        → (drop_proxy conf pxy_cfgs name proxies).0 n
          ≡ (if str_eq name n then after_drop (pxy_cfgs n) (proxies n) else proxies n)
    unfolding drop_proxy
    drop_proxy-at name n proxies = ground (arith, str_eq_iff name n)

    drop_proxies-at :
        (names : List String) (n : String) (proxies : String → Option (Held C))
        → (drop_proxies conf pxy_cfgs names proxies).0 n
          ≡ (if is_listed n names then after_drop (pxy_cfgs n) (proxies n) else proxies n)
    unfolding drop_proxies
    drop_proxies-at [] n proxies = refl
    drop_proxies-at (name ∷ names) n proxies =
        let here = drop_proxy-at name n proxies in
        let there = drop_proxies-at names n (drop_proxy conf pxy_cfgs name proxies).0 in
        ground (arith, here, there, after_drop_again (pxy_cfgs n) (proxies n))

    add_proxy-at :
        (name n : String) (proxies : String → Option (Held C))
        → add_proxy conf pxy_cfgs name proxies n
          ≡ (if str_eq name n then after_add (pxy_cfgs n) (proxies n) else proxies n)
    unfolding add_proxy
    add_proxy-at name n proxies = ground (arith, str_eq_iff name n)

    after_add_again :
        (cfg : Option C) (p : Option (Held C)) → after_add cfg (after_add cfg p) ≡ after_add cfg p
    after_add_again none p = refl
    after_add_again (some cfg) none = refl
    after_add_again (some cfg) (some p) = refl

    add_proxies-at :
        (names : List String) (n : String) (proxies : String → Option (Held C))
        → add_proxies conf pxy_cfgs names proxies n
          ≡ (if is_listed n names then after_add (pxy_cfgs n) (proxies n) else proxies n)
    unfolding add_proxies
    add_proxies-at [] n proxies = refl
    add_proxies-at (name ∷ names) n proxies =
        let here = add_proxy-at name n proxies in
        let there = add_proxies-at names n (add_proxy conf pxy_cfgs name proxies) in
        ground (arith, here, there, after_add_again (pxy_cfgs n) (proxies n))

    pub drop_proxies-covered :
        (held : List String) (n : String) (proxies : String → Option (Held C))
        → Covers held proxies
        → (drop_proxies conf pxy_cfgs held proxies).0 n ≡ after_drop (pxy_cfgs n) (proxies n)
    drop_proxies-covered held n proxies all_held =
        let at_n = drop_proxies-at held n proxies in ground (arith, at_n, all_held n)

    pub add_proxies-covered :
        (given : List String) (n : String) (proxies : String → Option (Held C))
        → Covers given pxy_cfgs
        → add_proxies conf pxy_cfgs given proxies n ≡ after_add (pxy_cfgs n) (proxies n)
    add_proxies-covered given n proxies all_given =
        let at_n = add_proxies-at given n proxies in ground (arith, at_n, all_given n)

    -- What Reload leaves under a name.
    pub reload-wanted :
        (held given : List String) (n : String) (proxies : String → Option (Held C))
        → Covers held proxies
        → Covers given pxy_cfgs
        → (reload conf pxy_cfgs held given proxies).0 n ≡ wanted (pxy_cfgs n) (proxies n)
    unfolding reload
    reload-wanted held given n proxies all_held all_given =
        let left = (drop_proxies conf pxy_cfgs held proxies).0 in
        add_proxies-covered given n left all_given
        ∙ ap (after_add (pxy_cfgs n)) (drop_proxies-covered held n proxies all_held)
        ∙ after_add-after_drop (pxy_cfgs n) (proxies n)
