-- ===== src/Client/Manager/Steps.antt =====
-- The states of frpc's proxies, with what frps last heard of each name.
use frp.Prelude.{
  is_some, ℕ, ◌≡◌, refl, String, str_eq_iff, false, if◌then◌else◌, Option, some, ◌&&◌, Option-cases,
  inl, inr, List, [], ◌∷◌, update_name, arith,
}
use frp.Client.Wrapper.{Message, close_proxy, new_wrapper, set_running_status, stop}
use frp.Client.Manager.{
  ProxyConf, Held, new_held, drop_proxy, drop_proxies, add_proxy, add_proxies, reload, start_proxy,
  stop_all, close,
}
use frp.Client.Manager.Reloaded.{is_listed, Covers}
use frp.Client.Manager.Told.{IsNamed, drop_proxy-IsNamed, add_proxy-IsNamed}
use frp.Client.Manager.Heard.{
  heard, is_open, heard-append, IsHeard, set_running_status-suits, step-IsHeard,
  set_running_status-name,
}

module _ {ℓ} {C : Type ℓ} (conf : ProxyConf C) where
  module _ (pxy_cfgs : String → Option C) where
    drop_proxy-IsHeard :
        (name : String) (proxies : String → Option (Held C)) (view : String → Option Message)
        → IsHeard proxies view
        → IsHeard
            (drop_proxy conf pxy_cfgs name proxies).0
            (heard (drop_proxy conf pxy_cfgs name proxies).1 view)
    unfolding drop_proxy stop
    drop_proxy-IsHeard name proxies view h = elim (Option-cases (proxies name)) [
      | inl missing ↦ rw (missing, drop_proxy) h
      | inr (p, found) ↦
          let its_name = h.is_named name p found in
          record {
            is_named = drop_proxy-IsNamed conf pxy_cfgs name proxies h.is_named;
            suited = λ n. ground (arith, str_eq_iff name n, h.suited n);
          }
    ]

    drop_proxies-IsHeard :
        (names : List String) (proxies : String → Option (Held C)) (view : String → Option Message)
        → IsHeard proxies view
        → IsHeard
            (drop_proxies conf pxy_cfgs names proxies).0
            (heard (drop_proxies conf pxy_cfgs names proxies).1 view)
    unfolding drop_proxies
    drop_proxies-IsHeard [] proxies view h = h
    drop_proxies-IsHeard (name ∷ names) proxies view h =
        let (left, sent) = drop_proxy conf pxy_cfgs name proxies in
        let rest =
          drop_proxies-IsHeard names left (heard sent view)
            (drop_proxy-IsHeard name proxies view h) in
        rw (heard-append name sent (drop_proxies conf pxy_cfgs names left).1 view) rest

    module _
        (given : (name : String) (cfg : C)
          → pxy_cfgs name ≡ some cfg
          → conf.proxy_name cfg ≡ name) where
      add_proxy-IsHeard :
          (name : String) (proxies : String → Option (Held C)) (view : String → Option Message)
          → IsHeard proxies view
          → IsHeard (add_proxy conf pxy_cfgs name proxies) view
      unfolding add_proxy new_held new_wrapper
      add_proxy-IsHeard name proxies view h = record {
        is_named = add_proxy-IsNamed conf pxy_cfgs name proxies (given name) h.is_named;
        suited = λ n. ground (arith, str_eq_iff name n, h.suited n);
      }

      add_proxies-IsHeard :
          (names : List String) (proxies : String → Option (Held C))
          (view : String → Option Message)
          → IsHeard proxies view
          → IsHeard (add_proxies conf pxy_cfgs names proxies) view
      unfolding add_proxies
      add_proxies-IsHeard [] proxies view h = h
      add_proxies-IsHeard (name ∷ names) proxies view h =
          add_proxies-IsHeard names (add_proxy conf pxy_cfgs name proxies) view
            (add_proxy-IsHeard name proxies view h)

      pub reload-IsHeard :
          (held given' : List String) (proxies : String → Option (Held C))
          (view : String → Option Message)
          → IsHeard proxies view
          → IsHeard
              (reload conf pxy_cfgs held given' proxies).0
              (heard (reload conf pxy_cfgs held given' proxies).1 view)
      unfolding reload
      reload-IsHeard held given' proxies view h =
          let (left, sent) = drop_proxies conf pxy_cfgs held proxies in
          add_proxies-IsHeard given' left (heard sent view)
            (drop_proxies-IsHeard held proxies view h)

module _ {ℓ} {C : Type ℓ} where
  stop_all-heard :
      (names : List String) (n : String) (proxies : String → Option (Held C))
      (view : String → Option Message)
      → IsNamed proxies
      → is_open (heard (stop_all names proxies) view n)
        ≡ (if is_listed n names && is_some (proxies n) then false else is_open (view n))
  unfolding stop
  stop_all-heard [] n proxies view is_named = refl
  stop_all-heard (name ∷ names) n proxies view is_named = elim (Option-cases (proxies name)) [
    | inl missing ↦
        let rest = stop_all-heard names n proxies view is_named in
        ground (arith, rest, str_eq_iff name n)
    | inr (p, found) ↦
        let its_name = is_named name p found in
        let rest =
          stop_all-heard names n proxies (update_name view name (some close_proxy)) is_named in
        ground (arith, rest, str_eq_iff name n)
  ]

  pub close-IsHeard :
      (held : List String) (proxies : String → Option (Held C)) (view : String → Option Message)
      → Covers held proxies
      → IsHeard proxies view
      → IsHeard (close held proxies).0 (heard (close held proxies).1 view)
  unfolding close
  close-IsHeard held proxies view all_held h = record {
    is_named = λ n p at. cc;
    suited = λ n.
        let told = stop_all-heard held n proxies view h.is_named in
        ground (arith, told, all_held n, h.suited n);
  }

  pub start_proxy-IsHeard :
      (now : ℕ) (name remote_addr resp_err : String) (run : Option String)
      (proxies : String → Option (Held C)) (view : String → Option Message)
      → IsHeard proxies view
      → IsHeard
          (start_proxy now name remote_addr resp_err run proxies).0
          (heard (start_proxy now name remote_addr resp_err run proxies).1 view)
  unfolding start_proxy
  start_proxy-IsHeard now name remote_addr resp_err run proxies view h =
      elim (Option-cases (proxies name)) [
        | inl missing ↦ rw (missing, start_proxy) h
        | inr (p, found) ↦
            let suited = h.suited name in
            rw (found, start_proxy)
              (step-IsHeard name p (set_running_status now remote_addr resp_err run p.wrapper).0
                (set_running_status now remote_addr resp_err run p.wrapper).1 proxies view found
                (set_running_status-name now remote_addr resp_err run p.wrapper)
                (set_running_status-suits now remote_addr resp_err run p.wrapper (view name)
                  (ground (arith, suited)))
                h)
      ]
