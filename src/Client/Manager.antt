-- ===== src/Client/Manager.antt =====
-- Manager of client/proxy/proxy_manager.go: the proxies of frpc by name, over Wrapper. The maps are functions
-- from names, and the order in which Go iterates over a map is an argument. A configuration is any type with
-- the methods of the interface ProxyConf that the manager calls. A method returns the messages that its
-- wrappers send, each with the name of its proxy. The lock makes each method one step.
pub mod Reloaded
pub mod Told
pub mod Again
pub mod Heard
pub mod Steps
pub mod Open
use frp.Prelude.{
  ℕ, String, Bool, true, false, not, if◌then◌else◌, Option, none, some, List, [], ◌∷◌, ◌++◌, map,
  update_name,
}
use frp.Client.Wrapper.{
  Message, close_proxy, Wrapper, new_wrapper, StatusError, set_running_status, stop,
  takes_work_conn,
}

-- Compare, and GetBaseInfo as far as NewWrapper reads it.
pub record ProxyConf {ℓ} (C : Type ℓ) : Type ℓ where
  pub compare : C → C → Bool
  pub proxy_name : C → String
  pub health_check_type : C → String

-- A wrapper with the configuration that it holds.
pub record Held {ℓ} (C : Type ℓ) : Type ℓ where
  pub cfg : C
  pub wrapper : Wrapper

-- What StartProxy returns.
pub data StartError : Type 0 where
  proxy_not_found : StartError
  status_error : StatusError → StartError

-- Messages to the control connection, as HandleEvent passes them on.
abbrev pub named : Wrapper × List Message → List (String × Message)
named (w, ms) = map (λ m. (w.name, m)) ms

module _ {ℓ} {C : Type ℓ} (conf : ProxyConf C) where
  -- NewWrapper, for a configuration.
  unfoldable pub new_held : C → Held C
  new_held cfg = record {
    cfg = cfg;
    wrapper = new_wrapper (conf.proxy_name cfg) (conf.health_check_type cfg);
  }

  -- `del` of the first loop of Reload.
  abbrev pub is_dropped : Option C → Option (Held C) → Bool
  is_dropped cfg none = false
  is_dropped none (some p) = true
  is_dropped (some cfg) (some p) = not (conf.compare p.cfg cfg)

  module _ (pxy_cfgs : String → Option C) where
    -- One round of the first loop of Reload.
    unfoldable pub drop_proxy :
        String → (String → Option (Held C)) → (String → Option (Held C)) × List (String × Message)
    drop_proxy name proxies = elim (proxies name) [
      | none ↦ (proxies, [])
      | some p ↦
          if is_dropped (pxy_cfgs name) (some p)
          then (update_name proxies name none, named (stop p.wrapper))
          else (proxies, [])
    ]

    unfoldable pub drop_proxies :
        List String
        → (String → Option (Held C))
        → (String → Option (Held C)) × List (String × Message)
    unfolding drop_proxy
    drop_proxies [] proxies = (proxies, [])
    drop_proxies (name ∷ names) proxies =
        let (left, sent) = drop_proxy name proxies in
        let (last, more) = drop_proxies names left in (last, sent ++ more)

    -- One round of the second loop of Reload.
    unfoldable pub add_proxy : String → (String → Option (Held C)) → String → Option (Held C)
    unfolding new_held
    add_proxy name proxies = elim (pxy_cfgs name) [
      | none ↦ proxies
      | some cfg ↦ elim (proxies name) [
        | none ↦ update_name proxies name (some (new_held cfg))
        | some p ↦ proxies
      ]
    ]

    unfoldable pub add_proxies : List String → (String → Option (Held C)) → String → Option (Held C)
    unfolding add_proxy
    add_proxies [] proxies = proxies
    add_proxies (name ∷ names) proxies = add_proxies names (add_proxy name proxies)

    -- Reload; `held` is the order of the proxies, `given` that of the configurations.
    unfoldable pub reload :
        List String
        → List String
        → (String → Option (Held C))
        → (String → Option (Held C)) × List (String × Message)
    unfolding drop_proxies add_proxies
    reload held given proxies =
        let (left, sent) = drop_proxies held proxies in (add_proxies given left, sent)

module _ {ℓ} {C : Type ℓ} where
  -- StartProxy
  unfoldable pub start_proxy :
      ℕ
      → String
      → String
      → String
      → Option String
      → (String → Option (Held C))
      → (String → Option (Held C)) × List (String × Message) × Option StartError
  start_proxy now name remote_addr resp_err run proxies = elim (proxies name) [
    | none ↦ (proxies, [], some proxy_not_found)
    | some p ↦
        let (w, sent, e) = set_running_status now remote_addr resp_err run p.wrapper in
        (
          update_name proxies name (some (record p { wrapper = w })),
          named (w, sent),
          elim e [ none ↦ none | some e ↦ some (status_error e) ],
        )
  ]

  -- HandleWorkConn: whether a proxy takes the connection; it is closed otherwise.
  unfoldable pub handle_work_conn : String → (String → Option (Held C)) → Bool
  handle_work_conn name proxies = elim (proxies name) [
    | none ↦ false
    | some p ↦ takes_work_conn p.wrapper
  ]

  abbrev pub stop_all : List String → (String → Option (Held C)) → List (String × Message)
  stop_all [] proxies = []
  stop_all (name ∷ names) proxies =
      let rest = stop_all names proxies in
      elim (proxies name) [ none ↦ rest | some p ↦ named (stop p.wrapper) ++ rest ]

  -- Close
  unfoldable pub close :
      List String
      → (String → Option (Held C))
      → (String → Option (Held C)) × List (String × Message)
  close held proxies = ((λ name. none), stop_all held proxies)
