-- ===== src/Client/Manager/Open.antt =====
-- That frps has been asked to open exactly what frpc holds.
use frp.Prelude.{ℕ, ◌≡◌, refl, String, Option, none, some, [], List, update_name, arith}
use frp.Health.{Callback, status_normal, status_failed}
use frp.Client.Wrapper.{Message, check_round, on_status}
use frp.Client.Manager.{ProxyConf, Held, named, reload, start_proxy, close}
use frp.Client.Manager.Reloaded.{Covers}
use frp.Client.Manager.Heard.{heard, IsHeard, step-IsHeard, check_round-suits, check_round-name}
use frp.Client.Manager.Steps.{reload-IsHeard, close-IsHeard, start_proxy-IsHeard}

-- The proxies of a manager and the last message of each name, after any calls of its methods and any
-- rounds and callbacks of its wrappers.
pub data Reach {ℓ} {C : Type ℓ} (conf : ProxyConf C)
    : (String → Option (Held C)) → (String → Option Message) → Type ℓ where
  start : Reach conf (λ name. none) (λ name. none)
  reloading :
      (pxy_cfgs : String → Option C) (held given : List String) (proxies : String → Option (Held C))
      (view : String → Option Message)
      → ((name : String) (cfg : C) → pxy_cfgs name ≡ some cfg → conf.proxy_name cfg ≡ name)
      → Reach conf proxies view
      → Reach conf
          (reload conf pxy_cfgs held given proxies).0
          (heard (reload conf pxy_cfgs held given proxies).1 view)
  answering :
      (now : ℕ) (name remote_addr resp_err : String) (run : Option String)
      (proxies : String → Option (Held C)) (view : String → Option Message)
      → Reach conf proxies view
      → Reach conf
          (start_proxy now name remote_addr resp_err run proxies).0
          (heard (start_proxy now name remote_addr resp_err run proxies).1 view)
  checking :
      (now : ℕ) (name : String) (p : Held C) (proxies : String → Option (Held C))
      (view : String → Option Message)
      → proxies name ≡ some p
      → Reach conf proxies view
      → Reach conf
          (update_name proxies name (some (record p { wrapper = (check_round now p.wrapper).0 })))
          (heard (named (check_round now p.wrapper)) view)
  notifying :
      (callback : Callback) (name : String) (p : Held C) (proxies : String → Option (Held C))
      (view : String → Option Message)
      → proxies name ≡ some p
      → Reach conf proxies view
      → Reach conf
          (update_name proxies name (some (record p { wrapper = on_status callback p.wrapper })))
          view
  closing :
      (held : List String) (proxies : String → Option (Held C)) (view : String → Option Message)
      → Covers held proxies
      → Reach conf proxies view
      → Reach conf (close held proxies).0 (heard (close held proxies).1 view)

-- However reloads, answers of frps, rounds of checks, changes of health and closes follow one another, as
-- long as each configuration is given under its name and Close reaches every proxy: each proxy is held
-- under its name, and the last message for a name was a NewProxy if its proxy waits for its start or
-- runs, and none or a CloseProxy if frpc holds no proxy of that name or one that is new, failed its checks
-- or is closed.
pub Reach-IsHeard {ℓ} :
    {C : Type ℓ} (conf : ProxyConf C) {proxies : String → Option (Held C)}
    {view : String → Option Message}
    → Reach conf proxies view
    → IsHeard proxies view
unfolding on_status
Reach-IsHeard conf start = record { is_named = λ n p at. cc; suited = λ n. refl }
Reach-IsHeard conf (reloading pxy_cfgs held given proxies view names r) =
    reload-IsHeard conf pxy_cfgs names held given proxies view (Reach-IsHeard conf r)
Reach-IsHeard conf (answering now name remote_addr resp_err run proxies view r) =
    start_proxy-IsHeard now name remote_addr resp_err run proxies view (Reach-IsHeard conf r)
Reach-IsHeard conf (checking now name p proxies view found r) =
    let h = Reach-IsHeard conf r in
    let suited = h.suited name in
    step-IsHeard name p (check_round now p.wrapper).0 (check_round now p.wrapper).1 proxies view
      found (check_round-name now p.wrapper)
      (check_round-suits now p.wrapper (view name) (ground (arith, suited))) h
Reach-IsHeard conf (notifying status_normal name p proxies view found r) =
    let h = Reach-IsHeard conf r in
    let suited = h.suited name in
    step-IsHeard name p (on_status status_normal p.wrapper) [] proxies view found refl
      (ground (arith, suited)) h
Reach-IsHeard conf (notifying status_failed name p proxies view found r) =
    let h = Reach-IsHeard conf r in
    let suited = h.suited name in
    step-IsHeard name p (on_status status_failed p.wrapper) [] proxies view found refl
      (ground (arith, suited)) h
Reach-IsHeard conf (closing held proxies view all_held r) =
    close-IsHeard held proxies view all_held (Reach-IsHeard conf r)
