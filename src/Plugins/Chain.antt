-- ===== src/Plugins/Chain.antt =====
-- What one more plugin makes of the answers of a manager.
use frp.Prelude.{
  ◌≡◌, refl, sym, append-nil, ◌∙◌, ap, Bool, true, false, if◌then◌else◌, List, [], ◌∷◌, ◌++◌,
  Outcome, ok, err, ◌>>=◌, arith,
}
use mathlib.Core.Path.{fun_ext}
use frp.Plugins.{
  Op, login, new_proxy, close_proxy, ping, new_work_conn, new_user_conn, Plugin, Manager,
  PluginError, register, add_if, content_of, ask, on_login, on_new_proxy, on_ping, on_new_work_conn,
  on_new_user_conn, cons_failed, tell_all, on_close_proxy,
}

module _ {A : Type 0} where
  -- The answer of a plugin, if it is asked at all.
  abbrev pub then_asks : Op → Op → Plugin A → Bool → Outcome PluginError A → Outcome PluginError A
  then_asks sent op p supported before =
      if supported
      then (before >>= λ content. content_of sent content (p.handle op content))
      else before

  bind-ok : (o : Outcome PluginError A) → (o >>= λ c. ok c) ≡ o
  bind-ok (ok c) = refl
  bind-ok (err e) = refl

  bind_assoc :
      (o : Outcome PluginError A) (f g : A → Outcome PluginError A)
      → (o >>= λ c. f c >>= g) ≡ (o >>= f >>= g)
  bind_assoc (ok c) f g = refl
  bind_assoc (err e) f g = refl

  ask-append :
      (sent op : Op) (ps : List (Plugin A)) (p : Plugin A) (content : A)
      → ask sent op (ps ++ p ∷ []) content
        ≡ (ask sent op ps content >>= λ c. content_of sent c (p.handle op c))
  unfolding ask
  ask-append sent op [] p content = bind-ok (content_of sent content (p.handle op content))
  ask-append sent op (q ∷ ps) p content =
      let first = content_of sent content (q.handle op content) in
      ap (λ (f : A → Outcome PluginError A). first >>= f) (fun_ext (λ c. ask-append sent op ps p c))
      ∙ bind_assoc first (ask sent op ps) (λ c. content_of sent c (p.handle op c))

  ask-add_if :
      (sent op : Op) (supported : Bool) (ps : List (Plugin A)) (p : Plugin A) (content : A)
      → ask sent op (add_if supported p ps) content
        ≡ then_asks sent op p supported (ask sent op ps content)
  ask-add_if sent op true ps p content = ask-append sent op ps p content
  ask-add_if sent op false ps p content = refl

  tell_all-append :
      (ps : List (Plugin A)) (p : Plugin A) (content : A)
      → tell_all (ps ++ p ∷ []) content ≡ tell_all ps content ++ tell_all (p ∷ []) content
  unfolding tell_all
  tell_all-append [] p content = refl
  tell_all-append (q ∷ ps) p content =
      let rest = tell_all-append ps p content in ground (arith, rest)

  tell_all-add_if :
      (supported : Bool) (ps : List (Plugin A)) (p : Plugin A) (content : A)
      → tell_all (add_if supported p ps) content
        ≡ tell_all ps content
          ++ (if supported then cons_failed (p.handle close_proxy content) p [] else [])
  unfolding tell_all
  tell_all-add_if true ps p content = tell_all-append ps p content
  tell_all-add_if false ps p content = sym (append-nil (tell_all ps content))

  -- A plugin that is registered after others is asked by each operation that it supports, and by no other: it
  -- sees the content that those before it made, if none of them refused or failed, and its answer is that
  -- of the operation. CloseProxy tells it whatever the others answered, and names it if it fails. But
  -- NewWorkConn, which asks the plugins that support NewWorkConn, asks them about a Ping.
  pub register-asked :
      (p : Plugin A) (m : Manager A) (content : A)
      → (on_login (register p m) content
          ≡ then_asks login login p (p.is_support login) (on_login m content))
        × (on_new_proxy (register p m) content
            ≡ then_asks new_proxy new_proxy p (p.is_support new_proxy) (on_new_proxy m content))
        × (on_ping (register p m) content
            ≡ then_asks ping ping p (p.is_support ping) (on_ping m content))
        × (on_new_work_conn (register p m) content
            ≡ then_asks new_work_conn ping p
                (p.is_support new_work_conn)
                (on_new_work_conn m content))
        × (on_new_user_conn (register p m) content
            ≡ then_asks new_user_conn new_user_conn p
                (p.is_support new_user_conn)
                (on_new_user_conn m content))
        × (on_close_proxy (register p m) content
            ≡ on_close_proxy m content
              ++ (if p.is_support close_proxy
                  then cons_failed (p.handle close_proxy content) p []
                  else []))
  unfolding register on_login on_new_proxy on_ping on_new_work_conn on_new_user_conn on_close_proxy
  register-asked p m content = (
    ask-add_if login login (p.is_support login) m.login_plugins p content,
    ask-add_if new_proxy new_proxy (p.is_support new_proxy) m.new_proxy_plugins p content,
    ask-add_if ping ping (p.is_support ping) m.ping_plugins p content,
    ask-add_if new_work_conn ping (p.is_support new_work_conn) m.new_work_conn_plugins p content,
    ask-add_if new_user_conn new_user_conn (p.is_support new_user_conn) m.new_user_conn_plugins p
        content,
    tell_all-add_if (p.is_support close_proxy) m.close_proxy_plugins p content,
  )
