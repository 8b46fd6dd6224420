-- ===== src/Plugins.antt =====
-- The manager of server plugins, pkg/plugin/server/manager.go: frps asks the plugins of an operation one after
-- another. What a plugin answers is an argument, since it is a server of its own; so `A` is the type of the
-- contents of all operations, which a plugin may change to any other of the same type. Request identifiers
-- and logging are left out.
pub mod Chain
use frp.Prelude.{
  String, str_eq, Bool, true, false, if◌then◌else◌, Option, none, some, List, [], ◌∷◌, ◌++◌,
  Outcome, ok, err, ◌>>=◌,
}

-- The names of the operations, of plugin.go.
pub data Op : Type 0 where
  login new_proxy close_proxy ping new_work_conn new_user_conn : Op

-- Response, with the content that comes beside it.
pub record Response (A : Type 0) : Type 0 where
  pub reject : Bool
  pub reject_reason : String
  pub unchange : Bool
  pub ret_content : A

-- Plugin; `handle` is none on an error of the request.
pub record Plugin (A : Type 0) : Type 0 where
  pub name : String
  pub is_support : Op → Bool
  pub handle : Op → A → Option (Response A)

pub record Manager (A : Type 0) : Type 0 where
  pub login_plugins : List (Plugin A)
  pub new_proxy_plugins : List (Plugin A)
  pub close_proxy_plugins : List (Plugin A)
  pub ping_plugins : List (Plugin A)
  pub new_work_conn_plugins : List (Plugin A)
  pub new_user_conn_plugins : List (Plugin A)

pub data PluginError : Type 0 where
  send_error : Op → PluginError
  rejected : String → PluginError

module _ {A : Type 0} where
  -- NewManager
  abbrev pub new_manager : Manager A
  new_manager = record {
    login_plugins = [];
    new_proxy_plugins = [];
    close_proxy_plugins = [];
    ping_plugins = [];
    new_work_conn_plugins = [];
    new_user_conn_plugins = [];
  }

  abbrev pub add_if : Bool → Plugin A → List (Plugin A) → List (Plugin A)
  add_if supported p ps = if supported then ps ++ p ∷ [] else ps

  -- Register
  unfoldable pub register : Plugin A → Manager A → Manager A
  register p m = record {
    login_plugins = add_if (p.is_support login) p m.login_plugins;
    new_proxy_plugins = add_if (p.is_support new_proxy) p m.new_proxy_plugins;
    close_proxy_plugins = add_if (p.is_support close_proxy) p m.close_proxy_plugins;
    ping_plugins = add_if (p.is_support ping) p m.ping_plugins;
    new_work_conn_plugins = add_if (p.is_support new_work_conn) p m.new_work_conn_plugins;
    new_user_conn_plugins = add_if (p.is_support new_user_conn) p m.new_user_conn_plugins;
  }

  -- The answer of one plugin to `op`, where an error is one of sending `sent`.
  abbrev pub content_of : Op → A → Option (Response A) → Outcome PluginError A
  content_of sent content none = err (send_error sent)
  content_of sent content (some res) =
      if res.reject
      then err (rejected res.reject_reason)
      else if res.unchange
      then ok content
      else ok res.ret_content

  -- The loop of the five operations that answer: `op` is what the plugins are told.
  unfoldable pub ask : Op → Op → List (Plugin A) → A → Outcome PluginError A
  ask sent op [] content = ok content
  ask sent op (p ∷ ps) content =
      content_of sent content (p.handle op content) >>= λ content'. ask sent op ps content'

  -- Login
  unfoldable pub on_login : Manager A → A → Outcome PluginError A
  unfolding ask
  on_login m content = ask login login m.login_plugins content

  -- NewProxy
  unfoldable pub on_new_proxy : Manager A → A → Outcome PluginError A
  unfolding ask
  on_new_proxy m content = ask new_proxy new_proxy m.new_proxy_plugins content

  -- Ping
  unfoldable pub on_ping : Manager A → A → Outcome PluginError A
  unfolding ask
  on_ping m content = ask ping ping m.ping_plugins content

  -- NewWorkConn, which tells the plugins that the operation is Ping.
  unfoldable pub on_new_work_conn : Manager A → A → Outcome PluginError A
  unfolding ask
  on_new_work_conn m content = ask new_work_conn ping m.new_work_conn_plugins content

  -- NewUserConn
  unfoldable pub on_new_user_conn : Manager A → A → Outcome PluginError A
  unfolding ask
  on_new_user_conn m content = ask new_user_conn new_user_conn m.new_user_conn_plugins content

  abbrev pub cons_failed : Option (Response A) → Plugin A → List String → List String
  cons_failed none p errs = p.name ∷ errs
  cons_failed (some res) p errs = errs

  -- CloseProxy: every plugin is told, whatever the others answer; the names of those that fail.
  unfoldable pub tell_all : List (Plugin A) → A → List String
  tell_all [] content = []
  tell_all (p ∷ ps) content = cons_failed (p.handle close_proxy content) p (tell_all ps content)

  unfoldable pub on_close_proxy : Manager A → A → List String
  unfolding tell_all
  on_close_proxy m content = tell_all m.close_proxy_plugins content
